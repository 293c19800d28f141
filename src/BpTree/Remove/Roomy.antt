-- ===== src/BpTree/Remove/Roomy.antt =====
-- bptree.cpp: the ways down on which `remove_pos` joins no nodes and lends nothing to inner nodes.
use computer_science_notes.Base.{
  ℕ, zero, suc, ◌<◌, ◌≡◌, Bool, true, false, ◌==◌, ◌&&◌, ◌||◌, ltb, if◌then◌else◌, arith,
}
use computer_science_notes.BpTree.Node.{Node, File, read_node}
use computer_science_notes.BpTree.Search.{seek}
use computer_science_notes.BpTree.Remove.Refill.{brother_index}

-- A node on the way has a key. If the key that is sought is a separator of it, the child is a leaf
-- with more than MAX_KEY / 2 keys. Otherwise the child has as many, or it is a leaf and its left brother
-- (for the first leaf the right one) has as many.
unfoldable pub is_roomy_node : (ℕ → Bool) → File → Node → ℕ → Bool
is_roomy_node go f n k =
    let i = seek n.key k n.key_total 0 in
    let child = read_node f (n.pointer i) in
    let brother = read_node f (n.pointer (brother_index i)) in
    ltb 0 n.key_total
    && (n.is_leaf
        || (if ltb i n.key_total && n.key i == k
            then child.is_leaf && ltb 2 child.key_total
            else go (n.pointer i)
              && (ltb 2 child.key_total || (child.is_leaf && ltb 2 brother.key_total))))

-- So it is at every node that the way from `curr` to the key passes.
unfoldable pub is_roomy : ℕ → File → ℕ → ℕ → Bool
unfolding is_roomy_node
is_roomy zero f k curr = false
is_roomy (suc fuel) f k curr = is_roomy_node (is_roomy fuel f k) f (read_node f curr) k

-- Fuel for a way is fuel for a leaf.
pub is_roomy-leaf :
    (fuel : ℕ) (f f' : File) (k c c' : ℕ)
    → is_roomy fuel f k c ≡ true
    → 0 < (read_node f' c').key_total
    → (read_node f' c').is_leaf ≡ true
    → is_roomy fuel f' k c' ≡ true
unfolding is_roomy is_roomy_node
is_roomy-leaf zero f f' k c c' fueled some_key leaf = absurd (cc)
is_roomy-leaf (suc fuel) f f' k c c' fueled some_key leaf = ground arith
