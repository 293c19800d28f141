-- ===== src/BpTree/Search.antt =====
-- bptree.cpp: `query` and `query_pos`.
use computer_science_notes.Base.{
  ℕ, zero, suc, ◌+◌, Bool, ◌==◌, ◌&&◌, not, ltb, if◌then◌else◌, Run, done, out_of_fuel,
}
use computer_science_notes.BpTree.Node.{Node, File, read_node, no_pointer}

-- `for (; i < key_total && key[i] < k; ++i);` with `n` entries to go.
unfoldable pub seek : (ℕ → ℕ) → ℕ → ℕ → ℕ → ℕ
seek key k zero i = i
seek key k (suc n) i = let rest = seek key k n (i + 1) in if ltb (key i) k then rest else i

-- What a leaf answers, `curr` being its offset.
unfoldable pub leaf_answer : Node → ℕ → Bool → ℕ → ℕ
leaf_answer n k get_bpos curr =
    let i = seek n.key k n.key_total 0 in
    if ltb i n.key_total && n.key i == k then if get_bpos then curr else n.pointer i else no_pointer

-- A call that has read the node `n` at `curr`; `go` is the call on a child.
unfoldable pub query_node : (ℕ → Run ℕ) → Node → ℕ → Bool → ℕ → Run ℕ
query_node go n k get_bpos curr =
    if n.key_total == 0 && not n.is_leaf
    then go (n.pointer 0)
    else if not n.is_leaf
    then go (n.pointer (seek n.key k n.key_total 0))
    else done (leaf_answer n k get_bpos curr)

unfoldable pub query_pos : ℕ → File → ℕ → ℕ → Bool → Run ℕ
unfolding query_node
query_pos zero f k curr get_bpos = out_of_fuel
query_pos (suc fuel) f k curr get_bpos =
    query_node (λ next. query_pos fuel f k next get_bpos) (read_node f curr) k get_bpos curr

-- `root` is always 0.
unfoldable pub query : ℕ → File → ℕ → Bool → Run ℕ
query fuel f k get_bpos = query_pos fuel f k 0 get_bpos
