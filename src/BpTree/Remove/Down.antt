-- ===== src/BpTree/Remove/Down.antt =====
-- bptree.cpp: `remove_pos` from a node down to a leaf.
use computer_science_notes.Base.{
  ℕ, zero, suc, ◌-◌, true, ◌==◌, ◌&&◌, ltb, if◌then◌else◌, update, Option, none, some, Run, done,
  out_of_fuel, ◌>>=◌,
}
use computer_science_notes.BpTree.Node.{Node, File, read_node, write_node, shift_down}
use computer_science_notes.BpTree.Search.{seek, query}
use computer_science_notes.BpTree.Remove.Leaves.{refill_leaf, refill_leaf_found, cut_last}
use computer_science_notes.BpTree.Remove.Inner.{refill_inner}

-- Case G.
unfoldable pub remove_entry : Node → ℕ → Node
remove_entry n i = record n {
  key = shift_down n.key i (n.key_total - 1 - i);
  pointer = shift_down n.pointer i (n.key_total - 1 - i);
  key_total = n.key_total - 1;
}

-- A node with no separator: the file, the node and the index to go on with are as they were where
-- the child needs no refill (cases H and M).
unfoldable pub prepare_missing : File → ℕ → Node → ℕ → File × Node × ℕ
prepare_missing f curr n i =
    let child = read_node f (n.pointer i) in
    if ltb 2 child.key_total
    then (f, n, i)
    else if child.is_leaf
    then refill_leaf f curr n child i
    else refill_inner f curr n child i

-- Case F: the separator becomes the key before it, found through the root; then the child is
-- refilled as elsewhere.
unfoldable pub replace_separator : ℕ → File → ℕ → ℕ → Node → ℕ → Run (File × Node × ℕ)
replace_separator fuel f k curr n i = do
  let child = read_node f (n.pointer i)
  place ← query fuel f k true
  let last = read_node f place
  let n' : Node = record n { key = update n.key i (last.key (last.key_total - 2)) }
  let f' = write_node f curr n'
  if ltb 2 child.key_total then done (f', n', i) else done (refill_inner f' curr n' child i)

-- The separator is the key: the file is done (case A), or there is more to do below.
unfoldable pub prepare_found : ℕ → File → ℕ → ℕ → Node → ℕ → Run (File × Option (Node × ℕ))
prepare_found fuel f k curr n i =
    let child = read_node f (n.pointer i) in
    if child.is_leaf
    then if ltb 2 child.key_total
      then done (cut_last f curr n child i, none)
      else (let (f', n', i') = refill_leaf_found f curr n child i in done (f', some (n', i')))
    else (replace_separator fuel f k curr n i >>= λ (f', n', i'). done (f', some (n', i')))

-- A call that has read the node `n` at `curr`; `go` is the call that follows it, on a child or, for
-- a node with no keys, on the same node. `fuel` is for the search of case F.
unfoldable pub remove_node : (File → ℕ → Run File) → ℕ → File → Node → ℕ → ℕ → Run File
remove_node go fuel f n k curr =
    let i = seek n.key k n.key_total 0 in
    if n.key_total == 0
    then go (write_node f curr (read_node f (n.pointer 0))) curr
    else if ltb i n.key_total && n.key i == k
    then if n.is_leaf
      then done (write_node f curr (remove_entry n i))
      else (prepare_found fuel f k curr n i >>= λ (f', next). elim next [
        | none ↦ done f'
        | some (n', i') ↦ go f' (n'.pointer i')
      ])
    else if n.is_leaf
    then done f
    else (let (f', n', i') = prepare_missing f curr n i in go f' (n'.pointer i'))

unfoldable pub remove_pos : ℕ → File → ℕ → ℕ → Run File
unfolding remove_node
remove_pos zero f k curr = out_of_fuel
remove_pos (suc fuel) f k curr =
    remove_node (λ f' next. remove_pos fuel f' k next) fuel f (read_node f curr) k curr

unfoldable pub remove : ℕ → File → ℕ → Run File
remove fuel f k = remove_pos fuel f k 0
