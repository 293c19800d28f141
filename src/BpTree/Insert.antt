-- ===== src/BpTree/Insert.antt =====
-- bptree.cpp: `build`, `insert`, `insert_pos` and `split`.
use computer_science_notes.Base.{
  ℕ, zero, suc, ◌+◌, ◌-◌, Bool, true, not, ◌==◌, ◌&&◌, ◌||◌, ltb, leb, if◌then◌else◌, update, Run,
  done, out_of_fuel,
}
use computer_science_notes.BpTree.Node.{
  max_key, Node, new_node, File, get_final_node, read_node, write_node, shift_up, copy_range,
}
use computer_science_notes.BpTree.Search.{seek}

unfoldable pub build : File → File
build f =
    if get_final_node f == 0
    then write_node f 0
        (record new_node { pointer = update new_node.pointer max_key 0; is_leaf = true })
    else f

-- The parent after `split`: the child `child_num` gets a right brother at the offset `right`.
unfoldable pub split_parent : Node → Node → ℕ → ℕ → Node
split_parent parent child child_num right = record parent {
  key =
      update (shift_up parent.key child_num (parent.key_total - child_num)) child_num (child.key 2);
  pointer =
      update
        (shift_up (update parent.pointer (parent.key_total + 1) (parent.pointer parent.key_total))
          child_num (parent.key_total - child_num))
        (child_num + 1) right;
  key_total = parent.key_total + 1;
}

-- The new node; `MAX_KEY >> 1` is 2.
unfoldable pub split_right : Node → Node
split_right child =
    let pointer =
      update (copy_range new_node.pointer 0 child.pointer 3 2) 2 (child.pointer max_key) in
    record {
      key = copy_range new_node.key 0 child.key 3 2;
      pointer = if child.is_leaf then update pointer max_key (child.pointer max_key) else pointer;
      key_total = 2;
      is_leaf = child.is_leaf;
    }

unfoldable pub split_child : Node → ℕ → Node
split_child child right =
    if child.is_leaf
    then record child { pointer = update child.pointer max_key right; key_total = 3 }
    else record child { key_total = 2 }

-- The file with the new node at its end.
unfoldable pub split_file : File → Node → File
split_file f child = write_node f (get_final_node f) (split_right child)

unfoldable pub insert_leaf : Node → ℕ → ℕ → ℕ → Node
insert_leaf n i k p = record n {
  key = update (shift_up n.key i (n.key_total - i)) i k;
  pointer = update (shift_up n.pointer i (n.key_total - i)) i p;
  key_total = n.key_total + 1;
}

-- The part of `insert_pos` that splits the child on the way down: the file and the node after it.
unfoldable pub make_room : File → ℕ → Node → ℕ → File × Node
make_room f curr n i =
    let c = n.pointer i in
    let child = read_node f c in
    let right = get_final_node f in
    let n' = split_parent n child i right in
    if child.key_total == max_key
    then (
      write_node (write_node (split_file f child) curr n') (n'.pointer i) (split_child child right),
      n',
    )
    else (f, n)

-- `curr_node.key[i] >= kp.key || i == curr_node.key_total`
unfoldable pub goes_left : Node → ℕ → ℕ → Bool
goes_left n i k = leb k (n.key i) || i == n.key_total

-- A call that has read the node `n` at `curr`; `go` is the call on a child.
unfoldable pub insert_node : (File → ℕ → Run File) → File → Node → ℕ → ℕ → ℕ → Run File
insert_node go f n k p curr =
    let i = seek n.key k n.key_total 0 in
    if ltb i n.key_total && n.key i == k
    then done f
    else if not n.is_leaf
    then (let (f', n') = make_room f curr n i in
        go f' (if goes_left n' i k then n'.pointer i else n'.pointer (i + 1)))
    else done (write_node f curr (insert_leaf n i k p))

unfoldable pub insert_pos : ℕ → File → ℕ → ℕ → ℕ → Run File
unfolding insert_node
insert_pos zero f k p curr = out_of_fuel
insert_pos (suc fuel) f k p curr =
    insert_node (λ f' next. insert_pos fuel f' k p next) f (read_node f curr) k p curr

-- The part of `insert` that splits the root: the old root moves to the end of the file.
unfoldable pub grow : File → File
grow f =
    let root = read_node f 0 in
    let last = get_final_node f in
    let fresh : Node = record new_node {
      key = update new_node.key 0 (root.key (root.key_total - 1));
      pointer = update new_node.pointer 0 0;
    } in
    let f1 = write_node f last fresh in
    let right = get_final_node f1 in
    let top = split_parent fresh root 0 right in
    let tmp : Node = record top { pointer = update top.pointer 0 last } in
    write_node (write_node (split_file f1 root) last (split_child root right)) 0 tmp

unfoldable pub insert : ℕ → File → ℕ → ℕ → Run File
insert fuel f k p =
    let root = read_node f 0 in
    if root.key_total == max_key then insert_pos fuel (grow f) k p 0 else insert_pos fuel f k p 0
