-- ===== src/BpTree/Remove/Leaves.antt =====
-- bptree.cpp: what `remove_pos` does when the child that it goes to is a leaf with at most
-- MAX_KEY / 2 keys. Each case writes the nodes that it changes and gives the parent back with the
-- index to go on with.
use computer_science_notes.Base.{ℕ, zero, suc, ◌+◌, ◌-◌, ltb, if◌then◌else◌, update}
use computer_science_notes.BpTree.Node.{
  max_key, Node, File, read_node, write_node, shift_up, shift_down, copy_range,
}

-- `for (j = from; j < key_total - 1; j++) { key[j] = key[j+1]; pointer[j+1] = pointer[j+2]; }`
-- and `key_total--`.
unfoldable pub drop_entry : Node → ℕ → Node
drop_entry n from = record n {
  key = shift_down n.key from (n.key_total - 1 - from);
  pointer = shift_down n.pointer (from + 1) (n.key_total - 1 - from);
  key_total = n.key_total - 1;
}

-- The child of the cases B and N: one more entry in front.
unfoldable pub push_front : Node → ℕ → ℕ → Node
push_front child k p = record child {
  key = update (shift_up child.key 0 child.key_total) 0 k;
  pointer = update (shift_up child.pointer 0 child.key_total) 0 p;
  key_total = child.key_total + 1;
}

-- Two leaves in one, the right one's link to the next leaf included.
unfoldable pub join_leaves : Node → Node → Node
join_leaves l r = record l {
  key = copy_range l.key l.key_total r.key 0 r.key_total;
  pointer =
      update (copy_range l.pointer l.key_total r.pointer 0 r.key_total) max_key (r.pointer max_key);
  key_total = l.key_total + r.key_total;
}

-- The right brother of the cases D and P: without its first entry.
unfoldable pub pop_front : Node → Node
pop_front r = record r {
  key = shift_down r.key 0 (r.key_total - 1);
  pointer = shift_down r.pointer 0 (r.key_total - 1);
  key_total = r.key_total - 1;
}

unfoldable pub push_back : Node → ℕ → ℕ → Node
push_back child k p = record child {
  key = update child.key child.key_total k;
  pointer = update child.pointer child.key_total p;
  key_total = child.key_total + 1;
}

-- Case N.
unfoldable pub borrow_left : File → ℕ → Node → Node → Node → ℕ → File × Node × ℕ
borrow_left f curr n lb child i =
    let child' = push_front child (n.key (i - 1)) (lb.pointer (lb.key_total - 1)) in
    let lb' : Node = record lb { key_total = lb.key_total - 1 } in
    let n' : Node = record n { key = update n.key (i - 1) (lb'.key (lb'.key_total - 1)) } in
    (
      write_node (write_node (write_node f (n.pointer (i - 1)) lb') (n.pointer i) child') curr n',
      n',
      i,
    )

-- Case B: the child's last key is to go, so the parent takes the one before it.
unfoldable pub borrow_left_found : File → ℕ → Node → Node → Node → ℕ → File × Node × ℕ
borrow_left_found f curr n lb child i =
    let child' = push_front child (n.key (i - 1)) (lb.pointer (lb.key_total - 1)) in
    let lb' : Node = record lb { key_total = lb.key_total - 1 } in
    let n' : Node = record n {
      key =
          update (update n.key (i - 1) (lb'.key (lb'.key_total - 1))) i
            (child'.key (child'.key_total - 2));
    } in
    (
      write_node (write_node (write_node f curr n') (n.pointer (i - 1)) lb') (n.pointer i) child',
      n',
      i,
    )

-- Case O.
unfoldable pub merge_left : File → ℕ → Node → Node → Node → ℕ → File × Node × ℕ
merge_left f curr n lb child i =
    let lb' = join_leaves lb child in
    let n' = drop_entry n (i - 1) in
    (write_node (write_node f (n'.pointer (i - 1)) lb') curr n', n', i - 1)

-- Case C.
unfoldable pub merge_left_found : File → ℕ → Node → Node → Node → ℕ → File × Node × ℕ
merge_left_found f curr n lb child i =
    let lb' = join_leaves lb child in
    let short = drop_entry n (i - 1) in
    let n' : Node = record short { key = update short.key (i - 1) (lb'.key (lb'.key_total - 2)) } in
    (write_node (write_node f curr n') (n'.pointer (i - 1)) lb', n', i - 1)

-- Cases D and P.
unfoldable pub borrow_right : File → ℕ → Node → Node → Node → ℕ → File × Node × ℕ
borrow_right f curr n child rb i =
    let n' : Node = record n { key = update n.key i (rb.key 0) } in
    let child' = push_back child (rb.key 0) (rb.pointer 0) in
    (
      write_node (write_node (write_node f curr n') (n.pointer (i + 1)) (pop_front rb))
          (n.pointer i) child',
      n',
      i,
    )

-- Cases E and Q.
unfoldable pub merge_right : File → ℕ → Node → Node → Node → ℕ → File × Node × ℕ
merge_right f curr n child rb i =
    let n' = drop_entry n i in
    (write_node (write_node f curr n') (n'.pointer i) (join_leaves child rb), n', i)

-- The child does not hold the key as its parent's separator: cases N, O, P and Q.
unfoldable pub refill_leaf : File → ℕ → Node → Node → ℕ → File × Node × ℕ
refill_leaf f curr n child zero =
    let rb = read_node f (n.pointer 1) in
    if ltb 2 rb.key_total then borrow_right f curr n child rb 0 else merge_right f curr n child rb 0
refill_leaf f curr n child (suc i) =
    let lb = read_node f (n.pointer i) in
    if ltb 2 lb.key_total
    then borrow_left f curr n lb child (suc i)
    else merge_left f curr n lb child (suc i)

-- The key is the parent's separator, and the child's last key: cases B, C, D and E.
unfoldable pub refill_leaf_found : File → ℕ → Node → Node → ℕ → File × Node × ℕ
refill_leaf_found f curr n child zero =
    let rb = read_node f (n.pointer 1) in
    if ltb 2 rb.key_total then borrow_right f curr n child rb 0 else merge_right f curr n child rb 0
refill_leaf_found f curr n child (suc i) =
    let lb = read_node f (n.pointer i) in
    if ltb 2 lb.key_total
    then borrow_left_found f curr n lb child (suc i)
    else merge_left_found f curr n lb child (suc i)

-- Case A: the child gives its last key up, and the parent takes the one before it.
unfoldable pub cut_last : File → ℕ → Node → Node → ℕ → File
cut_last f curr n child i =
    let n' : Node = record n { key = update n.key i (child.key (child.key_total - 2)) } in
    let child' : Node = record child { key_total = child.key_total - 1 } in
    write_node (write_node f curr n') (n'.pointer i) child'
