-- ===== src/BpTree/Remove/Inner.antt =====
-- bptree.cpp: what `remove_pos` does when the child that it goes to is an inner node with at most
-- MAX_KEY / 2 keys. The source has these cases twice, with the same code.
use computer_science_notes.Base.{ℕ, zero, suc, ◌+◌, ◌-◌, ltb, if◌then◌else◌, update}
use computer_science_notes.BpTree.Node.{
  Node, File, read_node, write_node, shift_up, shift_down, copy_range,
}
use computer_science_notes.BpTree.Remove.Leaves.{drop_entry}

-- Case I: the left brother's last pointer comes in front, the parent's key between.
unfoldable pub borrow_left_inner : File → ℕ → Node → Node → Node → ℕ → File × Node × ℕ
borrow_left_inner f curr n lb child i =
    let child' : Node = record child {
      key = update (shift_up child.key 0 child.key_total) 0 (n.key (i - 1));
      pointer =
          update (update (shift_up child.pointer 1 child.key_total) 1 (child.pointer 0)) 0
            (lb.pointer lb.key_total);
      key_total = child.key_total + 1;
    } in
    let n' : Node = record n { key = update n.key (i - 1) (lb.key (lb.key_total - 1)) } in
    let lb' : Node = record lb { key_total = lb.key_total - 1 } in
    (
      write_node (write_node (write_node f curr n') (n.pointer (i - 1)) lb') (n.pointer i) child',
      n',
      i,
    )

-- The left node, the parent's key, and the right node with all its pointers.
unfoldable pub join_inner : Node → ℕ → Node → Node
join_inner l k r = record l {
  key = copy_range (update l.key l.key_total k) (l.key_total + 1) r.key 0 r.key_total;
  pointer = copy_range l.pointer (l.key_total + 1) r.pointer 0 (r.key_total + 1);
  key_total = l.key_total + 1 + r.key_total;
}

-- Case J.
unfoldable pub merge_left_inner : File → ℕ → Node → Node → Node → ℕ → File × Node × ℕ
merge_left_inner f curr n lb child i =
    let lb' = join_inner lb (n.key (i - 1)) child in
    let n' = drop_entry n (i - 1) in
    (write_node (write_node f curr n') (n'.pointer (i - 1)) lb', n', i - 1)

-- Case K.
unfoldable pub borrow_right_inner : File → ℕ → Node → Node → Node → ℕ → File × Node × ℕ
borrow_right_inner f curr n child rb i =
    let child' : Node = record child {
      key = update child.key child.key_total (n.key i);
      pointer = update child.pointer (child.key_total + 1) (rb.pointer 0);
      key_total = child.key_total + 1;
    } in
    let n' : Node = record n { key = update n.key i (rb.key 0) } in
    let rb' : Node = record rb {
      key = shift_down rb.key 0 (rb.key_total - 1);
      pointer = shift_down rb.pointer 0 rb.key_total;
      key_total = rb.key_total - 1;
    } in
    (
      write_node (write_node (write_node f curr n') (n.pointer i) child') (n.pointer (i + 1)) rb',
      n',
      i,
    )

-- Case L.
unfoldable pub merge_right_inner : File → ℕ → Node → Node → Node → ℕ → File × Node × ℕ
merge_right_inner f curr n child rb i =
    let n' = drop_entry n i in
    (write_node (write_node f curr n') (n'.pointer i) (join_inner child (n.key i) rb), n', i)

unfoldable pub refill_inner : File → ℕ → Node → Node → ℕ → File × Node × ℕ
refill_inner f curr n child zero =
    let rb = read_node f (n.pointer 1) in
    if ltb 2 rb.key_total
    then borrow_right_inner f curr n child rb 0
    else merge_right_inner f curr n child rb 0
refill_inner f curr n child (suc i) =
    let lb = read_node f (n.pointer i) in
    if ltb 2 lb.key_total
    then borrow_left_inner f curr n lb child (suc i)
    else merge_left_inner f curr n lb child (suc i)
