-- ===== src/BpTree/Remove/Empty.antt =====
-- bptree.cpp: `remove_pos` on a root with no keys.
use computer_science_notes.Base.{
  ℕ, zero, suc, ◌+◌, ◌≤◌, ◌<◌, ◌≡◌, refl, true, false, ◌==◌, ltb, leb, update, out_of_fuel, arith,
}
use computer_science_notes.BpTree.Node.{
  max_key, Node, new_node, node_size, no_pointer, File, read_node, write_node, get_final_node,
}
use computer_science_notes.BpTree.Relabel.{update-same, update-other}
use computer_science_notes.BpTree.Insert.{build}
use computer_science_notes.BpTree.Remove.Down.{remove_node, remove_pos, remove}

-- A root with no keys, its only pointer past the end of the file.
pub record IsDrained (f : File) : Type 0 where
  pub placed : node_size ≤ f.size
  pub bounded : f.size ≤ no_pointer
  pub empty : (f.node 0).key_total ≡ 0
  pub dangling : f.size < (f.node 0).pointer 0 + node_size

-- The round that `remove_pos` makes.
after_round : File → File
after_round f = write_node f 0 (read_node f ((read_node f 0).pointer 0))

after_round-file :
    (f : File)
    → IsDrained f
    → after_round f ≡ record { node = update f.node 0 new_node; size = f.size }
unfolding after_round write_node read_node
after_round-file f d =
    let root : leb node_size f.size ≡ true = ground (arith, d.placed) in
    let past : leb ((f.node 0).pointer 0 + node_size) f.size ≡ false = ground (arith, d.dangling) in
    let same : ltb f.size node_size ≡ false = ground (arith, d.placed) in rw (root, past, same)

after_round-IsDrained : (f : File) → IsDrained f → IsDrained (after_round f)
after_round-IsDrained f d = rw (after_round-file f d) (record {
  placed = d.placed;
  bounded = d.bounded;
  empty = rw (update-same f.node 0 new_node);
  dangling = rw (update-same f.node 0 new_node) (omega (arith, d.bounded));
})

remove_pos-IsDrained :
    (fuel : ℕ) (f : File) (k : ℕ) → IsDrained f → remove_pos fuel f k 0 ≡ out_of_fuel
unfolding remove_pos remove_node after_round
remove_pos-IsDrained zero f k d = refl
remove_pos-IsDrained (suc fuel) f k d =
    let root : read_node f 0 ≡ f.node 0 = unfold read_node in ground (arith, d.placed) in
    let empty : ((read_node f 0).key_total == 0) ≡ true = rw root (ground (arith, d.empty)) in
    rw empty (remove_pos-IsDrained fuel (after_round f) k (after_round-IsDrained f d))

-- On such a file `remove` reads past the end, writes what it has constructed over the root, and so
-- on: however much fuel it has, it does not return.
pub remove-IsDrained : (fuel : ℕ) (f : File) (k : ℕ) → IsDrained f → remove fuel f k ≡ out_of_fuel
unfolding remove
remove-IsDrained fuel f k d = remove_pos-IsDrained fuel f k d

-- So it is on the tree that `build` makes.
pub build-IsDrained : (f : File) → f.size ≡ 0 → IsDrained (build f)
unfolding build get_final_node write_node
build-IsDrained f e =
    let first : Node = record new_node {
      pointer = update new_node.pointer max_key 0;
      is_leaf = true;
    } in
    let root : build f ≡ record { node = update f.node 0 first; size = node_size } = rw e in
    rw root (record {
      placed = omega arith;
      bounded = omega arith;
      empty = rw (update-same f.node 0 first);
      dangling =
          rw (update-same f.node 0 first, update-other new_node.pointer max_key 0 0 (omega arith))
            (omega arith);
    })
