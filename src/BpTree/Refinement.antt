-- ===== src/BpTree/Refinement.antt =====
-- bptree.cpp: the file as an index, a partial map from keys to pointers.
use computer_science_notes.Base.{
  ℕ, suc, ◌≤◌, ◌<◌, ◌≡◌, refl, sym, ap, ◌∙◌, subst, true, false, ◌==◌, none, some, update, done,
  arith, ℕ_discrete,
}
use computer_science_notes.BpTree.Node.{
  Node, File, new_node, node_size, no_pointer, max_key, write_node, get_final_node,
}
use computer_science_notes.BpTree.Search.{query}
use computer_science_notes.BpTree.Insert.{build, grow, insert}
use computer_science_notes.BpTree.Shape.{Labels, Index, Fits, Shape, key_limit}
use computer_science_notes.BpTree.Descent.{read_node-live}
use computer_science_notes.BpTree.Lookup.{query_lem, query_place}
use computer_science_notes.BpTree.Relabel.{update-same}
use computer_science_notes.BpTree.Split.Next.{IsOpen}
use computer_science_notes.BpTree.Insertion.{insert_absent, insert_pos-Holds}
use computer_science_notes.BpTree.Growth.Root.{grow_labels, grow-Shape, grow_tall, grow_room}

-- The file holds the index `m`, its root `height` levels above the leaves.
pub record IsIndex (f : File) (m : Index) (height : ℕ) : Type 0 where
  pub labels : Labels
  pub shape : Shape f labels m
  pub tall : labels.level 0 ≡ height

-- What `query` is to answer: -1 where there is no such key.
abbrev pub answer : Index → ℕ → ℕ
answer m k = elim (m k) [ some q ↦ q | none ↦ no_pointer ]

-- On a file that holds an index, with more fuel than its levels, `query` returns the pointer that
-- the index has for the key, and -1 if it has none.
pub query-answer :
    (f : File) (m : Index) (height fuel k : ℕ)
    → IsIndex f m height
    → height < fuel
    → k < key_limit
    → query fuel f k false ≡ done (answer m k)
query-answer f m height fuel k is enough lt =
    query_lem f is.labels m is.shape fuel k (omega (arith, is.tall)) lt

-- With `get_bpos`, `query` returns the offset of a leaf in which the key stands with its pointer, if
-- the index has it.
pub query_place-leaf :
    (f : File) (m : Index) (height fuel k q : ℕ)
    → IsIndex f m height
    → height < fuel
    → k < key_limit
    → m k ≡ some q
    → (leaf : ℕ) × (query fuel f k true ≡ done leaf)
      × ((f.node leaf).is_leaf ≡ true)
      × (j : ℕ) × (j < (f.node leaf).key_total)
      × ((f.node leaf).key j ≡ k)
      × ((f.node leaf).pointer j ≡ q)
query_place-leaf f m height fuel k q is enough lt e =
    query_place f is.labels m is.shape fuel k q (omega (arith, is.tall)) lt e

root_IsOpen :
    (f : File) (l : Labels) (m : Index) (k : ℕ)
    → Shape f l m
    → k < key_limit
    → (f.node 0).key_total < max_key
    → IsOpen f l 0 k
root_IsOpen f l m k s lt room = record {
  alive = s.root;
  covers = (omega (arith, s.lowest), omega (arith, s.highest));
  room = room;
}

-- On a file that holds an index, with fuel for its levels and one more, `insert` returns a file that
-- holds the index with the new key in it, or the same index if it had the key. The tree has at most
-- one more level.
pub insert-IsIndex :
    (f : File) (m : Index) (height fuel k p : ℕ)
    → IsIndex f m height
    → suc height < fuel
    → k < key_limit
    → (f' : File) × (height' : ℕ) × (insert fuel f k p ≡ done f')
      × IsIndex f' (insert_absent m k p) height'
      × (height' ≤ suc height)
unfolding insert
insert-IsIndex f m height fuel k p is enough lt =
    let l = is.labels in
    let s = is.shape in
    let small = (s.fits 0 s.root).small in
    elim (ℕ_discrete (f.node 0).key_total max_key) [
      | yes full ↦
          let s' = grow-Shape f l m s full in
          let tall = grow_tall f l m s full in
          let r =
            insert_pos-Holds fuel (grow f) (grow_labels f l m s full) m s' k p 0
              (omega (arith, tall, is.tall))
              (root_IsOpen (grow f) (grow_labels f l m s full) m k s' lt
                (grow_room f l m s full)) in
          let test : ((f.node 0).key_total == max_key) ≡ true = ground arith in
          (
            r.file,
            suc height,
            rw (read_node-live f l m 0 s s.root, test) r.result,
            record { labels = r.labels; shape = r.shape; tall = r.tall ∙ tall ∙ ap suc is.tall },
            omega arith,
          )
      | no not_full ↦
          let r =
            insert_pos-Holds fuel f l m s k p 0 (omega (arith, is.tall))
              (root_IsOpen f l m k s lt (omega arith)) in
          let test : ((f.node 0).key_total == max_key) ≡ false = ground arith in
          (
            r.file,
            height,
            rw (read_node-live f l m 0 s s.root, test) r.result,
            record { labels = r.labels; shape = r.shape; tall = r.tall ∙ is.tall },
            omega arith,
          )
    ]

-- The labels of a file with the root only, and the root.
first_labels : Labels
first_labels = record {
  live = λ o. o == 0;
  level = λ o. 0;
  low = λ o. 0;
  high = λ o. key_limit;
  parent = λ o. 0;
}

first_node : Node
first_node = record new_node { pointer = update new_node.pointer max_key 0; is_leaf = true }

first_Fits : Fits first_labels (λ k. none) first_node 0
unfolding first_labels first_node
first_Fits = record {
  small = omega arith;
  kind = refl;
  under = omega arith;
  nonempty = omega arith;
  ascending = λ i j lt lt'. absurd (omega arith);
  ranged = λ i lt. absurd (omega arith);
  known = λ i lt. absurd (omega arith);
  filed = λ i lt. absurd (omega arith);
  child = λ i le inner. absurd (inner refl);
}

first_only : (o : ℕ) → first_labels.live o ≡ true → 0 ≡ o
unfolding first_labels
first_only o alive = ground arith

first_file : File → File
first_file f = record { node = update f.node 0 first_node; size = node_size }

first-Shape : (f : File) → Shape (first_file f) first_labels (λ k. none)
unfolding first_file
first-Shape f = record {
  root = unfold first_labels in refl;
  lowest = unfold first_labels in refl;
  highest = unfold first_labels in refl;
  placed = λ o alive. omega (arith, first_only o alive);
  fits = λ o alive.
      subst (λ x. Fits first_labels (λ k. none) (update f.node 0 first_node x) x)
        (first_only o alive) (rw (update-same f.node 0 first_node) first_Fits);
  owned = λ o alive ne. absurd (ne (sym (first_only o alive)));
  held = λ k q e. absurd (cc);
}

-- On an empty file `build` gives a tree that holds the empty index.
pub build-IsIndex : (f : File) → f.size ≡ 0 → IsIndex (build f) (λ k. none) 0
unfolding build get_final_node write_node first_node first_file first_labels
build-IsIndex f empty =
    let e : build f ≡ first_file f = rw empty in
    rw e (record { labels = first_labels; shape = first-Shape f; tall = refl })
