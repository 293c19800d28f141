-- ===== src/BpTree/Insertion.antt =====
-- bptree.cpp: what `insert_pos` does to the index, from a node that is not full.
use computer_science_notes.Base.{
  ℕ, zero, suc, ◌+◌, ◌<◌, ◌≡◌, ◌≢◌, refl, sym, ap, ◌∙◌, subst, Bool-cases, Option-cases, true,
  false, ◌==◌, ◌&&◌, ltb, if◌then◌else◌, none, some, inl, inr, update, Run, done, arith, ℕ_discrete,
}
use computer_science_notes.BpTree.Node.{Node, File, node_size, max_key, write_node}
use computer_science_notes.BpTree.Search.{seek}
use computer_science_notes.BpTree.Insert.{
  insert_leaf, make_room, goes_left, insert_node, insert_pos,
}
use computer_science_notes.BpTree.Arrays.{seek_at}
use computer_science_notes.BpTree.Shape.{Labels, Index, Child, Shape}
use computer_science_notes.BpTree.Descent.{
  seek-le, seek-Covers, read_node-live, leaf_has, seek_found,
}
use computer_science_notes.BpTree.Filing.{file_key-Shape}
use computer_science_notes.BpTree.Split.Marks.{split_labels, split-level}
use computer_science_notes.BpTree.Split.Whole.{IsCrowded, end-Vacant}
use computer_science_notes.BpTree.Split.Room.{split_nodes, make_room-split, make_room-Shape}
use computer_science_notes.BpTree.Split.Next.{IsOpen, next, next-IsNext}

-- A key that the index has keeps its pointer.
abbrev pub insert_absent : Index → ℕ → ℕ → Index
insert_absent m k p = elim (m k) [ some q ↦ m | none ↦ update m k (some p) ]

-- The run ends with a file that holds the index `m`, its root `height` levels above the leaves.
pub record Holds (m : Index) (height : ℕ) (r : Run File) : Type 0 where
  pub file : File
  pub labels : Labels
  pub result : r ≡ done file
  pub shape : Shape file labels m
  pub tall : labels.level 0 ≡ height

insert_absent-present : (m : Index) (k p q : ℕ) → m k ≡ some q → insert_absent m k p ≡ m
insert_absent-present m k p q e = rw (e, insert_absent)

insert_absent-absent :
    (m : Index) (k p : ℕ) → m k ≡ none → insert_absent m k p ≡ update m k (some p)
insert_absent-absent m k p e = rw (e, insert_absent)

module _ (go : File → ℕ → Run File) (f : File) (l : Labels) (m : Index) (s : Shape f l m)
    (k p o : ℕ) (open_at : IsOpen f l o k) where
  abbrev n : Node
  n = f.node o

  abbrev i : ℕ
  i = seek n.key k n.key_total 0

  -- The node has the key.
  insert_node-found :
      i < n.key_total
      → n.key i ≡ k
      → Holds (insert_absent m k p) (l.level 0) (insert_node go f n k p o)
  unfolding insert_node
  insert_node-found lt e =
      let (q, known) = (s.fits o open_at.alive).known i lt in
      record {
        file = f;
        labels = l;
        result = ground arith;
        shape = rw (insert_absent-present m k p q (ap m (sym e) ∙ known)) s;
        tall = refl;
      }

  module _ (missing : (ltb i n.key_total && n.key i == k) ≡ false) where
    insert_node-leaf :
        l.level o ≡ 0 → Holds (insert_absent m k p) (l.level 0) (insert_node go f n k p o)
    unfolding insert_node
    insert_node-leaf bottom =
        let kind : n.is_leaf ≡ true = ground (arith, (s.fits o open_at.alive).kind) in
        let fresh : m k ≡ none = elim (Option-cases (m k)) [
          | inl none_there ↦ none_there
          | inr (q, known) ↦
              let (j, lt, e) = leaf_has f l m s o k q open_at.alive bottom open_at.covers known in
              let found =
                seek_found n.key k n.key_total j (s.fits o open_at.alive).ascending lt e in
              absurd (ground (arith, missing, found, ap n.key found))
        ] in
        record {
          file = write_node f o (insert_leaf n i k p);
          labels = l;
          result = rw (missing, kind);
          shape =
              rw (insert_absent-absent m k p fresh) (
                file_key-Shape f l m s o k p open_at.alive bottom open_at.covers open_at.room
                  fresh);
          tall = refl;
        }

    insert_node-step :
        l.level o ≢ 0
        → insert_node go f n k p o ≡ (
            let (f', n') = make_room f o n i in
            go f' (if goes_left n' i k then n'.pointer i else n'.pointer (i + 1)))
    unfolding insert_node
    insert_node-step inner =
        let kind : n.is_leaf ≡ false = ground (arith, (s.fits o open_at.alive).kind) in
        rw (missing, kind)

  -- The child that the node's keys lead to.
  the-Child : l.level o ≢ 0 → Child l n o i
  the-Child inner = (s.fits o open_at.alive).child i (seek-le n.key k n.key_total) inner

  crowded : l.level o ≢ 0 → (f.node (n.pointer i)).key_total ≡ max_key → IsCrowded f l o i
  crowded inner full = record {
    alive = open_at.alive;
    inner = inner;
    room = open_at.room;
    within = seek-le n.key k n.key_total;
    full = full;
  }

  -- With no split the node is as it was, and so is the child, which has room.
  make_room-none :
      (inner : l.level o ≢ 0)
      → (f.node (n.pointer i)).key_total ≢ max_key
      → make_room f o n i ≡ (f, n)
  unfolding make_room
  make_room-none inner not_full =
      let child = the-Child inner in
      rw (read_node-live f l m (n.pointer i) s child.alive) (ground arith)

  child_IsOpen :
      (inner : l.level o ≢ 0)
      → (f.node (n.pointer i)).key_total ≢ max_key
      → IsOpen f l (n.pointer i) k
  child_IsOpen inner not_full =
      let child = the-Child inner in
      record {
        alive = child.alive;
        covers = seek-Covers l n o k child open_at.covers;
        room = omega (arith, (s.fits (n.pointer i) child.alive).small);
      }

  goes_left-none : goes_left n i k ≡ true
  unfolding goes_left
  goes_left-none = elim (ℕ_discrete i n.key_total) [
    | yes e ↦ ground arith
    | no ne ↦
        ground (arith, seek_at n.key k n.key_total 0 (omega (arith, seek-le n.key k n.key_total)))
  ]

  -- What a call does comes from what the call on the child does.
  module _ (fuel : ℕ) (enough : l.level o < suc fuel)
      (below : (f' : File) (l' : Labels) (o' : ℕ)
        → Shape f' l' m
        → l'.level o' < fuel
        → IsOpen f' l' o' k
        → Holds (insert_absent m k p) (l'.level 0) (go f' o')) where
    insert_node-split :
        (ltb i n.key_total && n.key i == k) ≡ false
        → (inner : l.level o ≢ 0) → (f.node (n.pointer i)).key_total ≡ max_key
        → Holds (insert_absent m k p) (l.level 0) (insert_node go f n k p o)
    insert_node-split missing inner full =
        let z = crowded inner full in
        let vacant = end-Vacant f l m s in
        let (is_open, under) = next-IsNext f l m s o k i z refl open_at.covers in
        let after = split_labels l o (n.pointer i) f.size ((f.node (n.pointer i)).key 2) in
        let level_at = split-level l o (n.pointer i) f.size ((f.node (n.pointer i)).key 2) in
        let result =
          below (record { node = split_nodes f l m s o i z; size = f.size + node_size }) after
            (next f l m s o k i z refl open_at.covers) (make_room-Shape f l m s o i z)
            (omega (arith, under, level_at o (vacant o open_at.alive))) is_open in
        record {
          file = result.file;
          labels = result.labels;
          result =
              insert_node-step missing inner ∙ rw (make_room-split f l m s o i z) result.result;
          shape = result.shape;
          tall = result.tall ∙ level_at 0 (vacant 0 s.root);
        }

    insert_node-pass :
        (ltb i n.key_total && n.key i == k) ≡ false
        → (inner : l.level o ≢ 0) → (f.node (n.pointer i)).key_total ≢ max_key
        → Holds (insert_absent m k p) (l.level 0) (insert_node go f n k p o)
    insert_node-pass missing inner not_full =
        let result =
          below f l (n.pointer i) s (omega (arith, (the-Child inner).below))
            (child_IsOpen inner not_full) in
        record {
          file = result.file;
          labels = result.labels;
          result =
              insert_node-step missing inner
              ∙ rw (make_room-none inner not_full, goes_left-none) result.result;
          shape = result.shape;
          tall = result.tall;
        }

    insert_node-Holds : Holds (insert_absent m k p) (l.level 0) (insert_node go f n k p o)
    insert_node-Holds = elim (Bool-cases (ltb i n.key_total && n.key i == k)) [
      | inl found ↦ insert_node-found (ground arith) (ground arith)
      | inr missing ↦ elim (ℕ_discrete (l.level o) 0) [
        | yes bottom ↦ insert_node-leaf missing bottom
        | no inner ↦ elim (ℕ_discrete (f.node (n.pointer i)).key_total max_key) [
          | yes full ↦ insert_node-split missing inner full
          | no not_full ↦ insert_node-pass missing inner not_full
        ]
      ]
    ]

pub insert_pos-Holds :
    (fuel : ℕ) (f : File) (l : Labels) (m : Index) (s : Shape f l m) (k p o : ℕ)
    → l.level o < fuel
    → IsOpen f l o k
    → Holds (insert_absent m k p) (l.level 0) (insert_pos fuel f k p o)
unfolding insert_pos insert_node
insert_pos-Holds zero f l m s k p o enough open_at = absurd (omega arith)
insert_pos-Holds (suc fuel) f l m s k p o enough open_at =
    let go : File → ℕ → Run File = λ f' next. insert_pos fuel f' k p next in
    subst (λ n. Holds (insert_absent m k p) (l.level 0) (insert_node go f n k p o))
      (sym (read_node-live f l m o s open_at.alive))
      (insert_node-Holds go f l m s k p o open_at fuel enough
        (λ f' l' o' s'. insert_pos-Holds fuel f' l' m s' k p o'))
