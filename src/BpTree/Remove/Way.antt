-- ===== src/BpTree/Remove/Way.antt =====
-- bptree.cpp: `remove_pos` on a way down where no two nodes become one and no inner node needs a key
-- from its brothers.
use mathlib.Core.Path.{fun_ext}
use computer_science_notes.Base.{
  ℕ, zero, suc, ◌+◌, ◌≤◌, dec_lt, ◌-◌, ◌<◌, ◌≡◌, ◌≢◌, refl, sym, ap, ◌∙◌, subst, inl, inr, Bool,
  Bool-cases, Option-cases, true, false, ◌==◌, ◌&&◌, ltb, none, Run, arith, ℕ_discrete,
}
use computer_science_notes.BpTree.Node.{Node, File, read_node, write_node}
use computer_science_notes.BpTree.Search.{seek}
use computer_science_notes.BpTree.Shape.{Labels, Index, Child, Shape}
use computer_science_notes.BpTree.Descent.{
  Covers, level_unique, leaf_has, seek-le, seek-Covers, seek_found, read_node-live,
}
use computer_science_notes.BpTree.Relabel.{update-same}
use computer_science_notes.BpTree.Insertion.{Holds}
use computer_science_notes.BpTree.Remove.Down.{
  remove_entry, prepare_missing, prepare_found, remove_node, remove_pos,
}
use computer_science_notes.BpTree.Remove.Leaves.{cut_last, refill_leaf}
use computer_science_notes.BpTree.Remove.Entry.{erase, erase-other, remove_entry-Shape}
use computer_science_notes.BpTree.Remove.Pair.{IsPair, move_labels}
use computer_science_notes.BpTree.Remove.Refill.{brother_index, IsRefilled, refill_leaf-IsRefilled}
use computer_science_notes.BpTree.Remove.Cut.{cut_last-Shape}
use computer_science_notes.BpTree.Remove.Roomy.{is_roomy_node, is_roomy, is_roomy-leaf}

-- No node above the level of `o` has the key.
abbrev Passed : File → Labels → ℕ → ℕ → Type 0
Passed f l o k =
    (x j : ℕ)
    → l.live x ≡ true
    → l.level o < l.level x
    → j < (f.node x).key_total
    → k ≢ (f.node x).key j

erase-absent : (m : Index) (k : ℕ) → m k ≡ none → erase m k ≡ m
erase-absent m k e = fun_ext λ x. elim (ℕ_discrete k x) [
  | yes same ↦ ap (erase m k) (sym same) ∙ update-same m k none ∙ sym e ∙ ap m same
  | no other ↦ erase-other m k x other
]

module _ (go : File → ℕ → Run File) (fuel : ℕ) (f : File) (l : Labels) (m : Index) (s : Shape f l m)
    (k o : ℕ) (alive : l.live o ≡ true) (cover : Covers l o k) (passed : Passed f l o k)
    (spare : ℕ → Bool) (roomy : is_roomy_node spare f (f.node o) k ≡ true) where
  abbrev n : Node
  n = f.node o

  abbrev i : ℕ
  i = seek n.key k n.key_total 0

  has_key : 0 < n.key_total
  unfolding is_roomy_node
  has_key = ground arith

  some_keys : (n.key_total == 0) ≡ false
  some_keys = ground (arith, has_key)

  next_child : l.level o ≢ 0 → Child l n o i
  next_child inner = (s.fits o alive).child i (seek-le n.key k n.key_total) inner

  next-Covers : l.level o ≢ 0 → Covers l (n.pointer i) k
  next-Covers inner = seek-Covers l n o k (next_child inner) cover

  is_inner : l.level o ≢ 0 → n.is_leaf ≡ false
  is_inner inner = ground (arith, (s.fits o alive).kind)

  next_read : (inner : l.level o ≢ 0) → read_node f (n.pointer i) ≡ f.node (n.pointer i)
  next_read inner = read_node-live f l m (n.pointer i) s (next_child inner).alive

  next_room :
      l.level o ≢ 0
      → (ltb i n.key_total && n.key i == k) ≡ true
      → 2 < (f.node (n.pointer i)).key_total
  unfolding is_roomy_node
  next_room inner found = rw (← next_read inner) (ground (arith, is_inner inner))

  next_leaf :
      l.level o ≢ 0
      → (ltb i n.key_total && n.key i == k) ≡ true
      → (f.node (n.pointer i)).is_leaf ≡ true
  unfolding is_roomy_node
  next_leaf inner found = rw (← next_read inner) (ground (arith, is_inner inner))

  next_poor :
      l.level o ≢ 0
      → (ltb i n.key_total && n.key i == k) ≡ false
      → (f.node (n.pointer i)).key_total ≤ 2
      → ((f.node (n.pointer i)).is_leaf ≡ true)
        × (2 < (read_node f (n.pointer (brother_index i))).key_total)
  unfolding is_roomy_node
  next_poor inner missing poor =
      let poor' : (read_node f (n.pointer i)).key_total ≤ 2 = rw (next_read inner) poor in
      rw (← next_read inner) (ground (arith, is_inner inner))

  next_spare :
      l.level o ≢ 0 → (ltb i n.key_total && n.key i == k) ≡ false → spare (n.pointer i) ≡ true
  unfolding is_roomy_node
  next_spare inner missing = ground (arith, is_inner inner)

  remove_node-entry :
      i < n.key_total
      → n.key i ≡ k
      → l.level o ≡ 0
      → Holds (erase m k) (l.level 0) (remove_node go fuel f n k o)
  unfolding remove_node
  remove_node-entry lt e bottom =
      let kind : n.is_leaf ≡ true = ground (arith, (s.fits o alive).kind) in
      let found : (ltb i n.key_total && n.key i == k) ≡ true = ground arith in
      record {
        file = write_node f o (remove_entry n i);
        labels = l;
        result = rw (some_keys, found, kind);
        shape = remove_entry-Shape f l m s o k i alive bottom lt e (λ x live ne j lt' e'.
            elim (ℕ_discrete (l.level x) 0) [
              | yes low ↦ ne (
                  level_unique f l m s (l.level 0) o x k alive live (omega (arith, bottom))
                    (omega (arith, bottom, low)) cover (rw e' ((s.fits x live).ranged j lt')))
              | no up ↦ passed x j live (omega (arith, bottom)) lt' e'
            ]);
        tall = refl;
      }

  remove_node-cut :
      i < n.key_total
      → n.key i ≡ k
      → l.level o ≢ 0
      → Holds (erase m k) (l.level 0) (remove_node go fuel f n k o)
  unfolding remove_node prepare_found
  remove_node-cut lt e inner =
      let c = next_child inner in
      let next = n.pointer i in
      let fit = s.fits next c.alive in
      let kind = is_inner inner in
      let found : (ltb i n.key_total && n.key i == k) ≡ true = ground arith in
      let room = next_room inner found in
      let leaf = next_leaf inner found in
      let level : l.level o ≡ 1 = ground (arith, fit.kind, c.below) in
      let enough : ltb 2 (f.node next).key_total ≡ true = ground arith in
      let z : IsPair f l o i = record { alive = alive; low_level = level; within = lt } in
      record {
        file = cut_last f o n (f.node next) i;
        labels =
            move_labels l next (n.pointer (i + 1))
              ((f.node next).key ((f.node next).key_total - 2));
        result = rw (some_keys, found, kind, read_node-live f l m next s c.alive, leaf, enough);
        shape = cut_last-Shape f l m s o i k z e room;
        tall = refl;
      }

  module _ (missing : (ltb i n.key_total && n.key i == k) ≡ false) where
    not_here : (j : ℕ) → j < n.key_total → k ≢ n.key j
    not_here j lt e =
        let found = seek_found n.key k n.key_total j (s.fits o alive).ascending lt (sym e) in
        ground (arith, missing, found, ap n.key found)

    remove_node-none : l.level o ≡ 0 → Holds (erase m k) (l.level 0) (remove_node go fuel f n k o)
    unfolding remove_node
    remove_node-none bottom =
        let kind : n.is_leaf ≡ true = ground (arith, (s.fits o alive).kind) in
        let fresh : m k ≡ none = elim (Option-cases (m k)) [
          | inl e ↦ e
          | inr (q, known) ↦
              let (j, lt, e) = leaf_has f l m s o k q alive bottom cover known in
              absurd (not_here j lt (sym e))
        ] in
        record {
          file = f;
          labels = l;
          result = rw (some_keys, missing, kind);
          shape = rw (erase-absent m k fresh) s;
          tall = refl;
        }

    still-Passed : (c : ℕ) → suc (l.level c) ≡ l.level o → Passed f l c k
    still-Passed c below x j live up lt e = elim (ℕ_discrete (l.level x) (l.level o)) [
      | yes level ↦
          let same : o ≡ x =
            level_unique f l m s (l.level 0 - l.level o) o x k alive live
              (omega (arith, (s.fits o alive).under)) level cover
              (rw e ((s.fits x live).ranged j lt)) in
          not_here j (subst (λ y. j < (f.node y).key_total) (sym same) lt)
            (subst (λ y. k ≡ (f.node y).key j) (sym same) e)
      | no other ↦ passed x j live (omega (arith, below)) lt e
    ]

    module _ (inner : l.level o ≢ 0) where
      remove_node-pass :
          2 < (f.node (n.pointer i)).key_total
          → Holds (erase m k) (l.level 0) (go f (n.pointer i))
          → Holds (erase m k) (l.level 0) (remove_node go fuel f n k o)
      unfolding remove_node prepare_missing
      remove_node-pass room r =
          let c = next_child inner in
          let kind = is_inner inner in
          let enough : ltb 2 (f.node (n.pointer i)).key_total ≡ true = ground arith in
          record {
            file = r.file;
            labels = r.labels;
            result = rw (some_keys, missing, kind, next_read inner, enough) r.result;
            shape = r.shape;
            tall = r.tall;
          }

      next-IsRefilled :
          (f.node (n.pointer i)).key_total ≤ 2
          → IsRefilled m k (l.level 0) (refill_leaf f o n (f.node (n.pointer i)) i)
      next-IsRefilled poor =
          let c = next_child inner in
          let (leaf, rich) = next_poor inner missing poor in
          let fit = s.fits (n.pointer i) c.alive in
          let bottom : l.level (n.pointer i) ≡ 0 = ground (arith, fit.kind) in
          refill_leaf-IsRefilled f l m s o k
            (λ x j live up. still-Passed (n.pointer i) c.below x j live (omega (arith, bottom))) i
            alive (omega (arith, c.below, bottom)) has_key (seek-le n.key k n.key_total)
            (next-Covers inner) poor rich

      prepare_missing-refill_leaf :
          (f.node (n.pointer i)).key_total ≤ 2
          → prepare_missing f o n i ≡ refill_leaf f o n (f.node (n.pointer i)) i
      unfolding prepare_missing
      prepare_missing-refill_leaf poor =
          let leaf = (next_poor inner missing poor).0 in
          rw (next_read inner) (ground (arith, leaf, poor))

      remove_node-refill :
          (poor : (f.node (n.pointer i)).key_total ≤ 2)
          → ((r : File × Node × ℕ)
              → IsRefilled m k (l.level 0) r
              → Holds (erase m k) (l.level 0) (go r.0 (r.1.pointer r.2)))
          → Holds (erase m k) (l.level 0) (remove_node go fuel f n k o)
      unfolding remove_node
      remove_node-refill poor after =
          let r = after (refill_leaf f o n (f.node (n.pointer i)) i) (next-IsRefilled poor) in
          record {
            file = r.file;
            labels = r.labels;
            result =
                rw (some_keys, missing, is_inner inner, prepare_missing-refill_leaf poor) r.result;
            shape = r.shape;
            tall = r.tall;
          }

  remove_node-Holds :
      ((c : ℕ)
        → spare c ≡ true
        → l.live c ≡ true
        → suc (l.level c) ≡ l.level o
        → Covers l c k
        → Passed f l c k
        → Holds (erase m k) (l.level 0) (go f c))
      → ((c : ℕ)
          → spare c ≡ true
          → (r : File × Node × ℕ) → IsRefilled m k (l.level 0) r
          → Holds (erase m k) (l.level 0) (go r.0 (r.1.pointer r.2)))
      → Holds (erase m k) (l.level 0) (remove_node go fuel f n k o)
  remove_node-Holds below after = elim (Bool-cases (ltb i n.key_total && n.key i == k)) [
    | inl found ↦ elim (ℕ_discrete (l.level o) 0) [
      | yes bottom ↦ remove_node-entry (ground arith) (ground arith) bottom
      | no inner ↦ remove_node-cut (ground arith) (ground arith) inner
    ]
    | inr missing ↦ elim (ℕ_discrete (l.level o) 0) [
      | yes bottom ↦ remove_node-none missing bottom
      | no inner ↦
          let c = next_child inner in
          let spare_next = next_spare inner missing in
          elim (dec_lt 2 (f.node (n.pointer i)).key_total) [
            | yes room ↦ remove_node-pass missing inner room (
                below (n.pointer i) spare_next c.alive c.below (next-Covers inner)
                  (still-Passed missing (n.pointer i) c.below))
            | no few ↦
                remove_node-refill missing inner (omega arith) (after (n.pointer i) spare_next)
          ]
    ]
  ]

pub remove_pos-Holds :
    (fuel : ℕ) (f : File) (l : Labels) (m : Index) (s : Shape f l m) (k o top : ℕ)
    → l.level 0 ≡ top
    → l.live o ≡ true
    → Covers l o k
    → Passed f l o k
    → is_roomy fuel f k o ≡ true
    → Holds (erase m k) top (remove_pos fuel f k o)
unfolding remove_pos remove_node is_roomy is_roomy_node
remove_pos-Holds zero f l m s k o top tall alive cover passed roomy = absurd (cc)
remove_pos-Holds (suc fuel) f l m s k o top tall alive cover passed roomy =
    let go : File → ℕ → Run File = λ f' next. remove_pos fuel f' k next in
    let at = read_node-live f l m o s alive in
    subst (λ n. Holds (erase m k) top (remove_node go fuel f n k o)) (sym at)
      (subst (λ t. Holds (erase m k) t (remove_node go fuel f (f.node o) k o)) tall
        (remove_node-Holds go fuel f l m s k o alive cover passed (is_roomy fuel f k)
          (subst (λ n. is_roomy_node (is_roomy fuel f k) f n k ≡ true) at roomy)
          (λ c roomy' live below covers passed'.
            remove_pos-Holds fuel f l m s k c (l.level 0) refl live covers passed' roomy')
          (λ c roomy' r z.
            let next = r.1.pointer r.2 in
            let at' = read_node-live r.0 z.labels m next z.shape z.alive in
            let kind = (z.shape.fits next z.alive).kind in
            remove_pos-Holds fuel r.0 z.labels m z.shape k next (l.level 0) z.tall z.alive z.covers
              (λ x j live up. z.not_inner x j live (omega (arith, z.bottom)))
              (is_roomy-leaf fuel f r.0 k c next roomy' (rw at' z.has_key)
                (rw at' (kind ∙ ground (arith, z.bottom)))))))
