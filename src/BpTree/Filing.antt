-- ===== src/BpTree/Filing.antt =====
-- bptree.cpp: the end of `insert_pos`, where a leaf gets an entry.
use computer_science_notes.Base.{
  ℕ, ◌+◌, ◌-◌, ◌≤◌, ◌<◌, ◌≡◌, ◌≢◌, refl, sym, ap, ◌∙◌, subst, true, ltb, if◌then◌else◌, none, some,
  update, arith, ℕ_discrete, dec_lt,
}
use computer_science_notes.BpTree.Node.{Node, File, write_node, max_key}
use computer_science_notes.BpTree.Search.{seek}
use computer_science_notes.BpTree.Insert.{insert_leaf}
use computer_science_notes.BpTree.Arrays.{
  seek_below, seek_at, placed, shift_up-placed, placed-ascending, placed-each,
}
use computer_science_notes.BpTree.Shape.{Labels, Index, Fits, Held, Shape}
use computer_science_notes.BpTree.Descent.{Covers, seek-le}
use computer_science_notes.BpTree.Relabel.{
  update-each, update-same, update-other, Extends, Fits-Extends,
}

absent-Extends : (m : Index) (k p : ℕ) → m k ≡ none → Extends m (update m k (some p))
absent-Extends m k p e x q known = elim (ℕ_discrete k x) [
  | yes same ↦ absurd (cc (ap m same))
  | no other ↦ ground arith
]

module _ (l : Labels) (m : Index) (n : Node) (o k p i : ℕ) (fit : Fits l m n o)
    (bottom : l.level o ≡ 0) (cover : Covers l o k) (room : n.key_total < max_key)
    (fresh : m k ≡ none) (at : i ≡ seek n.key k n.key_total 0) where
  index_le : i ≤ n.key_total
  index_le = rw at (seek-le n.key k n.key_total)

  key_at : (j : ℕ) → j < n.key_total + 1 → (insert_leaf n i k p).key j ≡ placed n.key i k j
  unfolding insert_leaf
  key_at j lt = shift_up-placed n.key i n.key_total k j index_le (omega arith)

  pointer_at :
      (j : ℕ) → j < n.key_total + 1 → (insert_leaf n i k p).pointer j ≡ placed n.pointer i p j
  unfolding insert_leaf
  pointer_at j lt = shift_up-placed n.pointer i n.key_total p j index_le (omega arith)

  below_index : (j : ℕ) → j < i → n.key j < k
  below_index j lt = seek_below n.key k n.key_total 0 j (omega arith) (omega arith)

  from_index : (j : ℕ) → i ≤ j → j < n.key_total → k < n.key j
  from_index j le lt =
      let (q, known) = fit.known j lt in
      let ne : k ≢ n.key j = λ e. cc (ap m e) in
      let least : k ≤ n.key i = rw at (seek_at n.key k n.key_total 0 (omega arith)) in
      elim (ℕ_discrete i j) [
        | yes e ↦ omega (arith, ap n.key e)
        | no later ↦ omega (arith, fit.ascending i j (omega arith) lt)
      ]

  pair_at :
      (j : ℕ)
      → j < n.key_total + 1
      → update m k (some p) (placed n.key i k j) ≡ some (placed n.pointer i p j)
  pair_at j lt = elim (dec_lt j i) [
    | yes before ↦
        let e : placed n.key i k j ≡ n.key j = ground arith in
        let e' : placed n.pointer i p j ≡ n.pointer j = ground arith in
        rw (e, e')
          (absent-Extends m k p fresh (n.key j) (n.pointer j)
            (fit.filed j (omega (arith, index_le)) bottom))
    | no not_before ↦ elim (ℕ_discrete j i) [
      | yes here ↦
          let e : placed n.key i k j ≡ k = ground arith in
          let e' : placed n.pointer i p j ≡ p = ground arith in rw (e, e') (ground arith)
      | no after ↦
          let e : placed n.key i k j ≡ n.key (j - 1) = ground arith in
          let e' : placed n.pointer i p j ≡ n.pointer (j - 1) = ground arith in
          rw (e, e')
            (absent-Extends m k p fresh (n.key (j - 1)) (n.pointer (j - 1))
              (fit.filed (j - 1) (omega arith) bottom))
    ]
  ]

  key_each :
      (P : ℕ → Type 0)
      → ((j : ℕ) → j < n.key_total → P (n.key j))
      → P k
      → (j : ℕ) → j < n.key_total + 1
      → P ((insert_leaf n i k p).key j)
  key_each P each new j lt =
      subst P (sym (key_at j lt)) (placed-each P n.key i n.key_total k each new index_le j lt)

  insert_leaf-Fits : Fits l (update m k (some p)) (insert_leaf n i k p) o
  unfolding insert_leaf
  insert_leaf-Fits = record {
    small = omega arith;
    kind = fit.kind;
    under = fit.under;
    nonempty = fit.nonempty;
    ascending = λ a b lt lt'.
        rw (key_at a (omega arith), key_at b lt')
          (placed-ascending n.key i n.key_total k fit.ascending index_le below_index from_index a b
            lt lt');
    ranged = key_each (λ x. (l.low o ≤ x) × (x < l.high o)) fit.ranged cover;
    known =
        key_each (λ x. (q : ℕ) × (update m k (some p) x ≡ some q))
          (λ j lt. let (q, e) = fit.known j lt in (q, absent-Extends m k p fresh (n.key j) q e))
          (p, ground arith);
    filed = λ j lt low. rw (key_at j lt, pointer_at j lt) (pair_at j lt);
    child = λ j le inner. absurd (inner bottom);
  }

  -- Where the entry `j` of the old node stands in the new one.
  kept_place : ℕ → ℕ
  kept_place j = if ltb j i then j else j + 1

  kept_lem :
      (j : ℕ)
      → j < n.key_total
      → (kept_place j < n.key_total + 1) × ((insert_leaf n i k p).key (kept_place j) ≡ n.key j)
  unfolding kept_place
  kept_lem j lt = elim (dec_lt j i) [
    | yes before ↦
        let e : kept_place j ≡ j = ground arith in
        rw e (omega arith, key_at j (omega arith) ∙ ground arith)
    | no after ↦
        let e : kept_place j ≡ j + 1 = ground arith in
        rw e (omega arith, key_at (j + 1) (omega arith) ∙ ground arith)
  ]

module _ (f : File) (l : Labels) (m : Index) (s : Shape f l m) (o k p : ℕ) (alive : l.live o ≡ true)
    (bottom : l.level o ≡ 0) (cover : Covers l o k) (room : (f.node o).key_total < max_key)
    (fresh : m k ≡ none) where
  index : ℕ
  index = seek (f.node o).key k (f.node o).key_total 0

  filled : Node
  filled = insert_leaf (f.node o) index k p

  filled-total : filled.key_total ≡ (f.node o).key_total + 1
  unfolding filled insert_leaf
  filled-total = refl

  files_key : Held (update f.node o filled) l k
  unfolding filled index
  files_key =
      let i = seek (f.node o).key k (f.node o).key_total 0 in
      let le = seek-le (f.node o).key k (f.node o).key_total in
      let at =
        key_at l m (f.node o) o k p i (s.fits o alive) bottom cover room fresh refl i
          (omega arith) in
      record {
        leaf = o;
        alive = alive;
        ground_level = bottom;
        place = i;
        within = rw (update-same f.node o filled, filled-total) (omega arith);
        there = rw (update-same f.node o filled) (at ∙ ground arith);
      }

  keeps_key : (x q : ℕ) → m x ≡ some q → Held (update f.node o filled) l x
  unfolding filled index
  keeps_key x q e =
      let h = s.held x q e in
      let i = seek (f.node o).key k (f.node o).key_total 0 in
      elim (ℕ_discrete o h.leaf) [
        | yes same ↦
            let lt : h.place < (f.node o).key_total =
              subst (λ y. h.place < (f.node y).key_total) (sym same) h.within in
            let there : (f.node o).key h.place ≡ x =
              subst (λ y. (f.node y).key h.place ≡ x) (sym same) h.there in
            let (within, keeps) =
              kept_lem l m (f.node o) o k p i (s.fits o alive) bottom cover room fresh refl h.place
                lt in
            record {
              leaf = o;
              alive = alive;
              ground_level = bottom;
              place =
                  kept_place l m (f.node o) o k p i (s.fits o alive) bottom cover room fresh refl
                    h.place;
              within = rw (update-same f.node o filled, filled-total) within;
              there = rw (update-same f.node o filled) (keeps ∙ there);
            }
        | no other ↦ record {
          leaf = h.leaf;
          alive = h.alive;
          ground_level = h.ground_level;
          place = h.place;
          within = rw (update-other f.node o filled h.leaf other) h.within;
          there = rw (update-other f.node o filled h.leaf other) h.there;
        }
      ]

  pub file_key-Shape :
      Shape
        (write_node f o (insert_leaf (f.node o) (seek (f.node o).key k (f.node o).key_total 0) k p))
        l
        (update m k (some p))
  unfolding write_node filled index
  file_key-Shape = record {
    root = s.root;
    lowest = s.lowest;
    highest = s.highest;
    placed = λ x at. ground (arith, s.placed x at);
    fits = λ x at.
        update-each (λ y n. Fits l (update m k (some p)) n y) f.node o filled x
          (λ same.
            subst (λ y. Fits l (update m k (some p)) filled y) same
              (insert_leaf-Fits l m (f.node o) o k p index (s.fits o alive) bottom cover room fresh
                refl))
          (λ other.
            Fits-Extends l m (update m k (some p)) (f.node x) x (absent-Extends m k p fresh)
              (s.fits x at));
    owned = λ x at ne.
        let own = s.owned x at ne in
        let other : o ≢ l.parent x = λ e. omega (arith, ap l.level e, own.above) in
        let same : update f.node o filled (l.parent x) ≡ f.node (l.parent x) =
          update-other f.node o filled (l.parent x) other in
        record {
          alive = own.alive;
          above = own.above;
          place = own.place;
          within = rw same own.within;
          leads = rw same own.leads;
        };
    held = λ x q e. elim (ℕ_discrete k x) [
      | yes here ↦ subst (Held (update f.node o filled) l) here files_key
      | no other ↦ keeps_key x q (sym (update-other m k (some p) x other) ∙ e)
    ];
  }
