-- ===== src/BpTree/Descent.antt =====
-- bptree.cpp: the way of `query_pos` from the root down, and why there is no other.
use computer_science_notes.Base.{
  ℕ, zero, suc, ◌+◌, ◌-◌, ◌≤◌, ◌<◌, ◌≡◌, ◌≢◌, sym, ap, ◌∙◌, subst, true, some, arith, ℕ_discrete,
  dec_lt,
}
use computer_science_notes.BpTree.Node.{Node, File, read_node}
use computer_science_notes.BpTree.Search.{seek}
use computer_science_notes.BpTree.Arrays.{seek_bounds, seek_below, seek_at}
use computer_science_notes.BpTree.Shape.{Labels, Index, IsAscending, Child, Fits, Shape}

abbrev pub Covers : Labels → ℕ → ℕ → Type 0
Covers l o k = (l.low o ≤ k) × (k < l.high o)

-- The child between two keys has the keys between them.
pub between-Covers :
    (l : Labels) (n : Node) (o i k : ℕ)
    → Child l n o i
    → Covers l o k
    → (0 < i → n.key (i - 1) < k)
    → (i < n.key_total → k ≤ n.key i)
    → i ≤ n.key_total
    → Covers l (n.pointer i) k
between-Covers l n o i k c cover after until within = (
  elim (ℕ_discrete i 0) [ yes e ↦ ground arith | no ne ↦ ground (arith, after (omega arith)) ],
  elim (ℕ_discrete i n.key_total) [
    | yes e ↦ ground arith
    | no ne ↦ ground (arith, until (omega arith))
  ],
)

pub seek-le : (key : ℕ → ℕ) (k n : ℕ) → seek key k n 0 ≤ n
seek-le key k n = omega (arith, (seek_bounds key k n 0).1)

pub seek-Covers :
    (l : Labels) (n : Node) (o k : ℕ)
    → Child l n o (seek n.key k n.key_total 0)
    → Covers l o k
    → Covers l (n.pointer (seek n.key k n.key_total 0)) k
seek-Covers l n o k c cover =
    between-Covers l n o (seek n.key k n.key_total 0) k c cover
      (λ pos.
        seek_below n.key k n.key_total 0 (seek n.key k n.key_total 0 - 1) (omega arith)
          (omega arith))
      (λ lt. seek_at n.key k n.key_total 0 (omega arith)) (seek-le n.key k n.key_total)

-- In an ascending array `seek` finds the key that is there.
pub seek_found :
    (key : ℕ → ℕ) (k n j : ℕ) → IsAscending key n → j < n → key j ≡ k → seek key k n 0 ≡ j
seek_found key k n j asc lt e = elim (dec_lt j (seek key k n 0)) [
  | yes past ↦ absurd (omega (arith, seek_below key k n 0 j (omega arith) past))
  | no upto ↦ elim (dec_lt (seek key k n 0) j) [
    | yes short ↦
        absurd (omega (arith, seek_at key k n 0 (omega arith), asc (seek key k n 0) j short lt))
    | no same ↦ omega arith
  ]
]

pub read_node-live :
    (f : File) (l : Labels) (m : Index) (o : ℕ)
    → Shape f l m
    → l.live o ≡ true
    → read_node f o ≡ f.node o
unfolding read_node
read_node-live f l m o s alive = ground (arith, s.placed o alive)

-- The child on whose side of the keys `k` is, is the only one that covers `k`.
pub below_unique :
    (l : Labels) (n : Node) (o i j k : ℕ)
    → IsAscending n.key n.key_total
    → Child l n o i
    → Child l n o j
    → i ≤ n.key_total
    → j ≤ n.key_total
    → Covers l (n.pointer i) k
    → Covers l (n.pointer j) k
    → i < j
    → ⊥
below_unique l n o i j k asc c d le le' cover cover' lt = elim (ℕ_discrete i (j - 1)) [
  | yes e ↦ ground (arith, ap n.key e)
  | no ne ↦ ground (arith, asc i (j - 1) (omega arith) (omega arith))
]

-- What a child covers, its parent covers.
pub Child-Covers :
    (l : Labels) (m : Index) (n : Node) (o i k : ℕ)
    → Fits l m n o
    → Child l n o i
    → i ≤ n.key_total
    → Covers l (n.pointer i) k
    → Covers l o k
Child-Covers l m n o i k fit c le cover = (
  elim (ℕ_discrete i 0) [
    | yes e ↦ ground arith
    | no ne ↦ ground (arith, fit.ranged (i - 1) (omega arith))
  ],
  elim (ℕ_discrete i n.key_total) [
    | yes e ↦ ground arith
    | no ne ↦ ground (arith, fit.ranged i (omega arith))
  ],
)

module _ (f : File) (l : Labels) (m : Index) (s : Shape f l m) where
  top_is_root : (o : ℕ) → l.live o ≡ true → l.level o ≡ l.level 0 → o ≡ 0
  top_is_root o alive top = elim (ℕ_discrete o 0) [
    | yes e ↦ e
    | no ne ↦
        let own = s.owned o alive ne in
        absurd (omega (arith, own.above, (s.fits (l.parent o) own.alive).under))
  ]

  pub owner_Child :
      (o : ℕ) (alive : l.live o ≡ true) (ne : o ≢ 0)
      → Child l (f.node (l.parent o)) (l.parent o) (s.owned o alive ne).place
  owner_Child o alive ne =
      let own = s.owned o alive ne in
      (s.fits (l.parent o) own.alive).child own.place own.within (omega (arith, own.above))

  pub owner_Covers :
      (o k : ℕ) (alive : l.live o ≡ true) (ne : o ≢ 0) → Covers l o k → Covers l (l.parent o) k
  owner_Covers o k alive ne cover =
      let own = s.owned o alive ne in
      Child-Covers l m (f.node (l.parent o)) (l.parent o) own.place k
        (s.fits (l.parent o) own.alive) (owner_Child o alive ne) own.within
        (subst (λ x. Covers l x k) (sym own.leads) cover)

  same_place :
      (n : Node) (o i j k a b : ℕ)
      → Fits l m n o
      → l.level o ≢ 0
      → i ≤ n.key_total
      → j ≤ n.key_total
      → n.pointer i ≡ a
      → n.pointer j ≡ b
      → Covers l a k
      → Covers l b k
      → a ≡ b
  same_place n o i j k a b fit inner le le' e e' cover cover' =
      let at_i = subst (λ x. Covers l x k) (sym e) cover in
      let at_j = subst (λ x. Covers l x k) (sym e') cover' in
      let c = fit.child i le inner in
      let d = fit.child j le' inner in
      elim (dec_lt i j) [
        | yes lt ↦ absurd (below_unique l n o i j k fit.ascending c d le le' at_i at_j lt)
        | no not_lt ↦ elim (dec_lt j i) [
          | yes lt ↦ absurd (below_unique l n o j i k fit.ascending d c le' le at_j at_i lt)
          | no not_gt ↦ let same : i ≡ j = omega arith in sym e ∙ ap n.pointer same ∙ e'
        ]
      ]

  -- On each level one node covers a key.
  pub level_unique :
      (gap a b k : ℕ)
      → l.live a ≡ true
      → l.live b ≡ true
      → l.level a + gap ≡ l.level 0
      → l.level b ≡ l.level a
      → Covers l a k
      → Covers l b k
      → a ≡ b
  level_unique zero a b k alive alive' up same cover cover' =
      top_is_root a alive (omega arith) ∙ sym (top_is_root b alive' (omega arith))
  level_unique (suc gap) a b k alive alive' up same cover cover' =
      let ne : a ≢ 0 = λ e. absurd (omega (arith, ap l.level e)) in
      let ne' : b ≢ 0 = λ e. absurd (omega (arith, ap l.level e)) in
      let own = s.owned a alive ne in
      let own' = s.owned b alive' ne' in
      let together : l.parent a ≡ l.parent b =
        level_unique gap (l.parent a) (l.parent b) k own.alive own'.alive (omega (arith, own.above))
          (omega (arith, own.above, own'.above)) (owner_Covers a k alive ne cover)
          (owner_Covers b k alive' ne' cover') in
      same_place (f.node (l.parent a)) (l.parent a) own.place own'.place k a b
        (s.fits (l.parent a) own.alive) (omega (arith, own.above)) own.within
        (subst (λ x. own'.place ≤ (f.node x).key_total) (sym together) own'.within) own.leads
        (subst (λ x. (f.node x).pointer own'.place ≡ b) (sym together) own'.leads) cover cover'

  -- The leaf that covers a key has it, if any has.
  pub leaf_has :
      (o k q : ℕ)
      → l.live o ≡ true
      → l.level o ≡ 0
      → Covers l o k
      → m k ≡ some q
      → (j : ℕ) × (j < (f.node o).key_total) × ((f.node o).key j ≡ k)
  leaf_has o k q alive low cover e =
      let h = s.held k q e in
      let fit = s.fits h.leaf h.alive in
      let here : h.leaf ≡ o =
        level_unique (l.level 0) h.leaf o k h.alive alive (omega (arith, h.ground_level))
          (omega (arith, h.ground_level)) (ground (arith, fit.ranged h.place h.within, h.there))
          cover in
      (
        h.place,
        subst (λ x. h.place < (f.node x).key_total) here h.within,
        subst (λ x. (f.node x).key h.place ≡ k) here h.there,
      )
