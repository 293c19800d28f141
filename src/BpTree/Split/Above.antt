-- ===== src/BpTree/Split/Above.antt =====
-- bptree.cpp: the node above the two that `split` makes of one.
use computer_science_notes.Base.{
  ℕ, ◌+◌, ◌-◌, ◌≤◌, ◌<◌, ◌≡◌, ◌≢◌, refl, sym, ap, ◌∙◌, subst, true, ◌==◌, ◌&&◌, ltb, if◌then◌else◌,
  some, update, arith, ℕ_discrete, dec_lt,
}
use computer_science_notes.BpTree.Node.{Node, max_key}
use computer_science_notes.BpTree.Insert.{split_parent}
use computer_science_notes.BpTree.Arrays.{
  shift_up_low, shift_up_high, shift_up_moved, placed, shift_up-placed, placed-ascending,
  placed-each,
}
use computer_science_notes.BpTree.Shape.{Labels, Index, Child, Fits}
use computer_science_notes.BpTree.Descent.{Covers, Child-Covers, below_unique}
use computer_science_notes.BpTree.Relabel.{update-same, update-other, Child-at}
use computer_science_notes.BpTree.Split.Marks.{
  split_labels, Vacant, split-live, split-level, split-low, split-high, split-parent_elsewhere,
  split-parent_stays,
}

module _ (n child : Node) (i right : ℕ) (le : i ≤ n.key_total) where
  pub above_key :
      (j : ℕ)
      → j < n.key_total + 1
      → (split_parent n child i right).key j ≡ placed n.key i (child.key 2) j
  unfolding split_parent
  above_key j lt = shift_up-placed n.key i n.key_total (child.key 2) j le (omega arith)

  pub above_pointer :
      (j : ℕ)
      → j < n.key_total + 2
      → (split_parent n child i right).pointer j ≡ placed n.pointer (i + 1) right j
  unfolding split_parent
  above_pointer j lt =
      let a = update n.pointer (n.key_total + 1) (n.pointer n.key_total) in
      elim (dec_lt j (i + 1)) [
        | yes before ↦ ground (arith, shift_up_low a i (n.key_total - i) j (omega arith))
        | no not_before ↦ elim (ℕ_discrete j (i + 1)) [
          | yes here ↦ ground arith
          | no later ↦ elim (ℕ_discrete j (n.key_total + 1)) [
            | yes last ↦
                ground
                  (arith, shift_up_high a i (n.key_total - i) j (omega arith), ap n.pointer last)
            | no inside ↦
                let back : j - 1 + 1 ≡ j = omega arith in
                let moved =
                  shift_up_moved a i (n.key_total - i) (j - 1) (omega arith) (omega arith) in
                ground (arith, rw back at moved)
          ]
        ]
      ]

  pub above_total : (split_parent n child i right).key_total ≡ n.key_total + 1
  unfolding split_parent
  above_total = refl

  pub above_kind : (split_parent n child i right).is_leaf ≡ n.is_leaf
  unfolding split_parent
  above_kind = refl

module _ (l : Labels) (m : Index) (n child : Node) (o i right : ℕ) (fit : Fits l m n o)
    (fit' : Fits l m child (n.pointer i)) (alive : l.live o ≡ true) (root : l.live 0 ≡ true)
    (le : i ≤ n.key_total) (inner : l.level o ≢ 0) (room : n.key_total < max_key)
    (full : child.key_total ≡ max_key) (vacant : Vacant l right) where
  abbrev after : Labels
  after = split_labels l o (n.pointer i) right (child.key 2)

  abbrev n' : Node
  n' = split_parent n child i right

  the-Child : Child l n o i
  the-Child = fit.child i le inner

  distinct : o ≢ n.pointer i
  distinct e = omega (arith, ap l.level e, the-Child.below)

  mid-Covers : Covers l (n.pointer i) (child.key 2)
  mid-Covers = fit'.ranged 2 (omega (arith, full))

  mid_high : child.key 2 + 1 < l.high (n.pointer i)
  mid_high = omega (
    arith,
    fit'.ranged 3 (omega (arith, full)),
    fit'.ascending 2 3 (omega arith) (omega (arith, full)),
  )

  before_mid : (j : ℕ) → j < i → n.key j < child.key 2
  before_mid j lt = elim (ℕ_discrete j (i - 1)) [
    | yes e ↦ ground (arith, mid-Covers, the-Child.from, ap n.key e)
    | no ne ↦
        ground
          (arith, mid-Covers, the-Child.from, fit.ascending j (i - 1) (omega arith) (omega arith))
  ]

  after_mid : (j : ℕ) → i ≤ j → j < n.key_total → child.key 2 < n.key j
  after_mid j le' lt = elim (ℕ_discrete i j) [
    | yes e ↦ ground (arith, mid_high, the-Child.upto, ap n.key e)
    | no ne ↦ ground (arith, mid_high, the-Child.upto, fit.ascending i j (omega arith) lt)
  ]

  -- The other children are other nodes.
  other_child : (j : ℕ) → j ≤ n.key_total → j ≢ i → n.pointer i ≢ n.pointer j
  other_child j le' ne e =
      let c = fit.child j le' inner in
      let here = mid-Covers in
      let there = subst (λ x. Covers l x (child.key 2)) e here in
      elim (dec_lt i j) [
        | yes lt ↦
            below_unique l n o i j (child.key 2) fit.ascending the-Child c le le' here there lt
        | no not_lt ↦
            below_unique l n o j i (child.key 2) fit.ascending c the-Child le' le there here
              (omega arith)
      ]

  level_o : after.level o ≡ l.level o
  level_o = split-level l o (n.pointer i) right (child.key 2) o (vacant o alive)

  low_o : after.low o ≡ l.low o
  low_o = split-low l o (n.pointer i) right (child.key 2) o (vacant o alive)

  high_o : after.high o ≡ l.high o
  high_o =
      split-high l o (n.pointer i) right (child.key 2) o (vacant o alive) (λ e. distinct (sym e))

  top_level : after.level 0 ≡ l.level 0
  top_level = split-level l o (n.pointer i) right (child.key 2) 0 (vacant 0 root)

  -- A child that was the `j`-th and is the `j'`-th.
  kept_Child :
      (j j' : ℕ)
      → j ≤ n.key_total
      → j ≢ i
      → n'.pointer j' ≡ n.pointer j
      → (if j == 0 then l.low o else n.key (j - 1) + 1)
        ≡ (if j' == 0 then l.low o else n'.key (j' - 1) + 1)
      → (if j == n.key_total then l.high o else n.key j + 1)
        ≡ (if j' == n'.key_total then l.high o else n'.key j' + 1)
      → Child after n' o j'
  kept_Child j j' le' ne e from upto =
      let c = fit.child j le' inner in
      let g = n.pointer j in
      let mid = child.key 2 in
      let old = vacant g c.alive in
      Child-at after n' o j' g e (split-live l o (n.pointer i) right mid g c.alive)
        (rw (split-level l o (n.pointer i) right mid g old, level_o) c.below)
        (split-parent_elsewhere l o (n.pointer i) right mid g old
            (λ e'. distinct (sym c.belongs ∙ e'))
          ∙ c.belongs)
        (split-low l o (n.pointer i) right mid g old ∙ c.from ∙ rw low_o from)
        (split-high l o (n.pointer i) right mid g old (other_child j le' ne)
          ∙ c.upto
          ∙ rw high_o upto)

  total' : n'.key_total ≡ n.key_total + 1
  total' = above_total n child i right le

  key_at : (j : ℕ) → j < n.key_total + 1 → n'.key j ≡ placed n.key i (child.key 2) j
  key_at = above_key n child i right le

  pointer_at : (j : ℕ) → j < n.key_total + 2 → n'.pointer j ≡ placed n.pointer (i + 1) right j
  pointer_at = above_pointer n child i right le

  left-Child : Child after n' o i
  left-Child =
      let c = n.pointer i in
      let mid = child.key 2 in
      let old = vacant c the-Child.alive in
      Child-at after n' o i c (pointer_at i (omega arith) ∙ ground arith)
        (split-live l o c right mid c the-Child.alive)
        (rw (split-level l o c right mid c old, level_o) the-Child.below)
        (split-parent_stays l o c right mid c old (mid-Covers.0) ∙ the-Child.belongs)
        (split-low l o c right mid c old
          ∙ the-Child.from
          ∙ rw low_o (elim (ℕ_discrete i 0) [
            | yes e ↦ ground arith
            | no ne ↦ ground (arith, key_at (i - 1) (omega arith))
          ]))
        (update-same (update l.high right (l.high c)) c (mid + 1)
          ∙ rw total' (ground (arith, key_at i (omega arith))))

  right-Child : Child after n' o (i + 1)
  right-Child =
      let c = n.pointer i in
      let mid = child.key 2 in
      let old = vacant c the-Child.alive in
      Child-at after n' o (i + 1) right (pointer_at (i + 1) (omega arith) ∙ ground arith)
        (update-same l.live right true)
        (rw (update-same l.level right (l.level c), level_o) the-Child.below)
        (update-same (λ x. if l.parent x == c && ltb mid (l.low x) then right else l.parent x) right
          o)
        (update-same l.low right (mid + 1) ∙ ground (arith, key_at i (omega arith)))
        (update-other (update l.high right (l.high c)) c (mid + 1) right (λ e. old (sym e))
          ∙ update-same l.high right (l.high c)
          ∙ the-Child.upto
          ∙ rw (high_o, total')
              (elim (ℕ_discrete i n.key_total) [
                | yes e ↦ ground arith
                | no ne ↦ ground (arith, key_at (i + 1) (omega arith))
              ]))

  before_Child : (j : ℕ) → j < i → Child after n' o j
  before_Child j lt =
      kept_Child j j (omega arith) (omega arith) (pointer_at j (omega arith) ∙ ground arith)
        (elim (ℕ_discrete j 0) [
          | yes e ↦ ground arith
          | no ne ↦ ground (arith, key_at (j - 1) (omega arith))
        ])
        (rw total' (ground (arith, key_at j (omega arith))))

  later_Child : (j : ℕ) → i < j → j ≤ n.key_total → Child after n' o (j + 1)
  later_Child j lt le' =
      kept_Child j (j + 1) le' (omega arith) (pointer_at (j + 1) (omega arith) ∙ ground arith)
        (ground (arith, key_at j (omega arith)))
        (rw total' (elim (ℕ_discrete j n.key_total) [
          | yes e ↦ ground arith
          | no ne ↦ ground (arith, key_at (j + 1) (omega arith))
        ]))

  every_Child : (j : ℕ) → j ≤ n.key_total + 1 → Child after n' o j
  every_Child j le' = elim (dec_lt j i) [
    | yes before ↦ before_Child j before
    | no not_before ↦ elim (ℕ_discrete j i) [
      | yes e ↦ subst (Child after n' o) (sym e) left-Child
      | no ne ↦ elim (ℕ_discrete j (i + 1)) [
        | yes e ↦ subst (Child after n' o) (sym e) right-Child
        | no ne' ↦
            let back : j - 1 + 1 ≡ j = omega arith in
            subst (Child after n' o) back (later_Child (j - 1) (omega arith) (omega arith))
      ]
    ]
  ]

  key_each :
      (P : ℕ → Type 0)
      → ((j : ℕ) → j < n.key_total → P (n.key j))
      → P (child.key 2)
      → (j : ℕ) → j < n.key_total + 1
      → P (n'.key j)
  key_each P each new j lt =
      subst P (sym (key_at j lt)) (placed-each P n.key i n.key_total (child.key 2) each new le j lt)

  pub split_parent-Fits : Fits after m n' o
  split_parent-Fits = record {
    small = omega (arith, above_total n child i right le);
    kind = above_kind n child i right le ∙ rw level_o fit.kind;
    under = rw (level_o, top_level) fit.under;
    nonempty = rw (low_o, high_o) fit.nonempty;
    ascending = λ a b lt lt'.
        rw (key_at a (omega (arith, total')), key_at b (omega (arith, total')))
          (placed-ascending n.key i n.key_total (child.key 2) fit.ascending le before_mid after_mid
            a b lt (omega (arith, total')));
    ranged = λ j lt.
        rw (low_o, high_o)
          (key_each (λ x. (l.low o ≤ x) × (x < l.high o)) fit.ranged
            (Child-Covers l m n o i (child.key 2) fit the-Child le mid-Covers) j
            (omega (arith, total')));
    known = λ j lt.
        key_each (λ x. (q : ℕ) × (m x ≡ some q)) fit.known (fit'.known 2 (omega (arith, full))) j
          (omega (arith, total'));
    filed = λ j lt bottom. absurd (inner (sym level_o ∙ bottom));
    child = λ j le' _. every_Child j (omega (arith, above_total n child i right le));
  }
