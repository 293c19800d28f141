-- ===== src/BpTree/Split/Halves.antt =====
-- bptree.cpp: the two nodes that `split` makes of a full one.
use computer_science_notes.Base.{
  ℕ, ◌+◌, ◌-◌, ◌≤◌, ◌<◌, ◌≡◌, ◌≢◌, refl, sym, ap, ◌∙◌, true, false, ◌==◌, if◌then◌else◌, update,
  arith, ℕ_discrete,
}
use computer_science_notes.BpTree.Node.{Node, copy_range, max_key}
use computer_science_notes.BpTree.Insert.{split_right, split_child}
use computer_science_notes.BpTree.Shape.{Labels, Index, Child, Fits}
use computer_science_notes.BpTree.Relabel.{update-same, Child-at}
use computer_science_notes.BpTree.Split.Marks.{
  split_labels, Vacant, split-live, split-level, split-low, split-high, split-parent_stays,
  split-parent_moves,
}

module _ (l : Labels) (m : Index) (child : Node) (o c right : ℕ) (fit : Fits l m child c)
    (alive : l.live c ≡ true) (root : l.live 0 ≡ true) (full : child.key_total ≡ max_key)
    (vacant : Vacant l right) where
  abbrev pub after : Labels
  after = split_labels l o c right (child.key 2)

  pub split_right_key : (j : ℕ) → j < 2 → (split_right child).key j ≡ child.key (j + 3)
  unfolding split_right copy_range
  split_right_key j lt = elim (ℕ_discrete j 0) [
    | yes e ↦ rw e (ground arith)
    | no ne ↦ let e : j ≡ 1 = omega arith in rw e (ground arith)
  ]

  pub split_right_pointer : (j : ℕ) → j < 3 → (split_right child).pointer j ≡ child.pointer (j + 3)
  unfolding split_right copy_range
  split_right_pointer j lt = elim (ℕ_discrete j 0) [
    | yes e ↦ rw e (ground arith)
    | no ne ↦ elim (ℕ_discrete j 1) [
      | yes e ↦ rw e (ground arith)
      | no ne' ↦ let e : j ≡ 2 = omega arith in rw e (ground arith)
    ]
  ]

  mid_below : (j : ℕ) → 2 < j → j < max_key → child.key 2 < child.key j
  mid_below j lt lt' = fit.ascending 2 j lt (omega (arith, full))

  left_below : (j : ℕ) → j < 3 → child.key j ≤ child.key 2
  left_below j lt = elim (ℕ_discrete j 2) [
    | yes e ↦ omega (arith, ap child.key e)
    | no ne ↦ omega (arith, fit.ascending j 2 (omega arith) (omega (arith, full)))
  ]

  apart : right ≢ c
  apart = vacant c alive

  -- A child of the full node, its labels as they were.
  module _ (j : ℕ) (le : j ≤ max_key) (inner : l.level c ≢ 0) where
    below : Child l child c j
    below = fit.child j (omega (arith, full)) inner

    old : right ≢ child.pointer j
    old = vacant (child.pointer j) below.alive

    lower : c ≢ child.pointer j
    lower e = omega (arith, ap l.level e, below.below)

    pub goes_left_low : j < 3 → l.low (child.pointer j) ≤ child.key 2
    goes_left_low lt = elim (ℕ_discrete j 0) [
      | yes e ↦ ground (arith, below.from, fit.ranged 2 (omega (arith, full)))
      | no ne ↦
          ground (arith, below.from, fit.ascending (j - 1) 2 (omega arith) (omega (arith, full)))
    ]

    pub goes_right_low : 2 < j → child.key 2 < l.low (child.pointer j)
    goes_right_low lt = elim (ℕ_discrete j 3) [
      | yes e ↦ ground (arith, below.from, e)
      | no ne ↦
          ground (arith, below.from, fit.ascending 2 (j - 1) (omega arith) (omega (arith, full)))
    ]

  right_low : after.low right ≡ child.key 2 + 1
  right_low = update-same l.low right (child.key 2 + 1)

  right_high : after.high right ≡ l.high c
  right_high = ground (arith, apart)

  right_level : after.level right ≡ l.level c
  right_level = update-same l.level right (l.level c)

  pub right_total : (split_right child).key_total ≡ 2
  unfolding split_right
  right_total = refl

  right_kind : (split_right child).is_leaf ≡ child.is_leaf
  unfolding split_right
  right_kind = refl

  top_level : after.level 0 ≡ l.level 0
  top_level = split-level l o c right (child.key 2) 0 (vacant 0 root)

  right_from :
      (j : ℕ)
      → j ≤ 2
      → l.level c ≢ 0
      → l.low (child.pointer (j + 3))
        ≡ (if j == 0 then after.low right else (split_right child).key (j - 1) + 1)
  right_from j le inner =
      let b = below (j + 3) (omega arith) inner in
      elim (ℕ_discrete j 0) [
        | yes e ↦ rw (right_low, e) (rw e at b.from)
        | no ne ↦
            let same : j - 1 + 3 ≡ j + 3 - 1 = omega arith in
            ground (arith, b.from, split_right_key (j - 1) (omega arith), ap child.key same)
      ]

  right_upto :
      (j : ℕ)
      → j ≤ 2
      → l.level c ≢ 0
      → l.high (child.pointer (j + 3)) ≡ (
          if j == (split_right child).key_total
          then after.high right
          else (split_right child).key j + 1)
  right_upto j le inner =
      let b = below (j + 3) (omega arith) inner in
      elim (ℕ_discrete j 2) [
        | yes e ↦ rw (right_total, right_high) (ground (arith, b.upto, full))
        | no ne ↦ rw (right_total, split_right_key j (omega arith)) (ground (arith, b.upto, full))
      ]

  right-Child : (j : ℕ) → j ≤ 2 → l.level c ≢ 0 → Child after (split_right child) right j
  right-Child j le inner =
      let three = j + 3 in
      let b = below three (omega arith) inner in
      let g = child.pointer three in
      let new = old three (omega arith) inner in
      Child-at after (split_right child) right j g (split_right_pointer j (omega arith))
        (split-live l o c right (child.key 2) g b.alive)
        (rw (split-level l o c right (child.key 2) g new, right_level) b.below)
        (split-parent_moves l o c right (child.key 2) g new b.belongs
          (goes_right_low three (omega arith) inner (omega arith)))
        (split-low l o c right (child.key 2) g new ∙ right_from j le inner)
        (split-high l o c right (child.key 2) g new (lower three (omega arith) inner)
          ∙ right_upto j le inner)

  pub split_right-Fits : Fits after m (split_right child) right
  split_right-Fits = record {
    small = omega (arith, right_total);
    kind = right_kind ∙ rw right_level fit.kind;
    under = rw (right_level, top_level) fit.under;
    nonempty =
        rw (right_low, right_high)
          (omega
            (arith, mid_below 3 (omega arith) (omega arith), fit.ranged 3 (omega (arith, full))));
    ascending = λ a b lt lt'.
        rw
          (
            split_right_key a (omega (arith, right_total)),
            split_right_key b (omega (arith, right_total)),
          )
          (fit.ascending (a + 3) (b + 3) (omega arith) (omega (arith, full, right_total)));
    ranged = λ j lt.
        rw (right_low, right_high, split_right_key j (omega (arith, right_total)))
          (omega (
            arith,
            mid_below (j + 3) (omega arith) (omega (arith, right_total)),
            fit.ranged (j + 3) (omega (arith, full, right_total)),
          ));
    known = λ j lt.
        rw (split_right_key j (omega (arith, right_total)))
          (fit.known (j + 3) (omega (arith, full, right_total)));
    filed = λ j lt bottom.
        rw
          (
            split_right_key j (omega (arith, right_total)),
            split_right_pointer j (omega (arith, right_total)),
          )
          (fit.filed (j + 3) (omega (arith, full, right_total)) (sym right_level ∙ bottom));
    child = λ j le inner. right-Child j (omega (arith, right_total)) (λ e. inner (right_level ∙ e));
  }

  pub left_key : (j : ℕ) → (split_child child right).key j ≡ child.key j
  unfolding split_child
  left_key j = ground arith

  pub left_pointer : (j : ℕ) → j < max_key → (split_child child right).pointer j ≡ child.pointer j
  unfolding split_child
  left_pointer j lt = ground arith

  pub left_total :
      (2 ≤ (split_child child right).key_total)
      × ((split_child child right).key_total ≤ 3)
      × (child.is_leaf ≡ false → (split_child child right).key_total ≡ 2)
      × (child.is_leaf ≡ true → (split_child child right).key_total ≡ 3)
  unfolding split_child
  left_total = ground arith

  left_kind : (split_child child right).is_leaf ≡ child.is_leaf
  unfolding split_child
  left_kind = ground arith

  left_high : after.high c ≡ child.key 2 + 1
  left_high = update-same (update l.high right (l.high c)) c (child.key 2 + 1)

  left_low : after.low c ≡ l.low c
  left_low = split-low l o c right (child.key 2) c apart

  left_level : after.level c ≡ l.level c
  left_level = split-level l o c right (child.key 2) c apart

  left_from :
      (j : ℕ)
      → j ≤ 2
      → l.level c ≢ 0
      → l.low (child.pointer j)
        ≡ (if j == 0 then after.low c else (split_child child right).key (j - 1) + 1)
  left_from j le inner = rw (left_low, left_key (j - 1)) (below j (omega arith) inner).from

  left_upto :
      (j : ℕ)
      → j ≤ 2
      → (split_child child right).key_total ≡ 2
      → l.level c ≢ 0
      → l.high (child.pointer j) ≡ (
          if j == (split_child child right).key_total
          then after.high c
          else (split_child child right).key j + 1)
  left_upto j le two inner =
      let b = below j (omega arith) inner in
      rw (left_high, left_key j, two) (ground (arith, b.upto, full, ap child.key))

  left-Child :
      (j : ℕ)
      → j ≤ 2
      → (split_child child right).key_total ≡ 2
      → l.level c ≢ 0
      → Child after (split_child child right) c j
  left-Child j le two inner =
      let b = below j (omega arith) inner in
      let g = child.pointer j in
      let new = old j (omega arith) inner in
      Child-at after (split_child child right) c j g (left_pointer j (omega arith))
        (split-live l o c right (child.key 2) g b.alive)
        (rw (split-level l o c right (child.key 2) g new, left_level) b.below)
        (split-parent_stays l o c right (child.key 2) g new
            (goes_left_low j (omega arith) inner (omega arith))
          ∙ b.belongs)
        (split-low l o c right (child.key 2) g new ∙ left_from j le inner)
        (split-high l o c right (child.key 2) g new (lower j (omega arith) inner)
          ∙ left_upto j le two inner)

  pub split_child-Fits : Fits after m (split_child child right) c
  split_child-Fits = record {
    small = omega (arith, left_total.1);
    kind = left_kind ∙ rw left_level fit.kind;
    under = rw (left_level, top_level) fit.under;
    nonempty = rw (left_low, left_high) (omega (arith, fit.ranged 2 (omega (arith, full))));
    ascending = λ a b lt lt'.
        rw (left_key a, left_key b) (fit.ascending a b lt (omega (arith, full, left_total.1)));
    ranged = λ j lt.
        rw (left_low, left_high, left_key j)
          (omega (
            arith,
            left_below j (omega (arith, left_total.1)),
            fit.ranged j (omega (arith, full, left_total.1)),
          ));
    known = λ j lt. rw (left_key j) (fit.known j (omega (arith, full, left_total.1)));
    filed = λ j lt bottom.
        rw (left_key j, left_pointer j (omega (arith, left_total.1)))
          (fit.filed j (omega (arith, full, left_total.1)) (sym left_level ∙ bottom));
    child = λ j le inner.
        let inner' : l.level c ≢ 0 = λ e. inner (left_level ∙ e) in
        let two = left_total.2 (fit.kind ∙ ground (arith, inner')) in
        left-Child j (omega (arith, two)) two inner';
  }
