-- ===== src/BpTree/Remove/Siblings.antt =====
-- bptree.cpp: a change of two leaves side by side and of the separator between them, as the cases A,
-- B, D, N and P of `remove_pos` make it.
use computer_science_notes.Base.{
  ℕ, ◌+◌, ◌-◌, ◌≤◌, ◌<◌, ◌≡◌, ◌≢◌, refl, sym, ap, ◌∙◌, subst, ◌⊎◌, inl, inr, true, some, update,
  arith, ℕ_discrete, dec_lt,
}
use computer_science_notes.BpTree.Node.{Node, File}
use computer_science_notes.BpTree.Shape.{
  Labels, Index, IsAscending, Child, Fits, Owned, Held, Shape,
}
use computer_science_notes.BpTree.Descent.{Covers, Child-Covers, below_unique}
use computer_science_notes.BpTree.Relabel.{
  update-each, update-same, update-other, Child-at, Owned-at, Fits-relabel,
}
use computer_science_notes.BpTree.Remove.Pair.{
  Has, move_labels, with_separator, IsPair, IsChange, IsWritten,
}

module _ (f : File) (l : Labels) (m m' : Index) (s : Shape f l m) (o i sep : ℕ) (left right : Node)
    (z : IsPair f l o i) where
  abbrev n : Node
  n = f.node o

  abbrev a : ℕ
  a = n.pointer i

  abbrev b : ℕ
  b = n.pointer (i + 1)

  abbrev after : Labels
  after = move_labels l a b sep

  fit : Fits l m n o
  fit = s.fits o z.alive

  child : (j : ℕ) → j ≤ n.key_total → Child l n o j
  child j le = fit.child j le (λ e. absurd (omega (arith, z.low_level)))

  pub left_alive : l.live a ≡ true
  left_alive = (child i (omega (arith, z.within))).alive

  pub right_alive : l.live b ≡ true
  right_alive = (child (i + 1) (omega (arith, z.within))).alive

  pub left_bottom : l.level a ≡ 0
  left_bottom = omega (arith, (child i (omega (arith, z.within))).below, z.low_level)

  pub right_bottom : l.level b ≡ 0
  right_bottom = omega (arith, (child (i + 1) (omega (arith, z.within))).below, z.low_level)

  pub left_ne_parent : a ≢ o
  left_ne_parent e = omega (arith, ap l.level e, left_bottom, z.low_level)

  pub right_ne_parent : b ≢ o
  right_ne_parent e = omega (arith, ap l.level e, right_bottom, z.low_level)

  -- Children at different places are different nodes.
  places_apart : (p q : ℕ) → p < q → q ≤ n.key_total → n.pointer p ≢ n.pointer q
  places_apart p q lt le e =
      let c = child p (omega arith) in
      let d = child q le in
      let some_key = (s.fits (n.pointer p) c.alive).nonempty in
      below_unique l n o p q (l.low (n.pointer p)) fit.ascending c d (omega arith) le
        (omega arith, some_key)
        (subst (λ y. Covers l y (l.low (n.pointer p))) e (omega arith, some_key)) lt

  pub left_ne_right : a ≢ b
  left_ne_right = places_apart i (i + 1) (omega arith) (omega (arith, z.within))

  pub left_high : l.high a ≡ n.key i + 1
  left_high = ground (arith, (child i (omega (arith, z.within))).upto, z.within)

  pub right_low : l.low b ≡ n.key i + 1
  right_low =
      let back : i + 1 - 1 ≡ i = omega arith in
      ground (arith, (child (i + 1) (omega (arith, z.within))).from, ap n.key back)

  low_kept : (x : ℕ) → b ≢ x → after.low x ≡ l.low x
  low_kept x ne = update-other l.low b (sep + 1) x ne

  high_kept : (x : ℕ) → a ≢ x → after.high x ≡ l.high x
  high_kept x ne = update-other l.high a (sep + 1) x ne

  module _ (w : IsChange f l m m' o i sep left right) where
    abbrev n' : Node
    n' = with_separator n i sep

    separator_after : (j : ℕ) → i < j → j < n.key_total → sep < n.key j
    separator_after j lt lt' =
        let c = child (i + 1) (omega (arith, z.within)) in
        elim (ℕ_discrete j (i + 1)) [
          | yes e ↦ ground (arith, c.upto, w.upto, ap n.key e)
          | no ne ↦ ground (arith, c.upto, w.upto, fit.ascending (i + 1) j (omega arith) lt')
        ]

    separator_before : (j : ℕ) → j < i → n.key j < sep
    separator_before j lt =
        let c = child i (omega (arith, z.within)) in
        elim (ℕ_discrete j (i - 1)) [
          | yes e ↦ ground (arith, c.from, w.from, ap n.key e)
          | no ne ↦ ground (
            arith,
            c.from,
            w.from,
            fit.ascending j (i - 1) (omega arith) (omega (arith, z.within)),
          )
        ]

    separator-IsAscending : IsAscending n'.key n.key_total
    separator-IsAscending p q lt lt' = elim (ℕ_discrete i p) [
      | yes e ↦ ground (arith, separator_after q (omega arith) lt')
      | no ne ↦ elim (ℕ_discrete i q) [
        | yes e ↦ ground (arith, separator_before p (omega arith))
        | no ne' ↦ ground (arith, fit.ascending p q lt lt')
      ]
    ]

    separator_ranged : (l.low o ≤ sep) × (sep < l.high o)
    separator_ranged =
        let le : i ≤ n.key_total = omega (arith, z.within) in
        let le' : i + 1 ≤ n.key_total = omega (arith, z.within) in
        let first =
          Child-Covers l m n o i (l.low a) fit (child i le) le
            (omega arith, (s.fits a left_alive).nonempty) in
        let some_key = (s.fits b right_alive).nonempty in
        let last =
          Child-Covers l m n o (i + 1) (l.high b - 1) fit (child (i + 1) le') le'
            (omega arith, omega arith) in
        (omega (arith, first, w.from), omega (arith, last, w.upto))

    other_Child : (j : ℕ) → j ≤ n.key_total → j ≢ i → j ≢ i + 1 → Child after n' o j
    other_Child j le ne ne' =
        let c = child j le in
        let y = n.pointer j in
        let not_a : a ≢ y = elim (dec_lt i j) [
          | yes lt ↦ places_apart i j lt le
          | no not_lt ↦ λ e. places_apart j i (omega arith) (omega (arith, z.within)) (sym e)
        ] in
        let not_b : b ≢ y = elim (dec_lt (i + 1) j) [
          | yes lt ↦ places_apart (i + 1) j lt le
          | no not_lt ↦ λ e. places_apart j (i + 1) (omega arith) (omega (arith, z.within)) (sym e)
        ] in
        Child-at after n' o j y refl c.alive c.below c.belongs
          (low_kept y not_b
            ∙ c.from
            ∙ rw (low_kept o right_ne_parent) (elim (ℕ_discrete j 0) [
              | yes e ↦ ground arith
              | no pos ↦ ground (arith, update-other n.key i sep (j - 1) (omega arith))
            ]))
          (high_kept y not_a
            ∙ c.upto
            ∙ rw (high_kept o left_ne_parent)
                (ground (arith, update-other n.key i sep j (omega arith))))

    left-Child : Child after n' o i
    left-Child =
        let c = child i (omega (arith, z.within)) in
        Child-at after n' o i a refl c.alive c.below c.belongs
          (low_kept a (λ e. left_ne_right (sym e))
            ∙ c.from
            ∙ rw (low_kept o right_ne_parent) (elim (ℕ_discrete i 0) [
              | yes e ↦ ground arith
              | no pos ↦ ground (arith, update-other n.key i sep (i - 1) (omega arith))
            ]))
          (update-same l.high a (sep + 1) ∙ ground (arith, z.within, update-same n.key i sep))

    right-Child : Child after n' o (i + 1)
    right-Child =
        let c = child (i + 1) (omega (arith, z.within)) in
        let back : i + 1 - 1 ≡ i = omega arith in
        let here : update n.key i sep (i + 1 - 1) ≡ sep =
          ap (update n.key i sep) back ∙ update-same n.key i sep in
        Child-at after n' o (i + 1) b refl c.alive c.below c.belongs
          (update-same l.low b (sep + 1) ∙ ground (arith, here))
          (high_kept b left_ne_right
            ∙ c.upto
            ∙ rw (high_kept o left_ne_parent)
                (ground (arith, update-other n.key i sep (i + 1) (omega arith))))

    parent-Fits : Fits after m' n' o
    parent-Fits = record {
      small = fit.small;
      kind = fit.kind;
      under = fit.under;
      nonempty = rw (low_kept o right_ne_parent, high_kept o left_ne_parent) fit.nonempty;
      ascending = separator-IsAscending;
      ranged = λ j lt.
          rw (low_kept o right_ne_parent, high_kept o left_ne_parent)
            (update-each (λ y x. (l.low o ≤ x) × (x < l.high o)) n.key i sep j
              (λ _. separator_ranged) (λ _. fit.ranged j lt));
      known = λ j lt.
          update-each (λ y x. (q : ℕ) × (m' x ≡ some q)) n.key i sep j (λ _. w.known)
            (λ ne. w.separators j lt (λ e. ne (sym e)));
      filed = λ j lt low. absurd (omega (arith, z.low_level));
      child = λ j le _. elim (ℕ_discrete j i) [
        | yes e ↦ subst (Child after n' o) (sym e) left-Child
        | no ne ↦ elim (ℕ_discrete j (i + 1)) [
          | yes e ↦ subst (Child after n' o) (sym e) right-Child
          | no ne' ↦ other_Child j le ne ne'
        ]
      ];
    }

    -- Other nodes have other children.
    far-Fits : (x : ℕ) → l.live x ≡ true → o ≢ x → a ≢ x → b ≢ x → Fits after m' (f.node x) x
    far-Fits x alive ne not_a not_b =
        Fits-relabel l after m' (f.node x) x x refl (low_kept x not_b) (high_kept x not_a)
          (omega arith)
          (λ j le inner c.
            let y = (f.node x).pointer j in
            let a_y : a ≢ y = λ e.
              ne (sym (child i (omega (arith, z.within))).belongs ∙ ap l.parent e ∙ c.belongs) in
            let b_y : b ≢ y = λ e.
              ne (
                sym (child (i + 1) (omega (arith, z.within))).belongs
                ∙ ap l.parent e
                ∙ c.belongs) in
            Child-at after (f.node x) x j y refl c.alive c.below c.belongs
              (low_kept y b_y ∙ c.from ∙ rw (low_kept x not_b))
              (high_kept y a_y ∙ c.upto ∙ rw (high_kept x not_a)))
          (w.others x alive ne not_a not_b)

    module _ (g : ℕ → Node) (v : IsWritten f o i sep left right g) where
      changed-Fits : (x : ℕ) → l.live x ≡ true → Fits after m' (g x) x
      changed-Fits x alive = elim (ℕ_discrete o x) [
        | yes e ↦ subst (λ y. Fits after m' (g y) y) e (rw v.above parent-Fits)
        | no ne ↦ elim (ℕ_discrete a x) [
          | yes e ↦ subst (λ y. Fits after m' (g y) y) e (rw v.at_left w.left_fits)
          | no not_a ↦ elim (ℕ_discrete b x) [
            | yes e ↦ subst (λ y. Fits after m' (g y) y) e (rw v.at_right w.right_fits)
            | no not_b ↦ rw (v.rest x ne not_a not_b) (far-Fits x alive ne not_a not_b)
          ]
        ]
      ]

      changed-Owned : (x : ℕ) → l.live x ≡ true → x ≢ 0 → Owned g after x
      changed-Owned x alive ne =
          let own = s.owned x alive ne in
          let q = l.parent x in
          let not_a : a ≢ q = λ e. omega (arith, ap l.level e, left_bottom, own.above) in
          let not_b : b ≢ q = λ e. omega (arith, ap l.level e, right_bottom, own.above) in
          elim (ℕ_discrete o q) [
            | yes e ↦
                let same : g q ≡ n' = ap g (sym e) ∙ v.above in
                Owned-at g after x q own.place refl own.alive own.above
                  (rw same (subst (λ y. own.place ≤ (f.node y).key_total) (sym e) own.within))
                  (rw same (subst (λ y. (f.node y).pointer own.place ≡ x) (sym e) own.leads))
            | no not_o ↦
                let same = v.rest q not_o not_a not_b in
                Owned-at g after x q own.place refl own.alive own.above (rw same own.within)
                  (rw same own.leads)
          ]

      leaf-Held :
          (c x : ℕ) (leaf : Node)
          → g c ≡ leaf
          → l.live c ≡ true
          → l.level c ≡ 0
          → Has leaf x
          → Held g after x
      leaf-Held c x leaf at alive bottom (j, lt, e) = record {
        leaf = c;
        alive = alive;
        ground_level = bottom;
        place = j;
        within = rw at lt;
        there = rw at e;
      }

      pair-Held : (x : ℕ) → (Has left x) ⊎ (Has right x) → Held g after x
      pair-Held x (inl has) = leaf-Held a x left v.at_left left_alive left_bottom has
      pair-Held x (inr has) = leaf-Held b x right v.at_right right_alive right_bottom has

      changed-Held : (x q : ℕ) → m' x ≡ some q → Held g after x
      changed-Held x q e =
          let h = s.held x q (w.fewer x q e) in
          elim (ℕ_discrete a h.leaf) [
            | yes at ↦ pair-Held x (
                w.keeps x q e (
                  inl (
                    h.place,
                    subst (λ y. h.place < (f.node y).key_total) (sym at) h.within,
                    subst (λ y. (f.node y).key h.place ≡ x) (sym at) h.there,
                  )))
            | no not_a ↦ elim (ℕ_discrete b h.leaf) [
              | yes at ↦ pair-Held x (
                  w.keeps x q e (
                    inr (
                      h.place,
                      subst (λ y. h.place < (f.node y).key_total) (sym at) h.within,
                      subst (λ y. (f.node y).key h.place ≡ x) (sym at) h.there,
                    )))
              | no not_b ↦
                  let not_o : o ≢ h.leaf =
                    λ e'. omega (arith, ap l.level e', h.ground_level, z.low_level) in
                  let same = v.rest h.leaf not_o not_a not_b in
                  record {
                    leaf = h.leaf;
                    alive = h.alive;
                    ground_level = h.ground_level;
                    place = h.place;
                    within = rw same h.within;
                    there = rw same h.there;
                  }
            ]
          ]

      pub changed-Shape : Shape (record { node = g; size = f.size }) after m'
      changed-Shape = record {
        root = s.root;
        lowest =
            low_kept 0 (λ e. omega (arith, ap l.level e, right_bottom, fit.under, z.low_level))
            ∙ s.lowest;
        highest =
            high_kept 0 (λ e. omega (arith, ap l.level e, left_bottom, fit.under, z.low_level))
            ∙ s.highest;
        placed = s.placed;
        fits = changed-Fits;
        owned = changed-Owned;
        held = changed-Held;
      }
