-- ===== src/BpTree/Remove/BorrowRight.antt =====
-- bptree.cpp: case P of `remove_pos`, where a leaf gets the first entry of its right brother.
use computer_science_notes.Base.{
  ℕ, ◌+◌, ◌-◌, ◌≤◌, ◌<◌, ◌≡◌, ◌≢◌, refl, sym, ap, ◌∙◌, subst, ◌⊎◌, inl, inr, true, some, update,
  arith, ℕ_discrete,
}
use computer_science_notes.BpTree.Node.{Node, File, write_node}
use computer_science_notes.BpTree.Arrays.{shift_down-dropped}
use computer_science_notes.BpTree.Shape.{Labels, Index, IsAscending, Fits, Shape}
use computer_science_notes.BpTree.Relabel.{update-same, update-other}
use computer_science_notes.BpTree.Remove.Leaves.{push_back, pop_front, borrow_right}
use computer_science_notes.BpTree.Remove.Pair.{
  Has, IsPair, IsChange, IsWritten, move_labels, with_separator,
}
use computer_science_notes.BpTree.Remove.Siblings.{
  left_alive, right_alive, left_bottom, right_bottom, left_high, right_low, left_ne_right,
  left_ne_parent, right_ne_parent, changed-Shape,
}

module _ (f : File) (l : Labels) (m : Index) (s : Shape f l m) (o i : ℕ) (z : IsPair f l o i)
    (room : 2 < (f.node ((f.node o).pointer (i + 1))).key_total)
    (poor : (f.node ((f.node o).pointer i)).key_total ≤ 2) where
  abbrev n : Node
  n = f.node o

  abbrev a : ℕ
  a = n.pointer i

  abbrev b : ℕ
  b = n.pointer (i + 1)

  abbrev child : Node
  child = f.node a

  abbrev brother : Node
  brother = f.node b

  abbrev pub sep : ℕ
  sep = brother.key 0

  abbrev pub grown : Node
  grown = push_back child sep (brother.pointer 0)

  abbrev pub cut : Node
  cut = pop_front brother

  abbrev pub after : Labels
  after = move_labels l a b sep

  pub alive_a : l.live a ≡ true
  alive_a = left_alive f l m m s o i sep grown cut z

  pub alive_b : l.live b ≡ true
  alive_b = right_alive f l m m s o i sep grown cut z

  pub bottom_a : l.level a ≡ 0
  bottom_a = left_bottom f l m m s o i sep grown cut z

  pub bottom_b : l.level b ≡ 0
  bottom_b = right_bottom f l m m s o i sep grown cut z

  apart : a ≢ b
  apart = left_ne_right f l m m s o i sep grown cut z

  pub high_a : l.high a ≡ n.key i + 1
  high_a = left_high f l m m s o i sep grown cut z

  pub low_b : l.low b ≡ n.key i + 1
  low_b = right_low f l m m s o i sep grown cut z

  pub low_a' : after.low a ≡ l.low a
  low_a' = update-other l.low b (sep + 1) a (λ e. apart (sym e))

  pub high_b' : after.high b ≡ l.high b
  high_b' = update-other l.high a (sep + 1) b apart

  fit : Fits l m child a
  fit = s.fits a alive_a

  fit' : Fits l m brother b
  fit' = s.fits b alive_b

  pub above : n.key i < sep
  above = omega (arith, fit'.ranged 0 (omega arith), low_b)

  pub grown_total : grown.key_total ≡ child.key_total + 1
  unfolding push_back
  grown_total = refl

  grown_kind : grown.is_leaf ≡ child.is_leaf
  unfolding push_back
  grown_kind = refl

  grown_old :
      (j : ℕ)
      → j < child.key_total
      → (grown.key j ≡ child.key j) × (grown.pointer j ≡ child.pointer j)
  unfolding push_back
  grown_old j lt = (
    update-other child.key child.key_total sep j (omega arith),
    update-other child.pointer child.key_total (brother.pointer 0) j (omega arith),
  )

  grown_new :
      (grown.key child.key_total ≡ sep) × (grown.pointer child.key_total ≡ brother.pointer 0)
  unfolding push_back
  grown_new = (
    update-same child.key child.key_total sep,
    update-same child.pointer child.key_total (brother.pointer 0),
  )

  -- Of an entry of the child, and of the new one.
  grown_each :
      (P : ℕ → ℕ → Type 0)
      → ((j : ℕ) → j < child.key_total → P (child.key j) (child.pointer j))
      → P sep (brother.pointer 0)
      → (j : ℕ) → j < grown.key_total
      → P (grown.key j) (grown.pointer j)
  grown_each P each new j lt = elim (ℕ_discrete child.key_total j) [
    | yes e ↦ subst (λ x. P (grown.key x) (grown.pointer x)) e (rw (grown_new.0, grown_new.1) new)
    | no ne ↦
        let lt' : j < child.key_total = omega (arith, grown_total) in
        rw ((grown_old j lt').0, (grown_old j lt').1) (each j lt')
  ]

  grown-IsAscending : IsAscending grown.key grown.key_total
  grown-IsAscending p q lt lt' = elim (ℕ_discrete child.key_total q) [
    | yes e ↦ omega (
      arith,
      ap grown.key e,
      grown_new.0,
      (grown_old p (omega arith)).0,
      fit.ranged p (omega arith),
      high_a,
      above,
    )
    | no ne ↦
        let lt_q : q < child.key_total = omega (arith, grown_total) in
        omega
          (arith, (grown_old q lt_q).0, (grown_old p (omega arith)).0, fit.ascending p q lt lt_q)
  ]

  grown-Fits : Fits after m grown a
  grown-Fits = record {
    small = omega (arith, grown_total, poor);
    kind = grown_kind ∙ fit.kind;
    under = fit.under;
    nonempty =
        rw (low_a', update-same l.high a (sep + 1)) (omega (arith, fit.nonempty, high_a, above));
    ascending = grown-IsAscending;
    ranged = λ j lt.
        rw (low_a', update-same l.high a (sep + 1))
          (grown_each (λ x p. (l.low a ≤ x) × (x < sep + 1))
            (λ p lt0. omega (arith, fit.ranged p lt0, high_a, above))
            (omega (arith, fit.nonempty, high_a, above)) j lt);
    known = grown_each (λ x p. (q : ℕ) × (m x ≡ some q)) fit.known (fit'.known 0 (omega arith));
    filed = λ j lt low.
        grown_each (λ x p. m x ≡ some p) (λ p lt0. fit.filed p lt0 bottom_a)
          (fit'.filed 0 (omega arith) bottom_b) j lt;
    child = λ j le up. absurd (up bottom_a);
  }

  cut_total : cut.key_total ≡ brother.key_total - 1
  unfolding pop_front
  cut_total = refl

  cut_kind : cut.is_leaf ≡ brother.is_leaf
  unfolding pop_front
  cut_kind = refl

  cut_key : (j : ℕ) → j < cut.key_total → cut.key j ≡ brother.key (j + 1)
  unfolding pop_front
  cut_key j lt =
      let all : brother.key_total - 1 - 0 ≡ brother.key_total - 1 = omega arith in
      (rw all at (shift_down-dropped brother.key 0 brother.key_total j (omega arith) (omega arith)))
      ∙ ground arith

  cut_pointer : (j : ℕ) → j < cut.key_total → cut.pointer j ≡ brother.pointer (j + 1)
  unfolding pop_front
  cut_pointer j lt =
      let all : brother.key_total - 1 - 0 ≡ brother.key_total - 1 = omega arith in
      (rw all at
        (shift_down-dropped brother.pointer 0 brother.key_total j (omega arith) (omega arith)))
      ∙ ground arith

  cut-Fits : Fits after m cut b
  cut-Fits = record {
    small = omega (arith, cut_total, fit'.small);
    kind = cut_kind ∙ fit'.kind;
    under = fit'.under;
    nonempty =
        rw (update-same l.low b (sep + 1), high_b')
          (omega
            (arith, fit'.ascending 0 1 (omega arith) (omega arith), fit'.ranged 1 (omega arith)));
    ascending = λ p q lt lt'.
        rw (cut_key p (omega arith), cut_key q lt')
          (fit'.ascending (p + 1) (q + 1) (omega arith) (omega (arith, cut_total)));
    ranged = λ j lt.
        rw (update-same l.low b (sep + 1), high_b', cut_key j lt)
          (omega (
            arith,
            fit'.ascending 0 (j + 1) (omega arith) (omega (arith, cut_total)),
            fit'.ranged (j + 1) (omega (arith, cut_total)),
          ));
    known = λ j lt. rw (cut_key j lt) (fit'.known (j + 1) (omega (arith, cut_total)));
    filed = λ j lt low.
        rw (cut_key j lt, cut_pointer j lt)
          (fit'.filed (j + 1) (omega (arith, cut_total)) bottom_b);
    child = λ j le up. absurd (up bottom_b);
  }

  child_keeps : (x : ℕ) → Has child x → (Has grown x) ⊎ (Has cut x)
  child_keeps x (j, lt, e) = inl (j, omega (arith, grown_total), (grown_old j lt).0 ∙ e)

  brother_keeps : (x : ℕ) → Has brother x → (Has grown x) ⊎ (Has cut x)
  brother_keeps x (j, lt, e) = elim (ℕ_discrete j 0) [
    | yes at ↦
        inl (child.key_total, omega (arith, grown_total), grown_new.0 ∙ ap brother.key (sym at) ∙ e)
    | no ne ↦
        let back : j - 1 + 1 ≡ j = omega arith in
        let bound : j - 1 < cut.key_total = omega (arith, cut_total) in
        inr (j - 1, bound, cut_key (j - 1) bound ∙ ap brother.key back ∙ e)
  ]

  borrow_right-IsChange : IsChange f l m m o i sep grown cut
  borrow_right-IsChange = record {
    left_fits = grown-Fits;
    right_fits = cut-Fits;
    from = omega (arith, fit.nonempty, high_a, above);
    upto =
        omega (arith, fit'.ascending 0 1 (omega arith) (omega arith), fit'.ranged 1 (omega arith));
    known = fit'.known 0 (omega arith);
    others = λ x alive ne not_a not_b. s.fits x alive;
    separators = λ j lt ne. (s.fits o z.alive).known j lt;
    fewer = λ x q e. e;
    keeps =
        λ x q e has. elim has [ inl has' ↦ child_keeps x has' | inr has' ↦ brother_keeps x has' ];
  }

  pub borrow_right_nodes : ℕ → Node
  borrow_right_nodes = update (update (update f.node o (with_separator n i sep)) b cut) a grown

  pub borrow_right_nodes-IsWritten : IsWritten f o i sep grown cut borrow_right_nodes
  unfolding borrow_right_nodes
  borrow_right_nodes-IsWritten =
      let first = update f.node o (with_separator n i sep) in
      let second = update first b cut in
      let a_o = left_ne_parent f l m m s o i sep grown cut z in
      let b_o = right_ne_parent f l m m s o i sep grown cut z in
      record {
        at_left = update-same second a grown;
        at_right = update-other second a grown b apart ∙ update-same first b cut;
        above =
            update-other second a grown o a_o
            ∙ update-other first b cut o b_o
            ∙ update-same f.node o (with_separator n i sep);
        rest = λ x ne not_a not_b.
            update-other second a grown x not_a
            ∙ update-other first b cut x not_b
            ∙ update-other f.node o (with_separator n i sep) x ne;
      }

  pub borrow_right-file :
      borrow_right f o n child brother i
      ≡ (record { node = borrow_right_nodes; size = f.size }, with_separator n i sep, i)
  unfolding borrow_right write_node borrow_right_nodes
  borrow_right-file = ground (arith, s.placed o z.alive, s.placed a alive_a, s.placed b alive_b)

  pub borrow_right-Shape : Shape (record { node = borrow_right_nodes; size = f.size }) after m
  borrow_right-Shape =
      changed-Shape f l m m s o i sep grown cut z borrow_right-IsChange borrow_right_nodes
        borrow_right_nodes-IsWritten
