-- ===== src/BpTree/Remove/Borrow.antt =====
-- bptree.cpp: case N of `remove_pos`, where a leaf gets the last entry of its left brother.
use computer_science_notes.Base.{
  ℕ, ◌+◌, ◌-◌, ◌≤◌, ◌<◌, ◌≡◌, ◌≢◌, refl, sym, ap, ◌∙◌, subst, ◌⊎◌, inl, inr, true, some, update,
  arith, ℕ_discrete,
}
use computer_science_notes.BpTree.Node.{Node, File, write_node}
use computer_science_notes.BpTree.Arrays.{placed, shift_up-placed, placed-ascending, placed-each}
use computer_science_notes.BpTree.Shape.{Labels, Index, Fits, Shape}
use computer_science_notes.BpTree.Relabel.{update-same, update-other}
use computer_science_notes.BpTree.Remove.Leaves.{push_front, borrow_left}
use computer_science_notes.BpTree.Remove.Pair.{
  Has, IsPair, IsChange, IsWritten, move_labels, with_separator,
}
use computer_science_notes.BpTree.Remove.Siblings.{
  left_alive, right_alive, left_bottom, right_bottom, right_low, left_ne_right, left_ne_parent,
  right_ne_parent, changed-Shape,
}
use computer_science_notes.BpTree.Remove.Cut.{last_key, upto_sep, below_last}

module _ (f : File) (l : Labels) (m : Index) (s : Shape f l m) (o i : ℕ) (z : IsPair f l o i)
    (room : 2 < (f.node ((f.node o).pointer i)).key_total)
    (poor : (f.node ((f.node o).pointer (i + 1))).key_total ≤ 2) where
  abbrev n : Node
  n = f.node o

  abbrev a : ℕ
  a = n.pointer i

  abbrev b : ℕ
  b = n.pointer (i + 1)

  abbrev brother : Node
  brother = f.node a

  abbrev child : Node
  child = f.node b

  abbrev total : ℕ
  total = brother.key_total

  abbrev pub sep : ℕ
  sep = brother.key (total - 2)

  abbrev moved : ℕ
  moved = brother.pointer (total - 1)

  abbrev pub cut : Node
  cut = record brother { key_total = total - 1 }

  abbrev pub grown : Node
  grown = push_front child (n.key i) moved

  abbrev pub after : Labels
  after = move_labels l a b sep

  pub alive_a : l.live a ≡ true
  alive_a = left_alive f l m m s o i sep cut grown z

  pub alive_b : l.live b ≡ true
  alive_b = right_alive f l m m s o i sep cut grown z

  pub bottom_a : l.level a ≡ 0
  bottom_a = left_bottom f l m m s o i sep cut grown z

  pub bottom_b : l.level b ≡ 0
  bottom_b = right_bottom f l m m s o i sep cut grown z

  apart : a ≢ b
  apart = left_ne_right f l m m s o i sep cut grown z

  pub low_b : l.low b ≡ n.key i + 1
  low_b = right_low f l m m s o i sep cut grown z

  pub low_a' : after.low a ≡ l.low a
  low_a' = update-other l.low b (sep + 1) a (λ e. apart (sym e))

  pub high_b' : after.high b ≡ l.high b
  high_b' = update-other l.high a (sep + 1) b apart

  fit : Fits l m brother a
  fit = s.fits a alive_a

  fit' : Fits l m child b
  fit' = s.fits b alive_b

  last : brother.key (total - 1) ≡ n.key i
  last = last_key f l m s o i (n.key i) z refl room

  pub below : sep < n.key i
  below = below_last f l m s o i (n.key i) z refl room (total - 2) (omega arith)

  cut-Fits : Fits after m cut a
  cut-Fits = record {
    small = omega (arith, fit.small);
    kind = fit.kind;
    under = fit.under;
    nonempty =
        rw (low_a', update-same l.high a (sep + 1))
          (omega (arith, fit.ranged (total - 2) (omega arith)));
    ascending = λ p q lt lt'. fit.ascending p q lt (omega arith);
    ranged = λ j lt.
        rw (low_a', update-same l.high a (sep + 1))
          (omega
            (arith, upto_sep f l m s o i (n.key i) z refl room j lt, fit.ranged j (omega arith)));
    known = λ j lt. fit.known j (omega arith);
    filed = λ j lt low. fit.filed j (omega arith) low;
    child = λ j le up. absurd (up bottom_a);
  }

  pub grown_total : grown.key_total ≡ child.key_total + 1
  unfolding push_front
  grown_total = refl

  grown_kind : grown.is_leaf ≡ child.is_leaf
  unfolding push_front
  grown_kind = refl

  grown_key : (j : ℕ) → j < child.key_total + 1 → grown.key j ≡ placed child.key 0 (n.key i) j
  unfolding push_front
  grown_key j lt =
      let all : child.key_total - 0 ≡ child.key_total = omega arith in
      rw all at
        (shift_up-placed child.key 0 child.key_total (n.key i) j (omega arith) (omega arith))

  grown_pointer :
      (j : ℕ) → j < child.key_total + 1 → grown.pointer j ≡ placed child.pointer 0 moved j
  unfolding push_front
  grown_pointer j lt =
      let all : child.key_total - 0 ≡ child.key_total = omega arith in
      rw all at
        (shift_up-placed child.pointer 0 child.key_total moved j (omega arith) (omega arith))

  grown_each :
      (P : ℕ → Type 0)
      → ((j : ℕ) → j < child.key_total → P (child.key j))
      → P (n.key i)
      → (j : ℕ) → j < grown.key_total
      → P (grown.key j)
  grown_each P each new j lt =
      let lt' : j < child.key_total + 1 = omega (arith, grown_total) in
      subst P (sym (grown_key j lt'))
        (placed-each P child.key 0 child.key_total (n.key i) each new (omega arith) j lt')

  grown_filed :
      (j : ℕ)
      → j < child.key_total + 1
      → m (placed child.key 0 (n.key i) j) ≡ some (placed child.pointer 0 moved j)
  grown_filed j lt = elim (ℕ_discrete j 0) [
    | yes e ↦
        let here : placed child.key 0 (n.key i) j ≡ n.key i = ground arith in
        let here' : placed child.pointer 0 moved j ≡ moved = ground arith in
        rw (here, here') (ap m (sym last) ∙ fit.filed (total - 1) (omega arith) bottom_a)
    | no ne ↦
        let there : placed child.key 0 (n.key i) j ≡ child.key (j - 1) = ground arith in
        let there' : placed child.pointer 0 moved j ≡ child.pointer (j - 1) = ground arith in
        rw (there, there') (fit'.filed (j - 1) (omega arith) bottom_b)
  ]

  grown-Fits : Fits after m grown b
  grown-Fits = record {
    small = omega (arith, grown_total, poor);
    kind = grown_kind ∙ fit'.kind;
    under = fit'.under;
    nonempty =
        rw (update-same l.low b (sep + 1), high_b') (omega (arith, fit'.nonempty, low_b, below));
    ascending = λ p q lt lt'.
        rw (grown_key p (omega (arith, grown_total)), grown_key q (omega (arith, grown_total)))
          (placed-ascending child.key 0 child.key_total (n.key i) fit'.ascending (omega arith)
            (λ j lt0. absurd (omega arith)) (λ j _ lt0. omega (arith, fit'.ranged j lt0, low_b)) p q
            lt (omega (arith, grown_total)));
    ranged = λ j lt.
        rw (update-same l.low b (sep + 1), high_b')
          (grown_each (λ x. (sep + 1 ≤ x) × (x < l.high b))
            (λ p lt0. omega (arith, fit'.ranged p lt0, low_b, below))
            (omega (arith, fit'.nonempty, low_b, below)) j lt);
    known =
        grown_each (λ x. (q : ℕ) × (m x ≡ some q)) fit'.known ((s.fits o z.alive).known i z.within);
    filed = λ j lt low.
        rw (grown_key j (omega (arith, grown_total)), grown_pointer j (omega (arith, grown_total)))
          (grown_filed j (omega (arith, grown_total)));
    child = λ j le up. absurd (up bottom_b);
  }

  brother_keeps : (x : ℕ) → Has brother x → (Has cut x) ⊎ (Has grown x)
  brother_keeps x (j, lt, e) = elim (ℕ_discrete j (total - 1)) [
    | yes at ↦ inr (
      0,
      omega (arith, grown_total),
      grown_key 0 (omega arith) ∙ sym last ∙ ap brother.key (sym at) ∙ e,
    )
    | no other ↦ inl (j, omega arith, e)
  ]

  child_keeps : (x : ℕ) → Has child x → (Has cut x) ⊎ (Has grown x)
  child_keeps x (j, lt, e) =
      inr (j + 1, omega (arith, grown_total), grown_key (j + 1) (omega arith) ∙ ground arith)

  borrow-IsChange : IsChange f l m m o i sep cut grown
  borrow-IsChange = record {
    left_fits = cut-Fits;
    right_fits = grown-Fits;
    from = (fit.ranged (total - 2) (omega arith)).0;
    upto = omega (arith, fit'.nonempty, low_b, below);
    known = fit.known (total - 2) (omega arith);
    others = λ x alive ne not_a not_b. s.fits x alive;
    separators = λ j lt ne. (s.fits o z.alive).known j lt;
    fewer = λ x q e. e;
    keeps =
        λ x q e has. elim has [ inl has' ↦ brother_keeps x has' | inr has' ↦ child_keeps x has' ];
  }

  pub borrow_nodes : ℕ → Node
  borrow_nodes = update (update (update f.node a cut) b grown) o (with_separator n i sep)

  pub borrow_nodes-IsWritten : IsWritten f o i sep cut grown borrow_nodes
  unfolding borrow_nodes
  borrow_nodes-IsWritten =
      let first = update f.node a cut in
      let second = update first b grown in
      let a_o = left_ne_parent f l m m s o i sep cut grown z in
      let b_o = right_ne_parent f l m m s o i sep cut grown z in
      record {
        at_left =
            update-other second o (with_separator n i sep) a (λ e. a_o (sym e))
            ∙ update-other first b grown a (λ e. apart (sym e))
            ∙ update-same f.node a cut;
        at_right =
            update-other second o (with_separator n i sep) b (λ e. b_o (sym e))
            ∙ update-same first b grown;
        above = update-same second o (with_separator n i sep);
        rest = λ x ne not_a not_b.
            update-other second o (with_separator n i sep) x ne
            ∙ update-other first b grown x not_b
            ∙ update-other f.node a cut x not_a;
      }

  -- The child's index is the brother's and one.
  pub borrow_left-file :
      borrow_left f o n brother child (i + 1)
      ≡ (record { node = borrow_nodes; size = f.size }, with_separator n i sep, i + 1)
  unfolding borrow_left write_node borrow_nodes
  borrow_left-file =
      let back : i + 1 - 1 ≡ i = omega arith in
      let two : total - 1 - 1 ≡ total - 2 = omega arith in
      rw (back, two) (ground (arith, s.placed o z.alive, s.placed a alive_a, s.placed b alive_b))

  pub borrow_left-Shape : Shape (record { node = borrow_nodes; size = f.size }) after m
  borrow_left-Shape =
      changed-Shape f l m m s o i sep cut grown z borrow-IsChange borrow_nodes
        borrow_nodes-IsWritten
