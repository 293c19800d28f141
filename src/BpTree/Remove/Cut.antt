-- ===== src/BpTree/Remove/Cut.antt =====
-- bptree.cpp: case A of `remove_pos`, where a leaf loses its last key, the separator above it.
use computer_science_notes.Base.{
  ℕ, ◌+◌, ◌-◌, ◌≤◌, ◌<◌, ◌≡◌, ◌≢◌, sym, ap, ◌∙◌, inl, inr, true, update, arith, ℕ_discrete, dec_lt,
}
use computer_science_notes.BpTree.Node.{Node, File, write_node}
use computer_science_notes.BpTree.Shape.{Labels, Index, Fits, Shape}
use computer_science_notes.BpTree.Descent.{Covers, level_unique, leaf_has}
use computer_science_notes.BpTree.Relabel.{update-same, update-other}
use computer_science_notes.BpTree.Separators.{separator_unique}
use computer_science_notes.BpTree.Remove.Leaves.{cut_last}
use computer_science_notes.BpTree.Remove.Entry.{erase, erase-other, erase-some, Fits-erase}
use computer_science_notes.BpTree.Remove.Pair.{
  IsPair, IsChange, IsWritten, move_labels, with_separator,
}
use computer_science_notes.BpTree.Remove.Siblings.{
  left_alive, right_alive, left_bottom, right_bottom, left_high, right_low, left_ne_right,
  left_ne_parent, right_ne_parent, changed-Shape,
}

module _ (f : File) (l : Labels) (m : Index) (s : Shape f l m) (o i k : ℕ) (z : IsPair f l o i)
    (at : (f.node o).key i ≡ k) (room : 2 < (f.node ((f.node o).pointer i)).key_total) where
  abbrev n : Node
  n = f.node o

  abbrev a : ℕ
  a = n.pointer i

  abbrev b : ℕ
  b = n.pointer (i + 1)

  abbrev child : Node
  child = f.node a

  abbrev total : ℕ
  total = child.key_total

  abbrev sep : ℕ
  sep = child.key (total - 2)

  abbrev cut : Node
  cut = record child { key_total = total - 1 }

  abbrev after : Labels
  after = move_labels l a b sep

  alive_a : l.live a ≡ true
  alive_a = left_alive f l m m s o i sep cut (f.node b) z

  alive_b : l.live b ≡ true
  alive_b = right_alive f l m m s o i sep cut (f.node b) z

  bottom_a : l.level a ≡ 0
  bottom_a = left_bottom f l m m s o i sep cut (f.node b) z

  bottom_b : l.level b ≡ 0
  bottom_b = right_bottom f l m m s o i sep cut (f.node b) z

  high_a : l.high a ≡ k + 1
  high_a = left_high f l m m s o i sep cut (f.node b) z ∙ ap (λ x. x + 1) at

  low_b : l.low b ≡ k + 1
  low_b = right_low f l m m s o i sep cut (f.node b) z ∙ ap (λ x. x + 1) at

  apart : a ≢ b
  apart = left_ne_right f l m m s o i sep cut (f.node b) z

  fit : Fits l m child a
  fit = s.fits a alive_a

  inner : l.level o ≢ 0
  inner e = omega (arith, z.low_level)

  left-Covers : Covers l a k
  left-Covers = (omega (arith, fit.nonempty, high_a), omega (arith, high_a))

  -- The separator is the child's last key.
  pub last_key : child.key (total - 1) ≡ k
  last_key =
      let (q, known) = (s.fits o z.alive).known i z.within in
      let (j, lt, e) =
        leaf_has f l m s a k q alive_a bottom_a left-Covers (ap m (sym at) ∙ known) in
      elim (ℕ_discrete j (total - 1)) [
        | yes last ↦ ap child.key (sym last) ∙ e
        | no before ↦ absurd (
            omega (
              arith,
              fit.ascending j (total - 1) (omega arith) (omega arith),
              fit.ranged (total - 1) (omega arith),
              high_a,
            ))
      ]

  pub below_last : (j : ℕ) → j < total - 1 → child.key j < k
  below_last j lt = omega (arith, fit.ascending j (total - 1) lt (omega arith), last_key)

  pub upto_sep : (j : ℕ) → j < total - 1 → child.key j ≤ sep
  upto_sep j lt = elim (ℕ_discrete j (total - 2)) [
    | yes e ↦ omega (arith, ap child.key e)
    | no ne ↦ omega (arith, fit.ascending j (total - 2) (omega arith) (omega arith))
  ]

  below_k : sep < k
  below_k = below_last (total - 2) (omega arith)

  kept : (x : ℕ) → x < k → erase m k x ≡ m x
  kept x lt = erase-other m k x (λ e. omega arith)

  cut-Fits : Fits after (erase m k) cut a
  cut-Fits = record {
    small = omega (arith, fit.small);
    kind = fit.kind;
    under = fit.under;
    nonempty =
        rw (update-other l.low b (sep + 1) a (λ e. apart (sym e)), update-same l.high a (sep + 1))
          (omega (arith, fit.ranged (total - 2) (omega arith)));
    ascending = λ p q lt lt'. fit.ascending p q lt (omega arith);
    ranged = λ j lt.
        rw (update-other l.low b (sep + 1) a (λ e. apart (sym e)), update-same l.high a (sep + 1))
          (omega (arith, upto_sep j lt, fit.ranged j (omega arith)));
    known = λ j lt.
        let (q, e) = fit.known j (omega arith) in (q, kept (child.key j) (below_last j lt) ∙ e);
    filed = λ j lt low. kept (child.key j) (below_last j lt) ∙ fit.filed j (omega arith) low;
    child = λ j le up. absurd (up bottom_a);
  }

  right-Fits : Fits after (erase m k) (f.node b) b
  right-Fits =
      let fit' = s.fits b alive_b in
      let above : (j : ℕ) → j < (f.node b).key_total → k ≢ (f.node b).key j =
        λ j lt e. omega (arith, fit'.ranged j lt, low_b) in
      record {
        small = fit'.small;
        kind = fit'.kind;
        under = fit'.under;
        nonempty =
            rw (update-same l.low b (sep + 1), update-other l.high a (sep + 1) b apart)
              (omega (arith, fit'.nonempty, low_b, below_k));
        ascending = fit'.ascending;
        ranged = λ j lt.
            rw (update-same l.low b (sep + 1), update-other l.high a (sep + 1) b apart)
              (omega (arith, fit'.ranged j lt, low_b, below_k));
        known = λ j lt.
            let (q, e) = fit'.known j lt in
            (q, erase-other m k ((f.node b).key j) (above j lt) ∙ e);
        filed = λ j lt low. erase-other m k ((f.node b).key j) (above j lt) ∙ fit'.filed j lt low;
        child = λ j le up. absurd (up bottom_b);
      }

  elsewhere :
      (x : ℕ)
      → l.live x ≡ true
      → o ≢ x
      → a ≢ x
      → (j : ℕ) → j < (f.node x).key_total
      → k ≢ (f.node x).key j
  elsewhere x alive ne not_a j lt e = elim (ℕ_discrete (l.level x) 0) [
    | yes bottom ↦ not_a (
        level_unique f l m s (l.level 0) a x k alive_a alive (omega (arith, bottom_a))
          (omega (arith, bottom, bottom_a)) left-Covers (rw e ((s.fits x alive).ranged j lt)))
    | no up ↦ ne (separator_unique f l m s o x i j k z.alive alive inner up z.within lt at (sym e))
  ]

  cut-IsChange : IsChange f l m (erase m k) o i sep cut (f.node b)
  cut-IsChange = record {
    left_fits = cut-Fits;
    right_fits = right-Fits;
    from = (fit.ranged (total - 2) (omega arith)).0;
    upto = omega (arith, (s.fits b alive_b).nonempty, low_b, below_k);
    known = let (q, e) = fit.known (total - 2) (omega arith) in (q, kept sep below_k ∙ e);
    others = λ x alive ne not_a not_b.
        Fits-erase l m (f.node x) x k (elsewhere x alive ne not_a) (s.fits x alive);
    separators = λ j lt ne.
        let (q, e) = (s.fits o z.alive).known j lt in
        let asc = (s.fits o z.alive).ascending in
        let differs : k ≢ n.key j = λ e'. elim (dec_lt i j) [
          | yes before ↦ absurd (omega (arith, asc i j before lt))
          | no after ↦ absurd (omega (arith, asc j i (omega arith) z.within))
        ] in
        (q, erase-other m k (n.key j) differs ∙ e);
    fewer = λ x q e. (erase-some m k x q e).1;
    keeps = λ x q e has. elim has [
      | inl (j, lt, there) ↦
          let ne = (erase-some m k x q e).0 in
          let not_last : j ≢ total - 1 = λ e'. ne (sym last_key ∙ ap child.key (sym e') ∙ there) in
          inl (j, omega arith, there)
      | inr there ↦ inr there
    ];
  }

  cut_nodes : ℕ → Node
  cut_nodes = update (update f.node o (with_separator n i sep)) a cut

  cut_nodes-IsWritten : IsWritten f o i sep cut (f.node b) cut_nodes
  unfolding cut_nodes
  cut_nodes-IsWritten =
      let above = update f.node o (with_separator n i sep) in
      let a_o = left_ne_parent f l m m s o i sep cut (f.node b) z in
      let b_o = right_ne_parent f l m m s o i sep cut (f.node b) z in
      record {
        at_left = update-same above a cut;
        at_right =
            update-other above a cut b apart
            ∙ update-other f.node o (with_separator n i sep) b (λ e. b_o (sym e));
        above = update-other above a cut o a_o ∙ update-same f.node o (with_separator n i sep);
        rest = λ x ne not_a not_b.
            update-other above a cut x not_a ∙ update-other f.node o (with_separator n i sep) x ne;
      }

  cut_last-file : cut_last f o n child i ≡ record { node = cut_nodes; size = f.size }
  unfolding cut_last write_node cut_nodes
  cut_last-file = ground (arith, s.placed o z.alive, s.placed a alive_a)

  pub cut_last-Shape : Shape (cut_last f o n child i) after (erase m k)
  cut_last-Shape = rw cut_last-file (
      changed-Shape f l m (erase m k) s o i sep cut (f.node b) z cut-IsChange cut_nodes
        cut_nodes-IsWritten)
