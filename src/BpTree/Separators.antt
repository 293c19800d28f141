-- ===== src/BpTree/Separators.antt =====
-- bptree.cpp: a key stands in one inner node at most.
use computer_science_notes.Base.{
  ℕ, zero, suc, ◌+◌, ◌-◌, ◌≤◌, ◌<◌, ◌≡◌, ◌≢◌, sym, ap, ◌∙◌, subst, true, arith, ℕ_discrete, dec_lt,
}
use computer_science_notes.BpTree.Node.{Node, File}
use computer_science_notes.BpTree.Shape.{Labels, Index, Child, Fits, Shape}
use computer_science_notes.BpTree.Descent.{Covers, level_unique, owner_Child, owner_Covers}

-- The child that covers a separator is the one before it.
separator_place :
    (l : Labels) (m : Index) (n : Node) (o i j k : ℕ)
    → Fits l m n o
    → Child l n o i
    → i ≤ n.key_total
    → j < n.key_total
    → n.key j ≡ k
    → Covers l (n.pointer i) k
    → l.high (n.pointer i) ≡ k + 1
separator_place l m n o i j k fit c le lt e cover = elim (ℕ_discrete i j) [
  | yes same ↦ ground (arith, c.upto, ap n.key same)
  | no ne ↦ elim (dec_lt i j) [
    | yes before ↦ absurd (ground (arith, c.upto, fit.ascending i j before lt))
    | no after ↦ elim (ℕ_discrete j (i - 1)) [
      | yes next ↦ absurd (ground (arith, c.from, ap n.key next))
      | no later ↦
          absurd (ground (arith, c.from, fit.ascending j (i - 1) (omega arith) (omega arith)))
    ]
  ]
]

-- What the last key of a range is, it is of the child that covers it.
Child-last :
    (l : Labels) (m : Index) (n : Node) (o i k : ℕ)
    → Fits l m n o
    → Child l n o i
    → i ≤ n.key_total
    → l.high o ≡ k + 1
    → Covers l (n.pointer i) k
    → l.high (n.pointer i) ≡ k + 1
Child-last l m n o i k fit c le last cover = elim (ℕ_discrete i n.key_total) [
  | yes e ↦ ground (arith, c.upto)
  | no ne ↦ ground (arith, c.upto, fit.ranged i (omega arith))
]

module _ (f : File) (l : Labels) (m : Index) (s : Shape f l m) (x j k : ℕ) (live : l.live x ≡ true)
    (inner : l.level x ≢ 0) (lt : j < (f.node x).key_total) (at : (f.node x).key j ≡ k) where
  pub separator-Covers : Covers l x k
  separator-Covers = rw (← at) ((s.fits x live).ranged j lt)

  -- Below its node a separator is the last key of what covers it.
  pub separator_last :
      (gap o : ℕ)
      → l.live o ≡ true
      → l.level o + suc gap ≡ l.level x
      → Covers l o k
      → l.high o ≡ k + 1
  separator_last zero o alive up cover =
      let ne : o ≢ 0 = λ e. omega (arith, ap l.level e, (s.fits x live).under) in
      let own = s.owned o alive ne in
      let p = l.parent o in
      let same : p ≡ x =
        level_unique f l m s (l.level 0 - l.level p) p x k own.alive live
          (omega (arith, (s.fits p own.alive).under)) (omega (arith, own.above))
          (owner_Covers f l m s o k alive ne cover) separator-Covers in
      ap l.high (sym own.leads)
      ∙ separator_place l m (f.node p) p own.place j k (s.fits p own.alive)
          (owner_Child f l m s o alive ne) own.within
          (subst (λ y. j < (f.node y).key_total) (sym same) lt)
          (subst (λ y. (f.node y).key j ≡ k) (sym same) at)
          (subst (λ y. Covers l y k) (sym own.leads) cover)
  separator_last (suc gap) o alive up cover =
      let ne : o ≢ 0 = λ e. omega (arith, ap l.level e, (s.fits x live).under) in
      let own = s.owned o alive ne in
      let p = l.parent o in
      ap l.high (sym own.leads)
      ∙ Child-last l m (f.node p) p own.place k (s.fits p own.alive)
          (owner_Child f l m s o alive ne) own.within
          (separator_last gap p own.alive (omega (arith, own.above))
            (owner_Covers f l m s o k alive ne cover))
          (subst (λ y. Covers l y k) (sym own.leads) cover)

  -- So no inner node below has it.
  not_below :
      (y j' : ℕ)
      → l.live y ≡ true
      → l.level y ≢ 0
      → l.level y < l.level x
      → j' < (f.node y).key_total
      → (f.node y).key j' ≢ k
  not_below y j' live' inner' low lt' e =
      let fit = s.fits y live' in
      let cover : Covers l y k = rw (← e) (fit.ranged j' lt') in
      let last = separator_last (l.level x - suc (l.level y)) y live' (omega arith) cover in
      let c = fit.child (j' + 1) (omega arith) inner' in
      let some_key = (s.fits ((f.node y).pointer (j' + 1)) c.alive).nonempty in
      let back : j' + 1 - 1 ≡ j' = omega arith in
      elim (ℕ_discrete (j' + 1) (f.node y).key_total) [
        | yes end ↦ ground (arith, c.upto, c.from, ap (f.node y).key back)
        | no more ↦
            ground
              (arith, c.upto, c.from, ap (f.node y).key back, fit.ranged (j' + 1) (omega arith))
      ]

pub separator_unique :
    (f : File) (l : Labels) (m : Index) (s : Shape f l m) (x y j j' k : ℕ)
    → l.live x ≡ true
    → l.live y ≡ true
    → l.level x ≢ 0
    → l.level y ≢ 0
    → j < (f.node x).key_total
    → j' < (f.node y).key_total
    → (f.node x).key j ≡ k
    → (f.node y).key j' ≡ k
    → x ≡ y
separator_unique f l m s x y j j' k live live' inner inner' lt lt' e e' =
    elim (dec_lt (l.level y) (l.level x)) [
      | yes below ↦ absurd (not_below f l m s x j k live inner lt e y j' live' inner' below lt' e')
      | no not_below' ↦ elim (dec_lt (l.level x) (l.level y)) [
        | yes above ↦
            absurd (not_below f l m s y j' k live' inner' lt' e' x j live inner above lt e)
        | no not_above ↦
            level_unique f l m s (l.level 0 - l.level x) x y k live live'
              (omega (arith, (s.fits x live).under)) (omega arith)
              (separator-Covers f l m s x j k live inner lt e)
              (separator-Covers f l m s y j' k live' inner' lt' e')
      ]
    ]
