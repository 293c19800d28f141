-- ===== src/Dinner/Forks.antt =====
-- dinner.c: who holds the forks, and who can go on.
use computer_science_notes.Base.{
  ℕ, ◌+◌, ◌%◌, ◌<◌, ◌≡◌, ◌≢◌, refl, ap, ◌∙◌, ◌⊎◌, inl, inr, none, arith,
}
use computer_science_notes.Dinner.Philosophers.{
  right, wait_for_forks, return_forks, Pc, thinking, hungry, eating, have_dinner, Table, Step,
  dines, Reach, start, later,
}

abbrev pub holds : Pc → ℕ
holds eating = 1
holds pc = 0

abbrev pub left_of : ℕ → ℕ
left_of who = (who + 4) % 5

-- Fork `f` is on the table, or with the philosopher it is the left fork of, or with the one it is the
-- right fork of, and with one of them only.
pub Inv : Table → Type 0
Inv t = (f : ℕ) → f < 5 → t.sem f + holds (t.pc f) + holds (t.pc (left_of f)) ≡ 1

Pc-cases : (pc : Pc) → (pc ≡ thinking) ⊎ (pc ≡ hungry) ⊎ (pc ≡ eating)
Pc-cases thinking = inl refl
Pc-cases hungry = inr (inl refl)
Pc-cases eating = inr (inr refl)

apart :
    (f who : ℕ)
    → f < 5
    → who < 5
    → (left_of f ≡ who → f ≡ right who)
      × (f ≡ right who → left_of f ≡ who)
      × (right who ≢ who)
      × (left_of f ≢ f)
apart f who lt lt' = (λ e. omega arith, λ e. omega arith, λ e. omega arith, λ e. omega arith)

Step-Inv : {s t : Table} → Step s t → Inv s → Inv t
unfolding Inv have_dinner wait_for_forks return_forks
Step-Inv {s} (dines who {sem} {pc} lt h) v f low = elim (Pc-cases (s.pc who)) [
  | inl at ↦ ground (arith, v f low, at)
  | inr (inl at) ↦ ground (arith, v f low, at, apart f who low lt)
  | inr (inr at) ↦ ground (arith, v f low, at, apart f who low lt)
]

-- In every state that the five processes reach, in any order of their steps, each fork is on the
-- table, or with exactly one of the two philosophers beside it.
pub dinner_Reach-Inv : {t : Table} → Reach t → Inv t
unfolding Inv
dinner_Reach-Inv start = λ f low. refl
dinner_Reach-Inv (later r step) = Step-Inv step (dinner_Reach-Inv r)

-- Two neighbours are never eating at once.
pub neighbours_take_turns :
    {t : Table} → Reach t → (who : ℕ) → who < 5 → t.pc who ≡ eating → t.pc (right who) ≢ eating
unfolding Inv
neighbours_take_turns {t} r who low at at' =
    let in_range : right who < 5 = omega arith in
    let back : left_of (right who) ≡ who = omega arith in
    let fork = dinner_Reach-Inv r (right who) in_range in
    let there : holds (t.pc (left_of (right who))) ≡ 1 =
      ap (λ p. holds (t.pc p)) back ∙ ap holds at in
    omega (arith, fork, there, ap holds at')

moves_on : (t : Table) (who : ℕ) → t.pc who ≢ hungry → have_dinner t.sem (t.pc who) who ≢ none
unfolding have_dinner
moves_on t who other e = elim (Pc-cases (t.pc who)) [
  | inl at ↦ ground (arith, at, e)
  | inr (inl at) ↦ other at
  | inr (inr at) ↦ ground (arith, at, e)
]

takes_forks :
    (t : Table) (who : ℕ)
    → t.pc who ≡ hungry
    → 0 < t.sem who
    → 0 < t.sem (right who)
    → have_dinner t.sem (t.pc who) who ≢ none
unfolding have_dinner wait_for_forks
takes_forks t who at left_there right_there e = ground (arith, at, e)

-- A philosopher that holds forks is not hungry.
holds_or_not : (p : Pc) → (p ≢ hungry) ⊎ (holds p ≡ 0)
holds_or_not thinking = inr refl
holds_or_not hungry = inr refl
holds_or_not eating = inl (λ e. ground arith)

-- There is always a philosopher that can take its next step, so the five never wait for each other.
pub somebody_moves :
    {t : Table} → Reach t → (who : ℕ) × (who < 5) × (have_dinner t.sem (t.pc who) who ≢ none)
unfolding Inv
somebody_moves {t} r =
    let v = dinner_Reach-Inv r in
    elim (holds_or_not (t.pc 4)) [
      | inl moves ↦ (4, omega arith, moves_on t 4 moves)
      | inr without4 ↦ elim (holds_or_not (t.pc 1)) [
        | inl moves ↦ (1, omega arith, moves_on t 1 moves)
        | inr without1 ↦ elim (Pc-cases (t.pc 0)) [
          | inl at ↦ (0, omega arith, moves_on t 0 (ground arith))
          | inr (inr at) ↦ (0, omega arith, moves_on t 0 (ground arith))
          | inr (inl at) ↦ (
            0,
            omega arith,
            takes_forks t 0 at (omega (arith, v 0 (omega arith), ap holds at, without4))
                (omega (arith, v 1 (omega arith), ap holds at, without1)),
          )
        ]
      ]
    ]
