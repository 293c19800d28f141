-- ===== src/Dinner/Tests.antt =====
-- The first philosopher dines.
use computer_science_notes.Base.{ℕ, ◌<◌, ◌≡◌, ◌≢◌, refl, none, arith, ℕ_discrete}
use computer_science_notes.Dinner.Philosophers.{
  wait_for_forks, eating, have_dinner, Table, dines, Reach, start, later,
}
use computer_science_notes.Dinner.Forks.{neighbours_take_turns, somebody_moves}

abbrev dining : (t : Table) × Reach t × (t.pc 0 ≡ eating)
unfolding have_dinner wait_for_forks ℕ_discrete
dining =
    let r1 = later start (dines 0 (omega arith) refl) in
    let r2 = later r1 (dines 0 (omega arith) refl) in
    let r3 = later r2 (dines 1 (omega arith) refl) in (_, r3, refl)

-- The second one has to wait.
second_waits : have_dinner (dining.0).sem ((dining.0).pc 1) 1 ≡ none
unfolding dining have_dinner wait_for_forks ℕ_discrete
second_waits = refl

neighbours_take_turns_example : (dining.0).pc 1 ≢ eating
neighbours_take_turns_example = neighbours_take_turns dining.1 0 (omega arith) dining.2

somebody_moves_example :
    (who : ℕ) × (who < 5) × (have_dinner (dining.0).sem ((dining.0).pc who) who ≢ none)
somebody_moves_example = somebody_moves dining.1
