-- ===== src/Stock/Tests.antt =====
-- A run in which both consumers fall asleep and the producer makes something.
use computer_science_notes.Base.{ℕ, zero, suc, ◌<◌, ◌≡◌, refl, arith, ℕ_discrete}
use computer_science_notes.Stock.Threads.{
  consumers, waits, signals, consume, make, System, consumes, produces, Reach, start, later,
}
use computer_science_notes.Stock.Wakeups.{no_lost_wakeup}

abbrev about_to_signal :
    (s : System) × Reach s × (s.pc 0 ≡ waits) × (s.pc 1 ≡ waits) × (s.pc 2 ≡ signals)
unfolding consume make ℕ_discrete
about_to_signal =
    let r1 = later start (consumes 0 (omega arith) refl) in
    let r2 = later r1 (consumes 0 (omega arith) refl) in
    let r3 = later r2 (consumes 1 (omega arith) refl) in
    let r4 = later r3 (consumes 1 (omega arith) refl) in
    let r5 = later r4 (produces 2 (omega arith) (omega arith) refl) in
    let r6 = later r5 (produces 2 (omega arith) (omega arith) refl) in (_, r6, refl, refl, refl)

asleep : (j : ℕ) → j < consumers → (about_to_signal.0).pc j ≡ waits
asleep zero low = about_to_signal.2
asleep (suc zero) low = about_to_signal.3
asleep (suc (suc j)) low = absurd (omega arith)

no_lost_wakeup_example : (about_to_signal.0).pc 2 ≡ signals
unfolding about_to_signal
no_lost_wakeup_example = no_lost_wakeup about_to_signal.1 (omega arith) asleep
