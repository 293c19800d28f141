-- ===== src/ShmFifo/Tests.antt =====
-- A FIFO of two blocks with a producer and a consumer, and the theorems at it.
use computer_science_notes.Base.{
  ℕ, ◌+◌, ◌*◌, ◌≤◌, ◌<◌, ◌≡◌, refl, List, [], ◌∷◌, ◌++◌, length, drop, inr, none, arith, ℕ_discrete,
}
use computer_science_notes.ShmFifo.Fifo.{
  enters_to_write, produce, consume, fifo_init, position, advance,
}
use computer_science_notes.ShmFifo.System.{System, init, calls, moves, Reach, start, later}
use computer_science_notes.ShmFifo.Invariant.{holds, Inv}
use computer_science_notes.ShmFifo.Order.{
  fifo_Reach-Inv, first_in_first_out, waiting_progress, position_apart,
}

abbrev blank : ℕ → List ℕ
blank k = []

-- Process 0 has produced one block; process 1 has taken it and still holds the mutex.
abbrev handed_over :
    (s : System) × Reach 2 (init 1 2 blank) s
    × (s.shm.consumed ≡ (7 ∷ []) ∷ [])
    × (holds (s.pc 1) ≡ 1)
unfolding fifo_init advance ℕ_discrete
handed_over =
    let r0 : Reach 2 (init 1 2 blank) (init 1 2 blank) = start in
    let r1 = later r0 (calls 0 (produce (7 ∷ 9 ∷ [])) (omega arith) refl) in
    let r2 = later r1 (moves 0 (omega arith) refl) in
    let r3 = later r2 (moves 0 (omega arith) refl) in
    let r4 = later r3 (moves 0 (omega arith) refl) in
    let r5 = later r4 (moves 0 (omega arith) refl) in
    let r6 = later r5 (moves 0 (omega arith) refl) in
    let r7 = later r6 (moves 0 (omega arith) refl) in
    let r8 = later r7 (calls 1 consume (omega arith) refl) in
    let r9 = later r8 (moves 1 (omega arith) refl) in
    let r10 = later r9 (moves 1 (omega arith) refl) in
    let r11 = later r10 (moves 1 (omega arith) refl) in
    let r12 = later r11 (moves 1 (omega arith) refl) in (_, r12, refl, refl)

fifo_Reach-Inv_example : Inv 2 2 (handed_over.0).shm (handed_over.0).pc
fifo_Reach-Inv_example = fifo_Reach-Inv 1 2 blank (omega arith) (omega arith) handed_over.1

first_in_first_out_example :
    ((handed_over.0).shm.produced
      ≡ (handed_over.0).shm.consumed
        ++ drop (length (handed_over.0).shm.consumed) (handed_over.0).shm.produced)
    × (length (handed_over.0).shm.consumed ≤ length (handed_over.0).shm.produced)
    × (length (handed_over.0).shm.produced ≤ length (handed_over.0).shm.consumed + 2)
first_in_first_out_example = first_in_first_out 1 2 blank (omega arith) (omega arith) handed_over.1

position_apart_example : (position 1 100 + 100 ≤ position 3 100) × (position 3 100 + 100 ≤ 4 * 100)
position_apart_example = position_apart 1 3 100 4 (omega arith) (omega arith) (omega arith)

-- Process 1 wants the mutex while process 0 holds it.
abbrev contended : (s : System) × Reach 2 (init 1 2 blank) s × (s.pc 1 ≡ enters_to_write (8 ∷ []))
unfolding fifo_init advance ℕ_discrete
contended =
    let r0 : Reach 2 (init 1 2 blank) (init 1 2 blank) = start in
    let r1 = later r0 (calls 0 (produce (7 ∷ [])) (omega arith) refl) in
    let r2 = later r1 (moves 0 (omega arith) refl) in
    let r3 = later r2 (moves 0 (omega arith) refl) in
    let r4 = later r3 (calls 1 (produce (8 ∷ [])) (omega arith) refl) in
    let r5 = later r4 (moves 1 (omega arith) refl) in (_, r5, refl)

waiting_progress_example :
    (j : ℕ) × (j < 2) × (advance (contended.0).shm ((contended.0).pc j) ≡ none → ⊥)
waiting_progress_example =
    waiting_progress 1 2 blank 1 (omega arith) (omega arith) contended.1 (inr (8 ∷ [], contended.2))
      (omega arith)
