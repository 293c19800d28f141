-- ===== src/ShmFifo/Order.antt =====
-- What every run of the FIFO keeps, whatever the order of its processes.
use native.Mathlib.Nat.{mod-eq_of_lt, mul-le-mul_right}
use computer_science_notes.Base.{
  ℕ, ◌+◌, ◌*◌, ◌^◌, ◌≤◌, ◌<◌, ◌≡◌, refl, sym, ap, ◌∙◌, ◌⊎◌, inl, inr, List, ◌++◌, length, drop,
  none, take-append-drop, sum_below-zero, sum_below-pos, add-le-sum_below, arith, ℕ_discrete,
  dec_lt,
}
use computer_science_notes.ShmFifo.Fifo.{
  Shm, Pc, outside, copies_in, advances_wr, leaves_write, copies_out, advances_rd, leaves_read,
  enters_to_read, enters_to_write, fifo_init, position, advance,
}
use computer_science_notes.ShmFifo.System.{System, init, Reach, start, later}
use computer_science_notes.ShmFifo.Invariant.{holds, Inv}
use computer_science_notes.ShmFifo.Moves.{Step-Inv}

holder_advances : (m : Shm) (q : Pc) → 0 < holds q → advance m q ≡ none → ⊥
unfolding advance
holder_advances m (copies_in buf) h e = cc
holder_advances m (advances_wr buf) h e = cc
holder_advances m leaves_write h e = cc
holder_advances m copies_out h e = cc
holder_advances m (advances_rd buf) h e = cc
holder_advances m (leaves_read buf) h e = cc
holder_advances m q h e = absurd (omega arith)

takes_mutex :
    (m : Shm) (q : Pc)
    → 0 < m.sem_mutex
    → (q ≡ enters_to_read) ⊎ ((buf : List ℕ) × (q ≡ enters_to_write buf))
    → advance m q ≡ none
    → ⊥
unfolding advance
takes_mutex m q free (inl at) e = ground arith
takes_mutex m q free (inr (buf, at)) e = ground arith

module _ (block_size block_total : ℕ) (memory : ℕ → List ℕ) where
  Inv-init :
      (n : ℕ)
      → 0 < block_total
      → block_total < 2 ^ 32
      → Inv n block_total (fifo_init none block_size block_total memory) (λ i. outside)
  unfolding fifo_init
  Inv-init n some_room fits = record {
    total = refl;
    some_room = some_room;
    fits = fits;
    mutex = omega (arith, sum_below-zero n);
    room = omega (arith, sum_below-zero n);
    blocks = omega (arith, sum_below-zero n);
    wr = sym (mod-eq_of_lt some_room);
    rd = sym (mod-eq_of_lt some_room);
    order = refl;
    stored = λ k from to. absurd (omega arith);
    fresh = λ i lt. tt;
  }

  -- However many processes use a new FIFO, and in whatever order their steps run, the counts of the
  -- semaphores are right, the blocks between the two indices are those produced and not yet
  -- consumed, and the invariant of the shared memory holds.
  pub fifo_Reach-Inv :
      {n : ℕ} {s : System}
      → 0 < block_total
      → block_total < 2 ^ 32
      → Reach n (init block_size block_total memory) s
      → Inv n block_total s.shm s.pc
  fifo_Reach-Inv {n} some_room fits start = Inv-init n some_room fits
  fifo_Reach-Inv some_room fits (later r st) = Step-Inv st (fifo_Reach-Inv some_room fits r)

  -- The blocks consumed are the first ones produced, in the order of production, none lost and none
  -- twice; and between them at most `block_total` wait.
  pub first_in_first_out :
      {n : ℕ} {s : System}
      → 0 < block_total
      → block_total < 2 ^ 32
      → Reach n (init block_size block_total memory) s
      → (s.shm.produced ≡ s.shm.consumed ++ drop (length s.shm.consumed) s.shm.produced)
        × (length s.shm.consumed ≤ length s.shm.produced)
        × (length s.shm.produced ≤ length s.shm.consumed + block_total)
  first_in_first_out {n} {s} some_room fits r =
      let v = fifo_Reach-Inv some_room fits r in
      (
        sym (take-append-drop (length s.shm.consumed) s.shm.produced)
            ∙ ap (λ l. l ++ drop (length s.shm.consumed) s.shm.produced) v.order,
        omega (arith, v.blocks),
        omega (arith, v.room),
      )

  -- Two processes are never both between `sem_p` and `sem_v` on the mutex.
  pub mutual_exclusion :
      {n : ℕ} {s : System} (i j : ℕ)
      → 0 < block_total
      → block_total < 2 ^ 32
      → Reach n (init block_size block_total memory) s
      → i < n
      → j < n
      → holds (s.pc i) ≡ 1
      → holds (s.pc j) ≡ 1
      → i ≡ j
  mutual_exclusion {n} {s} i j some_room fits r lt lt' hi hj = elim (ℕ_discrete i j) [
    | yes same ↦ same
    | no ne ↦
        let v = fifo_Reach-Inv some_room fits r in
        absurd
          (omega (arith, v.mutex, hi, hj, add-le-sum_below (λ k. holds (s.pc k)) i j n lt lt' ne))
  ]

  -- No process keeps the mutex for ever by waiting in the critical section: wherever one process
  -- waits for the mutex, some process has a next step.
  pub waiting_progress :
      {n : ℕ} {s : System} (i : ℕ)
      → 0 < block_total
      → block_total < 2 ^ 32
      → Reach n (init block_size block_total memory) s
      → (s.pc i ≡ enters_to_read) ⊎ ((buf : List ℕ) × (s.pc i ≡ enters_to_write buf))
      → i < n
      → (j : ℕ) × (j < n) × (advance s.shm (s.pc j) ≡ none → ⊥)
  waiting_progress {n} {s} i some_room fits r at lt =
      let v = fifo_Reach-Inv some_room fits r in
      elim (dec_lt 0 s.shm.sem_mutex) [
        | yes free ↦ (i, lt, takes_mutex s.shm (s.pc i) free at)
        | no taken ↦
            let (j, lt', inside) = sum_below-pos (λ k. holds (s.pc k)) n (omega (arith, v.mutex)) in
            (j, lt', holder_advances s.shm (s.pc j) inside)
      ]

-- While the payload is below 4 GiB, the byte positions do not wrap: each block lies in the payload,
-- and the blocks of different indices do not overlap.
pub position_apart :
    (i j block_size block_total : ℕ)
    → i < j
    → j < block_total
    → block_total * block_size < 2 ^ 32
    → (position i block_size + block_size ≤ position j block_size)
      × (position j block_size + block_size ≤ block_total * block_size)
unfolding position
position_apart i j block_size block_total lt below fits =
    let first : (i + 1) * block_size ≤ j * block_size = mul-le-mul_right block_size (omega arith) in
    let second : (j + 1) * block_size ≤ block_total * block_size =
      mul-le-mul_right block_size (omega arith) in
    rw
      (
        mod-eq_of_lt {n = i * block_size} {m = 2 ^ 32} (omega (arith, first, second)),
        mod-eq_of_lt {n = j * block_size} {m = 2 ^ 32} (omega (arith, second, fits)),
      )
      (omega (arith, first), omega (arith, second))
