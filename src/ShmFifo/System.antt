-- ===== src/ShmFifo/System.antt =====
-- `n` processes with one FIFO, interleaved in any order. Each produces or consumes as it likes, as
-- produce.c and consume.c do.
use computer_science_notes.Base.{ℕ, ◌<◌, ◌≡◌, List, none, some, update}
use computer_science_notes.ShmFifo.Fifo.{Shm, fifo_init, Pc, outside, Call, begin, advance}

pub record System : Type 0 where
  pub shm : Shm
  pub pc : ℕ → Pc

abbrev pub init : ℕ → ℕ → (ℕ → List ℕ) → System
init block_size block_total memory = record {
  shm = fifo_init none block_size block_total memory;
  pc = λ i. outside;
}

pub data Step (n : ℕ) (s : System) : System → Type 0 where
  calls :
      (i : ℕ) (c : Call)
      → i < n
      → s.pc i ≡ outside
      → Step n s (record s { pc = update s.pc i (begin c) })
  moves :
      (i : ℕ) {m : Shm} {pc : Pc}
      → i < n
      → advance s.shm (s.pc i) ≡ some (m, pc)
      → Step n s (record { shm = m; pc = update s.pc i pc })

pub data Reach (n : ℕ) (first : System) : System → Type 0 where
  start : Reach n first first
  later : {s t : System} → Reach n first s → Step n s t → Reach n first t
