-- ===== src/ShmFifo/Invariant.antt =====
-- What the semaphores count, and where the blocks between the two indices are.
use computer_science_notes.Base.{
  ℕ, ◌+◌, ◌%◌, ◌^◌, ◌≤◌, ◌<◌, ◌≡◌, [], length, get_or, take, sum_below,
}
use computer_science_notes.ShmFifo.Fifo.{
  Shm, Pc, enters_to_write, copies_in, advances_wr, leaves_write, posts_block, enters_to_read,
  copies_out, advances_rd, leaves_read, posts_room,
}

-- In the critical section.
abbrev pub holds : Pc → ℕ
holds (copies_in buf) = 1
holds (advances_wr buf) = 1
holds leaves_write = 1
holds copies_out = 1
holds (advances_rd buf) = 1
holds (leaves_read buf) = 1
holds pc = 0

-- Has reserved an empty block that it has not yet filled, or emptied one that it has not yet posted.
abbrev pub reserves_room : Pc → ℕ
reserves_room (enters_to_write buf) = 1
reserves_room (copies_in buf) = 1
reserves_room (advances_wr buf) = 1
reserves_room (leaves_read buf) = 1
reserves_room (posts_room buf) = 1
reserves_room pc = 0

-- The same for full blocks.
abbrev pub reserves_block : Pc → ℕ
reserves_block enters_to_read = 1
reserves_block copies_out = 1
reserves_block (advances_rd buf) = 1
reserves_block leaves_write = 1
reserves_block posts_block = 1
reserves_block pc = 0

-- What a process in the critical section has already done to the payload or seen of it.
abbrev pub Fresh : Shm → Pc → Type 0
Fresh m (advances_wr buf) = m.payload m.wr_index ≡ take m.block_size buf
Fresh m (advances_rd buf) = m.payload m.rd_index ≡ buf
Fresh m pc = Unit

pub record Inv (n block_total : ℕ) (m : Shm) (pc : ℕ → Pc) : Type 0 where
  pub total : m.block_total ≡ block_total
  pub some_room : 0 < block_total
  pub fits : block_total < 2 ^ 32
  pub mutex : m.sem_mutex + sum_below (λ i. holds (pc i)) n ≡ 1
  pub room :
      m.sem_produce + sum_below (λ i. reserves_room (pc i)) n + length m.produced
      ≡ block_total + length m.consumed
  pub blocks :
      m.sem_consume + sum_below (λ i. reserves_block (pc i)) n + length m.consumed
      ≡ length m.produced
  pub wr : m.wr_index ≡ length m.produced % block_total
  pub rd : m.rd_index ≡ length m.consumed % block_total
  pub order : take (length m.consumed) m.produced ≡ m.consumed
  pub stored :
      (k : ℕ)
      → length m.consumed ≤ k
      → k < length m.produced
      → m.payload (k % block_total) ≡ get_or m.produced k []
  pub fresh : (i : ℕ) → i < n → Fresh m (pc i)
