-- ===== src/ShmFifo/Fifo.antt =====
-- fifo.c and sem.c: the shared memory and the steps of `fifo_produce` and `fifo_consume`.
-- The payload is seen as `block_total` blocks, each at its `position`.
use computer_science_notes.Base.{
  ℕ, zero, suc, ◌+◌, ◌*◌, ◌%◌, ◌^◌, List, [], ◌∷◌, ◌++◌, Option, none, some, take, update,
}

-- `Shmhead`, the payload and the three semaphores. `produced` and `consumed` are histories: the
-- blocks put in and taken out, oldest first.
pub record Shm : Type 0 where
  pub block_size : ℕ
  pub block_total : ℕ
  pub rd_index : ℕ
  pub wr_index : ℕ
  pub payload : ℕ → List ℕ
  pub sem_mutex : ℕ
  pub sem_produce : ℕ
  pub sem_consume : ℕ
  pub produced : List (List ℕ)
  pub consumed : List (List ℕ)

-- A semaphore's value. P waits while it is 0.
abbrev pub sem_p : ℕ → Option ℕ
sem_p zero = none
sem_p (suc n) = some n

abbrev pub sem_v : ℕ → ℕ
sem_v n = suc n

-- `fifo_init`: a segment that exists is attached as it is, whatever sizes are asked for.
unfoldable pub fifo_init : Option Shm → ℕ → ℕ → (ℕ → List ℕ) → Shm
fifo_init (some shm) block_size block_total memory = shm
fifo_init none block_size block_total memory = record {
  block_size = block_size;
  block_total = block_total;
  rd_index = 0;
  wr_index = 0;
  payload = memory;
  sem_mutex = 1;
  sem_produce = block_total;
  sem_consume = 0;
  produced = [];
  consumed = [];
}

-- Unsigned arithmetic of the byte position and of the next index.
unfoldable pub position : ℕ → ℕ → ℕ
position index block_size = index * block_size % 2 ^ 32

abbrev pub next_index : ℕ → ℕ → ℕ
next_index index block_total = (index + 1) % 2 ^ 32 % block_total

-- Where a process stands in a call: before each call of `sem_p`, in the copy, before the update of
-- the index, and before each call of `sem_v`.
pub data Pc : Type 0 where
  outside : Pc
  wants_room enters_to_write copies_in advances_wr : (buf : List ℕ) → Pc
  leaves_write posts_block : Pc
  wants_block enters_to_read copies_out : Pc
  advances_rd leaves_read posts_room : (buf : List ℕ) → Pc

-- The calls that a process may begin.
pub data Call : Type 0 where
  produce : List ℕ → Call
  consume : Call

abbrev pub begin : Call → Pc
begin (produce buf) = wants_room buf
begin consume = wants_block

-- The next step of a process; none while it has to wait, or is outside.
unfoldable pub advance : Shm → Pc → Option (Shm × Pc)
advance m outside = none
advance m (wants_room buf) = elim (sem_p m.sem_produce) [
  | none ↦ none
  | some v ↦ some (record m { sem_produce = v }, enters_to_write buf)
]
advance m (enters_to_write buf) = elim (sem_p m.sem_mutex) [
  | none ↦ none
  | some v ↦ some (record m { sem_mutex = v }, copies_in buf)
]
advance m (copies_in buf) =
    some
      (record m { payload = update m.payload m.wr_index (take m.block_size buf) }, advances_wr buf)
advance m (advances_wr buf) = some (
  record m {
    wr_index = next_index m.wr_index m.block_total;
    produced = m.produced ++ take m.block_size buf ∷ [];
  },
  leaves_write,
)
advance m leaves_write = some (record m { sem_mutex = sem_v m.sem_mutex }, posts_block)
advance m posts_block = some (record m { sem_consume = sem_v m.sem_consume }, outside)
advance m wants_block = elim (sem_p m.sem_consume) [
  | none ↦ none
  | some v ↦ some (record m { sem_consume = v }, enters_to_read)
]
advance m enters_to_read = elim (sem_p m.sem_mutex) [
  | none ↦ none
  | some v ↦ some (record m { sem_mutex = v }, copies_out)
]
advance m copies_out = some (m, advances_rd (m.payload m.rd_index))
advance m (advances_rd buf) = some (
  record m { rd_index = next_index m.rd_index m.block_total; consumed = m.consumed ++ buf ∷ [] },
  leaves_read buf,
)
advance m (leaves_read buf) = some (record m { sem_mutex = sem_v m.sem_mutex }, posts_room buf)
advance m (posts_room buf) = some (record m { sem_produce = sem_v m.sem_produce }, outside)
