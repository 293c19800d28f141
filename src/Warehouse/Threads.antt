-- ===== src/Warehouse/Threads.antt =====
-- posix-produce-consume.c: the shared variables and the two threads' functions.
use computer_science_notes.Base.{
  ℕ, zero, suc, ◌+◌, ◌%◌, ◌≤◌, ◌<◌, ◌≡◌, ℤ, pos, negsuc, Bool, true, false, Option, none, some, ltb,
  if◌then◌else◌, update,
}

abbrev pub consumer_threads : ℕ
consumer_threads = 2

abbrev pub producer_threads : ℕ
producer_threads = 4

abbrev pub buffer_elements : ℕ
buffer_elements = 10

-- The globals; an empty place holds -1. `consumed` counts the products taken: the program's own
-- `consume_id` stays 0.
pub record Warehouse : Type 0 where
  pub buf : ℕ → ℤ
  pub rd_index : ℕ
  pub wr_index : ℕ
  pub produce_id : ℕ
  pub sem_produce : ℕ
  pub sem_consume : ℕ
  pub mutex : Bool
  pub consumed : ℕ

-- `main`: the buffer is filled with the byte 0xff, the semaphores and the mutex are set up.
unfoldable pub setup : Warehouse
setup = record {
  buf = λ i. negsuc 0;
  rd_index = 0;
  wr_index = 0;
  produce_id = 0;
  sem_produce = buffer_elements;
  sem_consume = 0;
  mutex = false;
  consumed = 0;
}

-- Where a thread stands in its loop: before `sem_wait`, before `pthread_mutex_lock`, in the section
-- up to `pthread_mutex_unlock`, before that, and before `sem_post`.
pub data Pc : Type 0 where
  wants_place locks_to_produce produces unlocks_produced posts_product : Pc
  wants_product locks_to_consume consumes unlocks_consumed posts_place : Pc

-- `buf[rd_index] = -1; rd_index = (rd_index+1) % BUFFER_ELEMENTS;`
unfoldable pub take_product : Warehouse → Warehouse
take_product w = record w {
  buf = update w.buf w.rd_index (negsuc 0);
  rd_index = (w.rd_index + 1) % buffer_elements;
  consumed = w.consumed + 1;
}

-- `buf[wr_index] = produce_id++; wr_index = (wr_index+1) % BUFFER_ELEMENTS;`
unfoldable pub put_product : Warehouse → Warehouse
put_product w = record w {
  buf = update w.buf w.wr_index (pos w.produce_id);
  wr_index = (w.wr_index + 1) % buffer_elements;
  produce_id = w.produce_id + 1;
}

-- The next step of a thread, none while it has to wait.
unfoldable pub handle_consume : Warehouse → Pc → Option (Warehouse × Pc)
handle_consume w wants_product = elim w.sem_consume [
  | zero ↦ none
  | suc v ↦ some (record w { sem_consume = v }, locks_to_consume)
]
handle_consume w locks_to_consume =
    if w.mutex then none else some (record w { mutex = true }, consumes)
handle_consume w consumes = some (take_product w, unlocks_consumed)
handle_consume w unlocks_consumed = some (record w { mutex = false }, posts_place)
handle_consume w posts_place = some (record w { sem_produce = suc w.sem_produce }, wants_product)
handle_consume w pc = none

unfoldable pub handle_produce : Warehouse → Pc → Option (Warehouse × Pc)
handle_produce w wants_place = elim w.sem_produce [
  | zero ↦ none
  | suc v ↦ some (record w { sem_produce = v }, locks_to_produce)
]
handle_produce w locks_to_produce =
    if w.mutex then none else some (record w { mutex = true }, produces)
handle_produce w produces = some (put_product w, unlocks_produced)
handle_produce w unlocks_produced = some (record w { mutex = false }, posts_product)
handle_produce w posts_product = some (record w { sem_consume = suc w.sem_consume }, wants_place)
handle_produce w pc = none

pub record System : Type 0 where
  pub store : Warehouse
  pub pc : ℕ → Pc

abbrev pub threads : ℕ
threads = consumer_threads + producer_threads

-- The threads that `main` creates, the consumers first.
abbrev pub init : System
init = record {
  store = setup;
  pc = λ i. if ltb i consumer_threads then wants_product else wants_place;
}

-- The threads' steps in any order.
pub data Step (s : System) : System → Type 0 where
  consumer_moves :
      (i : ℕ) {w : Warehouse} {pc : Pc}
      → i < consumer_threads
      → handle_consume s.store (s.pc i) ≡ some (w, pc)
      → Step s (record { store = w; pc = update s.pc i pc })
  producer_moves :
      (i : ℕ) {w : Warehouse} {pc : Pc}
      → consumer_threads ≤ i
      → i < threads
      → handle_produce s.store (s.pc i) ≡ some (w, pc)
      → Step s (record { store = w; pc = update s.pc i pc })

pub data Reach : System → Type 0 where
  start : Reach init
  later : {s t : System} → Reach s → Step s t → Reach t
