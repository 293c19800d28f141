-- ===== src/Stock/Threads.antt =====
-- cond-produce-consume.c: the counter, the condition variable and the two threads' functions.
use computer_science_notes.Base.{
  ℕ, ◌+◌, ◌-◌, ◌≤◌, ◌<◌, ◌≡◌, ◌≢◌, Bool, true, false, ◌==◌, ltb, if◌then◌else◌, Option, none, some,
  update,
}

abbrev pub consumers : ℕ
consumers = 2

abbrev pub producers : ℕ
producers = 1

-- `total` and the mutex; whether it is locked.
pub record Stock : Type 0 where
  pub total : ℕ
  pub mutex : Bool

-- Where a thread stands: a consumer before `pthread_mutex_lock`, at the test of its loop, in
-- `pthread_cond_wait`, there but woken, before `total--`, before `pthread_mutex_unlock`; a producer
-- before its lock, before `total++`, before `pthread_cond_signal`, before its unlock.
pub data Pc : Type 0 where
  locks tests waits woken takes unlocks : Pc
  locks_to_make makes signals unlocks_made : Pc

-- The next step of a consumer, none while it has to wait. The wait gives the mutex back, and takes
-- it again before it returns.
unfoldable pub consume : Stock → Pc → Option (Stock × Pc)
consume s locks = if s.mutex then none else some (record s { mutex = true }, tests)
consume s tests = if s.total == 0 then some (record s { mutex = false }, waits) else some (s, takes)
consume s woken = if s.mutex then none else some (record s { mutex = true }, tests)
consume s takes = some (record s { total = s.total - 1 }, unlocks)
consume s unlocks = some (record s { mutex = false }, locks)
consume s pc = none

-- The next step of a producer, but for the signal.
unfoldable pub make : Stock → Pc → Option (Stock × Pc)
make s locks_to_make = if s.mutex then none else some (record s { mutex = true }, makes)
make s makes = some (record s { total = s.total + 1 }, signals)
make s unlocks_made = some (record s { mutex = false }, locks_to_make)
make s pc = none

pub record System : Type 0 where
  pub stock : Stock
  pub pc : ℕ → Pc

-- The threads that `main` creates, the consumers first.
abbrev pub init : System
init = record {
  stock = record { total = 0; mutex = false };
  pc = λ i. if ltb i consumers then locks else locks_to_make;
}

-- The threads' steps in any order. A signal wakes a thread that waits, if there is one; a thread
-- may also wake up for no reason, as POSIX allows.
pub data Step (s : System) : System → Type 0 where
  consumes :
      (i : ℕ) {stock : Stock} {pc : Pc}
      → i < consumers
      → consume s.stock (s.pc i) ≡ some (stock, pc)
      → Step s (record { stock = stock; pc = update s.pc i pc })
  produces :
      (i : ℕ) {stock : Stock} {pc : Pc}
      → consumers ≤ i
      → i < consumers + producers
      → make s.stock (s.pc i) ≡ some (stock, pc)
      → Step s (record { stock = stock; pc = update s.pc i pc })
  wakes_one :
      (i j : ℕ)
      → consumers ≤ i
      → i < consumers + producers
      → s.pc i ≡ signals
      → j < consumers
      → s.pc j ≡ waits
      → Step s (record s { pc = update (update s.pc j woken) i unlocks_made })
  wakes_none :
      (i : ℕ)
      → consumers ≤ i
      → i < consumers + producers
      → s.pc i ≡ signals
      → ((j : ℕ) → j < consumers → s.pc j ≢ waits)
      → Step s (record s { pc = update s.pc i unlocks_made })
  wakes_up :
      (j : ℕ) → j < consumers → s.pc j ≡ waits → Step s (record s { pc = update s.pc j woken })

pub data Reach : System → Type 0 where
  start : Reach init
  later : {s t : System} → Reach s → Step s t → Reach t
