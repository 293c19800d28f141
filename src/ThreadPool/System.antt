-- ===== src/ThreadPool/System.antt =====
-- Threads of one pool, interleaved in any order.
use computer_science_notes.Base.{ℕ, ◌<◌, ◌≡◌, List, [], ◌∷◌, ◌++◌, some, true, false, update}
use computer_science_notes.ThreadPool.Tasks.{Absent, Linked}
use computer_science_notes.ThreadPool.Worker.{
  Pool, threadpool_init, Pc, absent, starting, running, Event, handle_thread, threadpool_add_task,
  Owner, active, awaiting, destroyed, threadpool_destroy,
}

-- `added` and `begun` are histories: the tasks handed to the pool, and those that a thread has taken
-- out to run, oldest first.
pub record System : Type 0 where
  pub pool : Pool
  pub pc : ℕ → Pc
  pub owner : Owner
  pub added : List ℕ
  pub begun : List ℕ

abbrev pub init : ℕ → System
init max_threads = record {
  pool = threadpool_init max_threads;
  pc = λ i. absent;
  owner = active;
  added = [];
  begun = [];
}

-- The task that a thread has just taken out.
abbrev pub taken : Pc → List ℕ
taken (running t timeout_flag) = t ∷ []
taken pc = []

-- At most `n` threads are ever created; `pthread_create` succeeds. The node of a new task is not
-- one that is still in the queue.
pub data Step (n : ℕ) (s : System) : System → Type 0 where
  moves :
      (i : ℕ) (e : Event) {p : Pool} {pc : Pc}
      → i < n
      → handle_thread e s.pool (s.pc i) ≡ some (p, pc)
      → Step n s (record s { pool = p; pc = update s.pc i pc; begun = s.begun ++ taken pc })
  adds :
      (t : ℕ) (ts : List ℕ)
      → Linked s.pool.tasks ts
      → Absent t ts
      → (threadpool_add_task s.pool t).1 ≡ false
      → Step n s (record s { pool = (threadpool_add_task s.pool t).0; added = s.added ++ t ∷ [] })
  spawns :
      (t i : ℕ) (ts : List ℕ)
      → i < n
      → s.pc i ≡ absent
      → Linked s.pool.tasks ts
      → Absent t ts
      → (threadpool_add_task s.pool t).1 ≡ true
      → Step n s (record s {
        pool = (threadpool_add_task s.pool t).0;
        pc = update s.pc i starting;
        added = s.added ++ t ∷ [];
      })
  destroys :
      s.owner ≡ active
      → Step n s
          (record s { pool = (threadpool_destroy s.pool).0; owner = (threadpool_destroy s.pool).1 })
  released : s.owner ≡ awaiting → Step n s (record s { owner = destroyed })

pub data Reach (n max_threads : ℕ) : System → Type 0 where
  start : Reach n max_threads (init max_threads)
  later : {s t : System} → Reach n max_threads s → Step n s t → Reach n max_threads t
