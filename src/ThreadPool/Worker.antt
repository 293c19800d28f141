-- ===== src/ThreadPool/Worker.antt =====
-- The pool and what its threads do to it: each step below is what runs between taking the lock and
-- giving it back (by `condition_unlock` or by waiting), so it is one step for the other threads.
use computer_science_notes.Base.{
  ℕ, ◌+◌, ◌-◌, Option, none, some, Bool, true, false, ◌&&◌, ltb, ◌==◌, if◌then◌else◌,
}
use computer_science_notes.ThreadPool.Tasks.{Tasks, no_tasks, is_null, enqueue, dequeue}

-- `threadpool_t`, with the condition variable left out: it holds no data.
pub record Pool : Type 0 where
  pub tasks : Tasks
  pub count : ℕ
  pub idle : ℕ
  pub max_threads : ℕ
  pub quit : ℕ

unfoldable pub threadpool_init : ℕ → Pool
threadpool_init max_threads = record {
  tasks = no_tasks;
  count = 0;
  idle = 0;
  max_threads = max_threads;
  quit = 0;
}

-- Where a thread stands in `handle_thread`; the flag is `timeout_flag`.
pub data Pc : Type 0 where
  absent : Pc  -- not created
  starting : Pc  -- head of `while(1)`
  waiting : Pc  -- in `condition_timedwait`, the lock released
  running : (task : ℕ) (timeout_flag : Bool) → Pc  -- in `p_task->run`, the lock released
  gone : Pc  -- returned

-- The part after the task: leave on `quit` or on a timeout if there is no task, or go round again.
unfoldable pub finish : Pool → Bool → Pool × Pc
finish p timeout_flag =
    if p.quit == 1 && is_null p.tasks.first
    then (record p { count = p.count - 1 }, gone)
    else if timeout_flag && is_null p.tasks.first
    then (record p { count = p.count - 1 }, gone)
    else (p, starting)

-- From `pool->idle--` to the first unlock.
unfoldable pub serve : Pool → Bool → Pool × Pc
serve p timeout_flag = elim p.tasks.first [
  | none ↦ finish (record p { idle = p.idle - 1 }) timeout_flag
  | some t ↦ (record p { idle = p.idle - 1; tasks = dequeue p.tasks t }, running t timeout_flag)
]

-- The test of `while (pool->first == NULL && pool->quit == 0)`.
unfoldable pub loop_test : Pool → Pool × Pc
loop_test p = if is_null p.tasks.first && p.quit == 0 then (p, waiting) else serve p false

-- What can happen to a thread: it goes on, it is woken (by a signal, a broadcast or for no reason,
-- as POSIX allows), or its wait times out.
pub data Event : Type 0 where
  goes_on wakes times_out : Event

unfoldable pub handle_thread : Event → Pool → Pc → Option (Pool × Pc)
handle_thread goes_on p starting = some (loop_test (record p { idle = p.idle + 1 }))
handle_thread goes_on p (running t timeout_flag) = some (finish p timeout_flag)
handle_thread wakes p waiting = some (loop_test p)
handle_thread times_out p waiting = some (serve p true)
handle_thread e p pc = none

-- `threadpool_add_task`: the pool, and whether it creates a thread.
unfoldable pub threadpool_add_task : Pool → ℕ → Pool × Bool
threadpool_add_task p t =
    let tasks = enqueue p.tasks t in
    if ltb 0 p.idle
    then (record p { tasks = tasks }, false)
    else if p.idle == 0 && ltb p.count p.max_threads
    then (record p { tasks = tasks; count = p.count + 1 }, true)
    else (record p { tasks = tasks }, false)

-- How far the thread that owns the pool has come.
pub data Owner : Type 0 where
  active : Owner
  awaiting : Owner  -- in the one `condition_wait` of `threadpool_destroy`
  destroyed : Owner  -- `threadpool_destroy` has returned

unfoldable pub threadpool_destroy : Pool → Pool × Owner
threadpool_destroy p =
    if p.quit == 1
    then (p, destroyed)
    else if ltb 0 p.count
    then if ltb 0 p.idle
      then (record p { quit = 1 }, destroyed)
      else (record p { quit = 1 }, awaiting)
    else (record p { quit = 1 }, destroyed)
