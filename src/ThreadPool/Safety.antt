-- ===== src/ThreadPool/Safety.antt =====
-- When threads leave, and what `threadpool_destroy` waits for.
use computer_science_notes.Base.{
  ℕ, ◌+◌, ◌<◌, ◌≡◌, ◌≢◌, ◌-◌, refl, ap, ◌⊎◌, inl, inr, some, true, false, Bool, arith, le-sum_below,
}
use computer_science_notes.ThreadPool.Tasks.{is_null}
use computer_science_notes.ThreadPool.Worker.{
  Pool, Pc, starting, waiting, running, gone, Event, goes_on, wakes, times_out, finish, serve,
  loop_test, handle_thread, active, destroyed, threadpool_destroy,
}
use computer_science_notes.ThreadPool.System.{System, Step, destroys, Reach}
use computer_science_notes.ThreadPool.Invariant.{is_alive, is_waiting, pool_Reach-Inv}

finish-gone :
    (p : Pool) (f : Bool)
    → (finish p f).1 ≡ gone
    → (is_null ((finish p f).0).tasks.first ≡ true) × ((p.quit ≡ 1) ⊎ (f ≡ true))
unfolding finish
finish-gone p f h = ground arith

serve-gone :
    (p : Pool) (f : Bool)
    → (serve p f).1 ≡ gone
    → (is_null ((serve p f).0).tasks.first ≡ true) × ((p.quit ≡ 1) ⊎ (f ≡ true))
unfolding serve
serve-gone p f h = ground (arith, finish-gone (record p { idle = p.idle - 1 }) f)

loop_test-gone :
    (p : Pool)
    → (loop_test p).1 ≡ gone
    → (is_null ((loop_test p).0).tasks.first ≡ true) × (p.quit ≡ 1)
unfolding loop_test
loop_test-gone p h = ground (arith, serve-gone p false)

-- A thread leaves only with the queue empty, and only after the pool was told to quit or its own
-- wait timed out, then or before the task that it has just finished.
pub gone_when_drained :
    (e : Event) (p p' : Pool) (pc : Pc)
    → handle_thread e p pc ≡ some (p', gone)
    → (is_null p'.tasks.first ≡ true)
      × ((p.quit ≡ 1) ⊎ (e ≡ times_out) ⊎ ((t : ℕ) × (pc ≡ running t true)))
unfolding handle_thread
gone_when_drained goes_on p p' starting h =
    let (drained, told) = loop_test-gone (record p { idle = p.idle + 1 }) (ground arith) in
    (ground arith, inl told)
gone_when_drained goes_on p p' (running t f) h =
    let (drained, why) = finish-gone p f (ground arith) in
    (ground arith, elim why [ inl told ↦ inl told | inr late ↦ inr (inr (t, ap (running t) late)) ])
gone_when_drained wakes p p' waiting h =
    let (drained, told) = loop_test-gone p (ground arith) in (ground arith, inl told)
gone_when_drained times_out p p' waiting h =
    let (drained, why) = serve-gone p true (ground arith) in (ground arith, inr (inl refl))
gone_when_drained e p p' pc h = cc

-- `threadpool_destroy` does not wait while a thread is idle: wherever one thread waits for work and
-- another is in a task, it may return at once, with that task still running.
pub destroy_leaves_running :
    {n max_threads : ℕ} {s : System} (i j t : ℕ) (f : Bool)
    → Reach n max_threads s
    → s.owner ≡ active
    → s.pool.quit ≢ 1
    → i < n
    → j < n
    → s.pc i ≡ running t f
    → s.pc j ≡ waiting
    → (s' : System) × Step n s s' × (s'.owner ≡ destroyed) × (s'.pc i ≡ running t f)
unfolding threadpool_destroy
destroy_leaves_running {n} {s} i j t f r own live lt lt' busy rests =
    let ((ts, v), same) = pool_Reach-Inv r in
    let some_idle : 0 < s.pool.idle =
      ground (arith, v.idle, rests, le-sum_below (λ k. is_waiting (s.pc k)) j n lt') in
    let some_thread : 0 < s.pool.count =
      ground (arith, v.counted, busy, le-sum_below (λ k. is_alive (s.pc k)) i n lt) in
    (_, destroys own, ground arith, busy)
