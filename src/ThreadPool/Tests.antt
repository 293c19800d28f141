-- ===== src/ThreadPool/Tests.antt =====
-- Runs of a pool with room for two threads, and the theorems at them.
use computer_science_notes.Base.{ℕ, ◌≡◌, refl, ◌⊎◌, List, [], true, false, arith, ℕ_discrete}
use computer_science_notes.ThreadPool.Tasks.{no_tasks, Linked, enqueue, dequeue, is_null}
use computer_science_notes.ThreadPool.Worker.{
  Pool, threadpool_init, waiting, running, goes_on, wakes, times_out, finish, serve, loop_test,
  handle_thread, threadpool_add_task, destroyed,
}
use computer_science_notes.ThreadPool.System.{
  System, init, Step, moves, spawns, Reach, start, later,
}
use computer_science_notes.ThreadPool.Invariant.{Inv, pool_Reach-Inv}
use computer_science_notes.ThreadPool.Safety.{gone_when_drained, destroy_leaves_running}

empty_Linked : Linked no_tasks []
empty_Linked = record { chain = (refl, refl); distinct = tt }

-- Two tasks, a thread for each; the second thread finishes its task and waits.
one_rests : (s : System) × Reach 2 2 s × (s.pc 0 ≡ running 7 false) × (s.pc 1 ≡ waiting)
unfolding threadpool_init threadpool_add_task handle_thread loop_test serve finish enqueue dequeue
    ℕ_discrete
one_rests =
    let r0 : Reach 2 2 (init 2) = start in
    let r1 = later r0 (spawns 7 0 [] (omega arith) refl empty_Linked tt refl) in
    let r2 = later r1 (moves 0 goes_on (omega arith) refl) in
    let r3 =
      later r2 (
        spawns 8 1 [] (omega arith) refl (record { chain = (refl, refl); distinct = tt }) tt
          refl) in
    let r4 = later r3 (moves 1 goes_on (omega arith) refl) in
    let r5 = later r4 (moves 1 goes_on (omega arith) refl) in
    let r6 = later r5 (moves 1 goes_on (omega arith) refl) in (_, r6, refl, refl)

pool_Reach-Inv_example :
    ((ts : List ℕ) × Inv 2 (one_rests.0) ts) × ((one_rests.0).pool.max_threads ≡ 2)
pool_Reach-Inv_example = pool_Reach-Inv one_rests.1

destroy_leaves_running_example :
    (s' : System) × Step 2 (one_rests.0) s' × (s'.owner ≡ destroyed) × (s'.pc 0 ≡ running 7 false)
unfolding one_rests
destroy_leaves_running_example =
    destroy_leaves_running 0 1 7 false one_rests.1 refl (omega arith) (omega arith) (omega arith)
      one_rests.2 one_rests.3

abbrev told_to_quit : Pool
told_to_quit = record { tasks = no_tasks; count = 1; idle = 1; max_threads = 2; quit = 1 }

gone_when_drained_example :
    (is_null no_tasks.first ≡ true)
    × ((told_to_quit.quit ≡ 1) ⊎ (wakes ≡ times_out) ⊎ ((t : ℕ) × (waiting ≡ running t true)))
unfolding handle_thread loop_test serve finish
gone_when_drained_example =
    gone_when_drained wakes told_to_quit (record told_to_quit { count = 0; idle = 0 }) waiting refl
