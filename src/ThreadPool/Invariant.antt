-- ===== src/ThreadPool/Invariant.antt =====
-- What holds between any two steps of the pool's threads.
use computer_science_notes.Base.{
  ℕ, zero, suc, ◌+◌, ◌≤◌, sum_below-update, subst, ◌<◌, ◌≡◌, refl, sym, ap, ◌∙◌, List, [], ◌∷◌,
  ◌++◌, append_assoc, some, Bool, true, false, ◌&&◌, Bool-cases, inl, inr, ◌==◌, update, sum_below,
  le-sum_below, arith,
}
use mathlib.Core.Option.{some-injective}
use computer_science_notes.ThreadPool.Tasks.{
  Linked, Absent, enqueue-Linked, dequeue-Linked, Linked-unique, first_of_chain, is_null,
}
use computer_science_notes.ThreadPool.Worker.{
  Pool, threadpool_init, Pc, absent, starting, waiting, running, gone, Event, goes_on, wakes,
  times_out, finish, serve, loop_test, handle_thread, threadpool_add_task, threadpool_destroy,
}
use computer_science_notes.ThreadPool.System.{
  System, init, taken, Step, moves, adds, spawns, destroys, released, Reach, start, later,
}

-- A thread that has been created and has not left.
abbrev pub is_alive : Pc → ℕ
is_alive absent = 0
is_alive gone = 0
is_alive pc = 1

abbrev pub is_waiting : Pc → ℕ
is_waiting waiting = 1
is_waiting pc = 0

-- `ts` are the tasks in the queue.
pub record Inv (n : ℕ) (s : System) (ts : List ℕ) : Type 0 where
  pub linked : Linked s.pool.tasks ts
  pub history : s.added ≡ s.begun ++ ts
  pub counted : s.pool.count ≡ sum_below (λ i. is_alive (s.pc i)) n
  pub idle : s.pool.idle ≡ sum_below (λ i. is_waiting (s.pc i)) n
  pub capped : s.pool.count ≤ s.pool.max_threads

none_counted : (w : Pc → ℕ) (n : ℕ) → w absent ≡ 0 → sum_below (λ i. w absent) n ≡ 0
unfolding sum_below
none_counted w zero h = refl
none_counted w (suc n) h = omega (arith, h, none_counted w n h)

-- What one step of a thread changes.
record Moved (p : Pool) (ts : List ℕ) (pc : Pc) (r : Pool × Pc) (ts' : List ℕ) : Type 0 where
  linked : Linked (r.0).tasks ts'
  queue : ts ≡ taken r.1 ++ ts'
  counted : (r.0).count + is_alive pc ≡ p.count + is_alive r.1
  idle : (r.0).idle + is_waiting pc ≡ p.idle + is_waiting r.1
  limit : (r.0).max_threads ≡ p.max_threads
  fewer : (r.0).count ≤ p.count

finish-Moved :
    (p : Pool) (ts : List ℕ) (f : Bool) (t : ℕ) (g : Bool)
    → Linked p.tasks ts
    → 0 < p.count
    → Moved p ts (running t g) (finish p f) ts
unfolding finish
finish-Moved p ts f t g v c = ground arith

serve-Moved :
    (p : Pool) (ts : List ℕ) (f : Bool)
    → Linked p.tasks ts
    → 0 < p.count
    → 0 < p.idle
    → (ts' : List ℕ) × Moved p ts waiting (serve p f) ts'
unfolding serve finish
serve-Moved p [] f v c i = ([], ground arith)
serve-Moved p (t ∷ ts) f v c i =
    let head = first_of_chain p.tasks.next p.tasks.first p.tasks.last t ts v.chain in
    (ts, ground (arith, head, dequeue-Linked p.tasks t ts v))

loop_test-Moved :
    (p : Pool) (ts : List ℕ)
    → Linked p.tasks ts
    → 0 < p.count
    → 0 < p.idle
    → (ts' : List ℕ) × Moved p ts waiting (loop_test p) ts'
unfolding loop_test
loop_test-Moved p ts v c i = elim (Bool-cases (is_null p.tasks.first && p.quit == 0)) [
  | inl rest ↦ (ts, rw (rest, loop_test) (ground arith))
  | inr work ↦ rw (work, loop_test) (serve-Moved p ts false v c i)
]

handle_thread-Moved :
    (e : Event) (p : Pool) (ts : List ℕ) (pc : Pc) (r : Pool × Pc)
    → Linked p.tasks ts
    → is_alive pc ≤ p.count
    → is_waiting pc ≤ p.idle
    → handle_thread e p pc ≡ some r
    → (ts' : List ℕ) × Moved p ts pc r ts'
unfolding handle_thread
handle_thread-Moved goes_on p ts starting r v c i h =
    let (ts', m) = loop_test-Moved (record p { idle = p.idle + 1 }) ts v c (omega arith) in
    let moved : Moved p ts starting (loop_test (record p { idle = p.idle + 1 })) ts' = record {
      linked = m.linked;
      queue = m.queue;
      counted = m.counted;
      idle = omega (arith, m.idle);
      limit = m.limit;
      fewer = m.fewer;
    } in
    (ts', subst (λ x. Moved p ts starting x ts') (some-injective _ _ h) moved)
handle_thread-Moved goes_on p ts (running t f) r v c i h =
    (ts, ground (arith, finish-Moved p ts f t f v))
handle_thread-Moved wakes p ts waiting r v c i h =
    let (ts', m) = loop_test-Moved p ts v c i in
    (ts', subst (λ x. Moved p ts waiting x ts') (some-injective _ _ h) m)
handle_thread-Moved times_out p ts waiting r v c i h =
    let (ts', m) = serve-Moved p ts true v c i in
    (ts', subst (λ x. Moved p ts waiting x ts') (some-injective _ _ h) m)
handle_thread-Moved e p ts pc r v c i h = cc

Inv-init : (n max_threads : ℕ) → Inv n (init max_threads) []
unfolding threadpool_init
Inv-init n max_threads = record {
  linked = record { chain = (refl, refl); distinct = tt };
  history = refl;
  counted = sym (none_counted is_alive n refl);
  idle = sym (none_counted is_waiting n refl);
  capped = omega arith;
}

moves-Inv :
    {n : ℕ} {s : System} {ts : List ℕ} (i : ℕ) (e : Event) (p : Pool) (pc : Pc)
    → i < n
    → handle_thread e s.pool (s.pc i) ≡ some (p, pc)
    → Inv n s ts
    → (ts' : List ℕ) × Inv n
        (record s { pool = p; pc = update s.pc i pc; begun = s.begun ++ taken pc })
        ts'
moves-Inv {n} {s} {ts} i e p pc lt h v =
    let alive = le-sum_below (λ j. is_alive (s.pc j)) i n lt in
    let waits = le-sum_below (λ j. is_waiting (s.pc j)) i n lt in
    let (ts', m) =
      handle_thread-Moved e s.pool ts (s.pc i) (p, pc) v.linked (omega (arith, v.counted))
        (omega (arith, v.idle)) h in
    (
      ts',
      record {
        linked = m.linked;
        history = v.history ∙ ap (◌++◌ s.begun) m.queue ∙ sym (append_assoc s.begun (taken pc) ts');
        counted = omega (arith, m.counted, v.counted, sum_below-update is_alive s.pc i n pc lt);
        idle = omega (arith, m.idle, v.idle, sum_below-update is_waiting s.pc i n pc lt);
        capped = omega (arith, m.limit, m.fewer, v.capped);
      },
    )

-- Every step keeps the invariant, for some contents of the queue.
pub Step-Inv :
    {n : ℕ} {s t : System} {ts : List ℕ} → Step n s t → Inv n s ts → (ts' : List ℕ) × Inv n t ts'
unfolding threadpool_add_task threadpool_destroy
Step-Inv (moves i e {p} {pc} lt h) v = moves-Inv i e p pc lt h v
Step-Inv {s} {ts} (adds t us held new no_thread) v =
    let fresh = subst (Absent t) (Linked-unique s.pool.tasks us ts held v.linked) new in
    (
      ts ++ t ∷ [],
      record {
        linked = ground (arith, enqueue-Linked s.pool.tasks ts t v.linked fresh);
        history = ap (λ xs. xs ++ t ∷ []) v.history ∙ append_assoc s.begun ts (t ∷ []);
        counted = ground (arith, v.counted);
        idle = ground (arith, v.idle);
        capped = ground (arith, v.capped);
      },
    )
Step-Inv {n} {s} {ts} (spawns t i us lt unused held new wanted) v =
    let fresh = subst (Absent t) (Linked-unique s.pool.tasks us ts held v.linked) new in
    (
      ts ++ t ∷ [],
      record {
        linked = ground (arith, enqueue-Linked s.pool.tasks ts t v.linked fresh);
        history = ap (λ xs. xs ++ t ∷ []) v.history ∙ append_assoc s.begun ts (t ∷ []);
        counted = ground (arith, v.counted, unused, sum_below-update is_alive s.pc i n starting lt);
        idle = ground (arith, v.idle, unused, sum_below-update is_waiting s.pc i n starting lt);
        capped = ground (arith, v.capped);
      },
    )
Step-Inv {ts} (destroys active_owner) v = (ts, ground arith)
Step-Inv {ts} (released awaits) v = (ts, ground arith)

max_threads-Step :
    {n : ℕ} {s t : System} {ts : List ℕ}
    → Step n s t
    → Inv n s ts
    → t.pool.max_threads ≡ s.pool.max_threads
unfolding threadpool_add_task threadpool_destroy
max_threads-Step {n} {s} {ts = ts} (moves i e {p} {pc} lt h) v =
    (handle_thread-Moved e s.pool ts (s.pc i) (p, pc) v.linked
      (omega (arith, v.counted, le-sum_below (λ j. is_alive (s.pc j)) i n lt))
      (omega (arith, v.idle, le-sum_below (λ j. is_waiting (s.pc j)) i n lt)) h).1.limit
max_threads-Step (adds t us held new no_thread) v = ground arith
max_threads-Step (spawns t i us lt unused held new wanted) v = ground arith
max_threads-Step (destroys active_owner) v = ground arith
max_threads-Step (released awaits) v = refl

-- In every state that the threads of a new pool can reach, in whatever order they run, the queue is
-- a well-formed list of the tasks that were added and not yet begun; the tasks begun are the first
-- ones added, each begun once and in the order of addition; `count` is the number of threads
-- alive, `idle` that of the threads waiting; and there are never more threads than `max_threads`.
pub pool_Reach-Inv :
    {n max_threads : ℕ} {s : System}
    → Reach n max_threads s
    → ((ts : List ℕ) × Inv n s ts) × (s.pool.max_threads ≡ max_threads)
unfolding threadpool_init
pool_Reach-Inv {n} {max_threads} start = (([], Inv-init n max_threads), refl)
pool_Reach-Inv (later r st) =
    let ((ts, v), same) = pool_Reach-Inv r in (Step-Inv st v, max_threads-Step st v ∙ same)
