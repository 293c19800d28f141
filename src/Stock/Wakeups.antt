-- ===== src/Stock/Wakeups.antt =====
-- cond-produce-consume.c: the stock and the sleeping consumers in every run.
use computer_science_notes.Base.{
  ℕ, ◌≤◌, ◌<◌, ◌≡◌, ◌≢◌, refl, ap, subst, update, sum_below, sum_below-update, sum_below-pos,
  le-sum_below, arith, ℕ_discrete,
}
use computer_science_notes.Stock.Threads.{
  consumers, Stock, Pc, locks, tests, waits, woken, takes, unlocks, locks_to_make, makes, signals,
  unlocks_made, System, init, Step, consumes, produces, wakes_one, wakes_none, wakes_up, Reach,
  start, later,
}
use computer_science_notes.Stock.Invariant.{
  holds, alert, buys, Inv, Effect-Inv, consume-Effect, make-Effect, woken-Effect,
}

-- A signal leaves somebody alert behind.
signals-Inv :
    {s : Stock} {pc : ℕ → Pc} (v : Inv s pc) (i j : ℕ)
    → 2 ≤ i
    → i < 3
    → pc i ≡ signals
    → j < 2
    → alert (pc j) ≡ 1
    → Inv s (update pc i unlocks_made)
signals-Inv {s} {pc} v i j high lt at low up = record {
  one_holder =
      omega (arith, v.one_holder, ap holds at, sum_below-update holds pc i 3 unlocks_made lt);
  in_stock = λ k low' at'. ground (arith, v.in_stock k);
  attended = λ some_there.
      let stays : alert (update pc i unlocks_made j) ≡ 1 = ground arith in
      omega
        (arith, stays, le-sum_below (λ k. alert (update pc i unlocks_made k)) j 3 (omega arith));
  first_buys = ground (arith, v.first_buys);
  last_sells = ground (arith, v.last_sells);
}

awake-alert : (q : Pc) → buys q ≡ 1 → q ≢ waits → alert q ≡ 1
awake-alert locks b e = refl
awake-alert tests b e = refl
awake-alert waits b e = absurd (e refl)
awake-alert woken b e = refl
awake-alert takes b e = refl
awake-alert unlocks b e = refl
awake-alert locks_to_make b e = absurd (omega arith)
awake-alert makes b e = absurd (omega arith)
awake-alert signals b e = refl
awake-alert unlocks_made b e = absurd (omega arith)

seller-alert : (q : Pc) → buys q ≡ 0 → 0 < alert q → q ≡ signals
seller-alert signals b up = refl
seller-alert q b up = absurd (omega arith)

Step-Inv : {s t : System} → Step s t → Inv s.stock s.pc → Inv t.stock t.pc
Step-Inv {s} (consumes i {stock} {pc} lt h) v =
    Effect-Inv v i (omega arith) stock pc
      (consume-Effect v i (omega arith) lt (s.pc i) stock pc refl h)
Step-Inv {s} (produces i {stock} {pc} high lt h) v =
    Effect-Inv v i lt stock pc (make-Effect v i lt high (s.pc i) stock pc refl h)
Step-Inv {s} (wakes_one i j high lt at low asleep) v =
    let v' =
      Effect-Inv v j (omega arith) s.stock woken (woken-Effect v j (omega arith) low asleep) in
    signals-Inv v' i j high lt (ground arith) low (ground arith)
Step-Inv {s} (wakes_none i high lt at nobody) v =
    signals-Inv v i 0 high lt at (omega arith)
      (awake-alert (s.pc 0) v.first_buys (nobody 0 (omega arith)))
Step-Inv {s} (wakes_up j low asleep) v =
    Effect-Inv v j (omega arith) s.stock woken (woken-Effect v j (omega arith) low asleep)

init-Inv : Inv init.stock init.pc
unfolding sum_below
init-Inv = record {
  one_holder = refl;
  in_stock = λ i lt at. absurd (ground arith);
  attended = λ some_there. absurd (omega arith);
  first_buys = refl;
  last_sells = refl;
}

-- In every state that the threads reach, in any order of their steps and wake-ups: the mutex is
-- locked exactly while a thread has it; a consumer about to take from the stock finds something
-- there; and while there is something in stock, some consumer does not sleep, or a producer is about
-- to wake one.
pub stock_Reach-Inv : {s : System} → Reach s → Inv s.stock s.pc
stock_Reach-Inv start = init-Inv
stock_Reach-Inv (later r step) = Step-Inv step (stock_Reach-Inv r)

-- No wake-up is lost: in no reachable state is there something in stock, no producer about to signal,
-- and every consumer asleep.
pub no_lost_wakeup :
    {s : System}
    → Reach s
    → 0 < s.stock.total
    → ((j : ℕ) → j < consumers → s.pc j ≡ waits)
    → s.pc consumers ≡ signals
no_lost_wakeup {s} r some_there asleep =
    let v = stock_Reach-Inv r in
    let (i, lt, up) = sum_below-pos (λ k. alert (s.pc k)) 3 (v.attended some_there) in
    elim (ℕ_discrete i 2) [
      | yes last ↦ seller-alert (s.pc 2) v.last_sells (subst (λ k. 0 < alert (s.pc k)) last up)
      | no other ↦ absurd (omega (arith, up, ap alert (asleep i (omega arith))))
    ]
