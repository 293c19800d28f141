-- ===== src/Reactor/Loop.antt =====
-- The event loop of `main`: the search for idle connections, and the dispatch of one report.
use computer_science_notes.Base.{
  ℕ, zero, suc, ◌-◌, ◌≡◌, subst, inl, inr, Option, some, none, Bool, Bool-cases, true, false, ◌&&◌,
  ◌==◌, ==_iff, leb, arith, if◌then◌else◌,
}
use computer_science_notes.Reactor.Table.{
  max_events, epollin, epollout, Callback, no_callback, acceptconn, recvdata, senddata, Reactor,
  eventset, eventadd, eventdel, close,
}
use computer_science_notes.Reactor.Handlers.{
  on_accept, on_recv, on_send, check_idle, sweep, Answers, Received, data_read, peer_closed,
  recv_error, run_callback, dispatch, terminate,
}
use computer_science_notes.Reactor.Wired.{
  Matches, Wired, on_recv-Wired, on_send-Wired, on_accept-Wired,
}

-- Closing first and deleting afterwards comes to the same.
expired-Wired :
    (r : Reactor) (i : ℕ)
    → Wired r
    → (r.g_events i).status ≡ 1
    → Wired (eventdel (close r (r.g_events i).fd) i (r.g_events i))
unfolding close eventdel
expired-Wired r i w on = record {
  registered = λ j on'. ground (arith, w.registered j, w.registered i);
  opened = λ j on'. ground (arith, w.opened j, w.registered j, w.registered i);
  matched = λ j on'. ground (arith, w.matched j);
  only = λ fd j m e. ground (arith, w.only fd j m);
}

check_idle-Wired : (r : Reactor) (i now : ℕ) → Wired r → Wired (check_idle r i now)
unfolding check_idle
check_idle-Wired r i now w = elim (Bool-cases ((r.g_events i).status == 1)) [
  | inr off ↦ rw (off, check_idle) w
  | inl on ↦ elim (Bool-cases (leb 60 (now - (r.g_events i).last_active))) [
    | inr recent ↦ rw (on, recent, check_idle) w
    | inl idle ↦ rw (on, idle, check_idle) (expired-Wired r i w ((==_iff _ _).0 on))
  ]
]

-- The search for idle connections keeps the table and the interest list in agreement.
pub sweep-Wired :
    (k : ℕ) (r : Reactor) (checkpos now : ℕ) → Wired r → Wired (sweep k r checkpos now).0
unfolding sweep
sweep-Wired zero r checkpos now w = w
sweep-Wired (suc k) r checkpos now w =
    sweep-Wired k _ _ now
      (check_idle-Wired r (if checkpos == max_events then 0 else checkpos) now w)

-- `accept` never returns a descriptor that is open.
abbrev pub IsNew : Reactor → Answers → Type 0
IsNew r a = (cfd : ℕ) → a.accepted ≡ some cfd → r.is_open cfd ≡ false

run_callback-Wired :
    (r : Reactor) (i : ℕ) (cb : Callback) (a : Answers)
    → IsNew r a
    → a.able ≡ true
    → Wired r
    → (r.g_events i).status ≡ 1
    → Wired (run_callback r i cb a)
unfolding run_callback
run_callback-Wired r i acceptconn a new able w on =
    rw able (on_accept-Wired r a.accepted a.nonblocking a.now new w)
run_callback-Wired r i recvdata a new able w on = rw able (on_recv-Wired r i a.received a.now w on)
run_callback-Wired r i senddata a new able w on = rw able (on_send-Wired r i a.sent a.now w on)
run_callback-Wired r i no_callback a new able w on = w

accept_still_on :
    (r : Reactor) (i : ℕ) (o : Option ℕ) (nonblocking able : Bool) (now : ℕ)
    → (r.g_events i).status ≡ 1
    → ((on_accept r o nonblocking able now).g_events i).status ≡ 1
unfolding on_accept eventadd eventset
accept_still_on r i none nonblocking able now on = on
accept_still_on r i (some cfd) nonblocking able now on = ground arith

recv_still_on :
    (r : Reactor) (i : ℕ) (o : Received) (able : Bool) (now : ℕ)
    → (r.g_events i).events ≡ epollin
    → ((on_recv r i o able now).g_events i).events ≡ epollout
    → ((on_recv r i o able now).g_events i).status ≡ 1
unfolding on_recv eventadd eventdel eventset close terminate
recv_still_on r i (data_read bs) able now e e' = ground arith
recv_still_on r i peer_closed able now e e' = ground arith
recv_still_on r i recv_error able now e e' = ground arith

send_still_on :
    (r : Reactor) (i sent : ℕ) (able : Bool) (now : ℕ)
    → (r.g_events i).events ≡ epollin
    → ((on_send r i sent able now).g_events i).events ≡ epollout
    → ((on_send r i sent able now).g_events i).status ≡ 1
unfolding on_send eventadd eventdel eventset close
send_still_on r i sent able now e e' = ground arith

-- Whatever a callback for EPOLLIN does, its entry is not left off the list with EPOLLOUT set.
still_on :
    (r : Reactor) (i : ℕ) (cb : Callback) (a : Answers)
    → (r.g_events i).status ≡ 1
    → (r.g_events i).events ≡ epollin
    → ((run_callback r i cb a).g_events i).events ≡ epollout
    → ((run_callback r i cb a).g_events i).status ≡ 1
unfolding run_callback
still_on r i acceptconn a on e e' = accept_still_on r i a.accepted a.nonblocking a.able a.now on
still_on r i recvdata a on e e' = recv_still_on r i a.received a.able a.now e e'
still_on r i senddata a on e e' = send_still_on r i a.sent a.able a.now e e'
still_on r i no_callback a on e e' = on

-- With EPOLLOUT set the callback is `senddata`, so no new descriptor is involved.
run_writable-Wired :
    (r : Reactor) (i : ℕ) (cb : Callback) (b : Answers)
    → Matches cb epollout
    → b.able ≡ true
    → Wired r
    → (r.g_events i).status ≡ 1
    → Wired (run_callback r i cb b)
unfolding run_callback
run_writable-Wired r i acceptconn b m able w on = absurd (omega arith)
run_writable-Wired r i recvdata b m able w on = absurd (omega arith)
run_writable-Wired r i senddata b m able w on = rw able (on_send-Wired r i b.sent b.now w on)
run_writable-Wired r i no_callback b m able w on = w

second_test-Wired :
    (r : Reactor) (i : ℕ) (writable : Bool) (b : Answers)
    → b.able ≡ true
    → Wired r
    → ((r.g_events i).events ≡ epollout → (r.g_events i).status ≡ 1)
    → Wired (
        if writable && (r.g_events i).events == epollout
        then run_callback r i (r.g_events i).call_back b
        else r)
second_test-Wired r i writable b able w on =
    elim (Bool-cases (writable && (r.g_events i).events == epollout)) [
      | inr skip ↦ rw skip w
      | inl run ↦
          let out : (r.g_events i).events ≡ epollout = ground arith in
          rw run (
            run_writable-Wired r i (r.g_events i).call_back b
              (subst (Matches (r.g_events i).call_back) out (w.matched i (on out))) able w (on out))
    ]

-- Handling any report for an entry that is on the list keeps the table and the interest list in
-- agreement: every entry in use is registered under its own index for the events of its callback,
-- with its descriptor open, and nothing else is registered. `fcntl`, `recv` and `send` return
-- whatever they like; `accept` fails or returns a descriptor that was not open; and `epoll_ctl` does
-- not fail for want of memory or watches.
pub dispatch-Wired :
    (r : Reactor) (i : ℕ) (readable writable : Bool) (a b : Answers)
    → IsNew r a
    → a.able ≡ true
    → b.able ≡ true
    → Wired r
    → (r.g_events i).status ≡ 1
    → Wired (dispatch r i readable writable a b)
unfolding dispatch
dispatch-Wired r i readable writable a b new able able' w on =
    elim (Bool-cases (readable && (r.g_events i).events == epollin)) [
      | inr skip ↦ rw (skip, dispatch) (second_test-Wired r i writable b able' w (λ e. on))
      | inl run ↦
          rw (run, dispatch)
            (second_test-Wired (run_callback r i (r.g_events i).call_back a) i writable b able'
              (run_callback-Wired r i (r.g_events i).call_back a new able w on)
              (still_on r i (r.g_events i).call_back a on (ground arith)))
    ]
