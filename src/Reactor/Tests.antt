-- ===== src/Reactor/Tests.antt =====
-- Runs of the reactor with one client on descriptor 5, and the theorems at them.
use computer_science_notes.Base.{
  ℕ, ◌+◌, ◌-◌, ◌⊎◌, inr, ltb, if◌then◌else◌, ◌≡◌, refl, [], ◌∷◌, length, none, some, true, false,
  update, arith, ℕ_discrete, replicate,
}
use computer_science_notes.Reactor.Table.{
  epollin, epollout, no_callback, recvdata, senddata, Entry, Reactor, eventset, eventadd, eventdel,
}
use computer_science_notes.Reactor.Handlers.{
  find_free, on_accept, outgoing, data_read, on_recv, on_send, sweep, Answers, run_callback,
  terminate, dispatch,
}
use computer_science_notes.Reactor.Wired.{Wired}
use computer_science_notes.Reactor.Loop.{dispatch-Wired}
use computer_science_notes.Reactor.Sweep.{sweep_closes_idle}
use computer_science_notes.Reactor.Echo.{
  echoes_short, full_buffer_lost, served_or_leaked, GetsEntry, AllTaken,
}

abbrev unused : Entry
unused = record {
  fd = 0;
  events = 0;
  call_back = no_callback;
  status = 0;
  buf = replicate 128 0;
  len = 0;
  last_active = 0;
}

abbrev client : Entry
client = record unused {
  fd = 5;
  events = epollin;
  call_back = recvdata;
  status = 1;
  last_active = 100;
}

-- One client, in the entry 0.
abbrev one_client : Reactor
one_client = record {
  g_events = update (λ i. unused) 0 client;
  interest = update (λ fd. none) 5 (some (0, epollin));
  is_open = update (λ fd. false) 5 true;
}

one_client-Wired : Wired one_client
one_client-Wired = record {
  registered = λ j on. ground arith;
  opened = λ j on. ground arith;
  matched = λ j on. ground arith;
  only = λ fd j m e. ground arith;
}

abbrev hello : Answers
hello = record {
  accepted = none;
  nonblocking = true;
  received = data_read (104 ∷ 105 ∷ []);
  sent = 2;
  able = true;
  now = 101;
}

dispatch-Wired_example : Wired (dispatch one_client 0 true true hello hello)
unfolding ℕ_discrete
dispatch-Wired_example =
    dispatch-Wired one_client 0 true true hello hello (λ cfd e. absurd (ground arith)) refl refl
      one_client-Wired refl

-- Readable and writable at once: the bytes come in and go out again in one round.
echoed_at_once : ((dispatch one_client 0 true true hello hello).g_events 0).events ≡ epollin
unfolding dispatch run_callback on_recv on_send terminate eventset eventadd eventdel ℕ_discrete
echoed_at_once = refl

-- The search begins six entries before the end of the table, and comes to the first one after that.
sweep_closes_idle_example :
    (((sweep 100 one_client 1018 200).0.g_events 0).status ≡ 0)
    × ((sweep 100 one_client 1018 200).0.is_open 5 ≡ false)
    × ((sweep 100 one_client 1018 200).0.interest 5 ≡ none)
unfolding ℕ_discrete
sweep_closes_idle_example =
    sweep_closes_idle 100 one_client 1018 0 200 (omega arith) (omega arith) (inr (omega arith))
      (refl, omega arith)

echoes_short_example :
    let ev = (on_recv one_client 0 (data_read (104 ∷ 105 ∷ [])) true 101).g_events 0 in
    (outgoing ev ≡ 104 ∷ 105 ∷ [])
    × (ev.call_back ≡ senddata)
    × (ev.events ≡ epollout)
    × (ev.status ≡ 1)
unfolding ℕ_discrete
echoes_short_example = echoes_short one_client 0 101 true (104 ∷ 105 ∷ []) (omega arith) refl

full_buffer_lost_example :
    let r' = on_recv one_client 0 (data_read (replicate 128 65)) true 101 in
    (outgoing (r'.g_events 0) ≡ [])
    × ((on_send r' 0 (length (outgoing (r'.g_events 0))) true 102).is_open 5 ≡ false)
    × (((on_send r' 0 (length (outgoing (r'.g_events 0))) true 102).g_events 0).status ≡ 0)
unfolding ℕ_discrete
full_buffer_lost_example =
    full_buffer_lost one_client 0 101 102 true true (replicate 128 65) refl refl

-- Every entry in use: the entry `i` has the descriptor `i + 5`.
abbrev full_house : Reactor
full_house = record {
  g_events = λ i. record client { fd = i + 5 };
  interest = λ fd. if ltb fd 5 then none else some (fd - 5, epollin);
  is_open = λ fd. if ltb fd 5 then false else true;
}

full_house-Wired : Wired full_house
full_house-Wired = record {
  registered = λ j on. ground arith;
  opened = λ j on. ground arith;
  matched = λ j on. ground arith;
  only = λ fd j m e. ground arith;
}

served_or_leaked_example :
    let r' = on_accept full_house (some 4) true true 300 in
    (r'.is_open 4 ≡ true)
    × (((i : ℕ) × GetsEntry full_house r' i 4
          × (true ≡ true)
          × (r'.interest 4 ≡ (if true then some (i, epollin) else none)))
        ⊎ (((true ≡ false) ⊎ AllTaken full_house)
            × (r'.g_events ≡ full_house.g_events)
            × (r'.interest 4 ≡ none)))
served_or_leaked_example = served_or_leaked full_house 4 300 true true full_house-Wired refl

-- With one client there is room: the next one gets the entry 1.
second_client :
    let r' = on_accept one_client (some 6) true true 300 in
    ((r'.g_events 1).fd ≡ 6) × (r'.interest 6 ≡ some (1, epollin))
unfolding on_accept find_free eventset eventadd ℕ_discrete
second_client = (refl, refl)

-- Where `epoll_ctl` fails the entry is in use all the same, and not registered.
failed_add :
    let r' = on_accept one_client (some 6) true false 300 in
    ((r'.g_events 1).status ≡ 1) × (r'.interest 6 ≡ none)
unfolding on_accept find_free eventset eventadd ℕ_discrete
failed_add = (refl, refl)
