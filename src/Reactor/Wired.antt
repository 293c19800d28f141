-- ===== src/Reactor/Wired.antt =====
-- The table and the kernel's interest list, and what the callbacks do to both.
use computer_science_notes.Base.{
  ℕ, zero, suc, ◌+◌, ◌≡◌, ◌≢◌, refl, sym, ap, ◌∙◌, inl, inr, Option, Option-cases, none, some, Bool,
  Bool-cases, true, false, ltb, update, arith,
}
use computer_science_notes.Reactor.Table.{
  max_events, epollin, epollout, Callback, no_callback, acceptconn, recvdata, senddata, Entry,
  Reactor, eventset, eventadd, eventdel, close,
}
use computer_science_notes.Reactor.Handlers.{
  find_free, on_accept, Received, data_read, peer_closed, recv_error, on_recv, on_send,
}

-- Which events a callback is registered for.
abbrev pub Matches : Callback → ℕ → Type 0
Matches acceptconn events = events ≡ epollin
Matches recvdata events = events ≡ epollin
Matches senddata events = events ≡ epollout
Matches no_callback events = ⊥

pub record Wired (r : Reactor) : Type 0 where
  pub registered :
      (i : ℕ)
      → (r.g_events i).status ≡ 1
      → r.interest (r.g_events i).fd ≡ some (i, (r.g_events i).events)
  pub opened : (i : ℕ) → (r.g_events i).status ≡ 1 → r.is_open (r.g_events i).fd ≡ true
  pub matched :
      (i : ℕ) → (r.g_events i).status ≡ 1 → Matches (r.g_events i).call_back (r.g_events i).events
  pub only :
      (fd i m : ℕ)
      → r.interest fd ≡ some (i, m)
      → ((r.g_events i).status ≡ 1) × ((r.g_events i).fd ≡ fd)

eventadd-Wired :
    (r : Reactor) (i : ℕ) (ev : Entry) (events : ℕ)
    → Wired r
    → (r.g_events i).status ≢ 1
    → ev.status ≡ 0
    → r.interest ev.fd ≡ none
    → r.is_open ev.fd ≡ true
    → Matches ev.call_back events
    → Wired (eventadd r i ev events true)
unfolding eventadd
eventadd-Wired r i ev events w off fresh free live match = record {
  registered = λ j on. ground (arith, w.registered j);
  opened = λ j on. ground (arith, w.opened j);
  matched = λ j on. ground (arith, w.matched j);
  only = λ fd j m e. ground (arith, w.only fd j m);
}

-- Taking an entry out leaves its descriptor unregistered.
eventdel-Wired :
    (r : Reactor) (i : ℕ) (ev : Entry)
    → Wired r
    → (r.g_events i).status ≡ 1
    → ev.status ≡ 1
    → ev.fd ≡ (r.g_events i).fd
    → Wired (eventdel r i ev)
unfolding eventdel
eventdel-Wired r i ev w on status same = record {
  registered = λ j on'. ground (arith, w.registered j, w.registered i);
  opened = λ j on'. ground (arith, w.opened j);
  matched = λ j on'. ground (arith, w.matched j);
  only = λ fd j m e. ground (arith, w.only fd j m);
}

close-Wired : (r : Reactor) (fd : ℕ) → Wired r → r.interest fd ≡ none → Wired (close r fd)
unfolding close
close-Wired r fd w gone = record {
  registered = λ j on'. ground (arith, w.registered j);
  opened = λ j on'. ground (arith, w.opened j, w.registered j);
  matched = λ j on'. ground (arith, w.matched j);
  only = λ fd' j m e. ground (arith, w.only fd' j m);
}

deleted_facts :
    (r : Reactor) (i : ℕ) (ev : Entry)
    → ev.status ≡ 1
    → (((eventdel r i ev).g_events i).status ≡ 0)
      × ((eventdel r i ev).interest ev.fd ≡ none)
      × ((eventdel r i ev).is_open ≡ r.is_open)
unfolding eventdel
deleted_facts r i ev status = (ground arith, ground arith, ground arith)

-- What `recvdata` and `senddata` do where they keep the connection.
rearmed-Wired :
    (r : Reactor) (i : ℕ) (ev new : Entry) (events : ℕ)
    → Wired r
    → (r.g_events i).status ≡ 1
    → ev.status ≡ 1
    → ev.fd ≡ (r.g_events i).fd
    → new.status ≡ 0
    → new.fd ≡ (r.g_events i).fd
    → Matches new.call_back events
    → Wired (eventadd (eventdel r i ev) i new events true)
rearmed-Wired r i ev new events w on status same off fd match =
    let (zero_status, none_there, still) = deleted_facts r i ev status in
    eventadd-Wired (eventdel r i ev) i new events (eventdel-Wired r i ev w on status same)
      (omega (arith, zero_status)) off (ap (eventdel r i ev).interest (fd ∙ sym same) ∙ none_there)
      (ap (λ f. f new.fd) still ∙ ap r.is_open fd ∙ w.opened i on) match

-- And where they drop it.
dropped-Wired :
    (r : Reactor) (i : ℕ)
    → Wired r
    → (r.g_events i).status ≡ 1
    → Wired (close (eventdel r i (r.g_events i)) (r.g_events i).fd)
dropped-Wired r i w on =
    let (zero_status, none_there, still) = deleted_facts r i (r.g_events i) on in
    close-Wired (eventdel r i (r.g_events i)) (r.g_events i).fd
      (eventdel-Wired r i (r.g_events i) w on on refl) none_there

-- Here and below `epoll_ctl` is able to do what it is asked.
pub on_recv-Wired :
    (r : Reactor) (i : ℕ) (o : Received) (now : ℕ)
    → Wired r
    → (r.g_events i).status ≡ 1
    → Wired (on_recv r i o true now)
unfolding on_recv eventset
on_recv-Wired r i (data_read bs) now w on =
    rearmed-Wired r i _ _ epollout w on on refl refl refl refl
on_recv-Wired r i peer_closed now w on = dropped-Wired r i w on
on_recv-Wired r i recv_error now w on = dropped-Wired r i w on

pub on_send-Wired :
    (r : Reactor) (i sent now : ℕ)
    → Wired r
    → (r.g_events i).status ≡ 1
    → Wired (on_send r i sent true now)
unfolding on_send eventset
on_send-Wired r i sent now w on = elim (Bool-cases (ltb 0 sent)) [
  | inl some_sent ↦
      rw (some_sent, on_send)
        (rearmed-Wired r i (r.g_events i) _ epollin w on on refl refl refl refl)
  | inr nothing ↦ rw (nothing, on_send) (dropped-Wired r i w on)
]

find_free-off :
    (table : ℕ → Entry) (k i j : ℕ) → find_free table k i ≡ some j → (table j).status ≡ 0
unfolding find_free
find_free-off table zero i j e = cc
find_free-off table (suc k) i j e = ground (arith, find_free-off table k (i + 1) j)

opened-Wired :
    (r : Reactor) (fd : ℕ) → Wired r → Wired (record r { is_open = update r.is_open fd true })
opened-Wired r fd w = record {
  registered = w.registered;
  opened = λ i on. ground (arith, w.opened i);
  matched = w.matched;
  only = w.only;
}

pub closed_unregistered :
    (r : Reactor) (fd : ℕ) → Wired r → r.is_open fd ≡ false → r.interest fd ≡ none
closed_unregistered r fd w shut = elim (Option-cases (r.interest fd)) [
  | inl e ↦ e
  | inr ((i, m), e) ↦ let (on, same) = w.only fd i m e in ground (arith, w.opened i on)
]

-- `accept` returns a descriptor that was not open.
pub on_accept-Wired :
    (r : Reactor) (a : Option ℕ) (nonblocking : Bool) (now : ℕ)
    → ((cfd : ℕ) → a ≡ some cfd → r.is_open cfd ≡ false)
    → Wired r
    → Wired (on_accept r a nonblocking true now)
unfolding on_accept eventset
on_accept-Wired r none nonblocking now new w = w
on_accept-Wired r (some cfd) nonblocking now new w =
    let w' = opened-Wired r cfd w in
    elim (Option-cases (find_free r.g_events max_events 0)) [
      | inl full ↦ rw (full, on_accept) w'
      | inr (i, room) ↦ elim (Bool-cases nonblocking) [
        | inr failed ↦ rw (room, failed, on_accept) w'
        | inl set_up ↦
            rw (room, set_up, on_accept)
              (eventadd-Wired _ i _ epollin w'
                (omega (arith, find_free-off r.g_events max_events 0 i room)) refl
                (closed_unregistered r cfd w (new cfd refl)) (ground arith) refl)
      ]
    ]
