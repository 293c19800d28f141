-- ===== src/Reactor/Handlers.antt =====
-- `acceptconn`, `recvdata`, `senddata`, the search for idle connections and the dispatch in `main`.
use computer_science_notes.Base.{
  ℕ, zero, suc, ◌+◌, ◌-◌, ◌*◌, ◌/◌, List, ◌++◌, Option, none, some, Bool, true, ◌&&◌, ◌==◌, ltb,
  leb, if◌then◌else◌, update, length, take, drop, set,
}
use computer_science_notes.Reactor.Table.{
  max_events, buflen, epollin, epollout, Callback, no_callback, acceptconn, recvdata, senddata,
  Entry, Reactor, eventset, eventadd, eventdel, close,
}

-- `for (i = 0; i < MAX_EVENTS; i++) if (g_events[i].status == 0) break;` with `k` rounds to go.
unfoldable pub find_free : (ℕ → Entry) → ℕ → ℕ → Option ℕ
find_free table zero i = none
find_free table (suc k) i =
    let rest = find_free table k (i + 1) in if (table i).status == 0 then some i else rest

-- What the calls in `acceptconn` return: the new descriptor, if there is one, and whether `fcntl`
-- succeeds and `epoll_ctl` is able to add it. Where there is no room, or `fcntl` fails, the descriptor stays as it is.
unfoldable pub on_accept : Reactor → Option ℕ → Bool → Bool → ℕ → Reactor
on_accept r none nonblocking able now = r
on_accept r (some cfd) nonblocking able now =
    let r' = record r { is_open = update r.is_open cfd true } in
    elim (find_free r.g_events max_events 0) [
      | none ↦ r'
      | some i ↦
          if nonblocking
          then eventadd r' i (eventset (r.g_events i) cfd recvdata now) epollin able
          else r'
    ]

-- `ev->len = len; ev->buf[len] = '\0';`. The byte behind the buffer is the lowest byte of `len`.
unfoldable pub terminate : Entry → ℕ → Entry
terminate ev len =
    if ltb len buflen
    then record ev { len = len; buf = set ev.buf len 0 }
    else record ev { len = len / 256 * 256 }

-- `recv` into the buffer: some bytes, at most `buflen`; none at the end; or an error.
pub data Received : Type 0 where
  data_read : List ℕ → Received
  peer_closed recv_error : Received

unfoldable pub on_recv : Reactor → ℕ → Received → Bool → ℕ → Reactor
on_recv r i (data_read bs) able now =
    let ev = record (r.g_events i) { buf = bs ++ drop (length bs) (r.g_events i).buf } in
    let r' = eventdel r i ev in
    let ev' = terminate (r'.g_events i) (length bs) in
    eventadd r' i (eventset ev' ev.fd senddata now) epollout able
on_recv r i peer_closed able now = close (eventdel r i (r.g_events i)) (r.g_events i).fd
on_recv r i recv_error able now = close (eventdel r i (r.g_events i)) (r.g_events i).fd

-- The bytes that `senddata` hands to `send`.
abbrev pub outgoing : Entry → List ℕ
outgoing ev = take ev.len ev.buf

-- `sent` is what `send` returned, 0 standing for errors too.
unfoldable pub on_send : Reactor → ℕ → ℕ → Bool → ℕ → Reactor
on_send r i sent able now =
    let r' = eventdel r i (r.g_events i) in
    if ltb 0 sent
    then eventadd r' i (eventset (r'.g_events i) (r.g_events i).fd recvdata now) epollin able
    else close r' (r.g_events i).fd

-- One entry of the search for connections that have been idle for 60 seconds.
unfoldable pub check_idle : Reactor → ℕ → ℕ → Reactor
check_idle r i now =
    if (r.g_events i).status == 1
    then if leb 60 (now - (r.g_events i).last_active)
      then eventdel (close r (r.g_events i).fd) i (r.g_events i)
      else r
    else r

-- `for (i = 0; i < 100; i++, checkpos++)` with `k` rounds to go; and where `checkpos` ends.
unfoldable pub sweep : ℕ → Reactor → ℕ → ℕ → Reactor × ℕ
sweep zero r checkpos now = (r, checkpos)
sweep (suc k) r checkpos now =
    let i : ℕ = if checkpos == max_events then 0 else checkpos in
    sweep k (check_idle r i now) (i + 1) now

-- What the system calls of the next callback will return.
pub record Answers : Type 0 where
  pub accepted : Option ℕ
  pub nonblocking : Bool
  pub received : Received
  pub sent : ℕ
  pub able : Bool
  pub now : ℕ

unfoldable pub run_callback : Reactor → ℕ → Callback → Answers → Reactor
run_callback r i acceptconn a = on_accept r a.accepted a.nonblocking a.able a.now
run_callback r i recvdata a = on_recv r i a.received a.able a.now
run_callback r i senddata a = on_send r i a.sent a.able a.now
run_callback r i no_callback a = r

-- The two tests of the event loop for the entry that `epoll_wait` reports.
unfoldable pub dispatch : Reactor → ℕ → Bool → Bool → Answers → Answers → Reactor
dispatch r i readable writable a b =
    let r' : Reactor =
      if readable && (r.g_events i).events == epollin
      then run_callback r i (r.g_events i).call_back a
      else r in
    if writable && (r'.g_events i).events == epollout
    then run_callback r' i (r'.g_events i).call_back b
    else r'

-- `initlistensocket`: the entry behind the connections is the listening socket's.
unfoldable pub initlistensocket : Reactor → ℕ → Bool → ℕ → Reactor
initlistensocket r lfd able now =
    let r' = record r { is_open = update r.is_open lfd true } in
    eventadd r' max_events (eventset (r.g_events max_events) lfd acceptconn now) epollin able
