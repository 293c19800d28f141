-- ===== src/Reactor/Echo.antt =====
-- What a connection gets back, and what becomes of one that finds no room.
use computer_science_notes.Base.{
  ℕ, zero, suc, ◌<◌, ◌≡◌, refl, ap, ap₂, subst, ◌∙◌, ◌+◌, ◌≤◌, ◌≢◌, ◌⊎◌, inl, inr, Option-cases,
  Bool-cases, if◌then◌else◌, List, [], ◌∷◌, ◌++◌, length, take, drop, set, none, some, Bool, true,
  false, arith, ℕ_discrete, take-length-append,
}
use computer_science_notes.Reactor.Table.{
  max_events, buflen, epollin, epollout, recvdata, senddata, Entry, Reactor, eventset, eventadd,
  eventdel, close,
}
use computer_science_notes.Reactor.Handlers.{
  find_free, on_accept, terminate, outgoing, data_read, on_recv, on_send,
}
use computer_science_notes.Reactor.Wired.{Wired, closed_unregistered}

-- Writing at the end of a prefix leaves the prefix.
take-set : (n : ℕ) (xs : List ℕ) (v : ℕ) → take n (set xs n v) ≡ take n xs
take-set zero xs v = refl
take-set (suc n) [] v = refl
take-set (suc n) (x ∷ xs) v = ap (◌∷◌ x) (take-set n xs v)

-- The bytes of the buffer after `recv`.
abbrev filled : Entry → List ℕ → List ℕ
filled ev bs = bs ++ drop (length bs) ev.buf

short_fields :
    (r : Reactor) (i now : ℕ) (able : Bool) (bs : List ℕ)
    → length bs < buflen
    → (r.g_events i).status ≡ 1
    → let ev = (on_recv r i (data_read bs) able now).g_events i in
      (ev.len ≡ length bs)
      × (ev.buf ≡ set (filled (r.g_events i) bs) (length bs) 0)
      × (ev.call_back ≡ senddata)
      × (ev.events ≡ epollout)
      × (ev.status ≡ 1)
unfolding on_recv eventadd eventdel eventset terminate
short_fields r i now able bs short on =
    (ground arith, ground arith, ground arith, ground arith, ground arith)

full_fields :
    (r : Reactor) (i now : ℕ) (able : Bool) (bs : List ℕ)
    → length bs ≡ buflen
    → (r.g_events i).status ≡ 1
    → let ev = (on_recv r i (data_read bs) able now).g_events i in
      (ev.len ≡ 0) × (ev.fd ≡ (r.g_events i).fd) × (ev.status ≡ 1)
unfolding on_recv eventadd eventdel eventset terminate
full_fields r i now able bs full on = (ground arith, ground arith, ground arith)

send_nothing :
    (r : Reactor) (i now : ℕ) (able : Bool)
    → (r.g_events i).status ≡ 1
    → ((on_send r i 0 able now).is_open (r.g_events i).fd ≡ false)
      × (((on_send r i 0 able now).g_events i).status ≡ 0)
unfolding on_send eventdel close
send_nothing r i now able on = (ground arith, ground arith)

-- After bytes have come in, fewer than the buffer holds, the entry waits to write, and what it will
-- hand to `send` is exactly those bytes.
pub echoes_short :
    (r : Reactor) (i now : ℕ) (able : Bool) (bs : List ℕ)
    → length bs < buflen
    → (r.g_events i).status ≡ 1
    → let ev = (on_recv r i (data_read bs) able now).g_events i in
      (outgoing ev ≡ bs) × (ev.call_back ≡ senddata) × (ev.events ≡ epollout) × (ev.status ≡ 1)
echoes_short r i now able bs short on =
    let (size, memory, back, mask, live) = short_fields r i now able bs short on in
    let sent =
      ap₂ take size memory
      ∙ take-set (length bs) (filled (r.g_events i) bs) 0
      ∙ take-length-append bs (drop (length bs) (r.g_events i).buf) in
    (sent, back, mask, live)

-- A message that fills the buffer is lost, whatever its bytes: the terminator behind the buffer
-- clears the length that was just stored, so nothing is handed to `send`; and since `send` then
-- sends nothing, the connection is closed.
pub full_buffer_lost :
    (r : Reactor) (i now later : ℕ) (able able' : Bool) (bs : List ℕ)
    → length bs ≡ buflen
    → (r.g_events i).status ≡ 1
    → let r' = on_recv r i (data_read bs) able now in
      (outgoing (r'.g_events i) ≡ [])
      × ((on_send r' i (length (outgoing (r'.g_events i))) able' later).is_open (r.g_events i).fd
          ≡ false)
      × (((on_send r' i (length (outgoing (r'.g_events i))) able' later).g_events i).status ≡ 0)
full_buffer_lost r i now later able able' bs full on =
    let r' = on_recv r i (data_read bs) able now in
    let (size, same, live) = full_fields r i now able bs full on in
    let nothing : outgoing (r'.g_events i) ≡ [] = ap (λ n. take n (r'.g_events i).buf) size in
    let (shut, off) = send_nothing r' i later able' live in
    (
      nothing,
      subst
          (λ fd. (on_send r' i (length (outgoing (r'.g_events i))) able' later).is_open fd ≡ false)
          same (rw (ap length nothing) shut),
      rw (ap length nothing) off,
    )

-- The entry `i` was free, and now has the connection and waits to read from it.
abbrev pub GetsEntry : Reactor → Reactor → ℕ → ℕ → Type 0
GetsEntry r r' i cfd =
    (i < max_events)
    × ((r.g_events i).status ≡ 0)
    × ((r'.g_events i).fd ≡ cfd)
    × ((r'.g_events i).status ≡ 1)
    × ((r'.g_events i).call_back ≡ recvdata)

abbrev pub AllTaken : Reactor → Type 0
AllTaken r = (j : ℕ) → j < max_events → (r.g_events j).status ≢ 0

find_free-some :
    (table : ℕ → Entry) (k i j : ℕ)
    → find_free table k i ≡ some j
    → (j < i + k) × ((table j).status ≡ 0)
unfolding find_free
find_free-some table zero i j e = cc
find_free-some table (suc k) i j e = ground (arith, find_free-some table k (i + 1) j)

find_free-none :
    (table : ℕ → Entry) (k i j : ℕ)
    → find_free table k i ≡ none
    → i ≤ j
    → j < i + k
    → (table j).status ≢ 0
unfolding find_free
find_free-none table zero i j e low high = absurd (omega arith)
find_free-none table (suc k) i j e low high = elim (ℕ_discrete i j) [
  | yes here ↦ ground arith
  | no later ↦ ground (arith, find_free-none table k (i + 1) j)
]

-- An accepted connection is open, and there are two ways. It gets a free entry: then it is
-- registered for reading where `epoll_ctl` succeeds, and not registered where it fails. Or `fcntl`
-- has failed, or every entry is in use: then it is in no entry and is not registered, so that nobody
-- serves it or closes it. `accept` returns a descriptor that was not open.
pub served_or_leaked :
    (r : Reactor) (cfd now : ℕ) (nonblocking able : Bool)
    → Wired r
    → r.is_open cfd ≡ false
    → let r' = on_accept r (some cfd) nonblocking able now in
      (r'.is_open cfd ≡ true)
      × (((i : ℕ) × GetsEntry r r' i cfd
            × (nonblocking ≡ true)
            × (r'.interest cfd ≡ (if able then some (i, epollin) else none)))
          ⊎ (((nonblocking ≡ false) ⊎ AllTaken r)
              × (r'.g_events ≡ r.g_events)
              × (r'.interest cfd ≡ none)))
unfolding on_accept eventadd eventset
served_or_leaked r cfd now nonblocking able w new =
    let fresh = closed_unregistered r cfd w new in
    elim (Option-cases (find_free r.g_events max_events 0)) [
      | inl full ↦
          let taken : AllTaken r =
            λ j below. find_free-none r.g_events max_events 0 j full (omega arith) (omega arith) in
          (ground arith, inr (inr taken, ground arith, ground arith))
      | inr (i, room) ↦ elim (Bool-cases nonblocking) [
        | inr failed ↦ (ground arith, inr (inl failed, ground arith, ground arith))
        | inl set_up ↦
            let (below, off) = find_free-some r.g_events max_events 0 i room in
            (ground arith, inl (i, ground arith, set_up, ground arith))
      ]
    ]
