-- ===== src/Multiplex/Poll.antt =====
-- network/socket/codes/echo/poll_server.c: the loop of `main` around `poll`.
use computer_science_notes.Base.{
  ℕ, zero, suc, ◌+◌, ◌-◌, List, [], ◌∷◌, ◌++◌, Option, none, some, Bool, true, false, ◌==◌, ltb,
  if◌then◌else◌, update, Run, done, exited, ◌>>=◌, exit_failure,
}
use computer_science_notes.Multiplex.Slots.{
  Received, data_read, peer_closed, read_error, find_slot, buffer,
}

abbrev pub max_total : ℕ
max_total = 2048

-- `client_sockets[i].fd`, the last slot that was ever used, and the kernel's side.
pub record PollServer : Type 0 where
  pub fds : ℕ → Option ℕ
  pub max_pos : ℕ
  pub is_open : ℕ → Bool
  pub sent : List (ℕ × List ℕ)

unfoldable pub start_poll : ℕ → PollServer
start_poll sockfd = record {
  fds = update (λ i. none) 0 (some sockfd);
  max_pos = 0;
  is_open = update (λ fd. false) sockfd true;
  sent = [];
}

-- `setrlimit` bounds the descriptors of the process by `max_total` before the socket is made: where
-- the lowest unused descriptor is not below it, `accept` fails (EMFILE), and so does the process.
-- Where there is no free slot the loop ends with nothing done.
unfoldable pub accept_poll : PollServer → Option ℕ → Run PollServer
accept_poll s none = exited exit_failure
accept_poll s (some cfd) =
    let s' : PollServer = record s { is_open = update s.is_open cfd true } in
    elim (ltb cfd max_total) [
      | false ↦ exited exit_failure
      | true ↦ elim (find_slot s.fds max_total 0) [
        | none ↦ done s'
        | some i ↦
            let s'' : PollServer = record s' {
              fds = update s.fds i (some cfd);
              max_pos = if ltb i s.max_pos then s.max_pos else i;
            } in
            done s''
      ]
    ]

unfoldable pub drop_poll : PollServer → ℕ → ℕ → PollServer
drop_poll s i fd = record s { fds = update s.fds i none; is_open = update s.is_open fd false }

-- The loop over the slots, from `i` on with `k` to go. `revents` is the slots' POLLIN bit; `poll`
-- has written it for the slots up to the `max_pos` it was called with.
unfoldable pub serve_poll :
    ℕ → ℕ → ℕ → (ℕ → Bool) → (ℕ → Received) → List ℕ → PollServer → Run PollServer
serve_poll zero i nready revents reads memory s = done s
serve_poll (suc k) i nready revents reads memory s = elim (s.fds i) [
  | none ↦ serve_poll k (i + 1) nready revents reads memory s
  | some fd ↦ elim (revents i) [
    | false ↦ serve_poll k (i + 1) nready revents reads memory s
    | true ↦ elim (reads fd) [
      | peer_closed ↦ done (drop_poll s i fd)
      | read_error ↦ exited exit_failure
      | data_read bs ↦
          let s' : PollServer = record s { sent = s.sent ++ (fd, buffer bs memory) ∷ [] } in
          elim (nready == 1) [
            | true ↦ done s'
            | false ↦ serve_poll k (i + 1) (nready - 1) revents reads memory s'
          ]
    ]
  ]
]

-- What `poll` returns.
pub data Polled : Type 0 where
  poll_interrupted poll_error poll_nothing : Polled
  polled : ℕ → (ℕ → Bool) → Polled

-- One round of `while(1)`.
unfoldable pub poll_round :
    PollServer → Polled → Option ℕ → (ℕ → Received) → List ℕ → Run PollServer
poll_round s poll_interrupted accepted reads memory = done s
poll_round s poll_error accepted reads memory = exited exit_failure
poll_round s poll_nothing accepted reads memory = done s
poll_round s (polled nready revents) accepted reads memory =
    if revents 0
    then (accept_poll s accepted >>= λ s'.
        if nready == 1
        then done s'
        else serve_poll s'.max_pos 1 (nready - 1) revents reads memory s')
    else serve_poll s.max_pos 1 nready revents reads memory s
