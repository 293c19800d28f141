-- ===== src/Multiplex/Select.antt =====
-- network/socket/codes/echo/select_server.c: the loop of `main` around `select`.
use computer_science_notes.Base.{
  ℕ, zero, suc, ◌+◌, ◌-◌, List, [], ◌∷◌, ◌++◌, Option, none, some, Bool, true, false, ◌==◌, ltb,
  if◌then◌else◌, update, Run, done, exited, ◌>>=◌, exit_failure,
}
use computer_science_notes.Multiplex.Slots.{
  Received, data_read, peer_closed, read_error, find_slot, buffer,
}

abbrev pub fd_setsize : ℕ
fd_setsize = 1024

-- The locals of `main`, with the kernel's open descriptors and what has been written to whom.
pub record Server : Type 0 where
  pub client_sockets : ℕ → Option ℕ
  pub allset : ℕ → Bool
  pub max_pos : ℕ
  pub maxfd : ℕ
  pub is_open : ℕ → Bool
  pub sent : List (ℕ × List ℕ)

-- Before the loop. The set's memory is not cleared: `memory` is what was there.
unfoldable pub start_server : ℕ → (ℕ → Bool) → Server
start_server sockfd memory = record {
  client_sockets = λ i. none;
  allset = update memory sockfd true;
  max_pos = 0;
  maxfd = sockfd;
  is_open = update (λ fd. false) sockfd true;
  sent = [];
}

-- The new descriptor, if `accept` gives one, goes to the first free slot.
unfoldable pub accept_client : Server → Option ℕ → Run Server
accept_client s none = exited exit_failure
accept_client s (some cfd) = elim (find_slot s.client_sockets fd_setsize 0) [
  | none ↦ exited exit_failure
  | some i ↦
      let s' : Server = record s {
        client_sockets = update s.client_sockets i (some cfd);
        max_pos = if ltb i s.max_pos then s.max_pos else i;
        allset = update s.allset cfd true;
        maxfd = if ltb cfd s.maxfd then s.maxfd else cfd;
        is_open = update s.is_open cfd true;
      } in
      done s'
]

abbrev pub holds_fd : Option ℕ → ℕ → Bool
holds_fd none fd = false
holds_fd (some fd') fd = fd' == fd

-- The inner loop that frees the first slot with the descriptor, `k` slots to go.
unfoldable pub forget : (ℕ → Option ℕ) → ℕ → ℕ → ℕ → (ℕ → Option ℕ)
forget slots zero i fd = slots
forget slots (suc k) i fd =
    let rest = forget slots k (i + 1) fd in
    if holds_fd (slots i) fd then update slots i none else rest

-- The peer has closed.
unfoldable pub drop_client : Server → ℕ → Server
drop_client s fd = record s {
  allset = update s.allset fd false;
  client_sockets = forget s.client_sockets (s.max_pos + 1) 0 fd;
  is_open = update s.is_open fd false;
}

-- The loop over the slots, from `i` on with `k` to go and `nready` reports left. `reads` is what
-- `read` gives on a descriptor, `memory` what the 1024 bytes of `recv_buf` hold beforehand.
unfoldable pub serve_clients :
    ℕ → ℕ → ℕ → (ℕ → Bool) → (ℕ → Received) → List ℕ → Server → Run Server
serve_clients zero i nready rset reads memory s = done s
serve_clients (suc k) i nready rset reads memory s = elim (s.client_sockets i) [
  | none ↦ serve_clients k (i + 1) nready rset reads memory s
  | some fd ↦ elim (rset fd) [
    | false ↦ serve_clients k (i + 1) nready rset reads memory s
    | true ↦ elim (reads fd) [
      | peer_closed ↦ done (drop_client s fd)
      | read_error ↦ exited exit_failure
      | data_read bs ↦
          let s' : Server = record s { sent = s.sent ++ (fd, buffer bs memory) ∷ [] } in
          elim (nready == 1) [
            | true ↦ done s'
            | false ↦ serve_clients k (i + 1) (nready - 1) rset reads memory s'
          ]
    ]
  ]
]

-- What `select` returns.
pub data Selected : Type 0 where
  interrupted select_error timed_out : Selected
  ready : ℕ → (ℕ → Bool) → Selected

-- One round of `while(1)`.
unfoldable pub round : ℕ → Server → Selected → Option ℕ → (ℕ → Received) → List ℕ → Run Server
round sockfd s interrupted accepted reads memory = done s
round sockfd s select_error accepted reads memory = exited exit_failure
round sockfd s timed_out accepted reads memory = done s
round sockfd s (ready nready rset) accepted reads memory =
    if rset sockfd
    then (accept_client s accepted >>= λ s'.
        if nready == 1
        then done s'
        else serve_clients (s'.max_pos + 1) 0 (nready - 1) rset reads memory s')
    else serve_clients (s.max_pos + 1) 0 nready rset reads memory s
