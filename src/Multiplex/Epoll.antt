-- ===== src/Multiplex/Epoll.antt =====
-- network/socket/codes/echo/epoll_server.c: the loop of `main` around `epoll_wait`.
use computer_science_notes.Base.{
  ℕ, List, [], ◌∷◌, ◌++◌, replicate, Option, none, some, Bool, true, false, ◌==◌, if◌then◌else◌,
  update, Run, done, exited, exit_failure, ◌>>=◌,
}
use computer_science_notes.Multiplex.Slots.{Received, data_read, peer_closed, read_error, buffer}

-- The tree of watched descriptors, the open ones, and what has been written to whom.
pub record EpollServer : Type 0 where
  pub watched : ℕ → Bool
  pub is_open : ℕ → Bool
  pub sent : List (ℕ × List ℕ)

unfoldable pub start_epoll : ℕ → EpollServer
start_epoll sockfd = record {
  watched = update (λ fd. false) sockfd true;
  is_open = update (λ fd. false) sockfd true;
  sent = [];
}

-- One of the events that `epoll_wait` reports, with what `accept` or `read` gives for it.
pub record Report : Type 0 where
  pub fd : ℕ
  pub readable : Bool
  pub accepted : Option ℕ
  pub received : Received

-- EPOLL_CTL_ADD fails for a descriptor that is in the tree.
unfoldable pub welcome : EpollServer → Option ℕ → Run EpollServer
welcome s none = exited exit_failure
welcome s (some cfd) =
    let s' : EpollServer = record s {
      watched = update s.watched cfd true;
      is_open = update s.is_open cfd true;
    } in
    if s.watched cfd then exited exit_failure else done s'

-- EPOLL_CTL_DEL fails for one that is not.
unfoldable pub farewell : EpollServer → ℕ → Run EpollServer
farewell s fd =
    let s' : EpollServer = record s {
      watched = update s.watched fd false;
      is_open = update s.is_open fd false;
    } in
    if s.watched fd then done s' else exited exit_failure

-- `recv_buf` is cleared before each read, and sent whole.
abbrev pub reply : List ℕ → List ℕ
reply bs = buffer bs (replicate 1024 0)

-- The loop over the reports of one `epoll_wait`.
unfoldable pub serve_reports : ℕ → List Report → EpollServer → Run EpollServer
serve_reports sockfd [] s = done s
serve_reports sockfd (r ∷ rs) s = elim r.readable [
  | false ↦ serve_reports sockfd rs s
  | true ↦ elim (r.fd == sockfd) [
    | true ↦ (welcome s r.accepted >>= λ s'. serve_reports sockfd rs s')
    | false ↦ elim r.received [
      | peer_closed ↦ farewell s r.fd
      | read_error ↦ exited exit_failure
      | data_read bs ↦ serve_reports sockfd rs (record s { sent = s.sent ++ (r.fd, reply bs) ∷ [] })
    ]
  ]
]
