-- ===== src/Multiplex/EpollTree.antt =====
-- epoll_server.c: the tree of watched descriptors and the open ones, and what the clients get.
use computer_science_notes.Base.{
  ℕ, ◌≡◌, refl, subst, ◌⊎◌, inl, inr, List, [], ◌∷◌, ◌++◌, Option, none, some, Bool-cases, true,
  ◌==◌, update, arith, done, exited, exit_failure,
}
use computer_science_notes.Multiplex.Slots.{data_read, peer_closed, read_error}
use computer_science_notes.Multiplex.Rounds.{Received-cases, done-injective}
use computer_science_notes.Multiplex.Epoll.{
  EpollServer, start_epoll, Report, welcome, farewell, reply, serve_reports,
}

-- A descriptor is watched exactly while it is open.
pub Tended : EpollServer → Type 0
Tended s = (fd : ℕ) → s.watched fd ≡ s.is_open fd

pub start_epoll-Tended : (sockfd : ℕ) → Tended (start_epoll sockfd)
unfolding Tended start_epoll
start_epoll-Tended sockfd fd = refl

welcome_cases :
    (s : EpollServer) (accepted : Option ℕ)
    → Tended s
    → ((s' : EpollServer) × (welcome s accepted ≡ done s') × Tended s')
      ⊎ (welcome s accepted ≡ exited exit_failure)
unfolding Tended welcome
welcome_cases s none v = inr refl
welcome_cases s (some cfd) v = elim (Bool-cases (s.watched cfd)) [
  | inl there ↦ inr (ground arith)
  | inr new ↦ inl (
    record s { watched = update s.watched cfd true; is_open = update s.is_open cfd true },
    ground arith,
    λ fd. ground (arith, v fd),
  )
]

farewell-Tended : (s s' : EpollServer) (fd : ℕ) → Tended s → farewell s fd ≡ done s' → Tended s'
unfolding Tended farewell
farewell-Tended s s' fd v e fd' = elim (Bool-cases (s.watched fd)) [
  | inl there ↦ ground (arith, v fd')
  | inr gone ↦ absurd (ground arith)
]

-- A round of the loop that comes to its end leaves exactly the open descriptors in the tree, whatever
-- the reports are and `accept` and `read` return.
pub serve_reports-Tended :
    (sockfd : ℕ) (rs : List Report) (s s' : EpollServer)
    → Tended s
    → serve_reports sockfd rs s ≡ done s'
    → Tended s'
unfolding Tended serve_reports
serve_reports-Tended sockfd [] s s' v e = subst Tended (done-injective e) v
serve_reports-Tended sockfd (r ∷ rs) s s' v e = elim (Bool-cases r.readable) [
  | inr quiet ↦ serve_reports-Tended sockfd rs s s' v (ground arith)
  | inl loud ↦ elim (Bool-cases (r.fd == sockfd)) [
    | inl knocks ↦ elim (welcome_cases s r.accepted v) [
      | inl (s1, seated, v1) ↦ serve_reports-Tended sockfd rs s1 s' v1 (ground arith)
      | inr failed ↦ absurd (ground arith)
    ]
    | inr client ↦ elim (Received-cases r.received) [
      | inr (inl closed) ↦ farewell-Tended s s' r.fd v (ground arith)
      | inr (inr failed) ↦ absurd (ground arith)
      | inl (bs, got) ↦
          serve_reports-Tended sockfd rs (record s { sent = s.sent ++ (r.fd, reply bs) ∷ [] }) s' v
            (ground arith)
    ]
  ]
]

-- The reply to a report of bytes.
abbrev pub reply_to : Report → ℕ × List ℕ
reply_to r = elim r.received [
  | data_read bs ↦ (r.fd, reply bs)
  | peer_closed ↦ (r.fd, [])
  | read_error ↦ (r.fd, [])
]
