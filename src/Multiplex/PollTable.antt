-- ===== src/Multiplex/PollTable.antt =====
-- poll_server.c: the slots of the clients.
use computer_science_notes.Base.{
  ℕ, zero, suc, ◌+◌, ◌-◌, ◌≤◌, ◌<◌, ◌≡◌, ◌⊎◌, inl, inr, refl, subst, List, [], ◌∷◌, ◌++◌, Option,
  Option-cases, none, some, Bool, Bool-cases, true, false, ◌==◌, ltb, if◌then◌else◌, update, arith,
  done, exited, exit_failure,
}
use computer_science_notes.Multiplex.Slots.{
  Received, find_slot, find_slot-free, find_slot-below, buffer,
}
use computer_science_notes.Multiplex.Rounds.{Received-cases, done-injective}
use computer_science_notes.Multiplex.Poll.{
  max_total, PollServer, start_poll, accept_poll, drop_poll, serve_poll, Polled, poll_interrupted,
  poll_error, poll_nothing, polled, poll_round,
}

-- The first slot is the listening socket's; the slots in use lie up to `max_pos`, which is inside
-- the array, and hold open descriptors, each once and below the limit.
pub record PollKept (sockfd : ℕ) (s : PollServer) : Type 0 where
  pub listener : s.fds 0 ≡ some sockfd
  pub inside : s.max_pos < max_total
  pub reached : (i fd : ℕ) → s.fds i ≡ some fd → i ≤ s.max_pos
  pub live : (i fd : ℕ) → s.fds i ≡ some fd → s.is_open fd ≡ true
  pub limited : (i fd : ℕ) → s.fds i ≡ some fd → fd < max_total
  pub once : (i j fd : ℕ) → s.fds i ≡ some fd → s.fds j ≡ some fd → i ≡ j

pub start_poll-Kept : (sockfd : ℕ) → sockfd < max_total → PollKept sockfd (start_poll sockfd)
unfolding start_poll
start_poll-Kept sockfd below = record {
  listener = ground arith;
  inside = omega arith;
  reached = λ i fd e. ground arith;
  live = λ i fd e. ground arith;
  limited = λ i fd e. ground arith;
  once = λ i j fd e e'. ground arith;
}

opened_only :
    (sockfd : ℕ) (s : PollServer) (cfd : ℕ)
    → PollKept sockfd s
    → PollKept sockfd (record s { is_open = update s.is_open cfd true })
opened_only sockfd s cfd v = record {
  listener = v.listener;
  inside = v.inside;
  reached = v.reached;
  live = λ i fd e. ground (arith, v.live i fd);
  limited = v.limited;
  once = v.once;
}

unfoldable pub poll_seated : PollServer → ℕ → ℕ → PollServer
poll_seated s i cfd = record s {
  fds = update s.fds i (some cfd);
  max_pos = if ltb i s.max_pos then s.max_pos else i;
  is_open = update s.is_open cfd true;
}

poll_seated-Kept :
    (sockfd : ℕ) (s : PollServer) (i cfd : ℕ)
    → PollKept sockfd s
    → s.fds i ≡ none
    → i < max_total
    → cfd < max_total
    → s.is_open cfd ≡ false
    → PollKept sockfd (poll_seated s i cfd)
unfolding poll_seated
poll_seated-Kept sockfd s i cfd v free below low new = record {
  listener = ground (arith, v.listener);
  inside = ground (arith, v.inside);
  reached = λ j fd e. ground (arith, v.reached j fd);
  live = λ j fd e. ground (arith, v.live j fd);
  limited = λ j fd e. ground (arith, v.limited j fd);
  once = λ j k fd e e'. ground (arith, v.once j k fd, v.live j fd, v.live k fd);
}

-- What `accept_poll` comes to.
accept_poll_cases :
    (sockfd : ℕ) (s : PollServer) (accepted : Option ℕ)
    → PollKept sockfd s
    → ((cfd : ℕ) → accepted ≡ some cfd → s.is_open cfd ≡ false)
    → ((s' : PollServer) × (accept_poll s accepted ≡ done s') × PollKept sockfd s')
      ⊎ (accept_poll s accepted ≡ exited exit_failure)
unfolding accept_poll poll_seated
accept_poll_cases sockfd s none v new = inr refl
accept_poll_cases sockfd s (some cfd) v new = elim (Bool-cases (ltb cfd max_total)) [
  | inr beyond ↦ inr (ground arith)
  | inl allowed ↦ elim (Option-cases (find_slot s.fds max_total 0)) [
    | inl full ↦
        inl (
          record s { is_open = update s.is_open cfd true },
          ground arith,
          opened_only sockfd s cfd v,
        )
    | inr (i, room) ↦
        let (low, below) = find_slot-below s.fds max_total 0 i room in
        inl (
          poll_seated s i cfd,
          ground arith,
          poll_seated-Kept sockfd s i cfd v (find_slot-free s.fds max_total 0 i room) (omega arith)
              (ground arith) (new cfd refl),
        )
  ]
]

drop_poll-Kept :
    (sockfd : ℕ) (s : PollServer) (i fd : ℕ)
    → PollKept sockfd s
    → 1 ≤ i
    → s.fds i ≡ some fd
    → PollKept sockfd (drop_poll s i fd)
unfolding drop_poll
drop_poll-Kept sockfd s i fd v low at = record {
  listener = ground (arith, v.listener);
  inside = v.inside;
  reached = λ j fd' e. ground (arith, v.reached j fd');
  live = λ j fd' e. ground (arith, v.live j fd', v.once i j fd);
  limited = λ j fd' e. ground (arith, v.limited j fd');
  once = λ j k fd' e e'. ground (arith, v.once j k fd');
}

replied :
    (sockfd : ℕ) (s : PollServer) (out : List (ℕ × List ℕ))
    → PollKept sockfd s
    → PollKept sockfd (record s { sent = out })
replied sockfd s out v = record {
  listener = v.listener;
  inside = v.inside;
  reached = v.reached;
  live = v.live;
  limited = v.limited;
  once = v.once;
}

serve_poll-Kept :
    (k : ℕ) {sockfd : ℕ} (i nready : ℕ) (revents : ℕ → Bool) (reads : ℕ → Received)
    (memory : List ℕ) (s s' : PollServer)
    → PollKept sockfd s
    → 1 ≤ i
    → serve_poll k i nready revents reads memory s ≡ done s'
    → PollKept sockfd s'
unfolding serve_poll
serve_poll-Kept zero {sockfd} i nready revents reads memory s s' v low e =
    subst (PollKept sockfd) (done-injective e) v
serve_poll-Kept (suc k) {sockfd} i nready revents reads memory s s' v low e =
    elim (Option-cases (s.fds i)) [
      | inl free ↦
          serve_poll-Kept k (i + 1) nready revents reads memory s s' v (omega arith) (ground arith)
      | inr (fd, at) ↦ elim (Bool-cases (revents i)) [
        | inr quiet ↦
            serve_poll-Kept k (i + 1) nready revents reads memory s s' v (omega arith)
              (ground arith)
        | inl loud ↦ elim (Received-cases (reads fd)) [
          | inr (inl closed) ↦
              subst (PollKept sockfd) (done-injective (ground arith))
                (drop_poll-Kept sockfd s i fd v low at)
          | inr (inr failed) ↦ absurd (ground arith)
          | inl (bs, got) ↦
              let out = s.sent ++ (fd, buffer bs memory) ∷ [] in
              let v' = replied sockfd s out v in
              elim (Bool-cases (nready == 1)) [
                | inl last ↦ subst (PollKept sockfd) (done-injective (ground arith)) v'
                | inr more ↦
                    serve_poll-Kept k (i + 1) (nready - 1) revents reads memory
                      (record s { sent = out }) s' v' (omega arith) (ground arith)
              ]
        ]
      ]
    ]

-- A round of the loop that comes to its end keeps the table right, whatever the system calls
-- return, the slots' stale POLLIN bits included: the listening socket stays in the first slot, and
-- the clients' slots lie up to `max_pos`, inside the array, and hold open descriptors, each once and
-- below the limit that `setrlimit` sets. `accept` returns a descriptor that was not open.
pub poll_round-Kept :
    (sockfd : ℕ) (s s' : PollServer) (p : Polled) (accepted : Option ℕ) (reads : ℕ → Received)
    (memory : List ℕ)
    → PollKept sockfd s
    → ((cfd : ℕ) → accepted ≡ some cfd → s.is_open cfd ≡ false)
    → poll_round s p accepted reads memory ≡ done s'
    → PollKept sockfd s'
unfolding poll_round
poll_round-Kept sockfd s s' poll_interrupted accepted reads memory v new e =
    subst (PollKept sockfd) (done-injective e) v
poll_round-Kept sockfd s s' poll_error accepted reads memory v new e = absurd (ground arith)
poll_round-Kept sockfd s s' poll_nothing accepted reads memory v new e =
    subst (PollKept sockfd) (done-injective e) v
poll_round-Kept sockfd s s' (polled nready revents) accepted reads memory v new e =
    elim (Bool-cases (revents 0)) [
      | inr quiet ↦
          serve_poll-Kept s.max_pos 1 nready revents reads memory s s' v (omega arith)
            (ground arith)
      | inl knocks ↦ elim (accept_poll_cases sockfd s accepted v new) [
        | inr failed ↦ absurd (ground arith)
        | inl (s1, seated, v1) ↦ elim (Bool-cases (nready == 1)) [
          | inl last ↦ subst (PollKept sockfd) (done-injective (ground arith)) v1
          | inr more ↦
              serve_poll-Kept s1.max_pos 1 (nready - 1) revents reads memory s1 s' v1 (omega arith)
                (ground arith)
        ]
      ]
    ]
