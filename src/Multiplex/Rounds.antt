-- ===== src/Multiplex/Rounds.antt =====
-- select_server.c: what a round of the loop does to the table, and what the clients get.
use computer_science_notes.Base.{
  ℕ, zero, suc, ◌+◌, ◌-◌, ◌≤◌, ◌<◌, ◌≡◌, ◌⊎◌, inl, inr, refl, subst, List, [], ◌∷◌, ◌++◌, Option,
  Option-cases, none, some, Bool, Bool-cases, true, false, ◌==◌, arith, ℕ_discrete, done, exited,
  exit_failure, length, drop, length-append, length-drop,
}
use computer_science_notes.Multiplex.Slots.{
  Received, data_read, peer_closed, read_error, find_slot, buffer,
}
use computer_science_notes.Multiplex.Select.{
  fd_setsize, Server, accept_client, serve_clients, Selected, interrupted, select_error, timed_out,
  ready, round,
}
use computer_science_notes.Multiplex.Table.{
  Kept, seated, accept_client-Kept, drop_client-Kept, sent-Kept,
}

pub Received-cases :
    (o : Received) → ((bs : List ℕ) × (o ≡ data_read bs)) ⊎ (o ≡ peer_closed) ⊎ (o ≡ read_error)
Received-cases (data_read bs) = inl (bs, refl)
Received-cases peer_closed = inr (inl refl)
Received-cases read_error = inr (inr refl)

pub done-injective : {A : Type 0} {x y : A} → done x ≡ done y → x ≡ y
done-injective e = cc

serve_clients-Kept :
    (k : ℕ) {sockfd : ℕ} (i nready : ℕ) (rset : ℕ → Bool) (reads : ℕ → Received) (memory : List ℕ)
    (s s' : Server)
    → Kept sockfd s
    → serve_clients k i nready rset reads memory s ≡ done s'
    → Kept sockfd s'
unfolding serve_clients
serve_clients-Kept zero {sockfd} i nready rset reads memory s s' v e =
    subst (Kept sockfd) (done-injective e) v
serve_clients-Kept (suc k) {sockfd} i nready rset reads memory s s' v e =
    elim (Option-cases (s.client_sockets i)) [
      | inl free ↦ serve_clients-Kept k (i + 1) nready rset reads memory s s' v (ground arith)
      | inr (fd, at) ↦ elim (Bool-cases (rset fd)) [
        | inr quiet ↦ serve_clients-Kept k (i + 1) nready rset reads memory s s' v (ground arith)
        | inl loud ↦ elim (Received-cases (reads fd)) [
          | inr (inl closed) ↦
              subst (Kept sockfd) (done-injective (ground arith)) (drop_client-Kept v i fd at)
          | inr (inr failed) ↦ absurd (ground arith)
          | inl (bs, got) ↦
              let out = s.sent ++ (fd, buffer bs memory) ∷ [] in
              let v' = sent-Kept sockfd s out v in
              elim (Bool-cases (nready == 1)) [
                | inl last ↦ subst (Kept sockfd) (done-injective (ground arith)) v'
                | inr more ↦
                    serve_clients-Kept k (i + 1) (nready - 1) rset reads memory
                      (record s { sent = out }) s' v' (ground arith)
              ]
        ]
      ]
    ]

accept_cases :
    (s : Server) (accepted : Option ℕ)
    → ((s' : Server) × (accept_client s accepted ≡ done s'))
      ⊎ (accept_client s accepted ≡ exited exit_failure)
unfolding accept_client seated
accept_cases s none = inr refl
accept_cases s (some cfd) = elim (Option-cases (find_slot s.client_sockets fd_setsize 0)) [
  | inl full ↦ inr (ground arith)
  | inr (i, room) ↦ inl (seated s i cfd, ground arith)
]

-- A round of the loop that comes to its end keeps the table right: the slots up to `max_pos` hold
-- the connected clients, each open, once, and in the set given to `select` within its bound; and
-- nothing else but the listening socket is in that set, or open. `accept` returns a descriptor that
-- was not open.
pub round-Kept :
    (sockfd : ℕ) (s s' : Server) (selected : Selected) (accepted : Option ℕ) (reads : ℕ → Received)
    (memory : List ℕ)
    → Kept sockfd s
    → ((cfd : ℕ) → accepted ≡ some cfd → s.is_open cfd ≡ false)
    → round sockfd s selected accepted reads memory ≡ done s'
    → Kept sockfd s'
unfolding round
round-Kept sockfd s s' interrupted accepted reads memory v new e =
    subst (Kept sockfd) (done-injective e) v
round-Kept sockfd s s' select_error accepted reads memory v new e = absurd (ground arith)
round-Kept sockfd s s' timed_out accepted reads memory v new e =
    subst (Kept sockfd) (done-injective e) v
round-Kept sockfd s s' (ready nready rset) accepted reads memory v new e =
    elim (Bool-cases (rset sockfd)) [
      | inr quiet ↦
          serve_clients-Kept (s.max_pos + 1) 0 nready rset reads memory s s' v (ground arith)
      | inl knocks ↦ elim (accept_cases s accepted) [
        | inr failed ↦ absurd (ground arith)
        | inl (s1, seated) ↦
            let v1 = accept_client-Kept sockfd s s1 accepted v new seated in
            elim (Bool-cases (nready == 1)) [
              | inl last ↦ subst (Kept sockfd) (done-injective (ground arith)) v1
              | inr more ↦
                  serve_clients-Kept (s1.max_pos + 1) 0 (nready - 1) rset reads memory s1 s' v1
                    (ground arith)
            ]
      ]
    ]

-- No slot from `i` up to `j` is to be read.
abbrev pub IsQuiet : Server → (ℕ → Bool) → ℕ → ℕ → Type 0
IsQuiet s rset i j = (l fd : ℕ) → i ≤ l → l < j → s.client_sockets l ≡ some fd → rset fd ≡ false

serve_first :
    (k i j fd : ℕ) (rset : ℕ → Bool) (reads : ℕ → Received) (memory bs : List ℕ) (s : Server)
    → i ≤ j
    → j < i + k
    → IsQuiet s rset i j
    → s.client_sockets j ≡ some fd
    → rset fd ≡ true
    → reads fd ≡ data_read bs
    → serve_clients k i 1 rset reads memory s
      ≡ done (record s { sent = s.sent ++ (fd, buffer bs memory) ∷ [] })
unfolding serve_clients
serve_first zero i j fd rset reads memory bs s low high quiet at loud got = absurd (omega arith)
serve_first (suc k) i j fd rset reads memory bs s low high quiet at loud got =
    elim (ℕ_discrete i j) [
      | yes here ↦ ground arith
      | no later ↦
          let rest =
            serve_first k (i + 1) j fd rset reads memory bs s (omega arith) (omega arith)
              (λ l fd' from. quiet l fd' (omega arith)) at loud got in
          elim (Option-cases (s.client_sockets i)) [
            | inl free ↦ ground (arith, rest)
            | inr (fd', taken) ↦ ground (arith, rest, quiet i fd' (omega arith) (omega arith) taken)
          ]
    ]

-- When the one descriptor reported is a client's, and `read` gives some bytes of it, the round ends
-- with one more reply, to that client: those bytes, and behind them what the buffer held before, so
-- that 1024 bytes go out however few came in.
pub reply_is_padded :
    (sockfd j fd : ℕ) (rset : ℕ → Bool) (accepted : Option ℕ) (reads : ℕ → Received)
    (memory bs : List ℕ) (s : Server)
    → Kept sockfd s
    → rset sockfd ≡ false
    → IsQuiet s rset 0 j
    → s.client_sockets j ≡ some fd
    → rset fd ≡ true
    → reads fd ≡ data_read bs
    → length memory ≡ 1024
    → length bs ≤ 1024
    → (round sockfd s (ready 1 rset) accepted reads memory
        ≡ done (record s { sent = s.sent ++ (fd, bs ++ drop (length bs) memory) ∷ [] }))
      × (length (bs ++ drop (length bs) memory) ≡ 1024)
unfolding round
reply_is_padded sockfd j fd rset accepted reads memory bs s v idle quiet at loud got room fits =
    let served =
      serve_first (s.max_pos + 1) 0 j fd rset reads memory bs s (omega arith)
        (omega (arith, v.within j fd at)) quiet at loud got in
    (
      ground (arith, served),
      omega (arith, length-append bs (drop (length bs) memory), length-drop (length bs) memory),
    )
