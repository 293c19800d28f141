-- ===== src/Multiplex/Table.antt =====
-- select_server.c: the slots, the set given to `select` and the open descriptors.
use computer_science_notes.Base.{
  ℕ, zero, suc, ◌+◌, ◌≤◌, ◌<◌, ◌≡◌, ◌≢◌, ◌⊎◌, inl, inr, refl, sym, ◌∙◌, subst, List, Option,
  Option-cases, none, some, Bool, true, false, ltb, if◌then◌else◌, update, arith, ℕ_discrete, done,
}
use computer_science_notes.Multiplex.Slots.{find_slot, find_slot-free}
use computer_science_notes.Multiplex.Select.{
  fd_setsize, Server, start_server, accept_client, forget, drop_client,
}

-- A client in a slot is in use, in the set and within the bounds; no two slots have one descriptor;
-- what is in the set is the listening socket or in a slot; and so is every descriptor that the server
-- has open.
pub record Kept (sockfd : ℕ) (s : Server) : Type 0 where
  pub watched : (i fd : ℕ) → s.client_sockets i ≡ some fd → s.allset fd ≡ true
  pub opened : (i fd : ℕ) → s.client_sockets i ≡ some fd → s.is_open fd ≡ true
  pub within : (i fd : ℕ) → s.client_sockets i ≡ some fd → i ≤ s.max_pos
  pub bounded : (i fd : ℕ) → s.client_sockets i ≡ some fd → fd ≤ s.maxfd
  pub other : (i fd : ℕ) → s.client_sockets i ≡ some fd → fd ≢ sockfd
  pub single : (i j fd : ℕ) → s.client_sockets i ≡ some fd → s.client_sockets j ≡ some fd → i ≡ j
  pub listening : (s.allset sockfd ≡ true) × (s.is_open sockfd ≡ true) × (sockfd ≤ s.maxfd)
  pub only : (fd : ℕ) → s.allset fd ≡ true → fd ≢ sockfd → (i : ℕ) × (s.client_sockets i ≡ some fd)
  pub held : (fd : ℕ) → s.is_open fd ≡ true → fd ≢ sockfd → (i : ℕ) × (s.client_sockets i ≡ some fd)

-- The set was blank when the loop began.
pub start_server-Kept :
    (sockfd : ℕ) (memory : ℕ → Bool)
    → ((fd : ℕ) → memory fd ≡ false)
    → Kept sockfd (start_server sockfd memory)
unfolding start_server
start_server-Kept sockfd memory blank = record {
  watched = λ i fd e. ground arith;
  opened = λ i fd e. ground arith;
  within = λ i fd e. ground arith;
  bounded = λ i fd e. ground arith;
  other = λ i fd e. ground arith;
  single = λ i j fd e e'. ground arith;
  listening = (ground arith, ground arith, omega arith);
  only = λ fd e ne. ground (arith, blank fd);
  held = λ fd e ne. ground arith;
}

-- The server with a new client in the free slot `i`.
unfoldable pub seated : Server → ℕ → ℕ → Server
seated s i cfd = record s {
  client_sockets = update s.client_sockets i (some cfd);
  max_pos = if ltb i s.max_pos then s.max_pos else i;
  allset = update s.allset cfd true;
  maxfd = if ltb cfd s.maxfd then s.maxfd else cfd;
  is_open = update s.is_open cfd true;
}

seated-Kept :
    (sockfd : ℕ) (s : Server) (i cfd : ℕ)
    → Kept sockfd s
    → s.client_sockets i ≡ none
    → s.is_open cfd ≡ false
    → Kept sockfd (seated s i cfd)
unfolding seated
seated-Kept sockfd s i cfd v free new = record {
  watched = λ j fd e. ground (arith, v.watched j fd);
  opened = λ j fd e. ground (arith, v.opened j fd);
  within = λ j fd e. ground (arith, v.within j fd);
  bounded = λ j fd e. ground (arith, v.bounded j fd);
  other = λ j fd e. ground (arith, v.other j fd, v.listening);
  single = λ j k fd e e'. ground (arith, v.single j k fd, v.opened j fd, v.opened k fd);
  listening =
      (ground (arith, v.listening), ground (arith, v.listening), ground (arith, v.listening));
  only = λ fd e ne. elim (ℕ_discrete cfd fd) [
    | yes same ↦ (i, ground arith)
    | no ne' ↦ let (j, at) = v.only fd (ground arith) ne in (j, ground (arith, free))
  ];
  held = λ fd e ne. elim (ℕ_discrete cfd fd) [
    | yes same ↦ (i, ground arith)
    | no ne' ↦ let (j, at) = v.held fd (ground arith) ne in (j, ground (arith, free))
  ];
}

pub accept_client-Kept :
    (sockfd : ℕ) (s s' : Server) (accepted : Option ℕ)
    → Kept sockfd s
    → ((cfd : ℕ) → accepted ≡ some cfd → s.is_open cfd ≡ false)
    → accept_client s accepted ≡ done s'
    → Kept sockfd s'
unfolding accept_client seated
accept_client-Kept sockfd s s' none v new e = absurd (ground arith)
accept_client-Kept sockfd s s' (some cfd) v new e =
    elim (Option-cases (find_slot s.client_sockets fd_setsize 0)) [
      | inl full ↦ absurd (ground arith)
      | inr (i, room) ↦
          let is : s' ≡ seated s i cfd = ground arith in
          subst (Kept sockfd) (sym is) (
            seated-Kept sockfd s i cfd v (find_slot-free s.client_sockets fd_setsize 0 i room)
              (new cfd refl))
    ]

-- What is taken out had the descriptor.
forget_sound :
    (slots : ℕ → Option ℕ) (k i fd j : ℕ)
    → (forget slots k i fd j ≡ slots j) ⊎ ((slots j ≡ some fd) × (forget slots k i fd j ≡ none))
unfolding forget
forget_sound slots zero i fd j = inl refl
forget_sound slots (suc k) i fd j = elim (Option-cases (slots i)) [
  | inl free ↦ ground (arith, forget_sound slots k (i + 1) fd j)
  | inr (fd', taken) ↦ ground (arith, forget_sound slots k (i + 1) fd j)
]

forget_complete :
    (slots : ℕ → Option ℕ) (k i fd j : ℕ)
    → i ≤ j
    → j < i + k
    → slots j ≡ some fd
    → ((l : ℕ) → slots l ≡ some fd → l ≡ j)
    → forget slots k i fd j ≡ none
unfolding forget
forget_complete slots zero i fd j low high at one = absurd (omega arith)
forget_complete slots (suc k) i fd j low high at one = elim (ℕ_discrete i j) [
  | yes here ↦ ground arith
  | no later ↦ elim (Option-cases (slots i)) [
    | inl free ↦
        ground (arith, forget_complete slots k (i + 1) fd j (omega arith) (omega arith) at one)
    | inr (fd', taken) ↦
        ground
          (arith, one i, forget_complete slots k (i + 1) fd j (omega arith) (omega arith) at one)
  ]
]

module _ {sockfd : ℕ} {s : Server} (v : Kept sockfd s) (i fd : ℕ)
    (at : s.client_sockets i ≡ some fd) where
  gone : forget s.client_sockets (s.max_pos + 1) 0 fd i ≡ none
  gone =
      forget_complete s.client_sockets (s.max_pos + 1) 0 fd i (omega arith)
        (omega (arith, v.within i fd at)) at (λ l at'. v.single l i fd at' at)

  -- Only the slot of the client that has left changes.
  survives :
      (j fd' : ℕ)
      → forget s.client_sockets (s.max_pos + 1) 0 fd j ≡ some fd'
      → (s.client_sockets j ≡ some fd') × (fd' ≢ fd)
  survives j fd' e =
      let there : s.client_sockets j ≡ some fd' =
        elim (forget_sound s.client_sockets (s.max_pos + 1) 0 fd j) [
          | inl same ↦ sym same ∙ e
          | inr (was, now) ↦ ground arith
        ] in
      (there, λ eq. ground (arith, gone, v.single i j fd))

  remains :
      (j fd' : ℕ)
      → s.client_sockets j ≡ some fd'
      → fd' ≢ fd
      → forget s.client_sockets (s.max_pos + 1) 0 fd j ≡ some fd'
  remains j fd' e ne = elim (forget_sound s.client_sockets (s.max_pos + 1) 0 fd j) [
    | inl same ↦ same ∙ e
    | inr (was, now) ↦ ground arith
  ]

  pub drop_client-Kept : Kept sockfd (drop_client s fd)
  unfolding drop_client
  drop_client-Kept = record {
    watched = λ j fd' e. ground (arith, survives j fd', v.watched j fd');
    opened = λ j fd' e. ground (arith, survives j fd', v.opened j fd');
    within = λ j fd' e. ground (arith, survives j fd', v.within j fd');
    bounded = λ j fd' e. ground (arith, survives j fd', v.bounded j fd');
    other = λ j fd' e. ground (arith, survives j fd', v.other j fd');
    single = λ j k fd' e e'. ground (arith, survives j fd', survives k fd', v.single j k fd');
    listening = (
      ground (arith, v.listening, v.other i fd),
      ground (arith, v.listening, v.other i fd),
      ground (arith, v.listening),
    );
    only = λ fd' e ne.
        let (j, there) = v.only fd' (ground arith) ne in (j, remains j fd' there (ground arith));
    held = λ fd' e ne.
        let (j, there) = v.held fd' (ground arith) ne in (j, remains j fd' there (ground arith));
  }

pub sent-Kept :
    (sockfd : ℕ) (s : Server) (out : List (ℕ × List ℕ))
    → Kept sockfd s
    → Kept sockfd (record s { sent = out })
sent-Kept sockfd s out v = record {
  watched = v.watched;
  opened = v.opened;
  within = v.within;
  bounded = v.bounded;
  other = v.other;
  single = v.single;
  listening = v.listening;
  only = v.only;
  held = v.held;
}
