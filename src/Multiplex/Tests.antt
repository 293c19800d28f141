-- ===== src/Multiplex/Tests.antt =====
-- Runs of the three servers, and the theorems at them. The listening socket is 3.
use computer_science_notes.Base.{
  ℕ, ◌≡◌, ◌≤◌, ◌<◌, exited, exit_failure, refl, List, [], ◌∷◌, ◌++◌, length, drop, replicate, none,
  some, Bool, true, false, ◌==◌, update, arith, ℕ_discrete, done,
}
use computer_science_notes.Multiplex.Slots.{Received, data_read, peer_closed, find_slot}
use computer_science_notes.Multiplex.Select.{Server, start_server, accept_client, ready, round}
use computer_science_notes.Multiplex.Table.{Kept, start_server-Kept}
use computer_science_notes.Multiplex.Rounds.{round-Kept, reply_is_padded}
use computer_science_notes.Multiplex.Poll.{
  max_total, PollServer, start_poll, accept_poll, polled, poll_round,
}
use computer_science_notes.Multiplex.PollRoom.{accepted_is_served}
use computer_science_notes.Multiplex.PollTable.{PollKept, start_poll-Kept, poll_round-Kept}
use computer_science_notes.Multiplex.Epoll.{
  EpollServer, start_epoll, Report, welcome, serve_reports,
}
use computer_science_notes.Multiplex.EpollTree.{Tended, start_epoll-Tended, serve_reports-Tended}

abbrev fresh_server : Server
fresh_server = start_server 3 (λ fd. false)

abbrev one_client : Server
one_client = record {
  client_sockets = update (λ i. none) 0 (some 4);
  allset = update (update (λ fd. false) 3 true) 4 true;
  max_pos = 0;
  maxfd = 4;
  is_open = update (update (λ fd. false) 3 true) 4 true;
  sent = [];
}

abbrev only_listening : ℕ → Bool
only_listening = update (λ fd. false) 3 true

abbrev no_reads : ℕ → Received
no_reads fd = peer_closed

client_arrives :
    round 3 fresh_server (ready 1 only_listening) (some 4) no_reads [] ≡ done one_client
unfolding round accept_client find_slot start_server ℕ_discrete
client_arrives = refl

round-Kept_example : Kept 3 one_client
unfolding start_server ℕ_discrete
round-Kept_example =
    round-Kept 3 fresh_server one_client (ready 1 only_listening) (some 4) no_reads []
      (start_server-Kept 3 (λ fd. false) (λ fd. refl)) (λ cfd e. ground arith) client_arrives

one_client-Kept : Kept 3 one_client
one_client-Kept = record {
  watched = λ i fd e. ground arith;
  opened = λ i fd e. ground arith;
  within = λ i fd e. ground arith;
  bounded = λ i fd e. ground arith;
  other = λ i fd e. ground arith;
  single = λ i j fd e e'. ground arith;
  listening = (ground arith, ground arith, ground arith);
  only = λ fd e ne. (0, ground arith);
  held = λ fd e ne. (0, ground arith);
}

abbrev hello : ℕ → Received
hello fd = data_read (104 ∷ 105 ∷ [])

abbrev old_bytes : List ℕ
old_bytes = replicate 1024 88

reply_is_padded_example :
    (round 3 one_client (ready 1 (update (λ fd. false) 4 true)) none hello old_bytes
      ≡ done (record one_client { sent = (4, (104 ∷ 105 ∷ []) ++ drop 2 old_bytes) ∷ [] }))
    × (length ((104 ∷ 105 ∷ []) ++ drop 2 old_bytes) ≡ 1024)
unfolding ℕ_discrete
reply_is_padded_example =
    reply_is_padded 3 0 4 (update (λ fd. false) 4 true) none hello old_bytes (104 ∷ 105 ∷ [])
      one_client one_client-Kept refl (λ l fd low high. absurd (omega arith)) refl refl refl refl
      (omega arith)

-- The poll server.
abbrev one_polled : PollServer
one_polled = record {
  fds = update (update (λ i. none) 0 (some 3)) 1 (some 4);
  max_pos = 1;
  is_open = update (update (λ fd. false) 3 true) 4 true;
  sent = [];
}

poll_client_arrives :
    poll_round (start_poll 3) (polled 1 (λ i. i == 0)) (some 4) no_reads [] ≡ done one_polled
unfolding poll_round accept_poll find_slot start_poll ℕ_discrete
poll_client_arrives = refl

poll_round-Kept_example : PollKept 3 one_polled
unfolding start_poll ℕ_discrete
poll_round-Kept_example =
    poll_round-Kept 3 (start_poll 3) one_polled (polled 1 (λ i. i == 0)) (some 4) no_reads []
      (start_poll-Kept 3 (omega arith)) (λ cfd e. ground arith) poll_client_arrives

accepted_is_served_example :
    (s' : PollServer) × (i : ℕ) × (accept_poll (start_poll 3) (some 4) ≡ done s')
    × ((start_poll 3).fds i ≡ none)
    × (s'.fds i ≡ some 4)
    × (1 ≤ i)
    × (i ≤ s'.max_pos)
    × (s'.max_pos < max_total)
    × (s'.is_open 4 ≡ true)
unfolding start_poll ℕ_discrete
accepted_is_served_example =
    accepted_is_served 3 (start_poll 3) 4 (start_poll-Kept 3 (omega arith)) (omega arith) refl

-- A descriptor at the limit is not given out: `accept` fails.
too_many_files : accept_poll (start_poll 3) (some 2048) ≡ exited exit_failure
unfolding accept_poll
too_many_files = refl

-- The epoll server: a client arrives on 4, and says something.
abbrev arrival : List Report
arrival = record { fd = 3; readable = true; accepted = some 4; received = peer_closed } ∷ []

abbrev talk : Report
talk = record { fd = 4; readable = true; accepted = none; received = data_read (104 ∷ 105 ∷ []) }

abbrev one_watched : EpollServer
one_watched = record {
  watched = update (update (λ fd. false) 3 true) 4 true;
  is_open = update (update (λ fd. false) 3 true) 4 true;
  sent = [];
}

epoll_client_arrives : serve_reports 3 arrival (start_epoll 3) ≡ done one_watched
unfolding serve_reports welcome start_epoll ℕ_discrete
epoll_client_arrives = refl

serve_reports-Tended_example : Tended one_watched
serve_reports-Tended_example =
    serve_reports-Tended 3 arrival (start_epoll 3) one_watched (start_epoll-Tended 3)
      epoll_client_arrives
