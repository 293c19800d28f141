-- ===== src/Packet/Session.antt =====
-- fixed-length/server.c: `recv_socket` and `recv_keyboard`.
use computer_science_notes.Base.{
  ℕ, zero, suc, ◌+◌, List, [], ◌∷◌, ◌++◌, none, some, Bool, false, length, ltb, ◌==◌, if◌then◌else◌,
  ℤ, pos, negsuc, Run, done, exited, out_of_fuel, ◌>>=◌, exit_failure,
}
use computer_science_notes.Stream.Kernel.{Source, Sink}
use computer_science_notes.Stream.Counted.{readn, writen}
use computer_science_notes.Stream.Lines.Defs.{overwrite}
use computer_science_notes.Stream.Chat.{buffer_length, cleared, fgets, strlen, c_string}
use computer_science_notes.Packet.Format.{htonl, ntohl, as_size}

-- How `readn(conn_sockfd,&recv_buf.len,4)` comes out.
pub data Header : Type 0 where
  peer_closed broken whole : Header

abbrev pub header_of : ℤ → Header
header_of (pos n) = if n == 0 then peer_closed else if ltb n 4 then broken else whole
header_of (negsuc n) = broken

-- `ret != recv_buf.len`, the other way round.
abbrev pub is_complete : ℤ → ℕ → Bool
is_complete (pos n) count = n == count
is_complete (negsuc n) count = false

-- The end of `recv_socket`: the peer has closed, or bytes were written or read behind the buffer.
-- `printed` is what went to stdout before.
pub data Ending : Type 0 where
  ended : (printed : List ℕ) → Ending
  out_of_bounds : (printed : List ℕ) → Ending

module _ (src : Source) where
  open src use {Conn}

  -- The packet is cleared before each round.
  unfoldable pub recv_packets : ℕ → ℕ → Conn → List ℕ → Run Ending
  recv_packets zero inner c printed = out_of_fuel
  recv_packets (suc fuel) inner c printed = do
    (ret, len, c1) ← readn src inner c 4
    let count = as_size (ntohl len)
    let next = λ (c' : Conn) (text : List ℕ). recv_packets fuel inner c' (printed ++ text)
    elim (header_of ret) [
      | peer_closed ↦ done (ended printed)
      | broken ↦ exited exit_failure
      | whole ↦ readn src inner c1 count >>= λ (ret', body, c2).
          if ltb buffer_length (length body)
          then done (out_of_bounds printed)
          else if is_complete ret' count
          then elim (c_string (overwrite (cleared buffer_length) body)) [
            | none ↦ done (out_of_bounds printed)
            | some text ↦ next c2 text
          ]
          else exited exit_failure
    ]

module _ (snk : Sink) where
  open snk use {Conn}

  -- The packet in memory is the length, in network byte order, and the line behind it.
  unfoldable pub send_packets : ℕ → ℕ → Conn → List ℕ → Run Conn
  send_packets fuel inner c [] = done c
  send_packets zero inner c (b ∷ bs) = out_of_fuel
  send_packets (suc fuel) inner c (b ∷ bs) = do
    let line = (fgets 1023 (b ∷ bs)).0
    let size = strlen line
    (k, c') ← writen snk inner c (htonl size ++ line) (4 + size)
    send_packets fuel inner c' (fgets 1023 (b ∷ bs)).1
