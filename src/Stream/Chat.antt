-- ===== src/Stream/Chat.antt =====
-- `recv_socket` and `recv_keyboard` of readline/server.c: the two processes of a connection.
-- `fgets`, `fputs` and `strlen` are modelled by what they do with bytes.
pub mod Sending
pub mod Receiving
use computer_science_notes.Base.{
  ℕ, zero, suc, List, [], ◌∷◌, ◌++◌, Option, none, some, replicate, ◌==◌, if◌then◌else◌, Run, done,
  exited, out_of_fuel, ◌>>=◌,
}
use computer_science_notes.Stream.Kernel.{Source, Sink}
use computer_science_notes.Stream.Counted.{writen}
use computer_science_notes.Stream.Lines.Defs.{newline, readline}

abbrev pub buffer_length : ℕ
buffer_length = 1024

-- The buffer after `memset(recv_buf, 0, sizeof(recv_buf))`.
unfoldable pub cleared : ℕ → List ℕ
cleared n = replicate n 0

-- `fgets` with room for `n` bytes: up to and with the first newline; and what is left of the input.
unfoldable pub fgets : ℕ → List ℕ → List ℕ × List ℕ
fgets zero input = ([], input)
fgets (suc n) [] = ([], [])
fgets (suc n) (b ∷ bs) =
    let (line, rest) = fgets n bs in if b == newline then (b ∷ [], bs) else (b ∷ line, rest)

unfoldable pub strlen : List ℕ → ℕ
strlen [] = 0
strlen (b ∷ bs) = let n = strlen bs in if b == 0 then 0 else suc n

-- The string that memory holds; none if there is no terminator in it.
unfoldable pub c_string : List ℕ → Option (List ℕ)
c_string [] = none
c_string (b ∷ bs) =
    let rest = c_string bs in
    if b == 0 then some [] else elim rest [ none ↦ none | some s ↦ some (b ∷ s) ]

-- The end of `recv_socket`: the peer has closed and the parent has been sent SIGUSR1, or `fputs`
-- ran past the end of the buffer. `printed` is what went to stdout before.
pub data Session : Type 0 where
  finished : (printed : List ℕ) → Session
  overread : (printed : List ℕ) → Session

module _ (src : Source) where
  open src use {Conn}

  -- The buffer is cleared before each call of `readline`. `ret == -1` cannot be: `readline` ends
  -- the process where its calls fail.
  unfoldable pub recv_socket : ℕ → ℕ → Conn → List ℕ → Run Session
  recv_socket zero inner c printed = out_of_fuel
  recv_socket (suc fuel) inner c printed = do
    (ret, mem, c') ← readline src inner inner c (cleared buffer_length) buffer_length
    let next = λ (text : List ℕ). recv_socket fuel inner c' (printed ++ text)
    if ret == 0
        then done (finished printed)
        else elim (c_string mem) [ none ↦ done (overread printed) | some text ↦ next text ]

module _ (snk : Sink) where
  open snk use {Conn}

  -- `while (fgets(...) != NULL) { writen(...); memset(...); }` on the bytes of stdin.
  unfoldable pub recv_keyboard : ℕ → ℕ → Conn → List ℕ → Run Conn
  recv_keyboard fuel inner c [] = done c
  recv_keyboard zero inner c (b ∷ bs) = out_of_fuel
  recv_keyboard (suc fuel) inner c (b ∷ bs) = do
    let line = (fgets 1023 (b ∷ bs)).0
    (k, c') ← writen snk inner c line (strlen line)
    recv_keyboard fuel inner c' (fgets 1023 (b ∷ bs)).1
