-- ===== src/Stream/Tests.antt =====
-- The theorems of Stream at a wire and a pipe.
use computer_science_notes.Base.{◌≡◌, refl, [], ◌∷◌, arith, done}
use computer_science_notes.Stream.Counted.{
  readn, Received, readn_received, writen, Delivered, writen-Delivered,
}
use computer_science_notes.Stream.Lines.Defs.{find_newline, readline}
use computer_science_notes.Stream.Lines.Rounds.{ReadsLine}
use computer_science_notes.Stream.Lines.Total.{readline-ReadsLine}
use computer_science_notes.Stream.Chat.{recv_keyboard, recv_socket}
use computer_science_notes.Stream.Chat.Sending.{keyboard_sends_all}
use computer_science_notes.Stream.Chat.Receiving.{line_overprints}
use computer_science_notes.Stream.Wires.{
  Wire, Pipe, wire, pipe, wire_calm, pipe_willing, take_some, wire_peek_at,
}

abbrev fresh_pipe : Pipe
fresh_pipe = record { stalls_left = 1; out = 33 ∷ [] }

abbrev two_lines : Wire
two_lines = record { hiccups = 2; bytes = 104 ∷ 105 ∷ 10 ∷ 111 ∷ 107 ∷ 10 ∷ [] }

abbrev calm_lines : Wire
calm_lines = record { hiccups = 0; bytes = 104 ∷ 105 ∷ 10 ∷ 111 ∷ 107 ∷ 10 ∷ [] }

readn_received_example :
    Received wire (104 ∷ 105 ∷ 10 ∷ 111 ∷ 107 ∷ 10 ∷ []) 2 4 (readn wire 7 two_lines 4)
readn_received_example = readn_received wire 7 two_lines 4 (omega arith)

writen-Delivered_example :
    Delivered pipe
      (33 ∷ [])
      1
      3
      (97 ∷ 98 ∷ 99 ∷ 0 ∷ [])
      (writen pipe 5 fresh_pipe (97 ∷ 98 ∷ 99 ∷ 0 ∷ []) 3)
writen-Delivered_example =
    writen-Delivered pipe 5 fresh_pipe (97 ∷ 98 ∷ 99 ∷ 0 ∷ []) 3 (omega arith) (omega arith)

readline-ReadsLine_example :
    ReadsLine wire
      (104 ∷ 105 ∷ 10 ∷ 111 ∷ 107 ∷ 10 ∷ [])
      2
      4
      (readline wire 5 7 two_lines (0 ∷ 0 ∷ 0 ∷ 0 ∷ []) 4)
readline-ReadsLine_example =
    readline-ReadsLine wire wire_calm 5 7 two_lines (0 ∷ 0 ∷ 0 ∷ 0 ∷ []) (omega arith) (omega arith)

keyboard_sends_all_example :
    (c' : Pipe) × (recv_keyboard pipe 3 1025 fresh_pipe (104 ∷ 105 ∷ 10 ∷ []) ≡ done c')
    × (c'.out ≡ 33 ∷ 104 ∷ 105 ∷ 10 ∷ [])
keyboard_sends_all_example =
    keyboard_sends_all pipe 3 1025 fresh_pipe (104 ∷ 105 ∷ 10 ∷ []) pipe_willing (omega arith)
      (omega arith) (omega arith)

-- "hi" and "ok", a line each: the first round prints both, and "ok" is still to be read.
line_overprints_example :
    (c' : Wire) × (recv_socket wire 4 1025 calm_lines []
      ≡ recv_socket wire 3 1025 c' (104 ∷ 105 ∷ 10 ∷ 111 ∷ 107 ∷ 10 ∷ []))
    × (c'.bytes ≡ 111 ∷ 107 ∷ 10 ∷ [])
unfolding wire_peek_at find_newline take_some
line_overprints_example =
    line_overprints wire wire_calm 3 1025 2 calm_lines (104 ∷ 105 ∷ 10 ∷ 111 ∷ 107 ∷ 10 ∷ []) []
      refl refl (omega arith) (omega arith) (omega arith)
