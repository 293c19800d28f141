-- ===== src/Packet/Tests.antt =====
-- A line typed into the pipe and read from the wire.
use computer_science_notes.Base.{
  ℕ, ◌≤◌, ◌≡◌, refl, List, [], ◌∷◌, ◌++◌, length, replicate, All, done, arith,
}
use computer_science_notes.Stream.Wires.{Wire, Pipe, wire, pipe, wire_calm, pipe_willing}
use computer_science_notes.Packet.Format.{packet}
use computer_science_notes.Packet.Session.{ended, out_of_bounds, recv_packets, send_packets}
use computer_science_notes.Packet.Printing.{IsText, concat, packets}
use computer_science_notes.Packet.Exchange.{packets_sent, typed_is_printed, long_packet_overruns}

abbrev unused_pipe : Pipe
unused_pipe = record { stalls_left = 1; out = [] }

abbrev typed : List ℕ
typed = 104 ∷ 105 ∷ 10 ∷ 111 ∷ 107 ∷ []

packets_sent_example :
    (ls : List (List ℕ)) × All IsText ls
    × (concat ls ≡ typed)
    × (length ls ≤ 5)
    × ((c' : Pipe) × (send_packets pipe 5 1029 unused_pipe typed ≡ done c') × (c'.out ≡ packets ls))
packets_sent_example =
    packets_sent pipe 5 1029 unused_pipe typed pipe_willing (omega arith) (omega arith)
      (omega arith)

-- The pipe once the line has been sent.
sent_pipe : (c' : Pipe) × (send_packets pipe 5 1029 unused_pipe typed ≡ done c')
sent_pipe =
    let r =
      packets_sent pipe 5 1029 unused_pipe typed pipe_willing (omega arith) (omega arith)
        (omega arith) in
    (r.4.0, r.4.1)

typed_is_printed_example :
    recv_packets wire 6 1029 (record { hiccups = 1; bytes = (sent_pipe.0).out }) []
    ≡ done (ended typed)
typed_is_printed_example =
    typed_is_printed wire pipe 5 1029 (record { hiccups = 1; bytes = (sent_pipe.0).out })
      unused_pipe sent_pipe.0 typed wire_calm pipe_willing (omega arith) (omega arith) (omega arith)
      (omega arith) refl sent_pipe.1 refl

abbrev long_wire : Wire
long_wire = record { hiccups = 1; bytes = packet (replicate 1025 65) ++ [] }

long_packet_overruns_example : recv_packets wire 1 1031 long_wire [] ≡ done (out_of_bounds [])
long_packet_overruns_example =
    long_packet_overruns wire 0 1031 long_wire [] (replicate 1025 65) [] wire_calm (omega arith)
      (omega arith) refl (omega arith)
