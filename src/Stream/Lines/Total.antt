-- ===== src/Stream/Lines/Total.antt =====
-- What `readline` returns.
use computer_science_notes.Base.{ℕ, zero, suc, ◌+◌, ◌<◌, refl, inl, inr, List, [], length, arith}
use computer_science_notes.Stream.Kernel.{Source, IsReliable}
use computer_science_notes.Stream.Lines.Defs.{readline_loop, readline}
use computer_science_notes.Stream.Lines.Rounds.{ReadsLine, Reading, Kept-cases, readline_round-Kept}

module _ (src : Source) (calm : IsReliable src) (inner maxlen late : ℕ) (before : List ℕ)
    (enough : maxlen + late < inner) where
  open src use {Conn, pending, delays}

  readline_loop_lem :
      (fuel : ℕ) (c : Conn) (nleft : ℕ) (front back : List ℕ)
      → nleft < fuel
      → Reading src calm inner maxlen late before enough c nleft front back
      → ReadsLine src before late maxlen (readline_loop src fuel inner c maxlen nleft front back)
  unfolding readline_loop
  readline_loop_lem zero c nleft front back f r = absurd (omega arith)
  readline_loop_lem (suc fuel) c nleft front back f r =
      elim (Kept-cases src calm inner maxlen late before enough nleft _
        (readline_round-Kept src calm inner maxlen late before enough c nleft front back r)) [
          | inl (k, mem, c', e, line) ↦ rw (e, readline_loop) line
          | inr (c', nleft', front', back', e, less, r') ↦
              rw (e, readline_loop) (readline_loop_lem fuel c' nleft' front' back' (omega arith) r')
        ]

-- On a connection whose calls do not fail, with a round of fuel for each byte of the buffer (and
-- for each interruption in the inner calls), `readline` returns and keeps within its buffer. Either
-- it returns a line: the first bytes pending up to the first newline, which stand in the buffer,
-- their number being the result, and nothing more is taken from the connection. Or it returns 0,
-- having taken bytes without a newline, as many as the buffer holds or all that there were.
pub readline-ReadsLine :
    (src : Source) (calm : IsReliable src) (fuel inner : ℕ) (c : src.Conn) (buf : List ℕ)
    → length buf < fuel
    → length buf + src.delays c < inner
    → ReadsLine src
        (src.pending c)
        (src.delays c)
        (length buf)
        (readline src fuel inner c buf (length buf))
unfolding readline
readline-ReadsLine src calm fuel inner c buf f enough =
    readline_loop_lem src calm inner (length buf) (src.delays c) (src.pending c) enough fuel c
      (length buf) [] buf f
      (record { whole = omega arith; room = refl; split = refl; plain = tt; fewer = omega arith })
