-- ===== src/Stream/Lines/Defs.antt =====
-- `recv_peek` and `readline`: find the newline in a copy, then take exactly the line.

use computer_science_notes.Base.{
  ℕ, zero, suc, ◌+◌, ◌-◌, List, [], ◌∷◌, ◌++◌, Bool, Option, none, some, length, take, drop, ltb,
  ◌==◌, if◌then◌else◌, ℤ, pos, negsuc, Run, done, exited, out_of_fuel, ◌>>=◌, exit_failure,
}
use computer_science_notes.Stream.Kernel.{Outcome, got, closed, interrupted, failed, Source}
use computer_science_notes.Stream.Counted.{readn}

abbrev pub newline : ℕ
newline = 10

-- `for (i = 0; i < ret; i++) if (bufp[i] == '\n') ...`: the index at which the body runs.
unfoldable pub find_newline : List ℕ → Option ℕ
find_newline [] = none
find_newline (b ∷ bs) =
    let rest = find_newline bs in
    if b == newline then some 0 else elim rest [ none ↦ none | some i ↦ some (suc i) ]

-- Bytes stored from the start of some memory.
abbrev pub overwrite : List ℕ → List ℕ → List ℕ
overwrite mem bs = bs ++ drop (length bs) mem

-- What `readn` returned, compared with an `int` that is not negative.
abbrev pub less_than : ℤ → ℕ → Bool
less_than (pos k) n = ltb k n
less_than (negsuc k) n = Bool.true

abbrev pub plus : ℕ → ℤ → ℕ
plus n (pos k) = n + k
plus n (negsuc k) = n - suc k

-- How a round of the loop in `readline` ends.
pub data Round (Conn : Type 0) : Type 0 where
  returns : ℕ → List ℕ → Conn → Round Conn
  goes_on : Conn → ℕ → List ℕ → List ℕ → Round Conn

module _ (src : Source) where
  open src use {Conn, read, peek}

  unfoldable pub recv_peek : ℕ → Conn → ℕ → Run (Outcome × Conn)
  recv_peek zero c len = out_of_fuel
  recv_peek (suc fuel) c len =
      let (o, c') = peek c len in
      elim o [
        | got bs ↦ done (got bs, c')
        | closed ↦ done (closed, c')
        | interrupted ↦ recv_peek fuel c' len
        | failed ↦ done (failed, c')
      ]

  -- What is left of the loop body once the bytes peeked are in the buffer: with a newline at `i`
  -- take the line and return, without one take all of them and go on. The buffer is `front`, up to
  -- `bufp`, and `back`; `nleft` is an `int`. Each call in the loop has `inner` fuel.
  unfoldable pub scanned : ℕ → Conn → ℕ → ℕ → List ℕ → List ℕ → List ℕ → Option ℕ → Run (Round Conn)
  scanned inner c maxlen nleft front back bs (some i) = do
    (ret, line, c') ← readn src inner c (i + 1)
    if less_than ret (i + 1)
        then exited exit_failure
        else done (returns (plus (maxlen - nleft) ret) (front ++ overwrite back line) c')
  scanned inner c maxlen nleft front back bs none =
      if ltb nleft (length bs) then exited exit_failure else do
        (ret, again, c') ← readn src inner c (length bs)
        let mem = overwrite back again
        done (goes_on c' (nleft - length bs) (front ++ take (length bs) mem) (drop (length bs) mem))

  unfoldable pub readline_round : ℕ → Conn → ℕ → ℕ → List ℕ → List ℕ → Run (Round Conn)
  readline_round inner c maxlen nleft front back = do
    (o, c') ← recv_peek inner c nleft
    elim o [
      | failed ↦ exited exit_failure
      | interrupted ↦ exited exit_failure
      | closed ↦ done (returns 0 (front ++ back) c')
      | got bs ↦ scanned inner c' maxlen nleft front (overwrite back bs) bs (find_newline bs)
    ]

  unfoldable pub readline_loop : ℕ → ℕ → Conn → ℕ → ℕ → List ℕ → List ℕ → Run (ℕ × List ℕ × Conn)
  readline_loop zero inner c maxlen nleft front back = out_of_fuel
  readline_loop (suc fuel) inner c maxlen nleft front back =
      readline_round inner c maxlen nleft front back >>= elim [
        | returns ret buf c' ↦ done (ret, buf, c')
        | goes_on c' nleft' front' back' ↦ readline_loop fuel inner c' maxlen nleft' front' back'
      ]

  unfoldable pub readline : ℕ → ℕ → Conn → List ℕ → ℕ → Run (ℕ × List ℕ × Conn)
  readline fuel inner c buf maxlen = readline_loop fuel inner c maxlen maxlen [] buf
