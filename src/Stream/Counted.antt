-- ===== src/Stream/Counted.antt =====
-- `readn` and `writen`: the loops that ask again until the count is reached.
-- The fuel is spent once a round.
use computer_science_notes.Base.{
  ℕ, zero, suc, ◌+◌, ◌-◌, ◌≤◌, ◌<◌, ◌≡◌, refl, sym, ap, ◌⊎◌, inl, inr, List, [], ◌++◌, append_assoc,
  append-nil, length, take, drop, length-append, length-take-le, length-take_of_le, length-drop,
  take-take_of_le, take-add, drop-add, arith, ℤ, pos, negsuc, Run, done, exited, out_of_fuel,
}
use computer_science_notes.Stream.Kernel.{
  Outcome-cases, got, closed, interrupted, failed, Source, wrote, broken_off, refused, Sink,
  Written-cases,
}

module _ (src : Source) where
  open src use {Conn, pending, delays, read, read_lem}

  -- `stored` is what stands in `buf` before `bufp`; the result is the return value with the buffer.
  pub readn_loop : ℕ → Conn → ℕ → ℕ → List ℕ → Run (ℤ × List ℕ × Conn)
  readn_loop fuel c count zero stored = done (pos count, stored, c)
  readn_loop zero c count (suc nleft) stored = out_of_fuel
  readn_loop (suc fuel) c count (suc nleft) stored =
      let (o, c') = read c (suc nleft) in
      elim o [
        | got bs ↦ readn_loop fuel c' count (suc nleft - length bs) (stored ++ bs)
        | closed ↦ done (pos (count - suc nleft), stored, c')
        | interrupted ↦ readn_loop fuel c' count (suc nleft) stored
        | failed ↦ done (negsuc 0, stored, c')
      ]

  unfoldable pub readn : ℕ → Conn → ℕ → Run (ℤ × List ℕ × Conn)
  readn fuel c count = readn_loop fuel c count count []

  -- `before` is what was pending at the call, and `late` the bound on interruptions then.
  abbrev pub Received : List ℕ → ℕ → ℕ → Run (ℤ × List ℕ × Conn) → Type 0
  Received before late count (done (pos k, stored, c')) =
      (length stored ≡ k)
      × (k ≤ count)
      × (before ≡ stored ++ pending c')
      × ((k ≡ count) ⊎ (pending c' ≡ []))
      × (delays c' ≤ late)
  Received before late count (done (negsuc n, stored, c')) =
      (n ≡ 0)
      × (length stored < count)
      × (before ≡ stored ++ pending c')
      × (delays c' ≤ late)
      × ((d : Conn) × (m : ℕ) × ((read d m).0 ≡ failed))
  Received before late count (exited n) = ⊥
  Received before late count out_of_fuel = ⊥

  readn_loop_lem :
      (fuel : ℕ) (c : Conn) (count nleft late : ℕ) (before stored : List ℕ)
      → nleft + delays c < fuel
      → length stored + nleft ≡ count
      → before ≡ stored ++ pending c
      → delays c ≤ late
      → Received before late count (readn_loop fuel c count nleft stored)
  unfolding readn_loop
  readn_loop_lem fuel c count zero late before stored f n p d = ground arith
  readn_loop_lem zero c count (suc nleft) late before stored f n p d = absurd (omega arith)
  readn_loop_lem (suc fuel) c count (suc nleft) late before stored f n p d =
      let law = read_lem c (suc nleft) (omega arith) in
      let c' = (read c (suc nleft)).1 in
      elim (Outcome-cases (read c (suc nleft)).0) [
        | inl (bs, e) ↦
            let (some_bytes, fits, split, fewer) = rw e at law in
            rw (e, readn_loop)
              (readn_loop_lem fuel c' count (suc nleft - length bs) late before (stored ++ bs)
                (omega arith) (omega (arith, length-append stored bs)) (rw (p, split, append_assoc))
                (omega arith))
        | inr (inl e) ↦
            let (here, after, fewer) = rw e at law in
            rw (e, readn_loop)
              (omega arith, omega arith, rw after (rw (p, here)), inr after, omega arith)
        | inr (inr (inl e)) ↦
            let (same, fewer) = rw e at law in
            rw (e, readn_loop)
              (readn_loop_lem fuel c' count (suc nleft) late before stored (omega arith) n
                (rw (p, same)) (omega arith))
        | inr (inr (inr e)) ↦
            let (same, fewer) = rw e at law in
            rw (e, readn_loop) (refl, omega arith, rw (p, same), omega arith, (c, suc nleft, e))
      ]

  -- Given a round of fuel for each byte and each interruption, `readn` returns. It then has stored
  -- the first bytes that were pending, in order, and left the others: `count` of them, or all
  -- there are if the peer closes first. It returns -1 only with fewer than `count` bytes stored, and
  -- only where some `read` fails.
  pub readn_received :
      (fuel : ℕ) (c : Conn) (count : ℕ)
      → count + delays c < fuel
      → Received (pending c) (delays c) count (readn fuel c count)
  unfolding readn
  readn_received fuel c count f =
      readn_loop_lem fuel c count count (delays c) (pending c) [] f (omega arith) refl (omega arith)

module _ (snk : Sink) where
  open snk use {Conn, sent, stalls, write, write_lem}

  -- `buf` is the memory from `bufp` on.
  pub writen_loop : ℕ → Conn → ℕ → ℕ → List ℕ → Run (ℕ × Conn)
  writen_loop fuel c count zero buf = done (count, c)
  writen_loop zero c count (suc nleft) buf = out_of_fuel
  writen_loop (suc fuel) c count (suc nleft) buf =
      let (o, c') = write c (take (suc nleft) buf) in
      elim o [
        | wrote zero ↦ writen_loop fuel c' count (suc nleft) buf
        | wrote (suc n) ↦ writen_loop fuel c' count (suc nleft - suc n) (drop (suc n) buf)
        | broken_off ↦ writen_loop fuel c' count (suc nleft) buf
        | refused ↦ done (count - suc nleft, c')
      ]

  unfoldable pub writen : ℕ → Conn → List ℕ → ℕ → Run (ℕ × Conn)
  writen fuel c buf count = writen_loop fuel c count count buf

  abbrev pub Delivered : List ℕ → ℕ → ℕ → List ℕ → Run (ℕ × Conn) → Type 0
  Delivered before late count buf (done (k, c')) =
      (k ≤ count)
      × (sent c' ≡ before ++ take k buf)
      × (stalls c' ≤ late)
      × ((k ≡ count) ⊎ ((d : Conn) × (rest : List ℕ) × ((write d rest).0 ≡ refused)))
  Delivered before late count buf (exited n) = ⊥
  Delivered before late count buf out_of_fuel = ⊥

  writen_loop_lem :
      (fuel : ℕ) (c : Conn) (count nleft gone late : ℕ) (before buf rest : List ℕ)
      → nleft + stalls c < fuel
      → gone + nleft ≡ count
      → count ≤ length buf
      → rest ≡ drop gone buf
      → sent c ≡ before ++ take gone buf
      → stalls c ≤ late
      → Delivered before late count buf (writen_loop fuel c count nleft rest)
  unfolding writen_loop
  writen_loop_lem fuel c count zero gone late before buf rest f n len at p d =
      let e : gone ≡ count = omega arith in rw (← e) (omega arith, p, d, inl refl)
  writen_loop_lem zero c count (suc nleft) gone late before buf rest f n len at p d =
      absurd (omega arith)
  writen_loop_lem (suc fuel) c count (suc nleft) gone late before buf rest f n len at p d =
      let ask : length (take (suc nleft) rest) ≡ suc nleft =
        length-take_of_le (suc nleft) rest (omega (arith, ap length at, length-drop gone buf)) in
      let law = write_lem c (take (suc nleft) rest) (omega arith) in
      let c' = (write c (take (suc nleft) rest)).1 in
      elim (Written-cases (write c (take (suc nleft) rest)).0) [
        | inl (zero, e) ↦
            let (fits, grown, fewer, progress) = rw e at law in
            rw (e, writen_loop)
              (writen_loop_lem fuel c' count (suc nleft) gone late before buf rest (ground arith) n
                len at (rw grown (rw (p, append-nil))) (omega arith))
        | inl (suc k, e) ↦
            let (fits, grown, fewer, progress) = rw e at law in
            let within : suc k ≤ suc nleft = omega (arith, length-take-le (suc nleft) rest) in
            rw (e, writen_loop)
              (writen_loop_lem fuel c' count (suc nleft - suc k) (gone + suc k) late before buf
                (drop (suc k) rest) (omega arith) (omega arith) len
                (rw at (drop-add gone (suc k) (gone + suc k) buf refl))
                (rw (grown, take-take_of_le (suc k) (suc nleft) rest within, p, at, append_assoc)
                  (ap (◌++◌ before) (take-add gone (suc k) (gone + suc k) buf refl)))
                (omega arith))
        | inr (inl e) ↦
            let (same, fewer) = rw e at law in
            rw (e, writen_loop)
              (writen_loop_lem fuel c' count (suc nleft) gone late before buf rest (omega arith) n
                len at (rw (same, p)) (omega arith))
        | inr (inr e) ↦
            let (same, fewer) = rw e at law in
            let e' : count - suc nleft ≡ gone = omega arith in
            rw (e, writen_loop)
              (omega arith, rw (same, e') p, omega arith, inr (c, take (suc nleft) rest, e))
      ]

  -- Given a round of fuel for each byte and each write that takes nothing, `writen` returns. What
  -- it returns is how many of the first `count` bytes of the buffer went out, in order, after what
  -- had been sent before; that is all of them unless some write was refused.
  pub writen-Delivered :
      (fuel : ℕ) (c : Conn) (buf : List ℕ) (count : ℕ)
      → count + stalls c < fuel
      → count ≤ length buf
      → Delivered (sent c) (stalls c) count buf (writen fuel c buf count)
  unfolding writen
  writen-Delivered fuel c buf count f len =
      writen_loop_lem fuel c count count 0 (stalls c) (sent c) buf buf f (omega arith) len refl
        (sym (append-nil (sent c))) (omega arith)
