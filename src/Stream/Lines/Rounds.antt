-- ===== src/Stream/Lines/Rounds.antt =====
-- One round of the loop in `readline`, and what holds at its head.
use computer_science_notes.Base.{
  ℕ, suc, ◌+◌, ◌-◌, ◌≤◌, ◌<◌, ◌≡◌, refl, ap, sym, ◌∙◌, ◌⊎◌, inl, inr, List, [], ◌∷◌, ◌++◌,
  append_assoc, Option, none, some, length, take, drop, take-append_of_le, drop-append_of_le,
  All-append, length-append, length-drop, take-length-append, drop-length-append, take-append-drop,
  length-take_of_le, false, ltb, arith, Run, done, exited, out_of_fuel,
}
use computer_science_notes.Stream.Kernel.{Source, IsReliable}
use computer_science_notes.Stream.Lines.Defs.{
  newline, find_newline, overwrite, Round, returns, goes_on, scanned, readline_round,
}
use computer_science_notes.Stream.Lines.Steps.{
  NoNewline, find_newline-some, find_newline-none, recv_peek-Peeked, readn_pending,
}

-- Memory after the same bytes were stored twice.
length-overwrite :
    (mem bs : List ℕ) → length bs ≤ length mem → length (overwrite mem bs) ≡ length mem
length-overwrite mem bs h =
    omega (arith, length-append bs (drop (length bs) mem), length-drop (length bs) mem)

overwrite_twice : (mem bs : List ℕ) → overwrite (overwrite mem bs) bs ≡ overwrite mem bs
overwrite_twice mem bs = rw (drop-length-append bs (drop (length bs) mem))

take_two :
    (n : ℕ) (xs ys zs : List ℕ) → length (xs ++ ys) ≡ n → take n (xs ++ (ys ++ zs)) ≡ xs ++ ys
take_two n xs ys zs e = rw (← e, ← append_assoc) (take-length-append (xs ++ ys) zs)

-- A line and what is left, or no line within the limit or before the end of the stream.
module _ (src : Source) where
  open src use {Conn, pending, delays}

  abbrev pub ReadsLine : List ℕ → ℕ → ℕ → Run (ℕ × List ℕ × Conn) → Type 0
  ReadsLine before late maxlen (done (k, mem, c')) =
      (length mem ≡ maxlen)
      × (delays c' ≤ late)
      × (((line : List ℕ) × NoNewline line
            × (k ≡ length line + 1)
            × (take k mem ≡ line ++ newline ∷ [])
            × (before ≡ line ++ newline ∷ pending c'))
          ⊎ ((part : List ℕ) × NoNewline part
              × (k ≡ 0)
              × (before ≡ part ++ pending c')
              × ((length part ≡ maxlen) ⊎ (pending c' ≡ []))))
  ReadsLine before late maxlen (exited n) = ⊥
  ReadsLine before late maxlen out_of_fuel = ⊥

module _ (src : Source) (calm : IsReliable src) (inner maxlen late : ℕ) (before : List ℕ)
    (enough : maxlen + late < inner) where
  open src use {Conn, pending, delays}

  -- What holds at the head of the loop.
  pub record Reading (c : Conn) (nleft : ℕ) (front back : List ℕ) : Type 0 where
    pub whole : length front + nleft ≡ maxlen
    pub room : length back ≡ nleft
    pub split : before ≡ front ++ pending c
    pub plain : NoNewline front
    pub fewer : delays c ≤ late

  -- The bytes peeked, and the state after them.
  record Copied (c c1 : Conn) (nleft : ℕ) (bs : List ℕ) : Type 0 where
    some_bytes : 0 < length bs
    fits : length bs ≤ nleft
    copy : take (length bs) (pending c) ≡ bs
    kept : pending c1 ≡ pending c
    less : delays c1 ≤ delays c

  -- The copy is the start of what is pending.
  Copied-split :
      {c c1 : Conn} {nleft : ℕ} {bs : List ℕ}
      → Copied c c1 nleft bs
      → pending c ≡ bs ++ drop (length bs) (pending c)
  Copied-split {c} {bs} k =
      sym (take-append-drop (length bs) (pending c))
      ∙ ap (λ xs. xs ++ drop (length bs) (pending c)) k.copy

  Copied-within :
      {c c1 : Conn} {nleft : ℕ} {bs : List ℕ}
      → Copied c c1 nleft bs
      → length bs ≤ length (pending c1)
  Copied-within {c} {bs} k =
      rw k.kept
        (omega (arith, ap length (Copied-split k), length-append bs (drop (length bs) (pending c))))

  line_found :
      (c c1 c2 : Conn) (nleft i : ℕ) (front back bs : List ℕ)
      → Reading c nleft front back
      → Copied c c1 nleft bs
      → find_newline bs ≡ some i
      → pending c2 ≡ drop (suc i) (pending c1)
      → delays c2 ≤ delays c1
      → ReadsLine src before late maxlen (
          done (
            maxlen - nleft + suc i,
            front ++ overwrite (overwrite back bs) (take (suc i) (pending c1)),
            c2,
          ))
  line_found c c1 c2 nleft i front back bs r k e left fewer =
      let (inside, plain, ends) = find_newline-some bs i e in
      let tl = drop (length bs) (pending c) in
      let start : pending c1 ≡ bs ++ tl = k.kept ∙ Copied-split k in
      let got_line : take (suc i) (pending c1) ≡ take i bs ++ newline ∷ [] =
        rw (start, take-append_of_le (suc i) bs tl inside) ends in
      let rest : pending c2 ≡ drop (suc i) bs ++ tl =
        left ∙ ap (drop (suc i)) start ∙ drop-append_of_le (suc i) bs tl inside in
      let at : maxlen - nleft ≡ length front = omega (arith, r.whole) in
      let line = front ++ take i bs in
      let parts : bs ≡ (take i bs ++ newline ∷ []) ++ drop (suc i) bs =
        sym (take-append-drop (suc i) bs) ∙ ap (λ xs. xs ++ drop (suc i) bs) ends in
      let mem = overwrite (overwrite back bs) (take i bs ++ newline ∷ []) in
      let size : length (take i bs) ≡ i = length-take_of_le i bs (omega arith) in
      let size1 : length (take i bs ++ newline ∷ []) ≡ suc i =
        omega (arith, size, length-append (take i bs) (newline ∷ [])) in
      let back_size : length (overwrite back bs) ≡ length back =
        length-overwrite back bs (omega (arith, r.room, k.fits)) in
      let mem_size : length mem ≡ length back =
        length-overwrite (overwrite back bs) (take i bs ++ newline ∷ [])
          (omega (arith, back_size, size1, r.room, k.fits))
        ∙ back_size in
      rw (got_line, at)
        (
          omega (arith, length-append front mem, mem_size, r.room, r.whole),
          omega (arith, r.fewer, k.less),
          inl (
            line,
            All-append _ front (take i bs) r.plain plain,
            omega (arith, length-append front (take i bs), size),
            take_two _ front (take i bs ++ newline ∷ []) _
                  (omega (arith, length-append front (take i bs ++ newline ∷ []), size1))
                ∙ sym (append_assoc front (take i bs) (newline ∷ [])),
            r.split
                ∙ ap (◌++◌ front) (Copied-split k ∙ ap (λ xs. xs ++ tl) parts)
                ∙ simp (rest, append_assoc),
          ),
        )

  none_found :
      (c c1 c2 : Conn) (nleft : ℕ) (front back bs : List ℕ)
      → Reading c nleft front back
      → Copied c c1 nleft bs
      → find_newline bs ≡ none
      → pending c2 ≡ drop (length bs) (pending c1)
      → delays c2 ≤ delays c1
      → let mem = overwrite (overwrite back bs) (take (length bs) (pending c1)) in
        Reading c2 (nleft - length bs) (front ++ take (length bs) mem) (drop (length bs) mem)
  none_found c c1 c2 nleft front back bs r k e left fewer =
      let again : take (length bs) (pending c1) ≡ bs = ap (take (length bs)) k.kept ∙ k.copy in
      rw (again, overwrite_twice back bs, take-length-append bs, drop-length-append bs)
        (record {
          whole = omega (arith, r.whole, k.fits, length-append front bs);
          room = omega (arith, r.room, length-drop (length bs) back);
          split = rw (left, k.kept, append_assoc, ← Copied-split k) r.split;
          plain = All-append _ front bs r.plain (find_newline-none bs e);
          fewer = omega (arith, r.fewer, k.less);
        })

  abbrev pub Kept : ℕ → Run (Round Conn) → Type 0
  Kept nleft (done (returns k mem c')) = ReadsLine src before late maxlen (done (k, mem, c'))
  Kept nleft (done (goes_on c' nleft' front' back')) =
      (nleft' < nleft) × Reading c' nleft' front' back'
  Kept nleft (exited n) = ⊥
  Kept nleft out_of_fuel = ⊥

  scanned-Kept :
      (c c1 : Conn) (nleft : ℕ) (front back bs : List ℕ)
      → Reading c nleft front back
      → Copied c c1 nleft bs
      → (o : Option ℕ) → find_newline bs ≡ o
      → Kept nleft (scanned src inner c1 maxlen nleft front (overwrite back bs) bs o)
  unfolding scanned
  scanned-Kept c c1 nleft front back bs r k (some i) e =
      let (inside, plain, ends) = find_newline-some bs i e in
      let (c2, ends, left, fewer) =
        readn_pending src calm inner c1 (suc i) (omega (arith, r.whole, r.fewer, k.fits, k.less))
          (omega (arith, Copied-within k)) in
      let one : i + 1 ≡ suc i = omega arith in
      let not_less : ltb (suc i) (suc i) ≡ false = ground arith in
      rw (one, ends, not_less, scanned) (line_found c c1 c2 nleft i front back bs r k e left fewer)
  scanned-Kept c c1 nleft front back bs r k none e =
      let (c2, ends, left, fewer) =
        readn_pending src calm inner c1 (length bs)
          (omega (arith, r.whole, r.fewer, k.fits, k.less)) (Copied-within k) in
      let not_less : ltb nleft (length bs) ≡ false = ground (arith, k.fits) in
      rw (not_less, ends, scanned)
        (
          omega (arith, k.some_bytes, k.fits),
          none_found c c1 c2 nleft front back bs r k e left fewer,
        )

  pub readline_round-Kept :
      (c : Conn) (nleft : ℕ) (front back : List ℕ)
      → Reading c nleft front back
      → Kept nleft (readline_round src inner c maxlen nleft front back)
  unfolding readline_round
  readline_round-Kept c nleft front back r =
      elim (recv_peek-Peeked src calm inner c nleft (omega (arith, r.whole, r.fewer))) [
        | inl (bs, c1, e, (some_bytes, fits, copy, kept, less)) ↦
            rw (e, readline_round)
              (scanned-Kept c c1 nleft front back bs r
                (record {
                  some_bytes = some_bytes;
                  fits = fits;
                  copy = copy;
                  kept = kept;
                  less = less;
                })
                (find_newline bs) refl)
        | inr (c1, e, (why, kept, less)) ↦
            rw (e, readline_round)
              (
                omega (arith, length-append front back, r.whole, r.room),
                omega (arith, r.fewer),
                inr (
                  front,
                  r.plain,
                  refl,
                  rw kept r.split,
                  elim why [ inl z ↦ inl (omega (arith, r.whole)) | inr n ↦ inr (kept ∙ n) ],
                ),
              )
      ]

  pub Kept-cases :
      (nleft : ℕ) (x : Run (Round Conn))
      → Kept nleft x
      → ((k : ℕ) × (mem : List ℕ) × (c' : Conn) × (x ≡ done (returns k mem c'))
          × ReadsLine src before late maxlen (done (k, mem, c')))
        ⊎ ((c' : Conn) × (nleft' : ℕ) × (front' : List ℕ) × (back' : List ℕ) × (x
              ≡ done (goes_on c' nleft' front' back'))
            × (nleft' < nleft)
            × Reading c' nleft' front' back')
  Kept-cases nleft (done (returns k mem c')) h = inl (k, mem, c', refl, h)
  Kept-cases nleft (done (goes_on c' nleft' front' back')) h =
      inr (c', nleft', front', back', refl, h.0, h.1)
  Kept-cases nleft (exited n) h = absurd h
  Kept-cases nleft out_of_fuel h = absurd h
