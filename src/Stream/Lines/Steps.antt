-- ===== src/Stream/Lines/Steps.antt =====
-- What the parts of one round of `readline` come to on a connection whose calls do not fail.
use computer_science_notes.Base.{
  ℕ, zero, suc, ◌+◌, ◌≤◌, ◌<◌, ◌≡◌, ◌≢◌, refl, ap, sym, subst, ◌∙◌, ◌⊎◌, inl, inr, List, [], ◌∷◌,
  ◌++◌, none, some, length, take, drop, All, length-append, take-length-append, drop-length-append,
  arith, pos, negsuc, Run, done, exited, out_of_fuel, ℤ,
}
use computer_science_notes.Stream.Kernel.{
  Outcome, Outcome-cases, got, closed, Source, Peeks, IsReliable,
}
use computer_science_notes.Stream.Counted.{readn, Received, readn_received}
use computer_science_notes.Stream.Lines.Defs.{newline, find_newline, recv_peek}

abbrev pub NoNewline : List ℕ → Type 0
NoNewline = All (λ b. b ≢ newline)

pub find_newline-some :
    (bs : List ℕ) (i : ℕ)
    → find_newline bs ≡ some i
    → (suc i ≤ length bs) × NoNewline (take i bs) × (take (suc i) bs ≡ take i bs ++ newline ∷ [])
unfolding find_newline
find_newline-some [] i e = cc
find_newline-some (b ∷ bs) zero e = ground arith
find_newline-some (b ∷ bs) (suc i) e = ground (arith, find_newline-some bs i)

pub find_newline-none : (bs : List ℕ) → find_newline bs ≡ none → NoNewline bs
unfolding find_newline
find_newline-none [] e = tt
find_newline-none (b ∷ bs) e = ground (arith, find_newline-none bs)

module _ (src : Source) (calm : IsReliable src) where
  open src use {Conn, pending, delays, read, peek, peek_lem}

  abbrev pub Peeked : Conn → ℕ → Run (Outcome × Conn) → Type 0
  Peeked c n r =
      ((bs : List ℕ) × (c' : Conn) × (r ≡ done (got bs, c')) × Peeks pending delays c n (got bs) c')
      ⊎ ((c' : Conn) × (r ≡ done (closed, c')) × Peeks pending delays c n closed c')

  pub recv_peek-Peeked :
      (fuel : ℕ) (c : Conn) (n : ℕ) → delays c < fuel → Peeked c n (recv_peek src fuel c n)
  unfolding recv_peek
  recv_peek-Peeked zero c n f = absurd (omega arith)
  recv_peek-Peeked (suc fuel) c n f =
      let law = peek_lem c n in
      let c' = (peek c n).1 in
      elim (Outcome-cases (peek c n).0) [
        | inl (bs, e) ↦ inl (bs, c', rw (e, recv_peek) refl, rw e at law)
        | inr (inl e) ↦ inr (c', rw (e, recv_peek) refl, rw e at law)
        | inr (inr (inl e)) ↦
            let (same, fewer) = rw e at law in
            let next = recv_peek-Peeked fuel c' n (omega arith) in
            rw (e, recv_peek)
              (elim next [
                | inl (bs, d, ends, (some_bytes, fits, copy, kept, less)) ↦
                    inl (bs, d, ends, (some_bytes, fits, rw same at copy, kept ∙ same, omega arith))
                | inr (d, ends, (why, kept, less)) ↦
                    inr (d, ends, (rw same at why, kept ∙ same, omega arith))
              ])
        | inr (inr (inr e)) ↦ absurd (calm.1 c n e)
      ]

  -- Bytes that are pending can be had.
  pub readn_pending :
      (fuel : ℕ) (c : Conn) (k : ℕ)
      → k + delays c < fuel
      → k ≤ length (pending c)
      → (c' : Conn) × (readn src fuel c k ≡ done (pos k, take k (pending c), c'))
        × (pending c' ≡ drop k (pending c))
        × (delays c' ≤ delays c)
  readn_pending fuel c k f h = go (readn src fuel c k) refl (readn_received src fuel c k f)
    where
      go :
          (r : Run (ℤ × List ℕ × Conn))
          → readn src fuel c k ≡ r
          → Received src (pending c) (delays c) k r
          → (c' : Conn) × (readn src fuel c k ≡ done (pos k, take k (pending c), c'))
            × (pending c' ≡ drop k (pending c))
            × (delays c' ≤ delays c)
      go (done (pos n, stored, c')) e (size, le, split, full, fewer) =
          let count : n ≡ k = all full in
          let all_stored : take k (pending c) ≡ stored =
            rw (split, ← count, ← size) (take-length-append stored (pending c')) in
          let left : drop k (pending c) ≡ pending c' =
            rw (split, ← count, ← size) (drop-length-append stored (pending c')) in
          (
            c',
            rw all_stored (subst (λ m. readn src fuel c k ≡ done (pos m, stored, c')) count e),
            sym left,
            fewer,
          )
        where
          all : (n ≡ k) ⊎ (pending c' ≡ []) → n ≡ k
          all (inl same) = same
          all (inr nothing) =
              omega (arith, ap length split, length-append stored (pending c'), ap length nothing)
      go (done (negsuc n, stored, c')) e (m1, short, split, fewer, (d, m, bad)) =
          absurd (calm.0 d m bad)
      go (exited n) e bad = absurd bad
      go out_of_fuel e bad = absurd bad
