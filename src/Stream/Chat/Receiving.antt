-- ===== src/Stream/Chat/Receiving.antt =====
-- What `recv_socket` prints of a line.
use computer_science_notes.Base.{
  ℕ, zero, suc, ◌+◌, ◌-◌, ◌≤◌, ◌<◌, ◌≡◌, refl, sym, ◌∙◌, ap, subst, List, [], ◌∷◌, ◌++◌,
  append_assoc, some, length, take, drop, replicate, arith, done, length-append, length-take_of_le,
  take-append-drop, take-append_of_le, drop-append_of_le, ltb, ◌==◌, false,
}
use computer_science_notes.Stream.Kernel.{Source, IsReliable, got, Peeks}
use computer_science_notes.Stream.Lines.Defs.{
  find_newline, overwrite, recv_peek, returns, scanned, readline_round, readline_loop, readline,
}
use computer_science_notes.Stream.Lines.Steps.{find_newline-some, readn_pending}
use computer_science_notes.Stream.Chat.{buffer_length, c_string, cleared, recv_socket}
use computer_science_notes.Stream.Chat.Sending.{NoNul}

pub drop-replicate : (m n k : ℕ) → m + k ≡ n → drop m (replicate n 0) ≡ replicate {A = ℕ} k 0
drop-replicate zero n k e = let e' : n ≡ k = omega arith in rw e'
drop-replicate (suc m) zero k e = absurd (omega arith)
drop-replicate (suc m) (suc n) k e = drop-replicate m n k (omega arith)

pub c_string-append :
    (bs : List ℕ) (k : ℕ) → NoNul bs → c_string (bs ++ replicate (suc k) 0) ≡ some bs
unfolding c_string
c_string-append [] k h = refl
c_string-append (b ∷ bs) k h = ground (arith, c_string-append bs k)

-- Bytes that are stored twice, the second time only the first of them.
overwrite_again :
    (mem bs : List ℕ) (n : ℕ)
    → n ≤ length bs
    → overwrite (overwrite mem bs) (take n bs) ≡ overwrite mem bs
overwrite_again mem bs n h =
    rw (length-take_of_le n bs h, drop-append_of_le n bs (drop (length bs) mem) h, ← append_assoc)
      (ap (λ xs. xs ++ drop (length bs) mem) (take-append-drop n bs))

recv_peek_got :
    (src : Source) (fuel : ℕ) (c : src.Conn) (n : ℕ) (bs : List ℕ)
    → 0 < fuel
    → (src.peek c n).0 ≡ got bs
    → recv_peek src fuel c n ≡ done (got bs, (src.peek c n).1)
unfolding recv_peek
recv_peek_got src zero c n bs f e = absurd (omega arith)
recv_peek_got src (suc fuel) c n bs f e = rw (e, recv_peek) refl

-- The round of `readline` that finds the newline in its first look.
first_round :
    (src : Source) (calm : IsReliable src) (inner n i : ℕ) (c : src.Conn) (buf bs : List ℕ)
    → (src.peek c n).0 ≡ got bs
    → find_newline bs ≡ some i
    → n + src.delays c < inner
    → (c' : src.Conn) × (readline_round src inner c n n [] buf
        ≡ done (returns (i + 1) (overwrite buf bs) c'))
      × (src.pending c' ≡ drop (i + 1) (src.pending c))
unfolding readline_round scanned
first_round src calm inner n i c buf bs e hit enough =
    let c1 = (src.peek c n).1 in
    let (some_bytes, fits, copy, kept, less) =
      subst (λ o. Peeks src.pending src.delays c n o c1) e (src.peek_lem c n) in
    let (inside, plain, ends) = find_newline-some bs i hit in
    let one : i + 1 ≡ suc i = omega arith in
    let here : i + 1 ≤ length bs = omega arith in
    let split : src.pending c1 ≡ bs ++ drop (length bs) (src.pending c) =
      kept
      ∙ sym (take-append-drop (length bs) (src.pending c))
      ∙ ap (λ xs. xs ++ drop (length bs) (src.pending c)) copy in
    let room : i + 1 ≤ length (src.pending c1) =
      omega (arith, ap length split, length-append bs (drop (length bs) (src.pending c))) in
    let (c2, taken, left, fewer) = readn_pending src calm inner c1 (i + 1) (omega arith) room in
    let line : take (i + 1) (src.pending c1) ≡ take (i + 1) bs =
      ap (take (i + 1)) split
      ∙ take-append_of_le (i + 1) bs (drop (length bs) (src.pending c)) here in
    let not_less : ltb (i + 1) (i + 1) ≡ false = ground arith in
    let zero_left : n - n ≡ 0 = omega arith in
    let sum : 0 + (i + 1) ≡ i + 1 = omega arith in
    (
      c2,
      rw (recv_peek_got src inner c n bs (omega arith) e, readline_round)
          (rw (hit, scanned)
            (rw (taken, scanned)
              (rw (not_less, zero_left, sum, line, overwrite_again buf bs (i + 1) here) refl))),
      left ∙ ap (drop (i + 1)) kept,
    )

-- One call of `readline` on a cleared buffer, where the first look shows a newline at `i` of `bs`.
readline_peeks :
    (src : Source) (calm : IsReliable src) (fuel inner n i : ℕ) (c : src.Conn) (bs : List ℕ)
    → (src.peek c n).0 ≡ got bs
    → find_newline bs ≡ some i
    → NoNul bs
    → length bs < n
    → n + src.delays c < inner
    → (mem : List ℕ) × (c' : src.Conn) × (readline src (suc fuel) inner c (cleared n) n
        ≡ done (i + 1, mem, c'))
      × (c_string mem ≡ some bs)
      × (src.pending c' ≡ drop (i + 1) (src.pending c))
unfolding readline readline_loop cleared
readline_peeks src calm fuel inner n i c bs e hit plain short enough =
    let (c', ends, left) = first_round src calm inner n i c (cleared n) bs e hit enough in
    let (k, room) : (k : ℕ) × (length bs + suc k ≡ n) = (n - length bs - 1, omega arith) in
    (
      overwrite (cleared n) bs,
      c',
      rw (ends, readline_loop) refl,
      rw (drop-replicate (length bs) n (suc k) room) (c_string-append bs k plain),
      left,
    )

-- A round of `recv_socket` whose first look at the socket shows `bs`, with its first newline at `i`,
-- prints all of `bs`, the bytes after the newline too, and goes on from a connection that is only
-- `i + 1` bytes further: what was printed behind the newline is still to be read. The buffer is
-- cleared before `readline`, but `recv_peek` fills it with all that it sees. The calls do not fail,
-- `bs` holds no NUL byte and is shorter than the buffer, and there is fuel for `readline`.
pub line_overprints :
    (src : Source) (calm : IsReliable src) (fuel inner i : ℕ) (c : src.Conn) (bs printed : List ℕ)
    → (src.peek c buffer_length).0 ≡ got bs
    → find_newline bs ≡ some i
    → NoNul bs
    → length bs < buffer_length
    → buffer_length + src.delays c < inner
    → (c' : src.Conn) × (recv_socket src (suc fuel) inner c printed
        ≡ recv_socket src fuel inner c' (printed ++ bs))
      × (src.pending c' ≡ drop (i + 1) (src.pending c))
unfolding recv_socket
line_overprints src calm fuel zero i c bs printed e hit plain short enough = absurd (omega arith)
line_overprints src calm fuel (suc inner) i c bs printed e hit plain short enough =
    let (mem, c', ends, text, left) =
      readline_peeks src calm inner (suc inner) buffer_length i c bs e hit plain short enough in
    let goes_on : (i + 1 == 0) ≡ false = ground arith in
    (c', rw (ends, goes_on, text, recv_socket) refl, left)
