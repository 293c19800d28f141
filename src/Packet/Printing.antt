-- ===== src/Packet/Printing.antt =====
-- fixed-length/server.c: what comes of packets on a stream.
use computer_science_notes.Base.{
  ℕ, zero, suc, ◌+◌, ◌-◌, ◌≤◌, ◌<◌, ◌≡◌, refl, sym, ap, ap₂, ◌∙◌, List, [], ◌∷◌, ◌++◌, append-nil,
  append_assoc, some, true, false, length, take, drop, All, ltb, ◌==◌, ℤ, pos, negsuc, Run, done,
  exited, out_of_fuel, arith, length-append, take-length-append, drop-length-append,
}
use computer_science_notes.Stream.Kernel.{Source, IsReliable}
use computer_science_notes.Stream.Counted.{readn, Received, readn_received}
use computer_science_notes.Stream.Lines.Defs.{overwrite}
use computer_science_notes.Stream.Lines.Steps.{readn_pending}
use computer_science_notes.Stream.Chat.{buffer_length, cleared, c_string}
use computer_science_notes.Stream.Chat.Sending.{NoNul}
use computer_science_notes.Stream.Chat.Receiving.{drop-replicate, c_string-append}
use computer_science_notes.Packet.Format.{htonl, ntohl, packet, as_size, ntohl-htonl}
use computer_science_notes.Packet.Session.{ended, recv_packets}

abbrev pub concat : List (List ℕ) → List ℕ
concat [] = []
concat (xs ∷ xss) = xs ++ concat xss

abbrev pub packets : List (List ℕ) → List ℕ
packets [] = []
packets (l ∷ ls) = packet l ++ packets ls

-- Fits the buffer with its terminator, and holds no NUL byte.
abbrev pub IsText : List ℕ → Type 0
IsText l = (length l ≤ 1023) × NoNul l

pub length-packet : (l : List ℕ) → length (packet l) ≡ 4 + length l
unfolding packet htonl
length-packet l = omega arith

module _ (src : Source) (calm : IsReliable src) where
  open src use {Conn, pending, delays}

  readn_nothing :
      (fuel : ℕ) (c : Conn)
      → 4 + delays c < fuel
      → pending c ≡ []
      → (c' : Conn) × (readn src fuel c 4 ≡ done (pos 0, [], c'))
  readn_nothing fuel c f empty = go (readn src fuel c 4) refl (readn_received src fuel c 4 f)
    where
      nil : (xs ys : List ℕ) → [] ≡ xs ++ ys → xs ≡ []
      nil [] ys e = refl
      nil (x ∷ xs) ys e = cc

      go :
          (r : Run (ℤ × List ℕ × Conn))
          → readn src fuel c 4 ≡ r
          → Received src (pending c) (delays c) 4 r
          → (c' : Conn) × (readn src fuel c 4 ≡ done (pos 0, [], c'))
      go (done (pos n, stored, c')) e (size, le, split, full, fewer) =
          let none_stored : stored ≡ [] = nil stored (pending c') (sym empty ∙ split) in
          let zero_read : n ≡ 0 = omega (arith, size, ap length none_stored) in
          (
            c',
            e
                ∙ ap (λ m. done (pos m, stored, c')) zero_read
                ∙ ap (λ xs. done (pos 0, xs, c')) none_stored,
          )
      go (done (negsuc n, stored, c')) e (n0, short, split, fewer, (d, m, bad)) =
          absurd (calm.0 d m bad)
      go (exited n) e bad = absurd bad
      go out_of_fuel e bad = absurd bad

  text_of : (l : List ℕ) → IsText l → c_string (overwrite (cleared buffer_length) l) ≡ some l
  unfolding cleared
  text_of l (short, plain) =
      let (k, room) : (k : ℕ) × (length l + suc k ≡ 1024) = (1023 - length l, omega arith) in
      rw (drop-replicate (length l) 1024 (suc k) room) (c_string-append l k plain)

  pub two_reads :
      (fuel n : ℕ) (c : Conn) (l rest : List ℕ)
      → n ≡ length l
      → pending c ≡ htonl n ++ (l ++ rest)
      → 4 + n + delays c < fuel
      → (c1 c2 : Conn) × (readn src fuel c 4 ≡ done (pos 4, htonl n, c1))
        × (readn src fuel c1 n ≡ done (pos n, l, c2))
        × (pending c2 ≡ rest)
        × (delays c2 ≤ delays c)
  unfolding htonl
  two_reads fuel n c l rest size ahead f =
      let total : length (pending c) ≡ 4 + n + length rest =
        omega (arith, ap length ahead, length-append l rest) in
      let (c1, e1, left, fewer) = readn_pending src calm fuel c 4 (omega arith) (omega arith) in
      let left' : pending c1 ≡ l ++ rest = left ∙ ap (drop 4) ahead in
      let total' : length (pending c1) ≡ n + length rest =
        omega (arith, ap length left', length-append l rest) in
      let (c2, e2, left2, fewer2) = readn_pending src calm fuel c1 n (omega arith) (omega arith) in
      (
        c1,
        c2,
        e1 ∙ ap (λ xs. done (pos 4, take 4 xs, c1)) ahead,
        e2 ∙ ap (λ xs. done (pos n, xs, c2)) (ap₂ take size left' ∙ take-length-append l rest),
        left2 ∙ ap₂ drop size left' ∙ drop-length-append l rest,
        omega arith,
      )

  as_size_small : (n : ℕ) → n ≤ 1023 → as_size (ntohl (htonl n)) ≡ n
  unfolding as_size
  as_size_small n h = rw (ntohl-htonl n (omega arith)) (ground arith)

  pub prints :
      (ls : List (List ℕ)) (fuel inner : ℕ) (c : Conn) (printed : List ℕ)
      → All IsText ls
      → pending c ≡ packets ls
      → length ls < fuel
      → 1027 + delays c < inner
      → recv_packets src fuel inner c printed ≡ done (ended (printed ++ concat ls))
  unfolding recv_packets packet
  prints ls zero inner c printed texts here f g = absurd (omega arith)
  prints [] (suc fuel) inner c printed texts here f g =
      let (c', e) = readn_nothing inner c (omega arith) here in rw (e, append-nil) refl
  prints (l ∷ ls) (suc fuel) inner c printed (text, texts) here f g =
      let n = length l in
      let ahead : pending c ≡ htonl n ++ (l ++ packets ls) =
        here ∙ append_assoc (htonl n) l (packets ls) in
      let (c1, c2, e1, e2, left, fewer) =
        two_reads inner n c l (packets ls) refl ahead (omega arith) in
      let fits : ltb buffer_length n ≡ false = ground arith in
      let whole_one : (n == n) ≡ true = ground arith in
      rw (e1, as_size_small n text.0, e2, fits, whole_one, text_of l text)
        (prints ls fuel inner c2 (printed ++ l) texts left (omega arith) (omega arith)
          ∙ ap (λ xs. done (ended xs)) (append_assoc printed l (concat ls)))
