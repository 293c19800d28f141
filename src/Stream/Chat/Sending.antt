-- ===== src/Stream/Chat/Sending.antt =====
-- What `recv_keyboard` sends.
use computer_science_notes.Base.{
  ℕ, zero, suc, ◌+◌, ◌≤◌, ◌<◌, ◌≡◌, ◌≢◌, refl, sym, ◌∙◌, ap, subst, inl, inr, List, [], ◌∷◌, ◌++◌,
  append-nil, append_assoc, length, take, All, arith, Run, done, exited, out_of_fuel, length-append,
  take-length-append,
}
use computer_science_notes.Stream.Kernel.{Sink, refused}
use computer_science_notes.Stream.Counted.{writen, Delivered, writen-Delivered}
use computer_science_notes.Stream.Chat.{fgets, strlen, recv_keyboard}

abbrev pub NoNul : List ℕ → Type 0
NoNul = All (λ b. b ≢ 0)

-- `fgets` splits the input, within its room.
pub fgets_split :
    (n : ℕ) (input : List ℕ)
    → ((fgets n input).0 ++ (fgets n input).1 ≡ input) × (length (fgets n input).0 ≤ n)
unfolding fgets
fgets_split zero input = (refl, omega arith)
fgets_split (suc n) [] = (refl, omega arith)
fgets_split (suc n) (b ∷ bs) = ground (arith, fgets_split n bs)

pub fgets_progress : (n b : ℕ) (bs : List ℕ) → 0 < length (fgets (suc n) (b ∷ bs)).0
unfolding fgets
fgets_progress n b bs = ground arith

pub fgets-NoNul :
    (n : ℕ) (input : List ℕ) → NoNul input → NoNul (fgets n input).0 × NoNul (fgets n input).1
unfolding fgets
fgets-NoNul zero input h = (tt, h)
fgets-NoNul (suc n) [] h = (tt, tt)
fgets-NoNul (suc n) (b ∷ bs) h = ground (arith, fgets-NoNul n bs)

pub strlen-length : (bs : List ℕ) → NoNul bs → strlen bs ≡ length bs
unfolding strlen
strlen-length [] h = refl
strlen-length (b ∷ bs) h = ground (arith, strlen-length bs)

take_all : (bs : List ℕ) → take (length bs) bs ≡ bs
take_all bs = ap (take (length bs)) (sym (append-nil bs)) ∙ take-length-append bs []

module _ (snk : Sink) where
  open snk use {Conn, sent, stalls, write}

  -- A whole buffer goes out where no write is refused.
  pub writen_all :
      ((d : Conn) (rest : List ℕ) → (write d rest).0 ≢ refused)
      → (fuel : ℕ) (c : Conn) (buf : List ℕ) → length buf + stalls c < fuel
      → (c' : Conn) × (writen snk fuel c buf (length buf) ≡ done (length buf, c'))
        × (sent c' ≡ sent c ++ buf)
        × (stalls c' ≤ stalls c)
  writen_all willing fuel c buf f =
      go (writen snk fuel c buf (length buf)) refl
        (writen-Delivered snk fuel c buf (length buf) f (omega arith))
    where
      go :
          (r : Run (ℕ × Conn))
          → writen snk fuel c buf (length buf) ≡ r
          → Delivered snk (sent c) (stalls c) (length buf) buf r
          → (c' : Conn) × (writen snk fuel c buf (length buf) ≡ done (length buf, c'))
            × (sent c' ≡ sent c ++ buf)
            × (stalls c' ≤ stalls c)
      go (done (k, c')) e (le, out, less, inl all) = (
        c',
        subst (λ m. writen snk fuel c buf (length buf) ≡ done (m, c')) all e,
        out ∙ ap (◌++◌ (sent c)) (ap (λ m. take m buf) all ∙ take_all buf),
        less,
      )
      go (done (k, c')) e (le, out, less, inr (d, rest, bad)) = absurd (willing d rest bad)
      go (exited n) e bad = absurd bad
      go out_of_fuel e bad = absurd bad

  keyboard_sends :
      ((d : Conn) (rest : List ℕ) → (write d rest).0 ≢ refused)
      → (fuel inner : ℕ) (c : Conn) (input : List ℕ) → length input ≤ fuel
      → 1023 + stalls c < inner
      → NoNul input
      → (c' : Conn) × (recv_keyboard snk fuel inner c input ≡ done c') × (sent c' ≡ sent c ++ input)
  unfolding recv_keyboard
  keyboard_sends willing fuel inner c [] f g h = (c, refl, sym (append-nil (sent c)))
  keyboard_sends willing zero inner c (b ∷ bs) f g h = absurd (omega arith)
  keyboard_sends willing (suc fuel) inner c (b ∷ bs) f g h =
      let line = (fgets 1023 (b ∷ bs)).0 in
      let rest = (fgets 1023 (b ∷ bs)).1 in
      let (joined, short) = fgets_split 1023 (b ∷ bs) in
      let (plain, plain') = fgets-NoNul 1023 (b ∷ bs) h in
      let size : length rest ≤ fuel =
        omega (arith, ap length joined, length-append line rest, fgets_progress 1022 b bs) in
      let (c1, e, out, less) = writen_all willing inner c line (omega arith) in
      let (c2, e2, out2) = keyboard_sends willing fuel inner c1 rest size (omega arith) plain' in
      (
        c2,
        rw (strlen-length line plain, e) e2,
        out2
            ∙ ap (λ xs. xs ++ rest) out
            ∙ append_assoc (sent c) line rest
            ∙ ap (◌++◌ (sent c)) joined,
      )

-- Where no write is refused, every byte typed before the end of the input is sent, in order, after
-- what had been sent before; the input holds no NUL byte, and there is fuel for each line and for
-- each byte of a line and write that takes nothing.
pub keyboard_sends_all :
    (snk : Sink) (fuel inner : ℕ) (c : snk.Conn) (input : List ℕ)
    → ((d : snk.Conn) (rest : List ℕ) → (snk.write d rest).0 ≢ refused)
    → length input ≤ fuel
    → 1023 + snk.stalls c < inner
    → NoNul input
    → (c' : snk.Conn) × (recv_keyboard snk fuel inner c input ≡ done c')
      × (snk.sent c' ≡ snk.sent c ++ input)
keyboard_sends_all snk fuel inner c input willing f g h =
    keyboard_sends snk willing fuel inner c input f g h
