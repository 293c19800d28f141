-- ===== src/Stream/Wires.antt =====
-- A wire that breaks calls off a few times and then behaves, and a pipe that takes two bytes at a
-- time: streams to run the programs on.
use computer_science_notes.Base.{
  ℕ, zero, suc, ◌<◌, ◌≡◌, refl, sym, List, [], ◌∷◌, ◌++◌, length, take, drop, arith, inl, inr,
  take-append-drop, length-take-le,
}
use computer_science_notes.Stream.Kernel.{
  Outcome, got, closed, interrupted, failed, Reads, Peeks, Source, IsReliable, Written, wrote,
  broken_off, refused, Writes, Sink,
}

pub record Wire : Type 0 where
  pub hiccups : ℕ
  pub bytes : List ℕ

unfoldable pub take_some : ℕ → List ℕ → Outcome
take_some zero bs = closed
take_some (suc n) [] = closed
take_some (suc n) (b ∷ bs) = got (b ∷ take n bs)

unfoldable pub wire_read_at : ℕ → List ℕ → ℕ → Outcome × Wire
unfolding take_some
wire_read_at (suc h) bs n = (interrupted, record { hiccups = h; bytes = bs })
wire_read_at zero bs n = (take_some n bs, record { hiccups = 0; bytes = drop n bs })

unfoldable pub wire_peek_at : ℕ → List ℕ → ℕ → Outcome × Wire
unfolding take_some
wire_peek_at (suc h) bs n = (interrupted, record { hiccups = h; bytes = bs })
wire_peek_at zero bs n = (take_some n bs, record { hiccups = 0; bytes = bs })

abbrev pub wire_read : Wire → ℕ → Outcome × Wire
wire_read w n = wire_read_at w.hiccups w.bytes n

abbrev pub wire_peek : Wire → ℕ → Outcome × Wire
wire_peek w n = wire_peek_at w.hiccups w.bytes n

abbrev pub bytes_of : Wire → List ℕ
bytes_of w = w.bytes

abbrev pub hiccups_of : Wire → ℕ
hiccups_of w = w.hiccups

pub read_law :
    (h : ℕ) (bs : List ℕ) (n : ℕ)
    → 0 < n
    → Reads bytes_of hiccups_of
        (record { hiccups = h; bytes = bs })
        n
        (wire_read_at h bs n).0
        (wire_read_at h bs n).1
unfolding wire_read_at
read_law (suc h) bs n h' = (refl, omega arith)
read_law zero bs zero h' = absurd (omega arith)
read_law zero [] (suc n) h' = (refl, refl, omega arith)
read_law zero (b ∷ bs) (suc n) h' = (
  omega arith,
  omega (arith, length-take-le n bs),
  sym (take-append-drop (suc n) (b ∷ bs)),
  omega arith,
)

take-length-take : (n : ℕ) (bs : List ℕ) → take (length (take n bs)) bs ≡ take n bs
take-length-take zero bs = refl
take-length-take (suc n) [] = refl
take-length-take (suc n) (b ∷ bs) = λ i. b ∷ take-length-take n bs i

pub peek_law :
    (h : ℕ) (bs : List ℕ) (n : ℕ)
    → Peeks bytes_of hiccups_of
        (record { hiccups = h; bytes = bs })
        n
        (wire_peek_at h bs n).0
        (wire_peek_at h bs n).1
unfolding wire_peek_at
peek_law (suc h) bs n = (refl, omega arith)
peek_law zero bs zero = (inl refl, refl, omega arith)
peek_law zero [] (suc n) = (inr refl, refl, omega arith)
peek_law zero (b ∷ bs) (suc n) = (
  omega arith,
  omega (arith, length-take-le n bs),
  take-length-take (suc n) (b ∷ bs),
  refl,
  omega arith,
)

abbrev pub wire : Source
wire = record {
  Conn = Wire;
  pending = bytes_of;
  delays = hiccups_of;
  read = wire_read;
  peek = wire_peek;
  read_lem = λ w n h. read_law w.hiccups w.bytes n h;
  peek_lem = λ w n. peek_law w.hiccups w.bytes n;
}

read_never_fails : (h : ℕ) (bs : List ℕ) (n : ℕ) → (wire_read_at h bs n).0 ≡ failed → ⊥
unfolding wire_read_at
read_never_fails (suc h) bs n e = cc
read_never_fails zero bs zero e = cc
read_never_fails zero [] (suc n) e = cc
read_never_fails zero (b ∷ bs) (suc n) e = cc

peek_never_fails : (h : ℕ) (bs : List ℕ) (n : ℕ) → (wire_peek_at h bs n).0 ≡ failed → ⊥
unfolding wire_peek_at
peek_never_fails (suc h) bs n e = cc
peek_never_fails zero bs zero e = cc
peek_never_fails zero [] (suc n) e = cc
peek_never_fails zero (b ∷ bs) (suc n) e = cc

pub wire_calm : IsReliable wire
wire_calm =
    (λ w n. read_never_fails w.hiccups w.bytes n, λ w n. peek_never_fails w.hiccups w.bytes n)

-- Two bytes at a time.
pub record Pipe : Type 0 where
  pub stalls_left : ℕ
  pub out : List ℕ

unfoldable pub pipe_write_at : ℕ → List ℕ → List ℕ → Written × Pipe
pipe_write_at (suc h) sent buf = (broken_off, record { stalls_left = h; out = sent })
pipe_write_at zero sent buf =
    (wrote (length (take 2 buf)), record { stalls_left = 0; out = sent ++ take 2 buf })

abbrev pub pipe_write : Pipe → List ℕ → Written × Pipe
pipe_write p buf = pipe_write_at p.stalls_left p.out buf

abbrev pub out_of : Pipe → List ℕ
out_of p = p.out

abbrev pub stalls_of : Pipe → ℕ
stalls_of p = p.stalls_left

pub write_law :
    (h : ℕ) (sent buf : List ℕ)
    → 0 < length buf
    → Writes out_of stalls_of
        (record { stalls_left = h; out = sent })
        buf
        (pipe_write_at h sent buf).0
        (pipe_write_at h sent buf).1
unfolding pipe_write_at
write_law (suc h) sent buf some_bytes = (refl, omega arith)
write_law zero sent [] some_bytes = absurd (omega arith)
write_law zero sent (b ∷ []) some_bytes = (omega arith, refl, omega arith, inl (omega arith))
write_law zero sent (b ∷ b' ∷ bs) some_bytes = (omega arith, refl, omega arith, inl (omega arith))

abbrev pub pipe : Sink
pipe = record {
  Conn = Pipe;
  sent = out_of;
  stalls = stalls_of;
  write = pipe_write;
  write_lem = λ p buf h. write_law p.stalls_left p.out buf h;
}

never_refused : (h : ℕ) (sent buf : List ℕ) → (pipe_write_at h sent buf).0 ≡ refused → ⊥
unfolding pipe_write_at
never_refused (suc h) sent buf e = cc
never_refused zero sent buf e = cc

pub pipe_willing : (p : Pipe) (buf : List ℕ) → (pipe_write p buf).0 ≡ refused → ⊥
pipe_willing p buf = never_refused p.stalls_left p.out buf
