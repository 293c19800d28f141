-- ===== src/Stream/Kernel.antt =====
-- `read`, `recv` with MSG_PEEK and `write` on a stream socket are the kernel's: their behaviour is
-- a parameter, with what their manual pages promise. A byte is a number.
use computer_science_notes.Base.{
  ℕ, ◌≤◌, ◌<◌, ◌≡◌, refl, ◌⊎◌, inl, inr, List, [], ◌++◌, length, take,
}

-- ret > 0 with the bytes stored; ret == 0; ret < 0 with errno == EINTR; ret < 0 otherwise.
pub data Outcome : Type 0 where
  got : List ℕ → Outcome
  closed interrupted failed : Outcome

pub Outcome-cases :
    (o : Outcome) → ((bs : List ℕ) × (o ≡ got bs)) ⊎ (o ≡ closed) ⊎ (o ≡ interrupted) ⊎ (o ≡ failed)
Outcome-cases (got bs) = inl (bs, refl)
Outcome-cases closed = inr (inl refl)
Outcome-cases interrupted = inr (inr (inl refl))
Outcome-cases failed = inr (inr (inr refl))

-- `pending` is what the peer has sent and will send; `delays` bounds the interruptions to come.
module _ {Conn : Type 0} (pending : Conn → List ℕ) (delays : Conn → ℕ) where
  abbrev pub Reads : Conn → ℕ → Outcome → Conn → Type 0
  Reads c n (got bs) c' =
      (0 < length bs) × (length bs ≤ n) × (pending c ≡ bs ++ pending c') × (delays c' ≤ delays c)
  Reads c n closed c' = (pending c ≡ []) × (pending c' ≡ []) × (delays c' ≤ delays c)
  Reads c n interrupted c' = (pending c' ≡ pending c) × (delays c' < delays c)
  Reads c n failed c' = (pending c' ≡ pending c) × (delays c' ≤ delays c)

  -- MSG_PEEK leaves the bytes where they are. A request for no bytes may return 0 at any time.
  abbrev pub Peeks : Conn → ℕ → Outcome → Conn → Type 0
  Peeks c n (got bs) c' =
      (0 < length bs)
      × (length bs ≤ n)
      × (take (length bs) (pending c) ≡ bs)
      × (pending c' ≡ pending c)
      × (delays c' ≤ delays c)
  Peeks c n closed c' =
      ((n ≡ 0) ⊎ (pending c ≡ [])) × (pending c' ≡ pending c) × (delays c' ≤ delays c)
  Peeks c n interrupted c' = (pending c' ≡ pending c) × (delays c' < delays c)
  Peeks c n failed c' = (pending c' ≡ pending c) × (delays c' ≤ delays c)

pub record Source : Type 1 where
  pub Conn : Type 0
  pub pending : Conn → List ℕ
  pub delays : Conn → ℕ
  pub read : Conn → ℕ → Outcome × Conn
  pub peek : Conn → ℕ → Outcome × Conn
  pub read_lem : (c : Conn) (n : ℕ) → 0 < n → Reads pending delays c n (read c n).0 (read c n).1
  pub peek_lem : (c : Conn) (n : ℕ) → Peeks pending delays c n (peek c n).0 (peek c n).1

-- No call fails for another reason than a signal.
abbrev pub IsReliable : Source → Type 0
IsReliable src =
    ((c : src.Conn) (n : ℕ) → (src.read c n).0 ≡ failed → ⊥)
    × ((c : src.Conn) (n : ℕ) → (src.peek c n).0 ≡ failed → ⊥)

-- `write` returns how many bytes it took, perhaps none, or -1 with or without EINTR.
pub data Written : Type 0 where
  wrote : ℕ → Written
  broken_off refused : Written

pub Written-cases : (o : Written) → ((n : ℕ) × (o ≡ wrote n)) ⊎ (o ≡ broken_off) ⊎ (o ≡ refused)
Written-cases (wrote n) = inl (n, refl)
Written-cases broken_off = inr (inl refl)
Written-cases refused = inr (inr refl)

-- `sent` is what the peer will receive; `stalls` bounds the writes that will take nothing.
module _ {Conn : Type 0} (sent : Conn → List ℕ) (stalls : Conn → ℕ) where
  abbrev pub Writes : Conn → List ℕ → Written → Conn → Type 0
  Writes c buf (wrote n) c' =
      (n ≤ length buf)
      × (sent c' ≡ sent c ++ take n buf)
      × (stalls c' ≤ stalls c)
      × ((0 < n) ⊎ (stalls c' < stalls c))
  Writes c buf broken_off c' = (sent c' ≡ sent c) × (stalls c' < stalls c)
  Writes c buf refused c' = (sent c' ≡ sent c) × (stalls c' ≤ stalls c)

pub record Sink : Type 1 where
  pub Conn : Type 0
  pub sent : Conn → List ℕ
  pub stalls : Conn → ℕ
  pub write : Conn → List ℕ → Written × Conn
  pub write_lem :
      (c : Conn) (buf : List ℕ)
      → 0 < length buf
      → Writes sent stalls c buf (write c buf).0 (write c buf).1
