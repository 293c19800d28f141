-- ===== src/Multiplex/Slots.antt =====
-- The array of client descriptors in select_server.c and poll_server.c, where `none` is -1.
use computer_science_notes.Base.{
  ℕ, zero, suc, ◌+◌, ◌≤◌, ◌<◌, ◌≡◌, inl, inr, length, drop, ◌++◌, List, Option, Option-cases, none,
  some, arith,
}

-- What `read` returns: some bytes, none at the end, or an error.
pub data Received : Type 0 where
  data_read : List ℕ → Received
  peer_closed read_error : Received

-- The first free slot from `i` on, with `k` slots to go.
unfoldable pub find_slot : (ℕ → Option ℕ) → ℕ → ℕ → Option ℕ
find_slot slots zero i = none
find_slot slots (suc k) i =
    let rest = find_slot slots k (i + 1) in elim (slots i) [ none ↦ some i | some fd ↦ rest ]

pub find_slot-free :
    (slots : ℕ → Option ℕ) (k i j : ℕ) → find_slot slots k i ≡ some j → slots j ≡ none
unfolding find_slot
find_slot-free slots zero i j e = cc
find_slot-free slots (suc k) i j e = ground (arith, find_slot-free slots k (i + 1) j)

pub find_slot-below :
    (slots : ℕ → Option ℕ) (k i j : ℕ) → find_slot slots k i ≡ some j → (i ≤ j) × (j < i + k)
unfolding find_slot
find_slot-below slots zero i j e = cc
find_slot-below slots (suc k) i j e = elim (Option-cases (slots i)) [
  | inl free ↦ (ground arith, ground arith)
  | inr (fd, taken) ↦
      let (low, high) = find_slot-below slots k (i + 1) j (ground arith) in
      (omega arith, omega arith)
]

-- What lands in a buffer, of which `memory` are the bytes before.
abbrev pub buffer : List ℕ → List ℕ → List ℕ
buffer bs memory = bs ++ drop (length bs) memory
