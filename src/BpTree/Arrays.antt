-- ===== src/BpTree/Arrays.antt =====
-- bptree.cpp: what the loops over a node's arrays come to, entry by entry.
use computer_science_notes.Base.{
  ℕ, zero, suc, ◌+◌, ◌-◌, ◌≤◌, ◌<◌, ◌≡◌, ◌≢◌, refl, sym, ap, ◌∙◌, subst, inl, inr, Bool-cases, ltb,
  ◌==◌, if◌then◌else◌, update, arith, ℕ_discrete, dec_lt,
}
use computer_science_notes.BpTree.Node.{shift_up, shift_down}
use computer_science_notes.BpTree.Search.{seek}

pub shift_up_low : (a : ℕ → ℕ) (pos n j : ℕ) → j ≤ pos → shift_up a pos n j ≡ a j
unfolding shift_up
shift_up_low a pos zero j low = refl
shift_up_low a pos (suc n) j low =
    shift_up_low (update a (pos + n + 1) (a (pos + n))) pos n j low ∙ ground arith

pub shift_up_high : (a : ℕ → ℕ) (pos n j : ℕ) → pos + n < j → shift_up a pos n j ≡ a j
unfolding shift_up
shift_up_high a pos zero j high = refl
shift_up_high a pos (suc n) j high =
    shift_up_high (update a (pos + n + 1) (a (pos + n))) pos n j (omega arith) ∙ ground arith

pub shift_up_moved :
    (a : ℕ → ℕ) (pos n j : ℕ) → pos ≤ j → j < pos + n → shift_up a pos n (j + 1) ≡ a j
unfolding shift_up
shift_up_moved a pos zero j low high = absurd (omega arith)
shift_up_moved a pos (suc n) j low high = elim (ℕ_discrete j (pos + n)) [
  | yes last ↦
      shift_up_high (update a (pos + n + 1) (a (pos + n))) pos n (j + 1) (omega arith)
      ∙ ground arith
  | no earlier ↦
      shift_up_moved (update a (pos + n + 1) (a (pos + n))) pos n j low (omega arith) ∙ ground arith
]

pub seek_bounds : (key : ℕ → ℕ) (k n i : ℕ) → (i ≤ seek key k n i) × (seek key k n i ≤ i + n)
unfolding seek
seek_bounds key k zero i = (omega arith, omega arith)
seek_bounds key k (suc n) i = ground (arith, seek_bounds key k n (i + 1))

pub seek_below : (key : ℕ → ℕ) (k n i j : ℕ) → i ≤ j → j < seek key k n i → key j < k
unfolding seek
seek_below key k zero i j low high = absurd (omega arith)
seek_below key k (suc n) i j low high = elim (ℕ_discrete i j) [
  | yes here ↦ ground arith
  | no later ↦ ground (arith, seek_below key k n (i + 1) j (omega arith))
]

pub seek_at : (key : ℕ → ℕ) (k n i : ℕ) → seek key k n i < i + n → k ≤ key (seek key k n i)
unfolding seek
seek_at key k zero i h = absurd (omega arith)
seek_at key k (suc n) i h = elim (Bool-cases (ltb (key i) k)) [
  | inl less ↦ rw (less, seek) (seek_at key k n (i + 1) (ground arith))
  | inr not_less ↦ ground arith
]

-- The array with `x` put in before the `i`-th entry.
abbrev pub placed : (ℕ → ℕ) → ℕ → ℕ → ℕ → ℕ
placed a i x j = if ltb j i then a j else if j == i then x else a (j - 1)

-- The loop that makes room, and the write, over the first `n` entries.
pub shift_up-placed :
    (a : ℕ → ℕ) (i n x j : ℕ) → i ≤ n → j ≤ n → update (shift_up a i (n - i)) i x j ≡ placed a i x j
shift_up-placed a i n x j le le' = elim (dec_lt j i) [
  | yes before ↦ ground (arith, shift_up_low a i (n - i) j (omega arith))
  | no not_before ↦ elim (ℕ_discrete j i) [
    | yes here ↦ ground arith
    | no after ↦
        let back : j - 1 + 1 ≡ j = omega arith in
        let moved = shift_up_moved a i (n - i) (j - 1) (omega arith) (omega arith) in
        ground (arith, back, rw back at moved)
  ]
]

pub placed-ascending :
    (a : ℕ → ℕ) (i n x : ℕ)
    → ((p q : ℕ) → p < q → q < n → a p < a q)
    → i ≤ n
    → ((j : ℕ) → j < i → a j < x)
    → ((j : ℕ) → i ≤ j → j < n → x < a j)
    → (p q : ℕ) → p < q
    → q < n + 1
    → placed a i x p < placed a i x q
placed-ascending a i n x asc le before after p q lt lt' =
    ground (arith, asc p q, asc p (q - 1), asc (p - 1) (q - 1), before p, after (q - 1))

-- What holds of the entries and of the new one holds of the array with both.
pub placed-each :
    (P : ℕ → Type 0) (a : ℕ → ℕ) (i n x : ℕ)
    → ((j : ℕ) → j < n → P (a j))
    → P x
    → i ≤ n
    → (j : ℕ) → j < n + 1
    → P (placed a i x j)
placed-each P a i n x each new le j lt = elim (dec_lt j i) [
  | yes before ↦
      let e : placed a i x j ≡ a j = ground arith in subst P (sym e) (each j (omega arith))
  | no not_before ↦ elim (ℕ_discrete j i) [
    | yes here ↦ let e : placed a i x j ≡ x = ground arith in subst P (sym e) new
    | no after ↦
        let e : placed a i x j ≡ a (j - 1) = ground arith in
        subst P (sym e) (each (j - 1) (omega arith))
  ]
]

shift_down_low : (a : ℕ → ℕ) (pos n j : ℕ) → j < pos → shift_down a pos n j ≡ a j
unfolding shift_down
shift_down_low a pos zero j low = refl
shift_down_low a pos (suc n) j low =
    shift_down_low (update a pos (a (pos + 1))) (pos + 1) n j (omega arith) ∙ ground arith

shift_down_moved :
    (a : ℕ → ℕ) (pos n j : ℕ) → pos ≤ j → j < pos + n → shift_down a pos n j ≡ a (j + 1)
unfolding shift_down
shift_down_moved a pos zero j low high = absurd (omega arith)
shift_down_moved a pos (suc n) j low high = elim (ℕ_discrete pos j) [
  | yes here ↦
      shift_down_low (update a pos (a (pos + 1))) (pos + 1) n j (omega arith)
      ∙ ground (arith, ap (λ x. a (x + 1)) here)
  | no later ↦
      shift_down_moved (update a pos (a (pos + 1))) (pos + 1) n j (omega arith) (omega arith)
      ∙ ground arith
]

-- The array without its `i`-th entry.
abbrev pub dropped : (ℕ → ℕ) → ℕ → ℕ → ℕ
dropped a i j = if ltb j i then a j else a (j + 1)

-- The loop that closes the gap, over the entries that are left of the first `n`.
pub shift_down-dropped :
    (a : ℕ → ℕ) (i n j : ℕ) → i < n → j < n - 1 → shift_down a i (n - 1 - i) j ≡ dropped a i j
shift_down-dropped a i n j lt lt' = elim (dec_lt j i) [
  | yes before ↦ ground (arith, shift_down_low a i (n - 1 - i) j before)
  | no after ↦ ground (arith, shift_down_moved a i (n - 1 - i) j (omega arith) (omega arith))
]

-- An entry but the `i`-th, and where it stands in the array without that one.
pub kept_index : ℕ → ℕ → ℕ
kept_index i j = if ltb j i then j else j - 1

pub dropped-kept_index :
    (a : ℕ → ℕ) (i n j : ℕ)
    → i < n
    → j < n
    → j ≢ i
    → (kept_index i j < n - 1) × (dropped a i (kept_index i j) ≡ a j)
unfolding kept_index
dropped-kept_index a i n j lt lt' ne = elim (dec_lt j i) [
  | yes before ↦ ground arith
  | no after ↦ let back : j - 1 + 1 ≡ j = omega arith in ground (arith, ap a back)
]
