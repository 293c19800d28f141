-- ===== src/Base/Family.antt =====
-- Families indexed by a process or a semaphore number: update at one index, sums below a bound.
use Prim.Native.Nat.{ℕ, zero, suc, ◌+◌, ◌≤◌, ◌<◌}
use mathlib.Core.Path.{◌≡◌, refl, sym, ap, ◌∙◌}
use mathlib.Core.Logic.{◌≢◌, ite, if_pos, if_neg}
use native.Mathlib.Decide.{dec_lt, ℕ_discrete}
use native.Mathlib.Omega.{arith}

abbrev pub update {ℓ} : {A : Type ℓ} → (ℕ → A) → ℕ → A → ℕ → A
update f i a j = ite (ℕ_discrete i j) a (f j)

unfoldable pub sum_below : (ℕ → ℕ) → ℕ → ℕ
sum_below g zero = 0
sum_below g (suc n) = sum_below g n + g n

pub sum_below-zero : (n : ℕ) → sum_below (λ i. 0) n ≡ 0
unfolding sum_below
sum_below-zero zero = refl
sum_below-zero (suc n) = omega (arith, sum_below-zero n)

-- Families that agree below the bound have the same sum.
sum_below-same :
    (g h : ℕ → ℕ) (n : ℕ) → ((j : ℕ) → j < n → g j ≡ h j) → sum_below g n ≡ sum_below h n
unfolding sum_below
sum_below-same g h zero same = refl
sum_below-same g h (suc n) same =
    omega (arith, same n (omega arith), sum_below-same g h n (λ j lt. same j (omega arith)))

-- Families that agree but at `i` have sums that differ as they do there.
pub sum_below-change :
    (g h : ℕ → ℕ) (i n : ℕ)
    → i < n
    → ((j : ℕ) → j ≢ i → g j ≡ h j)
    → sum_below g n + h i ≡ sum_below h n + g i
unfolding sum_below
sum_below-change g h i zero lt same = absurd (omega arith)
sum_below-change g h i (suc n) lt same = elim (dec_lt i n) [
  | yes below ↦ omega (arith, same n (omega arith), sum_below-change g h i n below same)
  | no last ↦
      let here : i ≡ n = omega arith in
      rw here (omega (arith, sum_below-same g h n (λ j b. same j (omega arith))))
]

pub le-sum_below : (g : ℕ → ℕ) (i n : ℕ) → i < n → g i ≤ sum_below g n
unfolding sum_below
le-sum_below g i zero lt = absurd (omega arith)
le-sum_below g i (suc n) lt = elim (dec_lt i n) [
  | yes below ↦ omega (arith, le-sum_below g i n below)
  | no last ↦ let here : i ≡ n = omega arith in rw here (omega arith)
]

-- The shares of two indices are part of the sum.
pub add-le-sum_below : (g : ℕ → ℕ) (i j n : ℕ) → i < n → j < n → i ≢ j → g i + g j ≤ sum_below g n
unfolding sum_below
add-le-sum_below g i j zero lt lt' ne = absurd (omega arith)
add-le-sum_below g i j (suc n) lt lt' ne = elim (dec_lt i n) [
  | yes below ↦ elim (dec_lt j n) [
    | yes below' ↦ omega (arith, add-le-sum_below g i j n below below' ne)
    | no last ↦ let here : j ≡ n = omega arith in rw here (omega (arith, le-sum_below g i n below))
  ]
  | no last ↦
      let here : i ≡ n = omega arith in rw here (omega (arith, le-sum_below g j n (omega arith)))
]

-- A sum that is not 0 has an entry that is not 0.
pub sum_below-pos : (g : ℕ → ℕ) (n : ℕ) → 0 < sum_below g n → (i : ℕ) × (i < n) × (0 < g i)
unfolding sum_below
sum_below-pos g zero h = absurd (omega arith)
sum_below-pos g (suc n) h = elim (dec_lt 0 (g n)) [
  | yes here ↦ (n, omega arith, here)
  | no other ↦ let (i, lt, found) = sum_below-pos g n (omega arith) in (i, omega arith, found)
]

-- A weighted count changes with the one entry that is updated.
pub sum_below-update {ℓ} :
    {A : Type ℓ} (w : A → ℕ) (f : ℕ → A) (i n : ℕ) (a : A)
    → i < n
    → sum_below (λ j. w (update f i a j)) n + w (f i) ≡ sum_below (λ j. w (f j)) n + w a
sum_below-update w f i n a lt =
    let change =
      sum_below-change (λ j. w (update f i a j)) (λ j. w (f j)) i n lt
        (λ j ne. ap w (if_neg (ℕ_discrete i j) (λ e. ne (sym e)) a (f j))) in
    change ∙ ap (λ v. sum_below (λ j. w (f j)) n + w v) (if_pos (ℕ_discrete i i) refl a (f i))
