-- ===== src/Base/Ring.antt =====
-- Positions in a ring.
use native.Mathlib.Nat.{div-add-mod}
use Prim.Native.Nat.{ℕ, ◌+◌, ◌*◌, ◌/◌, ◌%◌, ◌≤◌, ◌<◌}
use mathlib.Core.Logic.{◌≢◌}
use native.Mathlib.Decide.{dec_lt}
use native.Mathlib.Omega.{arith}

-- Two positions less than a round apart are different blocks.
pub mod_apart : (k w n : ℕ) → k < w → w < k + n → k % n ≢ w % n
mod_apart k w n lt near e = elim (dec_lt (k / n) (w / n)) [
  | yes further ↦
      let round : n * (k / n + 1) ≤ n * (w / n) = grind arith in
      omega (arith, round, div-add-mod k n, div-add-mod w n, e)
  | no back ↦
      let round : n * (w / n) ≤ n * (k / n) = grind arith in
      omega (arith, round, div-add-mod k n, div-add-mod w n, e)
]
