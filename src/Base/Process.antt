-- ===== src/Base/Process.antt =====
-- What a call of a C function comes to: it returns, it ends the process, or the model's fuel is
-- spent. `perror(m); exit(EXIT_FAILURE)` is `exited 1`. Signed results are integers.
use Prim.Native.Nat.{ℕ}

pub data ℤ : Type 0 where
  pos : ℕ → ℤ
  negsuc : ℕ → ℤ

pub data Run {ℓ} (A : Type ℓ) : Type ℓ where
  done : A → Run A
  exited : ℕ → Run A
  out_of_fuel : Run A

infixl 5 ◌>>=◌ ◌>>◌
abbrev pub ◌>>=◌ {ℓ κ} : {A : Type ℓ} {B : Type κ} → Run A → (A → Run B) → Run B
done a >>= f = f a
exited n >>= f = exited n
out_of_fuel >>= f = out_of_fuel

abbrev pub ◌>>◌ {ℓ} : {B : Type ℓ} → Run (Unit {0}) → Run B → Run B
m >> k = m >>= λ _. k

abbrev pub exit_failure : ℕ
exit_failure = 1

abbrev pub exit_success : ℕ
exit_success = 0
