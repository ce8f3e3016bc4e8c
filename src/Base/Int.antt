-- ===== src/Base/Int.antt =====
-- Signed numbers, for the `int` fields that the code decrements with no test.
use Prim.Native.Nat.{ℕ, zero, suc, ◌+◌}
use mathlib.Core.Path.{◌≡◌, refl}
use native.Mathlib.Omega.{arith}

-- `negsuc n` is -(n + 1).
pub data ℤ : Type 0 where
  pos : ℕ → ℤ
  negsuc : ℕ → ℤ

-- `x++` and `x--`; the counters they are used on stay far below the range of `int`.
abbrev pub suc_ℤ : ℤ → ℤ
suc_ℤ (pos n) = pos (n + 1)
suc_ℤ (negsuc zero) = pos 0
suc_ℤ (negsuc (suc n)) = negsuc n

abbrev pub pred_ℤ : ℤ → ℤ
pred_ℤ (pos zero) = negsuc 0
pred_ℤ (pos (suc n)) = pos n
pred_ℤ (negsuc n) = negsuc (n + 1)

pub pred-suc_ℤ : (x : ℤ) → pred_ℤ (suc_ℤ x) ≡ x
pred-suc_ℤ (pos n) = ground arith
pred-suc_ℤ (negsuc zero) = refl
pred-suc_ℤ (negsuc (suc n)) = ground arith
