-- ===== src/Base/Int.antt =====
-- Signed integers over the native numbers: what the model needs of a C `int`.
use Prim.Native.Nat.{ℕ, zero, suc}
use mathlib.Core.Bool.{Bool, true, false}

-- `negsuc n` is -(n + 1).
pub data ℤ : Type 0 where
  pos : ℕ → ℤ
  negsuc : ℕ → ℤ

-- `x - 1`
abbrev pub pred_ℤ : ℤ → ℤ
pred_ℤ (pos zero) = negsuc 0
pred_ℤ (pos (suc n)) = pos n
pred_ℤ (negsuc n) = negsuc (suc n)

-- `x < 1`
abbrev pub lt_one : ℤ → Bool
lt_one (pos zero) = true
lt_one (pos (suc n)) = false
lt_one (negsuc n) = true
