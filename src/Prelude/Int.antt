-- ===== src/Prelude/Int.antt =====
-- Python's signed integers, as far as exit codes need them.
use Prim.Native.Nat.{ℕ, zero}
use mathlib.Core.Bool.{Bool, true, false}

-- `negsuc n` is -(n + 1).
pub data ℤ : Type 0 where
  pos : ℕ → ℤ
  negsuc : ℕ → ℤ

unfoldable pub is_zero : ℤ → Bool
is_zero (pos zero) = true
is_zero _ = false
