-- ===== src/Common/Int.antt =====
-- Signed integers over the native numbers, for the `i64` values that the program compares.
use Prim.Native.Nat.{ℕ}
use mathlib.Core.Bool.{Bool, false}
use zte_u60_pro_mu5250_data.Common.Tests.{◌==◌}

-- `negsuc n` is -(n + 1).
pub data ℤ : Type 0 where
  pos : ℕ → ℤ
  negsuc : ℕ → ℤ

-- `==` on `i64`
abbrev pub eq_ℤ : ℤ → ℤ → Bool
eq_ℤ (pos a) (pos b) = a == b
eq_ℤ (negsuc a) (negsuc b) = a == b
eq_ℤ _ _ = false
