-- ===== src/Base/Int.antt =====
-- Signed integers over the native numbers, and the float values that the program makes of them.
use Prim.Native.Nat.{ℕ, ◌-◌, ◌^◌}
use mathlib.Core.Bool.{Bool, false}
use coresplitter.Base.Tests.{ltb, ◌==◌, if◌then◌else◌}

-- `negsuc n` is -(n + 1).
pub data ℤ : Type 0 where
  pos : ℕ → ℤ
  negsuc : ℕ → ℤ

-- The `i32` and the `i8` of a bit pattern.
abbrev pub signed32 : ℕ → ℤ
signed32 w = if ltb w (2 ^ 31) then pos w else negsuc (2 ^ 32 - w - 1)

abbrev pub signed8 : ℕ → ℤ
signed8 w = if ltb w 128 then pos w else negsuc (256 - w - 1)

-- Every `f64` of the program is an integer divided by a constant: the float nearest to that quotient.
pub record F64 : Type 0 where
  pub numerator : ℤ
  pub denominator : ℕ

-- `f == 0.0`: the nearest float is zero only where the integer is (the constants are below 2 ^ 53).
abbrev pub is_zero : F64 → Bool
is_zero f = elim f.numerator [ pos n ↦ n == 0 | negsuc n ↦ false ]
