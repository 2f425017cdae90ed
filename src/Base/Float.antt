-- ===== src/Base/Float.antt =====
-- Arithmetic on `f64` where the program needs it: the float nearest to a quotient, its product with a
-- number, and the integer part of that, each rounded to 53 bits as IEEE 754 says.
use Prim.Native.Nat.{ℕ, zero, suc, ◌+◌, ◌*◌, ◌/◌, ◌%◌, ◌^◌}
use mathlib.Core.Bool.{◌&&◌, ◌||◌}
use coresplitter.Base.Tests.{ltb, leb, ◌==◌, if◌then◌else◌}

-- To the nearest integer, halves to the even one.
unfoldable pub div_round : ℕ → ℕ → ℕ
div_round n d =
    let q = n / d in
    let r = n % d in if ltb d (2 * r) || (2 * r == d && q % 2 == 1) then q + 1 else q

-- `mantissa / 2 ^ exponent`
pub record Float : Type 0 where
  pub mantissa : ℕ
  pub exponent : ℕ

-- The first exponent from `e` on that gives `n / d` 53 bits.
unfoldable pub up_exponent : ℕ → ℕ → ℕ → ℕ → ℕ
up_exponent zero e n d = e
up_exponent (suc fuel) e n d =
    let next = up_exponent fuel (suc e) n d in if leb (2 ^ 52 * d) (n * 2 ^ e) then e else next

-- `n / d` for numbers below 2 ^ 32 with `d` positive: 84 exponents are enough.
unfoldable pub nearest : ℕ → ℕ → Float
unfolding up_exponent div_round
nearest n d =
    let e = up_exponent 84 0 n d in record { mantissa = div_round (n * 2 ^ e) d; exponent = e }

-- How many low bits a product has to lose.
unfoldable pub down_exponent : ℕ → ℕ → ℕ → ℕ
down_exponent zero k p = k
down_exponent (suc fuel) k p =
    let next = down_exponent fuel (suc k) p in if ltb p (2 ^ (53 + k)) then k else next

-- The integer part of `f * factor`, for a factor below 2 ^ 53.
unfoldable pub scaled : Float → ℕ → ℕ
unfolding down_exponent div_round
scaled f factor =
    let p = f.mantissa * factor in
    let k = down_exponent 54 0 p in div_round p (2 ^ k) * 2 ^ k / 2 ^ f.exponent
