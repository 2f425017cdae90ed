-- ===== src/Protocol/Types/Arms.antt =====
-- A `match` on a byte or a text whose arms are constants, and properties of all bytes by evaluation.
use Prim.Native.String.{String}
use text.Mathlib.Text.{◌==◌ as str_eq}
use coresplitter.Base.{
  ℕ, zero, suc, ◌<◌, ◌≡◌, Bool, true, ◌&&◌, Option, none, some, List, [], ◌∷◌, arith, ◌==◌,
  if◌then◌else◌,
}

-- The first arm whose constant is the scrutinee; `_ => None`.
unfoldable pub first_arm {ℓ} : {A : Type ℓ} → ℕ → List (ℕ × A) → Option A
first_arm b [] = none
first_arm b ((k, a) ∷ arms) = if b == k then some a else first_arm b arms

unfoldable pub first_text {ℓ} : {A : Type ℓ} → String → List (String × A) → Option A
first_text s [] = none
first_text s ((k, a) ∷ arms) = if str_eq s k then some a else first_text s arms

-- The test holds for every byte below the bound.
unfoldable pub holds_below : (ℕ → Bool) → ℕ → Bool
holds_below test zero = true
holds_below test (suc bound) = holds_below test bound && test bound

pub holds_below_lem :
    (test : ℕ → Bool) (bound b : ℕ) → b < bound → holds_below test bound ≡ true → test b ≡ true
unfolding holds_below
holds_below_lem test zero b under e = absurd (omega arith)
holds_below_lem test (suc bound) b under e = ground (arith, holds_below_lem test bound b)
