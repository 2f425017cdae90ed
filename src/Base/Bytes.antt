-- ===== src/Base/Bytes.antt =====
-- Bytes, byte strings and little-endian numbers. A byte is a number below 256; Rust's `&str` and
-- `String` are their UTF-8 bytes.
use Prim.Native.Nat.{ℕ, zero, suc, ◌+◌, ◌-◌, ◌*◌, ◌/◌, ◌%◌, ◌^◌, ◌<◌}
use mathlib.Core.Path.{◌≡◌, refl, ap, ◌∙◌}
use mathlib.Core.Logic.{◌↔◌}
use mathlib.Core.Bool.{Bool, true, false, ◌&&◌, ◌||◌}
use mathlib.Core.List.{List, [], ◌∷◌}
use native.Mathlib.Omega.{arith}
use native.Mathlib.Nat.{pow-suc}
use coresplitter.Base.Lists.{length, take, drop, get_or}
use coresplitter.Base.Tests.{ltb, ◌==◌}

abbrev pub Bytes : Type 0
Bytes = List ℕ

abbrev pub All {ℓ κ} : {A : Type ℓ} → (A → Type κ) → List A → Type κ
All P [] = Unit
All P (x ∷ xs) = P x × All P xs

abbrev pub IsBytes : Bytes → Type 0
IsBytes = All (λ b. b < 256)

-- `&xs[a..b]`, where the caller has checked that `b` is in range.
abbrev pub slice : ℕ → ℕ → Bytes → Bytes
slice a b xs = take (b - a) (drop a xs)

-- `xs[i]`, where the caller has checked that `i` is in range.
abbrev pub byte_at : Bytes → ℕ → ℕ
byte_at xs i = get_or xs i 0

-- `==` on byte strings.
abbrev pub bytes_eq : Bytes → Bytes → Bool
bytes_eq [] [] = true
bytes_eq [] (y ∷ ys) = false
bytes_eq (x ∷ xs) [] = false
bytes_eq (x ∷ xs) (y ∷ ys) = x == y && bytes_eq xs ys

pub bytes_eq_iff : (xs ys : Bytes) → (bytes_eq xs ys ≡ true) ↔ (xs ≡ ys)
bytes_eq_iff [] [] = (λ e. refl, λ e. refl)
bytes_eq_iff [] (y ∷ ys) = (λ e. cc, λ e. cc)
bytes_eq_iff (x ∷ xs) [] = (λ e. cc, λ e. cc)
bytes_eq_iff (x ∷ xs) (y ∷ ys) = ground (arith, bytes_eq_iff xs ys)

-- `memcmp` order, which is SQLite's for TEXT: xs ≤ ys.
abbrev pub bytes_le : Bytes → Bytes → Bool
bytes_le [] ys = true
bytes_le (x ∷ xs) [] = false
bytes_le (x ∷ xs) (y ∷ ys) = ltb x y || (x == y && bytes_le xs ys)

-- `from_le_bytes` on any number of bytes.
abbrev pub from_le_bytes : Bytes → ℕ
from_le_bytes [] = 0
from_le_bytes (b ∷ bs) = b + 256 * from_le_bytes bs

-- `to_le_bytes` of a number of `n` bytes.
abbrev pub to_le_bytes : ℕ → ℕ → Bytes
to_le_bytes zero v = []
to_le_bytes (suc n) v = v % 256 ∷ to_le_bytes n (v / 256)

-- `u32::from_le_bytes(xs[i..i + 4])`, where the caller has checked the range.
abbrev pub u32_at : Bytes → ℕ → ℕ
u32_at xs i = from_le_bytes (slice i (i + 4) xs)

pub length-to_le_bytes : (n v : ℕ) → length (to_le_bytes n v) ≡ n
length-to_le_bytes zero v = refl
length-to_le_bytes (suc n) v = ap suc (length-to_le_bytes n (v / 256))

pub from_le_bytes-to_le_bytes : (n v : ℕ) → v < 256 ^ n → from_le_bytes (to_le_bytes n v) ≡ v
from_le_bytes-to_le_bytes zero v h = omega arith
from_le_bytes-to_le_bytes (suc n) v h =
    let rest : 256 ^ suc n ≡ 256 * 256 ^ n = pow_step n in
    let small : v / 256 < 256 ^ n = omega arith in
    omega (arith, from_le_bytes-to_le_bytes n (v / 256) small)
  where
    pow_step : (k : ℕ) → 256 ^ suc k ≡ 256 * 256 ^ k
    pow_step k = rw pow-suc (omega arith)

pub byte_at-drop : (i k : ℕ) (xs : Bytes) → byte_at (drop i xs) k ≡ byte_at xs (i + k)
byte_at-drop zero k xs = let e : k ≡ 0 + k = omega arith in ap (byte_at xs) e
byte_at-drop (suc i) k [] = refl
byte_at-drop (suc i) k (x ∷ xs) =
    let e : suc (i + k) ≡ suc i + k = omega arith in byte_at-drop i k xs ∙ ap (byte_at (x ∷ xs)) e

pub from_le_bytes-take :
    (xs : Bytes)
    → from_le_bytes (take 4 xs)
      ≡ byte_at xs 0 + 256 * byte_at xs 1 + 65_536 * byte_at xs 2 + 16_777_216 * byte_at xs 3
from_le_bytes-take [] = refl
from_le_bytes-take (a ∷ []) = omega arith
from_le_bytes-take (a ∷ b ∷ []) = omega arith
from_le_bytes-take (a ∷ b ∷ c ∷ []) = omega arith
from_le_bytes-take (a ∷ b ∷ c ∷ d ∷ xs) = omega arith
