-- ===== src/Base/Utf8.antt =====
-- `String::from_utf8_lossy` of Rust, a string being its UTF-8 bytes: each maximal piece that cannot be
-- continued becomes U+FFFD.
use Prim.Native.Nat.{ℕ, ◌-◌}
use mathlib.Core.Bool.{Bool, ◌&&◌}
use mathlib.Core.List.{[], ◌∷◌, ◌++◌}
use coresplitter.Base.Tests.{leb, ◌==◌, if◌then◌else◌}
use coresplitter.Base.Bytes.{Bytes}

abbrev pub replacement : Bytes
replacement = 0xEF ∷ 0xBF ∷ 0xBD ∷ []

-- A sequence that is not complete: the bytes so far, how many are missing, the range of the next one.
pub record Partial : Type 0 where
  pub held : Bytes
  pub missing : ℕ
  pub lo : ℕ
  pub hi : ℕ

abbrev pub whole : Partial
whole = record { held = []; missing = 0; lo = 0; hi = 0 }

abbrev is_within : ℕ → ℕ → ℕ → Bool
is_within lo hi b = leb lo b && leb b hi

abbrev expect : ℕ → ℕ → ℕ → ℕ → Bytes × Partial
expect b missing lo hi = ([], record { held = b ∷ []; missing = missing; lo = lo; hi = hi })

-- A byte at the start of a sequence: what it completes, and what it leaves open.
unfoldable pub lead : ℕ → Bytes × Partial
lead b =
    if leb b 0x7F
    then (b ∷ [], whole)
    else if is_within 0xC2 0xDF b
    then expect b 1 0x80 0xBF
    else if b == 0xE0
    then expect b 2 0xA0 0xBF
    else if b == 0xED
    then expect b 2 0x80 0x9F
    else if is_within 0xE1 0xEF b
    then expect b 2 0x80 0xBF
    else if b == 0xF0
    then expect b 3 0x90 0xBF
    else if is_within 0xF1 0xF3 b
    then expect b 3 0x80 0xBF
    else if b == 0xF4
    then expect b 3 0x80 0x8F
    else (replacement, whole)

unfoldable pub step : Partial → ℕ → Bytes × Partial
unfolding lead
step p b =
    if p.missing == 0
    then lead b
    else if is_within p.lo p.hi b
    then (if p.missing == 1 then (p.held ++ b ∷ [], whole) else (
      [],
      record { held = p.held ++ b ∷ []; missing = p.missing - 1; lo = 0x80; hi = 0xBF },
    ))
    else (let (out, q) = lead b in (replacement ++ out, q))

unfoldable pub decode : Partial → Bytes → Bytes
unfolding step
decode p [] = if p.missing == 0 then [] else replacement
decode p (b ∷ bytes) = let (out, q) = step p b in out ++ decode q bytes

unfoldable pub from_utf8_lossy : Bytes → Bytes
unfolding decode
from_utf8_lossy = decode whole

-- `trim_end_matches('\0')`
unfoldable pub trim_end_zeros : Bytes → Bytes
trim_end_zeros [] = []
trim_end_zeros (b ∷ bytes) =
    let rest = trim_end_zeros bytes in
    elim rest [ [] ↦ (if b == 0 then [] else b ∷ []) | c ∷ cs ↦ b ∷ c ∷ cs ]
