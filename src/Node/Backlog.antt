-- ===== src/Node/Backlog.antt =====
-- src/node/state.rs: `Backlog::from_str`. A text is the list of its characters' code points.
pub mod Texts
mod Tests
use coresplitter.Base.{
  ℕ, zero, suc, ◌+◌, ◌-◌, ◌*◌, ◌^◌, Bool, true, false, ◌&&◌, ◌||◌, Option, none, some, List, [],
  ◌∷◌, ltb, leb, ◌==◌, if◌then◌else◌,
}
use coresplitter.Node.State.{Backlog, off, messages, seconds}

abbrev pub Text : Type 0
Text = List ℕ

-- `char::is_whitespace`
abbrev pub is_whitespace : ℕ → Bool
is_whitespace c =
    (leb 0x09 c && leb c 0x0D)
    || c == 0x20
    || c == 0x85
    || c == 0xA0
    || c == 0x1680
    || (leb 0x2000 c && leb c 0x200A)
    || c == 0x2028
    || c == 0x2029
    || c == 0x202F
    || c == 0x205F
    || c == 0x3000

unfoldable pub trim_start : Text → Text
trim_start [] = []
trim_start (c ∷ s) = let rest = trim_start s in if is_whitespace c then rest else c ∷ s

unfoldable pub trim_end : Text → Text
trim_end [] = []
trim_end (c ∷ s) =
    let rest = trim_end s in
    elim rest [ [] ↦ (if is_whitespace c then [] else c ∷ []) | d ∷ ds ↦ c ∷ d ∷ ds ]

abbrev pub trim : Text → Text
trim s = trim_end (trim_start s)

abbrev pub is_upper : ℕ → Bool
is_upper c = leb 0x41 c && leb c 0x5A

abbrev pub is_ascii_alphabetic : ℕ → Bool
is_ascii_alphabetic c = is_upper c || (leb 0x61 c && leb c 0x7A)

abbrev pub to_ascii_lowercase : ℕ → ℕ
to_ascii_lowercase c = if is_upper c then c + 32 else c

-- The characters but the last, and the last.
abbrev pub after_first : ℕ → Option (Text × ℕ) → Text × ℕ
after_first c none = ([], c)
after_first c (some (init, last)) = (c ∷ init, last)

unfoldable pub split_last : Text → Option (Text × ℕ)
split_last [] = none
split_last (c ∷ s) = some (after_first c (split_last s))

abbrev pub unit_of : Text → Option (Text × ℕ) → Text × Option ℕ
unit_of s none = (s, none)
unit_of s (some (init, last)) =
    if is_ascii_alphabetic last then (init, some (to_ascii_lowercase last)) else (s, none)

abbrev pub is_digit : ℕ → Bool
is_digit c = leb 0x30 c && leb c 0x39

-- The digits of `u32::from_str`, each step checked for overflow.
unfoldable pub digits_value : ℕ → Text → Option ℕ
digits_value n [] = some n
digits_value n (c ∷ s) =
    let m = n * 10 + (c - 0x30) in
    let rest = digits_value m s in
    if is_digit c then (if ltb m (2 ^ 32) then rest else none) else none

-- `u32::from_str`: one leading `+` is taken, but not alone.
unfoldable pub parse_u32 : Text → Option ℕ
parse_u32 [] = none
parse_u32 (c ∷ []) = digits_value 0 (c ∷ [])
parse_u32 (c ∷ d ∷ s) = if c == 0x2B then digits_value 0 (d ∷ s) else digits_value 0 (c ∷ d ∷ s)

abbrev pub backlog_of : ℕ → Option ℕ → Option Backlog
backlog_of zero unit = some off
backlog_of (suc n) none = some (messages (suc n))
backlog_of (suc n) (some unit) =
    if unit == b'h'
    then some (seconds (suc n * 3600))
    else if unit == b'd'
    then some (seconds (suc n * 86_400))
    else none

abbrev pub with_number : Option ℕ → Option ℕ → Option Backlog
with_number none unit = none
with_number (some n) unit = backlog_of n unit

-- `none` is the error.
unfoldable pub from_str : Text → Option Backlog
from_str s =
    let t = trim s in let (num, unit) = unit_of t (split_last t) in with_number (parse_u32 num) unit
