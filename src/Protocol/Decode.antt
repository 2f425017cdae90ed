-- ===== src/Protocol/Decode.antt =====
-- src/protocol/decode.rs: what the event log shows of a payload. The map is a list of its
-- entries, no key twice; their order means nothing. An index or a slice out of range panics, which is `none` of the
-- outer option. `hex::encode` is of the crate hex: a parameter.
pub mod Command
pub mod Response
pub mod Total
pub mod Chain
pub mod Tests
use Prim.Native.String.{String}
use coresplitter.Base.{
  ℕ, ◌-◌, Bool, true, false, ◌&&◌, Option, none, some, List, [], ◌∷◌, leb, ◌==◌, if◌then◌else◌,
  length, take, drop, get_elem?,
}
use coresplitter.Base.Bytes.{Bytes, slice, from_le_bytes}
use coresplitter.Base.Int.{F64}

pub data DecodedValue : Type 0 where
  string : Bytes → DecodedValue
  -- A text that the program spells out.
  literal : String → DecodedValue
  integer : ℕ → DecodedValue
  float : F64 → DecodedValue
  bool : Bool → DecodedValue

abbrev pub Map : Type 0
Map = List (String × DecodedValue)

infixl 5 ◌>>=◌
abbrev pub ◌>>=◌ : {A B : Type 0} → Option A → (A → Option B) → Option B
none >>= f = none
some a >>= f = f a

-- `&payload[a..b]`
unfoldable pub range : ℕ → ℕ → Bytes → Option Bytes
range a b payload = if leb a b && leb b (length payload) then some (slice a b payload) else none

-- `u32::from_le_bytes(payload[i..i + 4].try_into().unwrap())`
abbrev pub u32_range : ℕ → ℕ → Bytes → Option ℕ
u32_range a b payload = range a b payload >>= λ bytes. some (from_le_bytes bytes)

-- `payload[i]`
unfoldable pub index : ℕ → Bytes → Option ℕ
index i payload = get_elem? payload i

-- An arm of the `match`: the code, the guard, and what it inserts.
pub record Arm : Type 0 where
  pub code : ℕ
  pub guard : Bool
  pub body : Option Map

unfoldable pub first_match : ℕ → List Arm → Option Map
first_match code [] = some []
first_match code (arm ∷ arms) =
    let rest = first_match code arms in if arm.code == code && arm.guard then arm.body else rest

-- `if map.is_empty() { None } else { Some(map) }`
abbrev pub none_if_empty : Option Map → Option (Option Map)
none_if_empty none = none
none_if_empty (some []) = some none
none_if_empty (some (entry ∷ map)) = some (some (entry ∷ map))
