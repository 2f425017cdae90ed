-- ===== src/Core/Awaiting.antt =====
-- src/core.rs: what a request waits for (`Awaiting`, `awaiting_for`), and which frames answer it.
pub mod Laws
pub mod Last
use coresplitter.Base.{
  ℕ, Bool, true, false, not, ◌&&◌, ◌||◌, List, [], ◌∷◌, leb, ◌==◌, if◌then◌else◌, length,
}
use coresplitter.Base.Bytes.{Bytes, byte_at}

unfoldable pub is_push_event : ℕ → Bool
is_push_event code = leb 0x80 code

unfoldable pub contains : Bytes → ℕ → Bool
contains [] code = false
contains (c ∷ codes) code = c == code || contains codes code

pub data Awaiting : Type 0 where
  any : Awaiting
  one_of : Bytes → Awaiting
  stream : Bytes → ℕ → Awaiting

-- (belongs, completes)
unfoldable pub classify : Awaiting → ℕ → Bool × Bool
unfolding is_push_event contains
classify any code = (not (is_push_event code), true)
classify (one_of codes) code = (code == 0x01 || contains codes code, true)
classify (stream frame_codes terminator_code) code =
    let ends = code == terminator_code || code == 0x01 in (ends || contains frame_codes code, ends)

-- The first arm of a `match` whose alternatives hold the byte; `_ => Awaiting::Any`.
unfoldable pub first_awaiting : ℕ → List (Bytes × Awaiting) → Awaiting
unfolding contains
first_awaiting code [] = any
first_awaiting code ((alternatives, awaiting) ∷ arms) =
    if contains alternatives code then awaiting else first_awaiting code arms

-- The arms of `awaiting_for`; `is_self` is the guard `payload.len() == 4` of the first arm for 0x27.
unfoldable pub arms : Bool → List (Bytes × Awaiting)
arms is_self =
    (0x04 ∷ [], stream (0x02 ∷ 0x03 ∷ []) 0x04)
    ∷ (0x01 ∷ [], one_of (0x05 ∷ []))
    ∷ (0x02 ∷ 0x1A ∷ 0x1B ∷ 0x24 ∷ 0x32 ∷ 0x34 ∷ 0x39 ∷ [], one_of (0x06 ∷ []))
    ∷ ((if is_self then 0x27 ∷ [] else []), one_of (0x8B ∷ []))
    ∷ (0x27 ∷ [], one_of (0x06 ∷ []))
    ∷ (0x05 ∷ [], one_of (0x09 ∷ []))
    ∷ (0x0A ∷ [], one_of (0x07 ∷ 0x08 ∷ 0x10 ∷ 0x11 ∷ 0x1B ∷ 0x0A ∷ []))
    ∷ (0x11 ∷ [], one_of (0x0B ∷ []))
    ∷ (0x14 ∷ [], one_of (0x0C ∷ []))
    ∷ (0x16 ∷ [], one_of (0x0D ∷ []))
    ∷ (0x17 ∷ [], one_of (0x0E ∷ 0x0F ∷ []))
    ∷ (0x18 ∷ [], one_of (0x00 ∷ 0x0F ∷ []))
    ∷ (0x1E ∷ [], one_of (0x03 ∷ []))
    ∷ (0x1F ∷ [], one_of (0x12 ∷ []))
    ∷ (0x21 ∷ [], one_of (0x13 ∷ []))
    ∷ (0x23 ∷ [], one_of (0x14 ∷ []))
    ∷ (0x28 ∷ [], one_of (0x15 ∷ []))
    ∷ (0x2A ∷ [], one_of (0x16 ∷ []))
    ∷ (0x2B ∷ [], one_of (0x17 ∷ []))
    ∷ (0x38 ∷ [], one_of (0x18 ∷ []))
    ∷ (0x3B ∷ [], one_of (0x19 ∷ []))
    ∷ (0x3C ∷ [], one_of (0x1A ∷ []))
    ∷ (0x40 ∷ [], one_of (0x1C ∷ []))
    ∷ (0x42 ∷ [], one_of (0x1D ∷ []))
    ∷ (
      0x03 ∷ 0x06 ∷ 0x07 ∷ 0x08 ∷ 0x09 ∷ 0x0B ∷ 0x0C ∷ 0x0D ∷ 0x0E ∷ 0x0F ∷ 0x10 ∷ 0x12 ∷ 0x15
          ∷ 0x19 ∷ 0x1C ∷ 0x1D ∷ 0x20 ∷ 0x22 ∷ 0x25 ∷ 0x26 ∷ 0x29 ∷ 0x33 ∷ 0x36 ∷ 0x37 ∷ 0x3A ∷ 0x3D
          ∷ 0x3E ∷ 0x3F ∷ 0x41 ∷ [],
      one_of (0x00 ∷ []),
    )
    ∷ []

-- The caller never passes an empty payload.
unfoldable pub awaiting_for : Bytes → Awaiting
awaiting_for payload = first_awaiting (byte_at payload 0) (arms (length payload == 4))
