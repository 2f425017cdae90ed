-- ===== src/Protocol/Frame.antt =====
-- src/protocol/frame.rs: a frame is a header byte, a 16-bit little-endian length and the payload.
-- The receive buffer (`BytesMut`) is a list of bytes; logging is left out.
pub mod Loop
pub mod Chunks
pub mod RoundTrip
mod Tests
use coresplitter.Base.{
  ℕ, zero, suc, ◌+◌, ◌*◌, ◌/◌, ◌%◌, ◌^◌, Bool, true, false, not, ◌&&◌, Option, none, some, List, [],
  ◌∷◌, ◌++◌, ltb, ◌==◌, if◌then◌else◌, length, take, drop,
}
use coresplitter.Base.Bytes.{Bytes}

abbrev pub frame_header_client : ℕ
frame_header_client = 0x3c

abbrev pub frame_header_server : ℕ
frame_header_server = 0x3e

-- `payload.len() as u16` wraps.
unfoldable pub encode : ℕ → Bytes → Bytes
encode header payload =
    let len = length payload % 2 ^ 16 in header ∷ len % 256 ∷ len / 256 ∷ payload

unfoldable pub encode_response : Bytes → Bytes
unfolding encode
encode_response payload = encode frame_header_server payload

unfoldable pub encode_command : Bytes → Bytes
unfolding encode
encode_command payload = encode frame_header_client payload

pub record FrameParser : Type 0 where
  pub header_byte : Option ℕ
  pub expected_len : Option ℕ
  pub buffer : Bytes

-- `FrameParser::new`
abbrev pub new : FrameParser
new = record { header_byte = none; expected_len = none; buffer = [] }

-- How one round of the loop in `feed` ends: by `break`, by `continue` after a byte that is no
-- header, or with a frame.
pub data Round : Type 0 where
  stop : FrameParser → Round
  skip : FrameParser → Round
  emit : Bytes → FrameParser → Round

abbrev pub is_header : ℕ → Bool
is_header h = not (not (h == frame_header_client) && not (h == frame_header_server))

-- The end of the round: wait for `needed` bytes, then split them off.
read_payload : FrameParser → ℕ → Round
read_payload p needed =
    if ltb (length p.buffer) needed
    then stop p
    else emit (take needed p.buffer)
        (record { header_byte = none; expected_len = none; buffer = drop needed p.buffer })

-- `get_u16_le` on the first two bytes, once they are there.
take_len : FrameParser → Bytes → Round
unfolding read_payload
take_len p [] = stop p
take_len p (lo ∷ []) = stop p
take_len p (lo ∷ hi ∷ rest) =
    let len = lo + 256 * hi in
    read_payload (record p { expected_len = some len; buffer = rest }) len

read_len : FrameParser → Option ℕ → Round
unfolding take_len
read_len p none = take_len p p.buffer
read_len p (some needed) = read_payload p needed

take_header : FrameParser → Bytes → Round
unfolding read_len
take_header p [] = stop p
take_header p (h ∷ rest) =
    if is_header h
    then read_len (record p { header_byte = some h; buffer = rest }) p.expected_len
    else skip (record p { buffer = rest })

read_header : FrameParser → Option ℕ → Round
unfolding take_header read_len
read_header p none = take_header p p.buffer
read_header p (some h) = read_len p p.expected_len

pub round : FrameParser → Round
unfolding read_header
round p = read_header p p.header_byte

abbrev pub after_round : (FrameParser → List Bytes × FrameParser) → Round → List Bytes × FrameParser
after_round continue (stop q) = ([], q)
after_round continue (skip q) = continue q
after_round continue (emit payload q) = let (frames, r) = continue q in (payload ∷ frames, r)

-- The `loop` of `feed`, on fuel.
pub rounds : ℕ → FrameParser → List Bytes × FrameParser
rounds zero p = ([], p)
rounds (suc fuel) p = after_round (rounds fuel) (round p)

abbrev pub buffered : FrameParser → Bytes → FrameParser
buffered p bytes = record p { buffer = p.buffer ++ bytes }

-- Each round but the last takes a byte off the buffer or clears `header_byte`.
abbrev pub fuel_for : FrameParser → ℕ
fuel_for p = length p.buffer + 2

unfoldable pub feed : FrameParser → Bytes → List Bytes × FrameParser
unfolding rounds round
feed p bytes = let q = buffered p bytes in rounds (fuel_for q) q
