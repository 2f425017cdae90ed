-- ===== src/Protocol/Decode/Tests.antt =====
-- The decoder of src/protocol/decode.rs on single payloads.
use coresplitter.Base.{
  arith, false, ◌*◌, ℕ, ◌+◌, ◌%◌, ◌/◌, ◌≡◌, ◌↔◌, refl, none, some, [], ◌∷◌, leb, if◌then◌else◌,
  length,
}
use coresplitter.Base.Bytes.{Bytes}
use coresplitter.Base.Utf8.{from_utf8_lossy, trim_end_zeros}
use coresplitter.Protocol.Decode.Response.{decode_response_payload, response_arms}
use coresplitter.Protocol.Decode.Response.Panic.{IsCut, decode_response_payload-panic}
use coresplitter.Protocol.Decode.{bool, string, integer, range, index, first_match}
use coresplitter.Protocol.Decode.Command.{decode_command_payload, command_arms, decode_app_start}

abbrev digit : ℕ → ℕ
digit n = if leb n 9 then 48 + n else 87 + n

-- Two lower-case digits for each byte, as the crate hex writes them.
abbrev pub hex_encode : Bytes → Bytes
hex_encode [] = []
hex_encode (b ∷ bytes) = digit (b / 16) ∷ digit (b % 16) ∷ hex_encode bytes

abbrev cut_request : Bytes
cut_request = 0x04 ∷ 1 ∷ 0 ∷ []

cut-panic : decode_command_payload hex_encode 0x04 cut_request ≡ none
unfolding decode_command_payload first_match command_arms range
cut-panic = refl

whole-request :
    decode_command_payload hex_encode 0x04 (0x04 ∷ 1 ∷ 2 ∷ 0 ∷ 0 ∷ [])
    ≡ some (some (("lastmod", integer 513) ∷ []))
unfolding decode_command_payload first_match command_arms range
whole-request = refl

start-app :
    decode_command_payload hex_encode 0x01 (0x01 ∷ 1 ∷ 0 ∷ 0 ∷ 0 ∷ 0 ∷ 0 ∷ 0 ∷ b'a' ∷ 0 ∷ [])
    ≡ some (some (("version", integer 1) ∷ ("app", string (b'a' ∷ [])) ∷ []))
unfolding decode_command_payload first_match command_arms decode_app_start index from_utf8_lossy
    trim_end_zeros
start-app = refl

pub length-hex_encode : (bytes : Bytes) → length (hex_encode bytes) ≡ 2 * length bytes
length-hex_encode [] = omega arith
length-hex_encode (b ∷ bytes) = omega (arith, length-hex_encode bytes)

abbrev short_sent : Bytes
short_sent = 0x06 ∷ 0 ∷ 1 ∷ 2 ∷ 3 ∷ 4 ∷ 0 ∷ 0 ∷ 0 ∷ []

no-more :
    decode_response_payload hex_encode 0x0A (0x0A ∷ [])
    ≡ some (some (("messages_available", bool false) ∷ []))
unfolding decode_response_payload first_match response_arms
no-more = refl

decode_response_payload-panic_example :
    (decode_response_payload hex_encode 0x06 short_sent ≡ none) ↔ IsCut 0x06 (length short_sent)
decode_response_payload-panic_example =
    decode_response_payload-panic hex_encode 0x06 short_sent length-hex_encode
