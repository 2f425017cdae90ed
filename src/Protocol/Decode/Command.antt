-- ===== src/Protocol/Decode/Command.antt =====
-- src/protocol/decode.rs: `decode_command_payload`.
pub mod Panic
use coresplitter.Base.{
  ℕ, ◌-◌, ◌*◌, min, Bool, true, false, Option, none, some, List, [], ◌∷◌, ltb, leb, ◌==◌,
  if◌then◌else◌, length, drop,
}
use coresplitter.Base.Bytes.{Bytes}
use coresplitter.Base.Int.{pos, signed32, F64}
use coresplitter.Base.Utf8.{from_utf8_lossy, trim_end_zeros}
use coresplitter.Protocol.Decode.{
  DecodedValue, string, literal, integer, float, Map, ◌>>=◌, range, u32_range, index, Arm,
  first_match, none_if_empty,
}

abbrev pub arm : ℕ → Bool → Option Map → Arm
arm code guard body = record { code = code; guard = guard; body = body }

abbrev pub quotient : ℕ → ℕ → DecodedValue
quotient n d = float (record { numerator = pos n; denominator = d })

-- An `i32` in millionths.
abbrev degrees : ℕ → DecodedValue
degrees bits = float (record { numerator = signed32 bits; denominator = 1_000_000 })

abbrev stats_name : ℕ → DecodedValue
stats_name n =
    if n == 0
    then literal "core"
    else if n == 1
    then literal "radio"
    else if n == 2
    then literal "packets"
    else literal "unknown"

abbrev pub trimmed : Bytes → DecodedValue
trimmed bytes = string (trim_end_zeros (from_utf8_lossy bytes))

module _ (hex_encode : Bytes → Bytes) where
  abbrev pub hex : Bytes → DecodedValue
  hex bytes = string (hex_encode bytes)

  -- `if payload.len() > i { hex::encode(&payload[i..j.min(payload.len())]) } else { "" }`
  abbrev hex_up_to : ℕ → ℕ → Bytes → Option DecodedValue
  hex_up_to i j payload =
      if ltb i (length payload)
      then (range i (min j (length payload)) payload >>= λ bytes. some (hex bytes))
      else some (string [])

  -- `if payload.len() > i { String::from_utf8_lossy(&payload[i..]) } else { "" }`
  abbrev pub text_from : ℕ → Bytes → DecodedValue
  text_from i payload = string (from_utf8_lossy (drop i payload))

  unfoldable pub decode_app_start : Bytes → Option Map
  decode_app_start p = index 1 p >>= λ version.
      some (("version", integer version) ∷ ("app", trimmed (drop 8 p)) ∷ [])

  unfoldable pub decode_send_txt_msg : Bytes → Option Map
  decode_send_txt_msg p = index 1 p >>= λ msg_type. index 2 p >>= λ attempt.
      u32_range 3 7 p >>= λ timestamp. hex_up_to 7 13 p >>= λ dst. some (
        ("type", integer msg_type)
        ∷ ("attempt", integer attempt)
        ∷ ("timestamp", integer timestamp)
        ∷ ("to", dst)
        ∷ ("text", text_from 13 p)
        ∷ [])

  unfoldable pub decode_send_channel_txt_msg : Bytes → Option Map
  decode_send_channel_txt_msg p = index 2 p >>= λ channel. u32_range 3 7 p >>= λ timestamp. some (
      ("channel", integer channel)
      ∷ ("timestamp", integer timestamp)
      ∷ ("text", text_from 7 p)
      ∷ [])

  unfoldable pub decode_set_radio_params : Bytes → Option Map
  decode_set_radio_params p = u32_range 1 5 p >>= λ freq. u32_range 5 9 p >>= λ bw.
      index 9 p >>= λ sf. index 10 p >>= λ cr. some (
        ("freq_mhz", quotient freq 1000)
        ∷ ("bw_khz", quotient bw 1000)
        ∷ ("sf", integer sf)
        ∷ ("cr", integer cr)
        ∷ [])

  unfoldable pub decode_set_lat_lon : Bytes → Option Map
  decode_set_lat_lon p = u32_range 1 5 p >>= λ lat.
      u32_range 5 9 p >>= λ lon. some (("lat", degrees lat) ∷ ("lon", degrees lon) ∷ [])

  unfoldable pub decode_set_channel : Bytes → Option Map
  decode_set_channel p = index 1 p >>= λ idx. range 2 34 p >>= λ name. range 34 50 p >>= λ psk.
      some (("channel_idx", integer idx) ∷ ("name", trimmed name) ∷ ("psk", hex psk) ∷ [])

  unfoldable pub telemetry_target : Bytes → Option Map
  telemetry_target p =
      if ltb 4 (length p)
      then (range 4 (min 10 (length p)) p >>= λ target. some (("target", hex target) ∷ []))
      else some (("target", literal "self") ∷ [])

  -- The arms of the `match`, before `_ => {}`.
  unfoldable pub command_arms : Bytes → List Arm
  command_arms p =
      let len = length p in
      arm 0x01 (leb 2 len) (decode_app_start p)
      ∷ arm 0x02 (leb 7 len) (decode_send_txt_msg p)
      ∷ arm 0x03 (leb 7 len) (decode_send_channel_txt_msg p)
      ∷ arm 0x04 (ltb 1 len)
          (u32_range 1 5 p >>= λ lastmod. some (("lastmod", integer lastmod) ∷ []))
      ∷ arm 0x06 (leb 5 len) (u32_range 1 5 p >>= λ time. some (("time", integer time) ∷ []))
      ∷ arm 0x08 true (some (("name", trimmed (drop 1 p)) ∷ []))
      ∷ arm 0x0B (leb 11 len) (decode_set_radio_params p)
      ∷ arm 0x0C (leb 5 len) (u32_range 1 5 p >>= λ power. some (("tx_power", integer power) ∷ []))
      ∷ arm 0x0E (leb 9 len) (decode_set_lat_lon p)
      ∷ arm 0x14 true (some [])
      ∷ arm 0x16 true (some (("query", literal "device_info") ∷ []))
      ∷ arm 0x1A (ltb 33 len)
          (range 1 33 p >>= λ dst. some (("to", hex dst) ∷ ("password", literal "***") ∷ []))
      ∷ arm 0x1F (ltb 1 len) (index 1 p >>= λ idx. some (("channel_idx", integer idx) ∷ []))
      ∷ arm 0x20 (ltb 49 len) (decode_set_channel p)
      ∷ arm 0x25 (leb 5 len) (u32_range 1 5 p >>= λ pin. some (("pin", integer pin) ∷ []))
      ∷ arm 0x27 true (telemetry_target p)
      ∷ arm 0x34 (ltb 2 len)
          (range 2 (min 34 len) p >>= λ target. some (("target", hex target) ∷ []))
      ∷ arm 0x3D (leb 3 len) (index 2 p >>= λ mode. some (("mode", integer mode) ∷ []))
      ∷ arm 0x38 (ltb 1 len) (index 1 p >>= λ st. some (("stats_type", stats_name st) ∷ []))
      ∷ []

  -- `none` is a panic, `some none` is `None`.
  unfoldable pub decode_command_payload : ℕ → Bytes → Option (Option Map)
  decode_command_payload code [] = some none
  decode_command_payload code (b ∷ data_) =
      none_if_empty (first_match code (command_arms (b ∷ data_)))
