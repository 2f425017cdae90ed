-- ===== src/Protocol/Decode/Response.antt =====
-- src/protocol/decode.rs: `decode_response_payload`.
pub mod Total
pub mod Panic
use Prim.Native.String.{String}
use coresplitter.Base.{
  ℕ, zero, suc, ◌+◌, ◌*◌, ◌%◌, Bool, true, false, not, Option, none, some, List, [], ◌∷◌, ◌++◌, ltb,
  leb, ◌==◌, if◌then◌else◌, length, drop,
}
use coresplitter.Base.Bytes.{Bytes, from_le_bytes}
use coresplitter.Base.Int.{pos, signed8, signed32, F64, is_zero}
use coresplitter.Base.Utf8.{from_utf8_lossy}
use coresplitter.Protocol.Decode.{
  DecodedValue, string, literal, integer, float, bool, Map, ◌>>=◌, range, u32_range, index, Arm,
  first_match, none_if_empty,
}
use coresplitter.Protocol.Decode.Command.{arm, quotient, trimmed, hex, text_from}

-- What `if test { ... }` inserts.
abbrev pub when : Bool → Option Map → Option Map
when test body = if test then body else some []

abbrev pub join : Option Map → Option Map → Option Map
join m n = m >>= λ xs. n >>= λ ys. some (xs ++ ys)

abbrev pub u32_entry : String → ℕ → Bytes → Option Map
u32_entry key i p = u32_range i (i + 4) p >>= λ n. some ((key, integer n) ∷ [])

abbrev pub byte_entry : String → ℕ → Bytes → Option Map
byte_entry key i p = index i p >>= λ b. some ((key, integer b) ∷ [])

abbrev pub trimmed_entry : String → ℕ → ℕ → Bytes → Option Map
trimmed_entry key i j p = range i j p >>= λ bytes. some ((key, trimmed bytes) ∷ [])

-- A coordinate that is not zero.
abbrev pub degrees_entry : String → ℕ → Bytes → Option Map
degrees_entry key i p = u32_range i (i + 4) p >>= λ bits.
    let f : F64 = record { numerator = signed32 bits; denominator = 1_000_000 } in
    some (if is_zero f then [] else (key, float f) ∷ [])

-- The name of a number in a short table, `_ => "unknown"` else.
abbrev pub name_in : List String → ℕ → DecodedValue
name_in [] n = literal "unknown"
name_in (name ∷ names) zero = literal name
name_in (name ∷ names) (suc n) = name_in names n

-- `iter().position(|&b| b == 0)`
abbrev pub zero_position : Bytes → Option ℕ
zero_position [] = none
zero_position (b ∷ bytes) =
    let later = zero_position bytes in
    if b == 0 then some 0 else elim later [ none ↦ none | some i ↦ some (suc i) ]

abbrev pub name_end : Bytes → ℕ
name_end bytes = elim (zero_position bytes) [ none ↦ 32 | some i ↦ i ]

abbrev text_types : ℕ → DecodedValue
text_types = name_in ("text" ∷ "command" ∷ "signed" ∷ [])

-- An `i8` in quarters.
abbrev snr_of : ℕ → DecodedValue
snr_of b = float (record { numerator = signed8 b; denominator = 4 })

unfoldable pub decode_message_channel : Bytes → Option Map
decode_message_channel p = index 1 p >>= λ channel. index 2 p >>= λ path_len.
    index 3 p >>= λ txt_type. u32_range 4 8 p >>= λ timestamp. some (
      ("channel", integer channel)
      ∷ ("path_len", integer path_len)
      ∷ ("timestamp", integer timestamp)
      ∷ ("text", string (from_utf8_lossy (drop 8 p)))
      ∷ ("type", name_in ("text" ∷ "command" ∷ []) txt_type)
      ∷ [])

unfoldable pub decode_channel_v3 : Bytes → Option Map
decode_channel_v3 p = index 1 p >>= λ snr. index 4 p >>= λ channel. index 5 p >>= λ path_len.
    index 6 p >>= λ txt_type. u32_range 7 11 p >>= λ timestamp. some (
      ("channel", integer channel)
      ∷ ("snr", snr_of snr)
      ∷ ("path_len", integer (path_len % 0x40))
      ∷ ("timestamp", integer timestamp)
      ∷ ("text", string (from_utf8_lossy (drop 11 p)))
      ∷ ("type", name_in ("text" ∷ "command" ∷ []) txt_type)
      ∷ [])

unfoldable pub decode_battery : Bytes → Option Map
decode_battery p =
    join (range 1 3 p >>= λ mv. some (("level_mv", integer (from_le_bytes mv)) ∷ []))
      (when (leb 11 (length p)) (join (u32_entry "used_kb" 3 p) (u32_entry "total_kb" 7 p)))

unfoldable pub decode_device_info : Bytes → Option Map
decode_device_info p =
    let len = length p in
    join (byte_entry "fw_version" 1 p) (
      join
        (when (ltb 3 len) (
          join (index 2 p >>= λ n. some (("max_contacts", integer (n * 2)) ∷ []))
            (byte_entry "max_channels" 3 p)))
        (join (when (leb 8 len) (u32_entry "ble_pin" 4 p)) (
          join (when (leb 20 len) (trimmed_entry "fw_build" 8 20 p)) (
            join (when (leb 60 len) (trimmed_entry "model" 20 60 p)) (
              join (when (ltb 80 len) (trimmed_entry "version" 60 80 p)) (
                join (when (ltb 81 len) (byte_entry "client_repeat" 80 p))
                  (when (ltb 82 len) (byte_entry "path_hash_mode" 81 p))))))))

unfoldable pub decode_channel_info : Bytes → Option Map
decode_channel_info p = index 1 p >>= λ idx. range 2 34 p >>= λ field.
    range 2 (2 + name_end field) p >>= λ name.
    some (("channel_idx", integer idx) ∷ ("name", string (from_utf8_lossy name)) ∷ [])

module _ (hex_encode : Bytes → Bytes) where
  -- `format!("{}...", &pk[..12])`
  abbrev short_key : ℕ → ℕ → Bytes → Option Map
  short_key i j p = range i j p >>= λ pk. range 0 12 (hex_encode pk) >>= λ prefix.
      some (("public_key", string (prefix ++ b'.' ∷ b'.' ∷ b'.' ∷ [])) ∷ [])

  unfoldable pub decode_contact : Bytes → Option Map
  decode_contact p = join (short_key 1 33 p) (
      index 33 p >>= λ contact_type. index 34 p >>= λ flags. index 35 p >>= λ path_len.
      range 0 (name_end (drop 100 p)) (drop 100 p) >>= λ name.
      join (u32_entry "last_advert" 132 p) (
        join (degrees_entry "lat" 136 p) (
          join (degrees_entry "lon" 140 p) (
            some (
              ("name", string (from_utf8_lossy name))
              ∷ ("type", name_in ("node" ∷ "repeater" ∷ "room" ∷ []) contact_type)
              ∷ ("path_len", integer path_len)
              ∷ [])))))

  -- `name_offset`: the name starts behind sf and cr, where they are there.
  abbrev pub self_name : Bytes → Bytes
  self_name p = if ltb 57 (length p) then drop 58 p else drop 56 p

  unfoldable pub decode_self_info : Bytes → Option Map
  decode_self_info p =
      let len = length p in
      join
        (index 1 p >>= λ n.
          some (("type", name_in ("node" ∷ "client" ∷ "repeater" ∷ "room" ∷ []) n) ∷ []))
        (join (byte_entry "tx_power" 2 p) (
          join (byte_entry "max_tx_power" 3 p) (
            join (short_key 4 36 p) (
              join (degrees_entry "lat" 36 p) (
                join (degrees_entry "lon" 40 p) (
                  join (byte_entry "multi_acks" 44 p) (
                    join (byte_entry "adv_loc_policy" 45 p) (
                      join (byte_entry "telemetry_mode" 46 p) (
                        join (byte_entry "manual_add_contacts" 47 p) (
                          join
                            (u32_range 48 52 p >>= λ freq.
                              some (("freq_mhz", quotient freq 1000) ∷ []))
                            (join
                              (if leb 56 len
                                then (u32_range 52 56 p >>= λ bw.
                                    some (("bw_khz", quotient bw 1000) ∷ []))
                                else some (("bw_khz", quotient 0 1) ∷ []))
                              (join
                                (when (ltb 57 len)
                                  (join (byte_entry "sf" 56 p) (byte_entry "cr" 57 p)))
                                (some (("name", trimmed (self_name p)) ∷ []))))))))))))))

  unfoldable pub decode_sent : Bytes → Option Map
  decode_sent p = index 1 p >>= λ msg_type. range 2 6 p >>= λ ack. u32_range 6 10 p >>= λ timeout.
      some (
        ("msg_type", integer msg_type)
        ∷ ("expected_ack", hex hex_encode ack)
        ∷ ("timeout_ms", integer timeout)
        ∷ [])

  unfoldable pub decode_message : Bytes → Option Map
  decode_message p = range 1 7 p >>= λ from. index 7 p >>= λ path_len. index 8 p >>= λ txt_type.
      u32_range 9 13 p >>= λ timestamp. some (
        ("from", hex hex_encode from)
        ∷ ("path_len", integer path_len)
        ∷ ("timestamp", integer timestamp)
        ∷ ("text", string (from_utf8_lossy (drop 13 p)))
        ∷ ("type", text_types txt_type)
        ∷ [])

  unfoldable pub decode_message_v3 : Bytes → Option Map
  decode_message_v3 p = index 1 p >>= λ snr. range 4 10 p >>= λ from. index 10 p >>= λ path_len.
      index 11 p >>= λ txt_type. u32_range 12 16 p >>= λ timestamp. some (
        ("from", hex hex_encode from)
        ∷ ("snr", snr_of snr)
        ∷ ("path_len", integer (path_len % 0x40))
        ∷ ("timestamp", integer timestamp)
        ∷ ("text", string (from_utf8_lossy (if txt_type == 2 then drop 20 p else drop 16 p)))
        ∷ ("type", text_types txt_type)
        ∷ [])

  -- The arms of the `match`, before `_ => {}`.
  unfoldable pub response_arms : Bytes → List Arm
  response_arms p =
      let len = length p in
      arm 0x00 true
        (join (some (("status", literal "OK") ∷ [])) (when (len == 5) (u32_entry "value" 1 p)))
      ∷ arm 0x01 true (
          join (some (("status", literal "ERROR") ∷ []))
            (when (ltb 1 len) (byte_entry "error_code" 1 p)))
      ∷ arm 0x02 (leb 5 len) (u32_entry "contact_count" 1 p)
      ∷ arm 0x03 (leb 148 len) (decode_contact p)
      ∷ arm 0x04 (leb 5 len) (u32_entry "lastmod" 1 p)
      ∷ arm 0x05 (leb 52 len) (decode_self_info p)
      ∷ arm 0x06 (leb 9 len) (decode_sent p)
      ∷ arm 0x07 (leb 13 len) (decode_message p)
      ∷ arm 0x08 (leb 9 len) (decode_message_channel p)
      ∷ arm 0x09 (leb 5 len) (u32_entry "time" 1 p)
      ∷ arm 0x0A true (some (("messages_available", bool false) ∷ []))
      ∷ arm 0x0C (leb 3 len) (decode_battery p)
      ∷ arm 0x0D (ltb 1 len) (decode_device_info p)
      ∷ arm 0x10 (leb 13 len) (decode_message_v3 p)
      ∷ arm 0x11 (leb 11 len) (decode_channel_v3 p)
      ∷ arm 0x12 (ltb 2 len) (decode_channel_info p)
      ∷ arm 0x82 true (
          if leb 5 len
          then (range 1 5 p >>= λ ack. some (("ack_code", hex hex_encode ack) ∷ []))
          else some (("ack", bool true) ∷ []))
      ∷ arm 0x83 true (some (("messages_waiting", bool true) ∷ []))
      ∷ arm 0x85 true (some (("login", literal "success") ∷ []))
      ∷ arm 0x86 true (some (("login", literal "failed") ∷ []))
      ∷ []

  -- `none` is a panic, `some none` is `None`.
  unfoldable pub decode_response_payload : ℕ → Bytes → Option (Option Map)
  decode_response_payload code [] = some none
  decode_response_payload code (b ∷ data_) =
      none_if_empty (first_match code (response_arms (b ∷ data_)))
