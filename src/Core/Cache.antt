-- ===== src/Core/Cache.antt =====
-- src/core.rs: what the core keeps of a frame from the radio (`cache_response`). `none` is a panic of the
-- decoder.
pub mod Frozen
pub mod Total
pub mod Contacts
pub mod Messages
pub mod Layouts
pub mod Channels
mod Tests
use Prim.Native.String.{String}
use text.Mathlib.Text.{◌==◌ as str_eq}
use coresplitter.Base.{
  ℕ, ◌+◌, min, Option, none, some, List, [], ◌∷◌, ltb, leb, ◌==◌, if◌then◌else◌, length, take, drop,
}
use coresplitter.Base.Bytes.{Bytes, byte_at, slice, u32_at}
use coresplitter.Base.Int.{F64, signed32, is_zero}
use coresplitter.Base.Utf8.{from_utf8_lossy}
use coresplitter.Protocol.Decode.{DecodedValue, string, literal, integer, float, bool, Map, ◌>>=◌}
use coresplitter.Protocol.Decode.Response.{decode_response_payload, name_end}
use coresplitter.Node.Db.Tables.{MessageType, CachedContact, CachedChannel}
use coresplitter.Node.State.{NewMessage, upsert_contact, upsert_channel, kv_set}
use coresplitter.Core.State.{Core, Clock, with_db}
use coresplitter.Core.Sessions.{store_message}
use coresplitter.Core.Cached.{contact_frame_len}

-- `map.get(key)`
unfoldable pub get : String → Map → Option DecodedValue
get key [] = none
get key ((k, value) ∷ map) = let later = get key map in if str_eq k key then some value else later

abbrev pub name_of : Option DecodedValue → Option Bytes → Option Bytes
name_of (some (string name)) old = some name
name_of (some (literal l)) old = old
name_of (some (integer n)) old = old
name_of (some (float f)) old = old
name_of (some (bool b)) old = old
name_of none old = old

abbrev pub name_in_blob : Option Map → Option Bytes → Option Bytes
name_in_blob none old = old
name_in_blob (some map) old = name_of (get "name" map) old

abbrev pub channels_of : Option DecodedValue → ℕ → ℕ
channels_of (some (integer n)) old = if ltb 0 (min n 255) then min n 255 else old
channels_of (some (string s)) old = old
channels_of (some (literal l)) old = old
channels_of (some (float f)) old = old
channels_of (some (bool b)) old = old
channels_of none old = old

abbrev pub channels_in_blob : Option Map → ℕ → ℕ
channels_in_blob none old = old
channels_in_blob (some map) old = channels_of (get "max_channels" map) old

-- `decoded.get("text")`, where anything but a string is empty.
abbrev pub text_of : Option DecodedValue → Bytes
text_of (some (string s)) = s
text_of (some (literal l)) = []
text_of (some (integer n)) = []
text_of (some (float f)) = []
text_of (some (bool b)) = []
text_of none = []

-- A number, else what stands for it.
abbrev pub number_of : ℕ → DecodedValue → ℕ
number_of d (integer n) = n
number_of d (string s) = d
number_of d (literal l) = d
number_of d (float f) = d
number_of d (bool b) = d

abbrev pub timestamp_of : ℕ → Option DecodedValue → ℕ
timestamp_of now none = now
timestamp_of now (some value) = number_of now value

abbrev pub channel_of : Option DecodedValue → Option ℕ
channel_of none = none
channel_of (some value) = some (number_of 0 value)

-- A coordinate of a CONTACT frame, in millionths.
abbrev pub degrees_at : ℕ → Bytes → Option F64
degrees_at i payload =
    let f : F64 = record { numerator = signed32 (u32_at payload i); denominator = 1_000_000 } in
    if is_zero f then none else some f

abbrev pub name_field : Bytes → Bytes
name_field field = from_utf8_lossy (take (name_end field) field)

-- The payload has 148 bytes or more.
unfoldable pub contact_of : Bytes → CachedContact
contact_of payload = record {
  public_key = slice 1 33 payload;
  name = name_field (slice 100 132 payload);
  contact_type = byte_at payload 33;
  last_advert = some (u32_at payload 132);
  lat = degrees_at 136 payload;
  lon = degrees_at 140 payload;
  raw = some (take contact_frame_len payload);
}

-- The payload has 50 bytes or more.
unfoldable pub channel_info_of : Bytes → CachedChannel
channel_info_of payload = record {
  idx = byte_at payload 1;
  name = name_field (slice 2 34 payload);
  config = some (slice 34 50 payload);
}

-- The messages of the radio have no origin.
abbrev pub contact_message : ℕ → Bytes → Map → NewMessage
contact_message now payload decoded = record {
  msg_type = MessageType.contact;
  from_key = if leb 7 (length payload) then some (slice 1 7 payload) else none;
  channel_idx = none;
  text = text_of (get "text" decoded);
  timestamp = timestamp_of now (get "timestamp" decoded);
  frame = payload;
  origin = none;
}

abbrev pub channel_message : ℕ → Bytes → Map → NewMessage
channel_message now payload decoded = record {
  msg_type = MessageType.channel;
  from_key = none;
  channel_idx = channel_of (get "channel" decoded);
  text = text_of (get "text" decoded);
  timestamp = timestamp_of now (get "timestamp" decoded);
  frame = payload;
  origin = none;
}

-- The payload has 16 bytes or more.
abbrev pub contact_message_v3 : Bytes → NewMessage
contact_message_v3 payload = record {
  msg_type = MessageType.contact;
  from_key = some (slice 4 10 payload);
  channel_idx = none;
  text = from_utf8_lossy (if byte_at payload 11 == 2 then drop 20 payload else drop 16 payload);
  timestamp = u32_at payload 12;
  frame = payload;
  origin = none;
}

-- The payload has 11 bytes or more.
abbrev pub channel_message_v3 : Bytes → NewMessage
channel_message_v3 payload = record {
  msg_type = MessageType.channel;
  from_key = none;
  channel_idx = some (byte_at payload 4);
  text = from_utf8_lossy (drop 11 payload);
  timestamp = u32_at payload 7;
  frame = payload;
  origin = none;
}

abbrev pub store_decoded : Clock → (Map → NewMessage) → Core → Option Map → Core
store_decoded clock message core none = core
store_decoded clock message core (some decoded) = store_message clock (message decoded) core

abbrev pub cache_contact : Clock → Bytes → Core → Core
cache_contact clock payload core = (with_db (upsert_contact clock.unix (contact_of payload)) core).1

abbrev pub cache_channel : Bytes → Core → Core
cache_channel payload core = (with_db (upsert_channel (channel_info_of payload)) core).1

-- Everything but the arms that decode the payload.
unfoldable pub cache_undecoded : Clock → ℕ → Bytes → Core → Core
cache_undecoded clock code payload core =
    if code == 0x03
    then (if leb contact_frame_len (length payload) then cache_contact clock payload core else core)
    else if code == 0x0C
    then record (with_db (kv_set "battery_info_raw" payload) core).1 {
      battery_info_raw = some payload;
    }
    else if code == 0x10
    then (if leb 16 (length payload)
        then store_message clock (contact_message_v3 payload) core
        else core)
    else if code == 0x11
    then (if leb 11 (length payload)
        then store_message clock (channel_message_v3 payload) core
        else core)
    else if code == 0x12
    then (if leb 50 (length payload) then cache_channel payload core else core)
    else core

module _ (hex_encode : Bytes → Bytes) where
  unfoldable pub extract_radio_identity : Bytes → Core → Option Core
  extract_radio_identity blob core = decode_response_payload hex_encode 0x05 blob >>= λ decoded.
      some (record core {
        radio_pubkey = if leb 36 (length blob) then some (slice 4 36 blob) else core.radio_pubkey;
        radio_name = name_in_blob decoded core.radio_name;
      })

  unfoldable pub extract_max_channels : Bytes → Core → Option Core
  extract_max_channels blob core = decode_response_payload hex_encode 0x0D blob >>= λ decoded.
      some (record core { max_channels = channels_in_blob decoded core.max_channels })

  abbrev pub cache_self_info : Bytes → Core → Option Core
  cache_self_info payload core =
      extract_radio_identity payload (with_db (kv_set "self_info_raw" payload) core).1 >>= λ core'.
      some (record core' { self_info_raw = some payload })

  abbrev pub cache_device_info : Bytes → Core → Option Core
  cache_device_info payload core =
      extract_max_channels payload (with_db (kv_set "device_info_raw" payload) core).1 >>= λ core'.
      some (record core' { device_info_raw = some payload })

  unfoldable pub cache_response : Clock → ℕ → Bytes → Core → Option Core
  cache_response clock code payload core =
      if code == 0x05
      then cache_self_info payload core
      else if code == 0x0D
      then cache_device_info payload core
      else if code == 0x07
      then (decode_response_payload hex_encode code payload >>= λ decoded.
          some (store_decoded clock (contact_message clock.unix payload) core decoded))
      else if code == 0x08
      then (decode_response_payload hex_encode code payload >>= λ decoded.
          some (store_decoded clock (channel_message clock.unix payload) core decoded))
      else some (cache_undecoded clock code payload core)
