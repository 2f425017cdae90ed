-- ===== src/Core/Cached.antt =====
-- src/core.rs: what the core answers from its caches, in the frames of the firmware.
pub mod Stream
use coresplitter.Base.{
  ℕ, ◌+◌, ◌-◌, ◌*◌, ◌%◌, ◌^◌, max, Bool, true, false, ◌&&◌, Option, none, some, List, [], ◌∷◌, ◌++◌,
  ltb, leb, ◌==◌, if◌then◌else◌, length, take, drop, replicate, get_elem?,
}
use coresplitter.Base.Bytes.{Bytes, byte_at, slice, u32_at, to_le_bytes, from_le_bytes}
use coresplitter.Base.Int.{ℤ, pos, negsuc, F64}
use coresplitter.Base.Float.{nearest, scaled}
use coresplitter.Node.Db.{Result, ok, err}
use coresplitter.Node.Db.Tables.{CachedContact, CachedChannel}
use coresplitter.Node.State.{get_contacts, get_channels}
use coresplitter.Core.State.{Core, ClientCommand, with_db}
use coresplitter.Core.Clients.{send_to_client, unwrap_or}

abbrev pub contact_frame_len : ℕ
contact_frame_len = 148

-- The first `n` bytes, filled up with zeros.
abbrev pub padded : ℕ → Bytes → Bytes
padded n bytes = take n bytes ++ replicate (n - length bytes) 0

-- The bit pattern of `(f * 1_000_000.0) as i32`, for a float read from an `i32` divided by a constant.
abbrev pub micro_as_i32 : F64 → ℕ
micro_as_i32 f = elim f.numerator [
  | pos n ↦ scaled (nearest n f.denominator) 1_000_000
  | negsuc n ↦ (2 ^ 32 - scaled (nearest (n + 1) f.denominator) 1_000_000) % 2 ^ 32
]

abbrev coordinate : Option F64 → ℕ
coordinate none = 0
coordinate (some f) = micro_as_i32 f

unfoldable pub synthesize_contact_frame : CachedContact → Bytes
synthesize_contact_frame contact =
    (0x03 ∷ [])
    ++ padded 32 contact.public_key
    ++ contact.contact_type % 256 ∷ 0 ∷ 0 ∷ []
    ++ replicate 64 0
    ++ padded 32 contact.name
    ++ to_le_bytes 4 (unwrap_or contact.last_advert 0)
    ++ to_le_bytes 4 (coordinate contact.lat)
    ++ to_le_bytes 4 (coordinate contact.lon)
    ++ replicate 4 0

abbrev raw_frame : CachedContact → Option Bytes → Bytes
raw_frame contact none = synthesize_contact_frame contact
raw_frame contact (some raw) =
    if leb contact_frame_len (length raw)
    then 0x03 ∷ drop 1 (take contact_frame_len raw)
    else synthesize_contact_frame contact

-- The frame of a contact in `respond_contacts`.
unfoldable pub contact_frame : CachedContact → Bytes
contact_frame contact = raw_frame contact contact.raw

abbrev pub lastmod : CachedContact → ℕ
lastmod contact = u32_at (contact_frame contact) 144

abbrev pub is_old : Option ℕ → ℕ → Bool
is_old none lastmod = false
is_old (some since) lastmod = leb lastmod since

-- The loop of `respond_contacts`: `most_recent_lastmod` and the state after it.
unfoldable pub send_contacts : ℕ → Option ℕ → List CachedContact → ℕ → Core → ℕ × Core
send_contacts client_id since [] recent core = (recent, core)
send_contacts client_id since (contact ∷ contacts) recent core =
    let (recent₁, core₁) =
      if is_old since (lastmod contact)
      then (recent, core)
      else (max recent (lastmod contact), send_to_client client_id (contact_frame contact) core) in
    send_contacts client_id since contacts recent₁ core₁

unfoldable pub respond_contacts : ℕ → List CachedContact → Option ℕ → Core → Core
unfolding send_contacts
respond_contacts client_id contacts since core =
    let start = 0x02 ∷ to_le_bytes 4 (length contacts) in
    let (recent, core₁) =
      send_contacts client_id since contacts 0 (send_to_client client_id start core) in
    send_to_client client_id (0x04 ∷ to_le_bytes 4 recent) core₁

unfoldable pub channel_frame : CachedChannel → Bytes
channel_frame channel =
    0x12 ∷ channel.idx % 256 ∷ padded 32 channel.name ++ padded 16 (unwrap_or channel.config [])

abbrev pub respond_channel_info : ℕ → CachedChannel → Core → Core
respond_channel_info client_id channel = send_to_client client_id (channel_frame channel)

abbrev pub serve_blob : ℕ → Option Bytes → Core → Bool × Core
serve_blob client_id none core = (false, core)
serve_blob client_id (some blob) core = (true, send_to_client client_id blob core)

-- The `since` of GET_CONTACTS, when the payload has its four bytes.
abbrev pub since_of : Bytes → Option ℕ
since_of payload = if leb 5 (length payload) then some (u32_at payload 1) else none

abbrev pub serve_contacts : ℕ → Option ℕ → Result (List CachedContact) × Core → Bool × Core
serve_contacts client_id since (err, core) = (false, core)
serve_contacts client_id since (ok [], core) = (false, core)
serve_contacts client_id since (ok (contact ∷ contacts), core) =
    (true, respond_contacts client_id (contact ∷ contacts) since core)

abbrev pub channel_at : ℕ → List CachedChannel → Option CachedChannel
channel_at idx [] = none
channel_at idx (channel ∷ channels) =
    let later = channel_at idx channels in if channel.idx == idx then some channel else later

-- A payload without an index asks for -1, which no row has.
abbrev pub requested_channel : Option ℕ → List CachedChannel → Option CachedChannel
requested_channel none channels = none
requested_channel (some idx) channels = channel_at idx channels

abbrev pub serve_found : ℕ → Option CachedChannel → Core → Bool × Core
serve_found client_id none core = (false, core)
serve_found client_id (some channel) core = (true, respond_channel_info client_id channel core)

abbrev pub serve_channel : ℕ → Option ℕ → Result (List CachedChannel) × Core → Bool × Core
serve_channel client_id idx (err, core) = (false, core)
serve_channel client_id idx (ok channels, core) =
    serve_found client_id (requested_channel idx channels) core

unfoldable pub try_serve_from_cache : ℕ → ClientCommand → Core → Bool × Core
try_serve_from_cache cmd_code cmd core =
    if cmd_code == 0x01
    then serve_blob cmd.client_id core.self_info_raw core
    else if cmd_code == 0x16
    then serve_blob cmd.client_id core.device_info_raw core
    else if cmd_code == 0x14
    then serve_blob cmd.client_id core.battery_info_raw core
    else if cmd_code == 0x04
    then serve_contacts cmd.client_id (since_of cmd.payload) (with_db get_contacts core)
    else if cmd_code == 0x1F
    then serve_channel cmd.client_id (get_elem? cmd.payload 1) (with_db get_channels core)
    else (false, core)
