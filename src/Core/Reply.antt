-- ===== src/Core/Reply.antt =====
-- src/core.rs: frames of the radio that answer a request, and what an accepted command does.
pub mod Still
pub mod Laws
use coresplitter.Base.{
  ℕ, ◌+◌, ◌-◌, ◌*◌, min, Bool, true, false, not, ◌&&◌, ◌||◌, Option, none, some, List, [], ◌∷◌,
  ◌++◌, ltb, leb, ◌==◌, if◌then◌else◌, length, take, drop,
}
use coresplitter.Base.Bytes.{Bytes, byte_at, slice, u32_at, from_le_bytes}
use coresplitter.Base.Utf8.{from_utf8_lossy, trim_end_zeros}
use coresplitter.Base.Maps.{lookup, insert, remove, retain}
use coresplitter.Node.Db.Tables.{MessageType, Origin}
use coresplitter.Node.State.{NewMessage, set_contacts_synced_at}
use coresplitter.Core.Awaiting.{classify, is_push_event}
use coresplitter.Core.Frames.{channel_text_on_air}
use coresplitter.Core.State.{Core, InFlight, Clock, cmd_code, with_db}
use coresplitter.Core.Clients.{send_to_client, broadcast_to_others}
use coresplitter.Core.Queue.{push_back, queue_contact_refresh, advance_queue, when_idle}
use coresplitter.Core.Sessions.{notify_missed, store_message}

abbrev pub contact_echo : Bytes → Bytes → Bytes
contact_echo pk payload =
    0x07 ∷ take 6 pk
    ++ 0 ∷ byte_at payload 1 ∷ slice 3 7 payload
    ++ from_utf8_lossy (drop 13 payload)

-- The payload has 14 bytes or more.
unfoldable pub synthesize_contact_echo : Clock → ℕ → Origin → Bytes → Core → Core
synthesize_contact_echo clock sender origin payload core = elim core.radio_pubkey [
  | none ↦ core
  | some pk ↦
      let fake = contact_echo pk payload in
      store_message clock
        (record {
          msg_type = MessageType.contact;
          from_key = some (take 6 pk);
          channel_idx = none;
          text = from_utf8_lossy (drop 13 payload);
          timestamp = u32_at payload 3;
          frame = fake;
          origin = origin;
        })
        (broadcast_to_others (some sender) fake core)
]

abbrev pub channel_echo : Option Bytes → Bytes → Bytes
channel_echo name payload =
    0x08 ∷ byte_at payload 2 ∷ 0 ∷ 0 ∷ slice 3 7 payload
    ++ channel_text_on_air name (drop 7 payload)

-- The payload has 8 bytes or more.
unfoldable pub synthesize_channel_echo : Clock → ℕ → Origin → Bytes → Core → Core
synthesize_channel_echo clock sender origin payload core = elim core.radio_pubkey [
  | none ↦ core
  | some pk ↦
      let fake = channel_echo core.radio_name payload in
      store_message clock
        (record {
          msg_type = MessageType.channel;
          from_key = some (take 6 pk);
          channel_idx = some (byte_at payload 2);
          text = from_utf8_lossy (channel_text_on_air core.radio_name (drop 7 payload));
          timestamp = u32_at payload 3;
          frame = fake;
          origin = origin;
        })
        (broadcast_to_others (some sender) fake core)
]

-- APP_START answered by the radio itself.
abbrev pub notify_accepted : Option ℕ → ℕ → Core → Core
notify_accepted none code core = core
notify_accepted (some cid) code core = if code == 0x01 then notify_missed cid core else core

-- The second `match payload[0]`.
unfoldable pub refresh_accepted : InFlight → Core → Core
refresh_accepted done core =
    let payload = done.payload in
    let code = cmd_code done in
    if code == 0x04 && length payload == 1
    then (with_db (set_contacts_synced_at done.sent_unix) core).1
    else if (code == 0x09 || code == 0x0D) && leb 33 (length payload)
    then queue_contact_refresh (slice 1 33 payload) core
    else if code == 0x12
    then push_back none (0x04 ∷ []) core
    else if code == 0x08
    then record core {
      radio_name =
          some (trim_end_zeros (from_utf8_lossy (slice 1 (min (length payload) 32) payload)));
    }
    else core

abbrev pub echo_accepted : Clock → Option ℕ → InFlight → Core → Core
echo_accepted clock none done core = core
echo_accepted clock (some cid) done core =
    if cmd_code done == 0x02 && leb 14 (length done.payload)
    then synthesize_contact_echo clock cid done.origin done.payload core
    else if cmd_code done == 0x03 && leb 8 (length done.payload)
    then synthesize_channel_echo clock cid done.origin done.payload core
    else core

unfoldable pub on_command_accepted : Clock → InFlight → Core → Core
on_command_accepted clock done core =
    let core₁ = notify_accepted done.client_id (cmd_code done) core in
    echo_accepted clock done.client_id done (refresh_accepted done core₁)

abbrev pub pending_ack_ttl : ℕ
pending_ack_ttl = 300000

-- The four bytes of an ack are the number they spell.
abbrev pub record_ack : ℕ → ℕ → Bytes → Core → Core
record_ack now cid payload core = record core {
  pending_acks =
      insert (u32_at payload 2) (cid, now)
        (retain (λ ack entry. ltb (now - entry.1) pending_ack_ttl) core.pending_acks);
}

-- The reply to the client that asked.
unfoldable pub reply_to : ℕ → Option ℕ → ℕ → Bytes → Core → Core
reply_to now none code payload core = core
reply_to now (some cid) code payload core =
    send_to_client cid payload
      (if code == 0x06 && leb 6 (length payload) then record_ack now cid payload core else core)

-- A message that answers a GET_MSG goes to the other clients too.
unfoldable pub fan_out : InFlight → ℕ → Bytes → Core → Core
fan_out f code payload core =
    if cmd_code f == 0x0A && (code == 0x07 || code == 0x08 || code == 0x10 || code == 0x11)
    then broadcast_to_others f.client_id payload core
    else core

abbrev pub accepted_unless_error : Clock → ℕ → InFlight → Core → Core
accepted_unless_error clock code done core =
    if code == 0x01 then core else on_command_accepted clock done core

unfoldable pub route_matched : Clock → InFlight → ℕ → Bytes → Bool → Core → Core
route_matched clock f code payload is_terminator core =
    let core₁ = fan_out f code payload (reply_to clock.instant f.client_id code payload core) in
    elim is_terminator [
      | true ↦
          advance_queue clock
            (accepted_unless_error clock code f (record core₁ { in_flight = none }))
      | false ↦ record core₁ { in_flight = some (record f { last_activity = clock.instant }) }
    ]

-- The pair is (matched, is_terminator).
abbrev pub route_classified : Clock → InFlight → ℕ → Bytes → Core → Bool × Bool → Bool × Core
route_classified clock f code payload core (false, is_terminator) = (false, core)
route_classified clock f code payload core (true, is_terminator) =
    (true, route_matched clock f code payload is_terminator core)

abbrev pub route_request : Clock → ℕ → Bytes → Core → Option InFlight → Bool × Core
route_request clock code payload core none = (false, core)
route_request clock code payload core (some f) =
    route_classified clock f code payload core (classify f.awaiting code)

unfoldable pub try_route_to_in_flight : Clock → ℕ → Bytes → Core → Bool × Core
try_route_to_in_flight clock code payload core =
    route_request clock code payload core core.in_flight

-- The entry is what `remove` took out of the map.
abbrev pub route_removed : ℕ → Bytes → Core → Option (ℕ × ℕ) → Bool × Core
route_removed ack payload core none = (false, core)
route_removed ack payload core (some entry) = (
  true,
  send_to_client entry.0 payload (record core { pending_acks = remove ack core.pending_acks }),
)

unfoldable pub try_route_ack : ℕ → Bytes → Core → Bool × Core
try_route_ack code payload core =
    if code == 0x82 && leb 5 (length payload)
    then (let ack = u32_at payload 1 in
        route_removed ack payload core (lookup ack core.pending_acks))
    else (false, core)

-- A push event from the radio.
unfoldable pub push_event : Clock → ℕ → Bytes → Core → Core
push_event clock code payload core =
    let core₁ =
      if (code == 0x80 || code == 0x81) && leb 33 (length payload)
      then when_idle (advance_queue clock) (queue_contact_refresh (slice 1 33 payload) core)
      else core in
    record core₁ { broadcast_tx = core₁.broadcast_tx ++ payload ∷ [] }

abbrev pub or_push : Clock → ℕ → Bytes → Bool × Core → Core
or_push clock code payload (true, core) = core
or_push clock code payload (false, core) =
    if is_push_event code then push_event clock code payload core else core

abbrev pub or_ack : Clock → ℕ → Bytes → Bool × Core → Core
or_ack clock code payload (true, core) = core
or_ack clock code payload (false, core) =
    or_push clock code payload (try_route_ack code payload core)

-- The steps 1 to 4 of `handle_radio_rx`.
unfoldable pub route_frame : Clock → Bytes → Core → Core
route_frame clock payload core =
    let code = byte_at payload 0 in
    or_ack clock code payload (try_route_to_in_flight clock code payload core)
