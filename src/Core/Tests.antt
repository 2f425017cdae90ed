-- ===== src/Core/Tests.antt =====
-- The multiplexer of src/core.rs with two clients and one radio.
use coresplitter.Base.{
  ℕ, ◌+◌, ◌*◌, ◌++◌, replicate, List, ◌≡◌, ◌↔◌, ◌⊎◌, refl, true, false, none, some, [], ◌∷◌, arith,
  length,
}
use coresplitter.Base.Bytes.{Bytes, byte_at}
use coresplitter.Node.Tests.{three, app, two_days}
use coresplitter.Base.Maps.{lookup}
use coresplitter.Node.Sql.{select, first}
use coresplitter.Node.State.{Backlog}
use coresplitter.Core.Awaiting.{one_of, classify, awaiting_for}
use coresplitter.Core.Awaiting.Laws.{classify-push, classify-stream}
use coresplitter.Core.Frames.{message_frame_for}
use coresplitter.Core.State.{BackendType, LogLevel, Core, InFlight, Clock}
use coresplitter.Core.Clients.{error_frame, protocol_version}
use coresplitter.Core.Clients.Laws.{outbox}
use coresplitter.Core.Queue.{enqueue_or_dispatch, fail_requests}
use coresplitter.Core.Queue.Failure.{fail_requests-answered}
use coresplitter.Core.Queue.Silent.{IsClosed, ticks, ticks-IsClosed}
use coresplitter.Core.Queue.Outcome.{IsAccounted, enqueue_or_dispatch-IsAccounted}
use coresplitter.Core.Reply.{reply_to, try_route_ack}
use coresplitter.Core.Reply.Laws.{try_route_ack-reply_to}
use coresplitter.Core.Sessions.{replay_next_missed, pending_of}
use coresplitter.Core.Sessions.Laws.{replay_next_missed-next}
use coresplitter.Base.Bytes.{All}
use coresplitter.Base.Int.{pos, negsuc}
use coresplitter.Base.Float.{nearest, scaled}
use coresplitter.Node.Db.Tables.{CachedContact}
use coresplitter.Core.Cached.{
  respond_contacts, contact_frame, synthesize_contact_frame, micro_as_i32,
}
use coresplitter.Core.Cached.Stream.{
  cached_reply, IsReply, IsContactFrame, frames_of, recent_contacts, respond_contacts-IsReply,
}

abbrev pub clock : Clock
clock = record { instant = 10_000; unix = 500 }

abbrev asked : InFlight
asked = record {
  client_id = some 1;
  payload = 0x05 ∷ [];
  last_activity = 4_000;
  sent_unix = 494;
  awaiting = one_of (0x09 ∷ []);
  origin = none;
}

-- Client 1 waits for the time, its next request and one of client 2 are queued; client 2 missed two messages.
abbrev pub busy : Core
busy = record {
  config = record {
    backend_type = BackendType.serial;
    serial_port = some "/dev/ttyUSB0";
    serial_baud = 115_200;
    ble_address = none;
    ble_pin = "123456";
    tcp_backend_host = none;
    tcp_backend_port = 5000;
    tcp_frontend_host = "0.0.0.0";
    tcp_frontend_ports = 5000 ∷ [];
    data_dir = "./data";
    event_log_level = LogLevel.summary;
    event_log_json = false;
    record_radio_rx = false;
    retention = two_days;
    new_client_backlog = Backlog.off;
  };
  db = three;
  self_info_raw = none;
  device_info_raw = none;
  battery_info_raw = none;
  radio_pubkey = none;
  radio_name = none;
  max_channels = 2;
  radio_send_tx = some (record { is_open = true; sent = [] });
  broadcast_tx = [];
  radio_up = true;
  client_channels = (1, []) ∷ (2, []) ∷ [];
  in_flight = some asked;
  pending_queue =
      record { client_id = some 2; payload = 0x14 ∷ [] }
      ∷ record { client_id = some 1; payload = 0x2B ∷ [] }
      ∷ [];
  pending_acks = [];
  sessions = (2, record { port = 5000; app_name = app; pending = 1 ∷ 3 ∷ [] }) ∷ [];
  protocol_versions = (2, 3) ∷ [];
}

abbrev pub idle : Core
idle = record busy { in_flight = none; pending_queue = [] }

enqueue_or_dispatch-IsAccounted_example :
    IsAccounted clock 1 (0x05 ∷ []) idle (enqueue_or_dispatch clock (some 1) (0x05 ∷ []) idle)
enqueue_or_dispatch-IsAccounted_example = enqueue_or_dispatch-IsAccounted clock 1 (0x05 ∷ []) idle

fail_requests-answered_example :
    (outbox 1 (fail_requests busy) ≡ some (error_frame ∷ error_frame ∷ []))
    × ((fail_requests busy).in_flight ≡ none)
    × ((fail_requests busy).pending_queue ≡ [])
    × ((fail_requests busy).radio_send_tx ≡ none)
fail_requests-answered_example = fail_requests-answered 1 busy

abbrev seconds : ℕ → Clock
seconds n = record { instant = 1000 * n; unix = 490 + n }

-- The tick in between finds the second request not yet overdue.
ticks-IsClosed_example :
    IsClosed busy (ticks (seconds 10 ∷ seconds 11 ∷ seconds 15 ∷ seconds 20 ∷ []) busy)
ticks-IsClosed_example =
    ticks-IsClosed (seconds 10 ∷ seconds 11 ∷ seconds 15 ∷ seconds 20 ∷ []) busy asked refl
      (omega arith)

replay_next_missed-next_example :
    ((replay_next_missed clock 2 busy).0 ≡ true)
    × (outbox 2 (replay_next_missed clock 2 busy).1 ≡ some ((0x10 ∷ 0 ∷ 0 ∷ 0 ∷ 1 ∷ []) ∷ []))
    × (pending_of (lookup 2 (replay_next_missed clock 2 busy).1.sessions) ≡ 3 ∷ [])
unfolding select first message_frame_for protocol_version
replay_next_missed-next_example =
    replay_next_missed-next clock 2 2 busy
      (record { port = 5000; app_name = app; pending = 1 ∷ 3 ∷ [] }) refl refl

abbrev sent_reply : Bytes
sent_reply = 0x06 ∷ 0 ∷ 0xAA ∷ 0xBB ∷ 0xCC ∷ 0xDD ∷ 0 ∷ 0 ∷ 0 ∷ 0 ∷ []

abbrev ack : Bytes
ack = 0x82 ∷ 0xAA ∷ 0xBB ∷ 0xCC ∷ 0xDD ∷ 0 ∷ []

try_route_ack-reply_to_example :
    let d = reply_to 10_000 (some 1) 0x06 sent_reply idle in
    let (routed, e) = try_route_ack 0x82 ack d in
    (routed ≡ true) × (outbox 2 e ≡ outbox 2 d) × (try_route_ack 0x82 ack e ≡ (false, e))
try_route_ack-reply_to_example =
    try_route_ack-reply_to 10_000 1 2 sent_reply ack idle (omega arith) (omega arith) refl

abbrev self_telemetry : Bytes
self_telemetry = 0x27 ∷ 0 ∷ 0 ∷ 0 ∷ []

classify-push_example : ((classify (awaiting_for self_telemetry) 0x8B).0 ≡ true) ↔ (
    (byte_at self_telemetry 0 ≡ 0x27)
    × (length self_telemetry ≡ 4)
    × (byte_at (0x8B ∷ []) 0 ≡ 0x8B))
classify-push_example = classify-push self_telemetry 0x8B (omega arith) (omega arith)

classify-stream_example : (classify (awaiting_for (0x04 ∷ [])) 0x03 ≡ (true, false)) ↔ (
    (byte_at (0x04 ∷ []) 0 ≡ 0x04)
    × ((byte_at (0x03 ∷ []) 0 ≡ 0x02) ⊎ (byte_at (0x03 ∷ []) 0 ≡ 0x03)))
classify-stream_example = classify-stream (0x04 ∷ []) 0x03 (omega arith)

-- A contact stored with its frame, changed at 0x50, and one without.
abbrev two_contacts : List CachedContact
two_contacts =
    record {
      public_key = replicate 32 1;
      name = b'a' ∷ [];
      contact_type = 1;
      last_advert = none;
      lat = none;
      lon = none;
      raw = some (0x8A ∷ replicate 143 0 ++ 0x50 ∷ 0 ∷ 0 ∷ 0 ∷ []);
    }
    ∷ record {
      public_key = replicate 32 2;
      name = b'b' ∷ [];
      contact_type = 1;
      last_advert = none;
      lat = some (record { numerator = pos 249; denominator = 1_000_000 });
      lon = some (record { numerator = negsuc 40_000_002; denominator = 1_000_000 });
      raw = none;
    }
    ∷ []

respond_contacts-IsReply_example :
    let reply = cached_reply two_contacts (some 0x40) in
    (outbox 1 (respond_contacts 1 two_contacts (some 0x40) idle) ≡ some reply)
    × IsReply (awaiting_for (0x04 ∷ 0x40 ∷ 0 ∷ 0 ∷ 0 ∷ [])) reply
    × All IsContactFrame (frames_of (recent_contacts (some 0x40) two_contacts))
respond_contacts-IsReply_example =
    respond_contacts-IsReply 1 two_contacts (some 0x40) (0x40 ∷ 0 ∷ 0 ∷ 0 ∷ []) idle

reply-contacts : length (cached_reply two_contacts (some 0x40)) ≡ 3
unfolding contact_frame synthesize_contact_frame
reply-contacts = refl

-- A coordinate of 249 millionths goes out as 248; -40000003 comes back whole.
coordinates :
    (micro_as_i32 (record { numerator = pos 249; denominator = 1_000_000 }) ≡ 248)
    × (micro_as_i32 (record { numerator = negsuc 40_000_002; denominator = 1_000_000 })
        ≡ 4_254_967_293)
unfolding nearest scaled
coordinates = (refl, refl)
