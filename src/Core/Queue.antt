-- ===== src/Core/Queue.antt =====
-- src/core.rs: the queue of requests in front of the radio, which answers one at a time.
pub mod Frozen
pub mod Advance
pub mod Failure
pub mod Outcome
pub mod Owed
pub mod Silent
use coresplitter.Base.{
  ℕ, zero, suc, ◌+◌, ◌-◌, Bool, true, false, not, ◌&&◌, ◌||◌, Option, none, some, List, [], ◌∷◌,
  ◌++◌, ltb, leb, ◌==◌, if◌then◌else◌, length,
}
use coresplitter.Base.Bytes.{Bytes, byte_at, bytes_eq, slice}
use coresplitter.Node.Db.{Db}
use coresplitter.Node.Db.Tables.{Origin}
use coresplitter.Node.State.{delete_contact, delete_channel, maintain}
use coresplitter.Core.Awaiting.{awaiting_for}
use coresplitter.Core.State.{Core, InFlight, Queued, Clock, with_db}
use coresplitter.Core.Clients.{client_is_alive, identity_of, send_to_radio, fail_request, is_some}

abbrev pub in_flight_timeout : ℕ
in_flight_timeout = 5000

abbrev origin_of : Option ℕ → Core → Origin
origin_of none core = none
origin_of (some cid) core = identity_of core cid

-- The slot of a request that was just sent.
abbrev pub sent_request : Clock → Option ℕ → Bytes → Core → InFlight
sent_request clock client_id payload core = record {
  client_id = client_id;
  payload = payload;
  last_activity = clock.instant;
  sent_unix = clock.unix;
  awaiting = awaiting_for payload;
  origin = origin_of client_id core;
}

abbrev is_setter : ℕ → Bool
is_setter code =
    code == 0x08
    || code == 0x0B
    || code == 0x0C
    || code == 0x0E
    || code == 0x15
    || code == 0x25
    || code == 0x26
    || code == 0x33

-- The `match cmd_code` of `dispatch_to_radio`; what SQLite answers is only logged.
unfoldable pub invalidate : Bytes → Core → Core
invalidate payload core =
    let code = byte_at payload 0 in
    if code == 0x0F && leb 33 (length payload)
    then (with_db (delete_contact (slice 1 33 payload)) core).1
    else if code == 0x20 && ltb 1 (length payload)
    then (with_db (delete_channel (byte_at payload 1)) core).1
    else if is_setter code
    then record core { self_info_raw = none; device_info_raw = none; battery_info_raw = none }
    else core

-- What `dispatch_to_radio` does once it knows whether the send failed.
abbrev pub after_send : Clock → Option ℕ → Bytes → Bool × Core → Core
after_send clock client_id payload (false, core) = fail_request client_id core
after_send clock client_id payload (true, core) =
    let core' = invalidate payload core in
    record core' { in_flight = some (sent_request clock client_id payload core') }

unfoldable pub dispatch_to_radio : Clock → Option ℕ → Bytes → Core → Core
dispatch_to_radio clock client_id payload core =
    after_send clock client_id payload (send_to_radio payload core)

abbrev pub push_back : Option ℕ → Bytes → Core → Core
push_back client_id payload core = record core {
  pending_queue = core.pending_queue ++ record { client_id = client_id; payload = payload } ∷ [];
}

abbrev pub dispatch_or_enqueue : Clock → Option ℕ → Bytes → Core → Option InFlight → Core
dispatch_or_enqueue clock client_id payload core none =
    dispatch_to_radio clock client_id payload core
dispatch_or_enqueue clock client_id payload core (some f) = push_back client_id payload core

unfoldable pub enqueue_or_dispatch : Clock → Option ℕ → Bytes → Core → Core
enqueue_or_dispatch clock client_id payload core =
    dispatch_or_enqueue clock client_id payload core core.in_flight

-- An entry whose client is gone.
abbrev pub is_orphan : Core → Option ℕ → Bool
is_orphan core none = false
is_orphan core (some cid) = not (client_is_alive core cid)

-- The loop of `advance_queue`, on the entries left in `pending_queue`.
unfoldable pub advance : Clock → List Queued → Core → Core
advance clock [] core = record core { pending_queue = [] }
advance clock (next ∷ queue) core = elim (is_orphan core next.client_id) [
  | true ↦ advance clock queue core
  | false ↦
      let core' =
        dispatch_to_radio clock next.client_id next.payload
          (record core { pending_queue = queue }) in
      elim core'.in_flight [ some f ↦ core' | none ↦ advance clock queue core' ]
]

unfoldable pub advance_queue : Clock → Core → Core
advance_queue clock core = advance clock core.pending_queue core

-- What `advance_queue_sync` does with an entry that it could or could not send.
abbrev pub after_send_sync : Clock → Queued → Bool × Core → Core
after_send_sync clock next (false, core) = fail_request next.client_id core
after_send_sync clock next (true, core) = record core {
  in_flight = some (sent_request clock next.client_id next.payload core);
}

-- The loop of `advance_queue_sync`. An entry that is taken while there is no radio is gone.
unfoldable pub advance_sync : Clock → List Queued → Core → Core
advance_sync clock [] core = record core { pending_queue = [] }
advance_sync clock (next ∷ queue) core = elim (is_orphan core next.client_id) [
  | true ↦ advance_sync clock queue core
  | false ↦
      let core' = record core { pending_queue = queue } in
      elim core'.radio_send_tx [
        | none ↦ core'
        | some tx ↦ after_send_sync clock next (send_to_radio next.payload core')
      ]
]

unfoldable pub advance_queue_sync : Clock → Core → Core
advance_queue_sync clock core = advance_sync clock core.pending_queue core

-- GET_CHANNEL for `n` channels from `idx` on.
abbrev pub channel_requests : ℕ → ℕ → List Queued
channel_requests idx zero = []
channel_requests idx (suc n) =
    record { client_id = none; payload = 0x1F ∷ idx ∷ [] } ∷ channel_requests (suc idx) n

abbrev pub sync_requests : ℕ → List Queued
sync_requests max_channels =
    record { client_id = none; payload = 0x04 ∷ [] } ∷ channel_requests 0 max_channels

unfoldable pub sync_from_radio : Clock → Core → Core
sync_from_radio clock core =
    let core' = record core {
      pending_queue = core.pending_queue ++ sync_requests core.max_channels;
    } in
    elim core'.in_flight [ none ↦ advance_queue_sync clock core' | some f ↦ core' ]

abbrev pub queue_contact_refresh : Bytes → Core → Core
queue_contact_refresh pubkey = push_back none (0x1E ∷ pubkey)

abbrev pub is_overdue : ℕ → Option InFlight → Bool
is_overdue now none = false
is_overdue now (some f) = leb in_flight_timeout (now - f.last_activity)

abbrev pub client_of : Option InFlight → Option ℕ
client_of none = none
client_of (some f) = f.client_id

unfoldable pub check_in_flight_timeout : Clock → Core → Core
check_in_flight_timeout clock core =
    if is_overdue clock.instant core.in_flight
    then advance_queue clock
        (fail_request (client_of core.in_flight) (record core { in_flight = none }))
    else core

unfoldable pub fail_queue : List Queued → Core → Core
fail_queue [] core = core
fail_queue (q ∷ queue) core = fail_queue queue (fail_request q.client_id core)

-- `reconnect_radio` up to its loop.
unfoldable pub fail_requests : Core → Core
fail_requests core =
    let core' =
      fail_request (client_of core.in_flight)
        (record core { radio_send_tx = none; radio_up = false; in_flight = none }) in
    record (fail_queue core'.pending_queue core') { pending_queue = [] }

abbrev is_full_sync : Bytes → Bool
is_full_sync payload = bytes_eq payload (0x04 ∷ [])

abbrev any_full_sync : List Queued → Bool
any_full_sync [] = false
any_full_sync (q ∷ queue) = is_full_sync q.payload || any_full_sync queue

abbrev in_flight_full_sync : Option InFlight → Bool
in_flight_full_sync none = false
in_flight_full_sync (some f) = is_full_sync f.payload

abbrev pub full_sync_pending : Core → Bool
full_sync_pending core = in_flight_full_sync core.in_flight || any_full_sync core.pending_queue

abbrev pub unless_busy : Option InFlight → Core → Core → Core
unless_busy none ran core = ran
unless_busy (some f) ran core = core

abbrev pub when_idle : (Core → Core) → Core → Core
when_idle run core = unless_busy core.in_flight (run core) core

unfoldable pub run_maintenance : Clock → Core → Core
run_maintenance clock core =
    let core' =
      if ltb 0 core.config.retention.contacts_days && not (full_sync_pending core)
      then when_idle (advance_queue clock) (push_back none (0x04 ∷ []) core)
      else core in
    (with_db (maintain clock.unix core.config.retention) core').1
