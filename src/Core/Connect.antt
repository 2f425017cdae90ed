-- ===== src/Core/Connect.antt =====
-- src/core.rs: connecting to the radio, asking who it is, and connecting again. What comes in while the core
-- waits is a list of arrivals with their times; the attempts of the retry loop are a list too. A connection
-- is the outcome of `backend::*::connect`, which is input and output.
pub mod Discards
pub mod Ends
pub mod Liveness
mod Tests
pub mod Settled
pub mod Restore
use coresplitter.Base.{
  ℕ, ◌+◌, ◌*◌, min, Bool, true, false, ◌&&◌, Option, none, some, List, [], ◌∷◌, leb, ◌==◌,
  if◌then◌else◌,
}
use coresplitter.Base.Bytes.{Bytes}
use coresplitter.Protocol.Decode.{◌>>=◌}
use coresplitter.Core.State.{Core, Clock, RadioLink}
use coresplitter.Core.Frames.{build_appstart}
use coresplitter.Core.Clients.{send_to_radio}
use coresplitter.Core.Queue.{fail_requests, sync_from_radio}
use coresplitter.Core.Cache.{cache_response}
use coresplitter.Core.Commands.{radio_protocol_version}

-- What a `select!` of the core wakes up for while it waits for the radio. The sender of the shutdown flag is
-- dropped once it has set it, so from then on `changed` is ready at every turn.
pub data Signal : Type 0 where
  stop : Signal
  -- `None` of `radio_recv_rx`: the link is gone.
  closed : Signal
  frame : Bytes → Signal

pub record Arrival : Type 0 where
  pub clock : Clock
  pub signal : Signal

-- How a wait ends: with the arrivals that are left, with an error, or with a panic; or it has not ended.
pub data Wait : Type 0 where
  ready : Clock → List Arrival → Core → Wait
  failed : Core → Wait
  waiting : Core → Wait
  panicked : Wait

abbrev pub ready_with : Clock → List Arrival → Option Core → Wait
ready_with clock later none = panicked
ready_with clock later (some core) = ready clock later core

abbrev pub self_info_timeout : ℕ
self_info_timeout = 5000

abbrev pub device_info_timeout : ℕ
device_info_timeout = 3000

-- The end of a `sleep(delay)`, or the shutdown flag before it.
pub data Pause : Type 0 where
  slept stopped : Pause

-- Whether the write task of a new link still takes commands: when APP_START is sent, when DEVICE_QUERY is, and when
-- the sync starts.
pub record Writes : Type 0 where
  pub hello : Bool
  pub query : Bool
  pub sync : Bool

-- A backend that could not connect, or a new link with how long it takes commands and what arrives on it.
pub data Connection : Type 0 where
  refused : Connection
  connected : Clock → Writes → List Arrival → Connection

pub record Attempt : Type 0 where
  pub pause : Pause
  pub connection : Connection

abbrev pub fresh_link : RadioLink
fresh_link = record { is_open = true; sent = [] }

-- A failed `connect_backend` leaves the state as it was.
unfoldable pub connect_backend : Core → Core
connect_backend core = record core { radio_send_tx = some fresh_link }

-- `up`: the radio answered. `aborted`: shutdown. `trying`: the attempts are used up, with the next delay.
pub data Reconnection : Type 0 where
  up : Core → Reconnection
  aborted : Core → Reconnection
  trying : ℕ → Core → Reconnection
  hanging : Core → Reconnection
  crashed : Reconnection

abbrev pub max_delay : ℕ
max_delay = 60

abbrev pub next_delay : ℕ → ℕ
next_delay delay = min (delay * 2) max_delay

abbrev pub still_taken : Bool → Option RadioLink → Option RadioLink
still_taken takes none = none
still_taken takes (some tx) = some (record tx { is_open = tx.is_open && takes })

-- The link as it is now; a write task that ended does not come back.
unfoldable pub as_now : Bool → Core → Core
as_now takes core = record core { radio_send_tx = still_taken takes core.radio_send_tx }

-- Nobody looks at whether `sync_from_radio` could send its first command.
unfoldable pub set_up : Bool → Clock → Core → Core
set_up takes clock core = record (sync_from_radio clock (as_now takes core)) { radio_up = true }

-- `again` is the next turn of the loop, on the state that it starts from.
abbrev pub after_init : (Core → Reconnection) → Bool → Wait → Reconnection
after_init again takes (ready clock later core) = up (set_up takes clock core)
after_init again takes (failed core) = again (record core { radio_send_tx = none })
after_init again takes (waiting core) = hanging core
after_init again takes panicked = crashed

abbrev pub device_query : Bytes
device_query = 0x16 ∷ radio_protocol_version ∷ []

-- `send_to_radio(...).await?` and what follows it.
abbrev pub sent_or_failed : (Core → Wait) → Bool × Core → Wait
sent_or_failed next (true, core) = next core
sent_or_failed next (false, core) = failed core

abbrev pub and_then : Wait → (Clock → List Arrival → Core → Wait) → Wait
and_then (ready clock later core) next = next clock later core
and_then (failed core) next = failed core
and_then (waiting core) next = waiting core
and_then panicked next = panicked

-- `warns`: the log shows warnings, which it does unless its level is `off` or `error`.
module _ (hex_encode : Bytes → Bytes) (warns : Bool) where
  -- An empty frame is discarded too, but the warning has its `payload[0]`, which panics where it is shown.
  abbrev pub on_self_frame : Clock → List Arrival → Bytes → Core → Wait → Wait
  on_self_frame clock later [] core again = if warns then panicked else again
  on_self_frame clock later (code ∷ rest) core again =
      if code == 0x05
      then ready_with clock later (cache_response hex_encode clock 0x05 (code ∷ rest) core)
      else again

  -- The arrival that the select wakes up for; `again` is the next turn.
  abbrev pub on_self_signal : Clock → List Arrival → Signal → Core → Wait → Wait
  on_self_signal clock later stop core again = failed core
  on_self_signal clock later closed core again = failed core
  on_self_signal clock later (frame payload) core again =
      on_self_frame clock later payload core again

  -- The deadline is only looked at before each select, which has no timer of its own.
  unfoldable pub wait_for_self_info : ℕ → Clock → List Arrival → Core → Wait
  wait_for_self_info deadline now [] core =
      if leb deadline now.instant then failed core else waiting core
  wait_for_self_info deadline now (arrival ∷ later) core =
      let again = wait_for_self_info deadline arrival.clock later core in
      if leb deadline now.instant
      then failed core
      else on_self_signal arrival.clock later arrival.signal core again

  abbrev pub on_device_frame : Clock → List Arrival → Bytes → Core → Wait → Wait
  on_device_frame clock later [] core again = if warns then panicked else again
  on_device_frame clock later (code ∷ rest) core again =
      if code == 0x0D
      then ready_with clock later (cache_response hex_encode clock 0x0D (code ∷ rest) core)
      else if code == 0x01
      then ready clock later core
      else again

  abbrev pub on_device_signal : Clock → List Arrival → Signal → Core → Wait → Wait
  on_device_signal clock later stop core again = failed core
  on_device_signal clock later closed core again = failed core
  on_device_signal clock later (frame payload) core again =
      on_device_frame clock later payload core again

  -- A radio that does not answer keeps the default of `max_channels`.
  unfoldable pub wait_for_device_info : ℕ → Clock → List Arrival → Core → Wait
  wait_for_device_info deadline now [] core =
      if leb deadline now.instant then ready now [] core else waiting core
  wait_for_device_info deadline now (arrival ∷ later) core =
      let again = wait_for_device_info deadline arrival.clock later core in
      if leb deadline now.instant
      then ready now (arrival ∷ later) core
      else on_device_signal arrival.clock later arrival.signal core again

  abbrev pub query_device : Bool → Clock → List Arrival → Core → Wait
  query_device takes now arrivals core =
      sent_or_failed (wait_for_device_info (now.instant + device_info_timeout) now arrivals)
        (send_to_radio device_query (as_now takes core))

  unfoldable pub initialize_radio : Clock → Writes → List Arrival → Core → Wait
  initialize_radio now writes arrivals core =
      sent_or_failed
        (λ core'.
          and_then (wait_for_self_info (now.instant + self_info_timeout) now arrivals core')
            (query_device writes.query))
        (send_to_radio build_appstart (as_now writes.hello core))

  abbrev pub after_connect : (Core → Reconnection) → Core → Connection → Reconnection
  after_connect again core refused = again core
  after_connect again core (connected clock writes arrivals) =
      after_init again writes.sync (initialize_radio clock writes arrivals (connect_backend core))

  abbrev pub after_pause : (Core → Reconnection) → Core → Connection → Pause → Reconnection
  after_pause again core connection slept = after_connect again core connection
  after_pause again core connection stopped = aborted core

  unfoldable pub reconnection_loop : List Attempt → ℕ → Core → Reconnection
  reconnection_loop [] delay core = trying delay core
  reconnection_loop (attempt ∷ attempts) delay core =
      after_pause (reconnection_loop attempts (next_delay delay)) core attempt.connection
        attempt.pause

  unfoldable pub reconnect_radio : List Attempt → Core → Reconnection
  reconnect_radio attempts core = reconnection_loop attempts 1 (fail_requests core)

  -- `run` up to the blobs that it restores: the first connection, and the attempts if that fails.
  unfoldable pub start : Connection → List Attempt → Core → Reconnection
  start connection attempts core = after_connect (reconnect_radio attempts) core connection
