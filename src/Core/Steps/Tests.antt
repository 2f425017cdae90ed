-- ===== src/Core/Steps/Tests.antt =====
-- Steps of the loop of src/core.rs with two clients and one radio.
use coresplitter.Base.{◌≡◌, ◌≢◌, ◌↔◌, ◌⊎◌, refl, true, none, some, [], ◌∷◌}
use coresplitter.Base.Bytes.{Bytes}
use coresplitter.Protocol.Decode.{first_match, range}
use coresplitter.Protocol.Decode.Command.{decode_command_payload, command_arms}
use coresplitter.Protocol.Decode.Response.{decode_response_payload, response_arms}
use coresplitter.Protocol.Decode.Tests.{hex_encode, length-hex_encode}
use coresplitter.Core.State.{InFlight, ClientCommand, off}
use coresplitter.Core.Clients.{client_is_alive, send_to_radio}
use coresplitter.Core.Queue.{
  check_in_flight_timeout, enqueue_or_dispatch, dispatch_to_radio, invalidate,
}
use coresplitter.Core.Queue.Frozen.{IsSent, sent}
use coresplitter.Core.Queue.Advance.{IsConserving}
use coresplitter.Core.Log.{log_event, decode_payload}
use coresplitter.Core.Cache.{cache_response, cache_undecoded}
use coresplitter.Core.Cached.{try_serve_from_cache}
use coresplitter.Core.Reply.{route_frame}
use coresplitter.Core.Receive.{handle_radio_rx, record_rx}
use coresplitter.Core.Commands.{handle_client_command, accept_command, forwarded}
use coresplitter.Core.Commands.Handled.{IsHandled, handle_client_command-IsHandled}
use coresplitter.Core.Steps.{Event, handle}
use coresplitter.Core.Steps.Serial.{Closes, handle-serial}
use coresplitter.Core.Steps.Conserving.{handle-IsConserving}
use coresplitter.Core.Steps.Panic.{IsCutEvent, handle-panic}
use coresplitter.Core.Tests.{clock, busy, idle}

timed_out :
    handle hex_encode clock Event.timeout_tick busy ≡ some (check_in_flight_timeout clock busy)
unfolding handle
timed_out = refl

handle-serial_example :
    let d = check_in_flight_timeout clock busy in
    (sent d ≡ sent busy)
    ⊎ ((f : InFlight) × IsSent busy d f
        × ((g : InFlight) → busy.in_flight ≡ some g → Closes clock Event.timeout_tick g))
handle-serial_example =
    handle-serial clock hex_encode Event.timeout_tick busy (check_in_flight_timeout clock busy)
      timed_out

abbrev time_reply : Bytes
time_reply = 0x09 ∷ 1 ∷ 0 ∷ 0 ∷ 0 ∷ []

time_routed :
    handle hex_encode clock (Event.received time_reply) busy
    ≡ some (route_frame clock time_reply busy)
unfolding handle handle_radio_rx log_event decode_payload decode_response_payload first_match
    response_arms range cache_response cache_undecoded record_rx
time_routed = refl

handle-IsConserving_example : IsConserving (route_frame clock time_reply busy)
handle-IsConserving_example =
    handle-IsConserving clock hex_encode (Event.received time_reply) busy
      (route_frame clock time_reply busy) time_routed (λ e. cc)

abbrev device_query : ClientCommand
device_query = record { client_id = 1; local_port = 5000; payload = 0x16 ∷ 9 ∷ [] }

query-handled :
    handle_client_command hex_encode clock device_query idle
    ≡ some (accept_command clock 0x16 device_query idle)
unfolding handle_client_command client_is_alive log_event decode_payload decode_command_payload
    first_match command_arms
query-handled = refl

handle_client_command-IsHandled_example :
    IsHandled clock device_query idle (accept_command clock 0x16 device_query idle)
handle_client_command-IsHandled_example =
    handle_client_command-IsHandled clock device_query hex_encode idle
      (accept_command clock 0x16 device_query idle) query-handled

query-forwarded :
    (accept_command clock 0x16 device_query idle).radio_send_tx
    ≡ some (record { is_open = true; sent = (0x16 ∷ 3 ∷ []) ∷ [] })
unfolding accept_command try_serve_from_cache enqueue_or_dispatch dispatch_to_radio send_to_radio
    invalidate forwarded
query-forwarded = refl

abbrev cut_contacts : Event
cut_contacts = Event.command (record { client_id = 1; local_port = 5000; payload = 0x04 ∷ 1 ∷ [] })

handle-panic_example :
    (handle hex_encode clock cut_contacts idle ≡ none)
    ↔ ((idle.config.event_log_level ≢ off) × IsCutEvent idle cut_contacts)
handle-panic_example = handle-panic hex_encode clock cut_contacts idle length-hex_encode

-- The summary log of the program's default is enough.
handle-panics : handle hex_encode clock cut_contacts idle ≡ none
unfolding handle handle_client_command client_is_alive log_event decode_payload
    decode_command_payload first_match command_arms range
handle-panics = refl
