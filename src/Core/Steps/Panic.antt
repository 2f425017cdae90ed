-- ===== src/Core/Steps/Panic.antt =====
-- Where a step of the loop of `run` in src/core.rs panics.
use coresplitter.Base.{◌≡◌, ◌≢◌, ◌↔◌, ◌*◌, true, none, length}
use coresplitter.Base.Bytes.{Bytes, byte_at}
use coresplitter.Protocol.Decode.Response.Panic.{IsCut}
use coresplitter.Core.State.{Core, Clock, off}
use coresplitter.Core.Clients.{client_is_alive}
use coresplitter.Core.Commands.Panic.{IsCutCommand, handle_client_command-panic}
use coresplitter.Core.Receive.Panic.{handle_radio_rx-panic}
use coresplitter.Core.Steps.{Event, command, received, timeout_tick, maintenance_tick, handle}

-- A command or a frame that the decoder takes to be longer than it is; the command's client is there.
abbrev pub IsCutEvent : Core → Event → Type 0
IsCutEvent c (command cmd) = (client_is_alive c cmd.client_id ≡ true) × IsCutCommand cmd.payload
IsCutEvent c (received payload) = IsCut (byte_at payload 0) (length payload)
IsCutEvent c timeout_tick = ⊥
IsCutEvent c maintenance_tick = ⊥

-- Where `hex::encode` writes two digits for a byte, a step panics exactly when the event log is on and the event
-- is a command, of a client that is there, or a frame, which the decoder takes to be longer than it is: a
-- GET_CONTACTS of 2 to 4 bytes, a SENT of 9, a CONTACT_MSG_RECV_V3 of 13 to 15, a CHANNEL_INFO of 3 to 33. With
-- the log off no step panics.
pub handle-panic :
    (hex_encode : Bytes → Bytes) (clock : Clock) (event : Event) (c : Core)
    → ((x : Bytes) → length (hex_encode x) ≡ 2 * length x)
    → (handle hex_encode clock event c ≡ none)
      ↔ ((c.config.event_log_level ≢ off) × IsCutEvent c event)
unfolding handle
handle-panic hex_encode clock (command cmd) c two_digits =
    let both = handle_client_command-panic hex_encode clock cmd c in
    (λ e. let h = both.0 e in (h.1, (h.0, h.2)), λ h. both.1 (h.1.0, h.0, h.1.1))
handle-panic hex_encode clock (received payload) c two_digits =
    handle_radio_rx-panic hex_encode clock payload c two_digits
handle-panic hex_encode clock timeout_tick c two_digits = (λ e. cc, λ h. absurd h.1)
handle-panic hex_encode clock maintenance_tick c two_digits = (λ e. cc, λ h. absurd h.1)
