-- ===== src/Core/Receive/Panic.antt =====
-- Where `handle_radio_rx` of src/core.rs panics.
use coresplitter.Base.{◌≡◌, ◌≢◌, ◌*◌, ◌↔◌, none, some, [], ◌∷◌, arith, length}
use coresplitter.Base.Bytes.{Bytes, byte_at}
use coresplitter.Protocol.Decode.{◌>>=◌}
use coresplitter.Protocol.Decode.Chain.{bind-total}
use coresplitter.Protocol.Decode.Response.Panic.{IsCut, decode_response_payload-panic}
use coresplitter.Core.State.{Core, Clock, off}
use coresplitter.Core.Log.{log_event, from_radio, decode_payload}
use coresplitter.Core.Log.Panic.{log_event-panic}
use coresplitter.Core.Cache.{cache_response}
use coresplitter.Core.Cache.Total.{cache_response-total, bind_some-total}
use coresplitter.Core.Reply.{route_frame}
use coresplitter.Core.Receive.{handle_radio_rx, record_rx}

uncut-empty : ¬ IsCut 0 0
uncut-empty h = ground (arith, h)

-- Where `hex::encode` writes two digits for a byte: a frame from the radio stops the proxy exactly when the event
-- log is on and the frame is one that the decoder takes to be longer than it is.
pub handle_radio_rx-panic :
    (hex_encode : Bytes → Bytes) (clock : Clock) (payload : Bytes) (c : Core)
    → ((x : Bytes) → length (hex_encode x) ≡ 2 * length x)
    → (handle_radio_rx hex_encode clock payload c ≡ none)
      ↔ ((c.config.event_log_level ≢ off) × IsCut (byte_at payload 0) (length payload))
unfolding handle_radio_rx decode_payload
handle_radio_rx-panic hex_encode clock [] c two_digits = (λ e. cc, λ h. absurd (uncut-empty h.1))
handle_radio_rx-panic hex_encode clock (code ∷ rest) c two_digits =
    let payload = code ∷ rest in
    let level = c.config.event_log_level in
    let log = log_event-panic hex_encode level from_radio code payload in
    let decoded = decode_response_payload-panic hex_encode code payload two_digits in
    let both =
      bind-total (log_event hex_encode level from_radio code payload)
        (λ event. cache_response hex_encode clock code payload c >>= λ e.
          some (route_frame clock payload (record_rx clock code payload e)))
        (λ event.
          bind_some-total (cache_response hex_encode clock code payload c) _
            (cache_response-total hex_encode two_digits clock code payload c)) in
    (
      λ e. let h = log.0 (both.0 e) in (h.0, decoded.0 h.1),
      λ h. both.1 (log.1 (h.0, decoded.1 h.1)),
    )
