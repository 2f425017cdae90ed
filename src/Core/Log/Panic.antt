-- ===== src/Core/Log/Panic.antt =====
-- Where the event log of src/core.rs panics: where the decoder does, unless the log is off.
use coresplitter.Base.{refl, ◌≡◌, ◌≢◌, ◌↔◌, ℕ, none}
use coresplitter.Base.Bytes.{Bytes}
use coresplitter.Protocol.Decode.Chain.{bind-panic}
use coresplitter.Core.State.{LogLevel, off, summary, verbose}
use coresplitter.Core.Log.{Direction, log_event, decode_payload}

pub log_event-panic :
    (hex_encode : Bytes → Bytes) (level : LogLevel) (direction : Direction) (code : ℕ)
    (payload : Bytes)
    → (log_event hex_encode level direction code payload ≡ none)
      ↔ ((level ≢ off) × (decode_payload hex_encode direction code payload ≡ none))
unfolding log_event
log_event-panic hex_encode off direction code payload = (λ e. cc, λ h. absurd (h.0 refl))
log_event-panic hex_encode summary direction code payload =
    let both = bind-panic (decode_payload hex_encode direction code payload) _ in
    (λ e. (λ k. cc, both.0 e), λ h. both.1 h.1)
log_event-panic hex_encode verbose direction code payload =
    let both = bind-panic (decode_payload hex_encode direction code payload) _ in
    (λ e. (λ k. cc, both.0 e), λ h. both.1 h.1)
