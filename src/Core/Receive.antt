-- ===== src/Core/Receive.antt =====
-- src/core.rs, `handle_radio_rx`: a frame from the radio is logged, cached, recorded and routed.
pub mod Frozen
pub mod Panic
use coresplitter.Base.{ℕ, Option, none, some, [], ◌∷◌, if◌then◌else◌}
use coresplitter.Base.Bytes.{Bytes}
use coresplitter.Node.State.{insert_raw_rx}
use coresplitter.Protocol.Decode.{◌>>=◌}
use coresplitter.Core.State.{Core, Clock, with_db}
use coresplitter.Core.Log.{log_event, from_radio}
use coresplitter.Core.Cache.{cache_response}
use coresplitter.Core.Reply.{route_frame}

unfoldable pub record_rx : Clock → ℕ → Bytes → Core → Core
record_rx clock code payload core =
    if core.config.record_radio_rx
    then (with_db (insert_raw_rx clock.unix code payload) core).1
    else core

-- `none` is a panic.
unfoldable pub handle_radio_rx : (Bytes → Bytes) → Clock → Bytes → Core → Option Core
handle_radio_rx hex_encode clock [] core = some core
handle_radio_rx hex_encode clock (code ∷ rest) core =
    log_event hex_encode core.config.event_log_level from_radio code (code ∷ rest) >>= λ event.
    cache_response hex_encode clock code (code ∷ rest) core >>= λ core'.
    some (route_frame clock (code ∷ rest) (record_rx clock code (code ∷ rest) core'))
