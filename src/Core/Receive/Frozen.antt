-- ===== src/Core/Receive/Frozen.antt =====
-- What `handle_radio_rx` of src/core.rs does before it routes a frame leaves the requests and the link alone.
use coresplitter.Base.{ℕ, ◌≡◌, sym, ◌⊎◌, inl, inr, some, [], ◌∷◌, arith}
use coresplitter.Base.Bytes.{Bytes}
use coresplitter.Protocol.Decode.{◌>>=◌}
use coresplitter.Protocol.Decode.Chain.{bind-some, some-inner}
use coresplitter.Core.State.{Core, Clock}
use coresplitter.Core.Log.{log_event, from_radio}
use coresplitter.Core.Cache.{cache_response}
use coresplitter.Core.Cache.Frozen.{cache_response-Freezes}
use coresplitter.Core.Reply.{route_frame}
use coresplitter.Core.Queue.Frozen.{IsFrozen, IsFrozen-trans}
use coresplitter.Core.Receive.{handle_radio_rx, record_rx}

record_rx-IsFrozen :
    (clock : Clock) (code : ℕ) (payload : Bytes) (c : Core)
    → IsFrozen c (record_rx clock code payload c)
unfolding record_rx
record_rx-IsFrozen clock code payload c = ground arith

-- A frame that is not empty is routed from a state with the same requests and the same link.
pub handle_radio_rx-routed :
    (hex_encode : Bytes → Bytes) (clock : Clock) (payload : Bytes) (c d : Core)
    → handle_radio_rx hex_encode clock payload c ≡ some d
    → (d ≡ c) ⊎ ((e : Core) × IsFrozen c e × (d ≡ route_frame clock payload e))
unfolding handle_radio_rx
handle_radio_rx-routed hex_encode clock [] c d h = inl (sym (some-inner h))
handle_radio_rx-routed hex_encode clock (code ∷ rest) c d h =
    let payload = code ∷ rest in
    let (event, logged, h₁) =
      bind-some (log_event hex_encode c.config.event_log_level from_radio code payload)
        (λ event. cache_response hex_encode clock code payload c >>= λ e.
          some (route_frame clock payload (record_rx clock code payload e)))
        h in
    let (cached, stored, h₂) =
      bind-some (cache_response hex_encode clock code payload c)
        (λ e. some (route_frame clock payload (record_rx clock code payload e))) h₁ in
    inr (
      record_rx clock code payload cached,
      IsFrozen-trans c cached (record_rx clock code payload cached)
          (cache_response-Freezes clock code payload c hex_encode cached stored)
          (record_rx-IsFrozen clock code payload cached),
      sym (some-inner h₂),
    )
