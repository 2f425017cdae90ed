-- ===== src/Core/Clients.antt =====
-- src/core.rs: sending to the clients and to the radio.
pub mod Laws
use coresplitter.Base.{
  ℕ, Bool, true, false, Option, none, some, List, [], ◌∷◌, ◌++◌, map, ◌==◌, if◌then◌else◌,
}
use coresplitter.Base.Bytes.{Bytes}
use coresplitter.Base.Maps.{lookup, update}
use coresplitter.Node.Db.Tables.{Origin}
use coresplitter.Core.Frames.{message_frame_for}
use coresplitter.Core.State.{Core, RadioLink, Session}

abbrev pub is_some {ℓ} : {A : Type ℓ} → Option A → Bool
is_some none = false
is_some (some a) = true

unfoldable pub client_is_alive : Core → ℕ → Bool
client_is_alive core client_id = is_some (lookup client_id core.client_channels)

abbrev pub unwrap_or {ℓ} : {A : Type ℓ} → Option A → A → A
unwrap_or none d = d
unwrap_or (some a) d = a

unfoldable pub protocol_version : Core → ℕ → ℕ
protocol_version core client_id = unwrap_or (lookup client_id core.protocol_versions) 0

abbrev pub push : Bytes → List Bytes → List Bytes
push frame log = log ++ frame ∷ []

unfoldable pub send_to_client : ℕ → Bytes → Core → Core
unfolding protocol_version
send_to_client client_id payload core = record core {
  client_channels =
      update client_id (push (message_frame_for (protocol_version core client_id) payload))
        core.client_channels;
}

-- The loop of `broadcast_to_others`.
abbrev pub is_excluded : Option ℕ → ℕ → Bool
is_excluded none id = false
is_excluded (some exclude_id) id = id == exclude_id

unfoldable pub broadcast_all :
    Core → Option ℕ → Bytes → List (ℕ × List Bytes) → List (ℕ × List Bytes)
unfolding protocol_version
broadcast_all core exclude payload [] = []
broadcast_all core exclude payload ((id, log) ∷ channels) =
    (
      id,
      (if is_excluded exclude id
          then log
          else push (message_frame_for (protocol_version core id) payload) log),
    )
    ∷ broadcast_all core exclude payload channels

unfoldable pub broadcast_to_others : Option ℕ → Bytes → Core → Core
unfolding broadcast_all
broadcast_to_others exclude payload core = record core {
  client_channels = broadcast_all core exclude payload core.client_channels;
}

-- (sent, link after it)
abbrev pub link_send : Bytes → Option RadioLink → Bool × Option RadioLink
link_send data_ none = (false, none)
link_send data_ (some tx) =
    if tx.is_open
    then (true, some (record tx { sent = tx.sent ++ data_ ∷ [] }))
    else (false, some tx)

unfoldable pub send_to_radio : Bytes → Core → Bool × Core
send_to_radio data_ core =
    let (is_sent, tx) = link_send data_ core.radio_send_tx in
    (is_sent, record core { radio_send_tx = tx })

abbrev pub identity : Option Session → Origin
identity none = none
identity (some s) = some (s.port, s.app_name)

unfoldable pub identity_of : Core → ℕ → Origin
identity_of core client_id = identity (lookup client_id core.sessions)

abbrev pub error_frame : Bytes
error_frame = 0x01 ∷ 0x01 ∷ []

-- ERROR to the client of a request, if it has one.
unfoldable pub fail_request : Option ℕ → Core → Core
fail_request none core = core
fail_request (some cid) core = send_to_client cid error_frame core
