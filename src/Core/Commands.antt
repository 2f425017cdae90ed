-- ===== src/Core/Commands.antt =====
-- src/core.rs, `handle_client_command`: a command of a client is logged, answered from what the proxy has, or
-- passed on.
pub mod Answered
pub mod Forward
pub mod Handled
pub mod Panic
use coresplitter.Base.{
  ℕ, Bool, true, false, not, Option, none, some, List, [], ◌∷◌, ◌==◌, if◌then◌else◌, get_elem?,
}
use coresplitter.Base.Bytes.{Bytes}
use coresplitter.Base.Maps.{insert}
use coresplitter.Protocol.Decode.{◌>>=◌}
use coresplitter.Core.State.{Core, ClientCommand, Clock}
use coresplitter.Core.Log.{log_event, to_radio}
use coresplitter.Core.Clients.{client_is_alive}
use coresplitter.Core.Queue.{enqueue_or_dispatch}
use coresplitter.Core.Sessions.{register_session, notify_missed, replay_next_missed}
use coresplitter.Core.Cached.{try_serve_from_cache}

abbrev pub radio_protocol_version : ℕ
radio_protocol_version = 3

abbrev pub note_session : Clock → ℕ → ClientCommand → Core → Core
note_session clock code cmd core = if code == 0x01 then register_session clock cmd core else core

abbrev pub insert_version : ℕ → Option ℕ → Core → Core
insert_version client_id none core = core
insert_version client_id (some version) core = record core {
  protocol_versions = insert client_id version core.protocol_versions;
}

abbrev pub note_version : ℕ → ClientCommand → Core → Core
note_version code cmd core =
    if code == 0x16 then insert_version cmd.client_id (get_elem? cmd.payload 1) core else core

abbrev pub replay_first : Clock → ℕ → ClientCommand → Core → Bool × Core
replay_first clock code cmd core =
    if code == 0x0A then replay_next_missed clock cmd.client_id core else (false, core)

-- A DEVICE_QUERY that reaches the radio keeps the proxy's version.
unfoldable pub forwarded : ℕ → Bytes → Bytes
forwarded code payload = if code == 0x16 then 0x16 ∷ radio_protocol_version ∷ [] else payload

abbrev pub or_forward : Clock → ℕ → ClientCommand → Bool × Core → Core
or_forward clock code cmd (true, core) =
    if code == 0x01 then notify_missed cmd.client_id core else core
or_forward clock code cmd (false, core) =
    enqueue_or_dispatch clock (some cmd.client_id) (forwarded code cmd.payload) core

abbrev pub or_serve : Clock → ℕ → ClientCommand → Bool × Core → Core
or_serve clock code cmd (true, core) = core
or_serve clock code cmd (false, core) =
    or_forward clock code cmd (try_serve_from_cache code cmd core)

unfoldable pub accept_command : Clock → ℕ → ClientCommand → Core → Core
accept_command clock code cmd core =
    or_serve clock code cmd
      (replay_first clock code cmd (note_version code cmd (note_session clock code cmd core)))

-- `none` is a panic.
abbrev pub handle_payload : (Bytes → Bytes) → Clock → ClientCommand → Bytes → Core → Option Core
handle_payload hex_encode clock cmd [] core = some core
handle_payload hex_encode clock cmd (code ∷ rest) core =
    if client_is_alive core cmd.client_id
    then (log_event hex_encode core.config.event_log_level to_radio code (code ∷ rest) >>= λ event.
        some (accept_command clock code cmd core))
    else some core

unfoldable pub handle_client_command : (Bytes → Bytes) → Clock → ClientCommand → Core → Option Core
handle_client_command hex_encode clock cmd core =
    handle_payload hex_encode clock cmd cmd.payload core
