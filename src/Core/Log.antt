-- ===== src/Core/Log.antt =====
-- src/core.rs: the event log. It decodes every payload that it shows, so it panics where the decoder does.
-- A line of text is its fields; how a decoded value is spelled is left out.
pub mod Panic
use Prim.Native.String.{String}
use coresplitter.Base.{ℕ, Bool, Option, none, some, length}
use coresplitter.Base.Bytes.{Bytes}
use coresplitter.Protocol.Decode.{Map, ◌>>=◌}
use coresplitter.Protocol.Decode.Command.{decode_command_payload}
use coresplitter.Protocol.Decode.Response.{decode_response_payload}
use coresplitter.Protocol.Types.Command
use coresplitter.Protocol.Types.Response
use coresplitter.Core.State.{LogLevel, off, summary, verbose}

-- The arrow "->" and the arrow "<-".
pub data Direction : Type 0 where
  to_radio from_radio : Direction

-- The name of the code, or `CMD_UNKNOWN` and `RESP_UNKNOWN` with the code.
pub data TypeName : Type 0 where
  named : String → TypeName
  unknown : Direction → ℕ → TypeName

pub record LogEvent : Type 0 where
  pub direction : Direction
  pub packet_type : TypeName
  pub decoded : Option Map
  pub payload_hex : Option Bytes
  pub payload_len : Option ℕ

abbrev pub command_name : Option Command.CommandCode → ℕ → TypeName
command_name none code = unknown to_radio code
command_name (some c) code = named (Command.to_string c)

abbrev pub response_name : Option Response.ResponseCode → ℕ → TypeName
response_name none code = unknown from_radio code
response_name (some r) code = named (Response.to_string r)

abbrev pub type_name : Direction → ℕ → TypeName
type_name to_radio code = command_name (Command.from_byte code) code
type_name from_radio code = response_name (Response.from_byte code) code

abbrev pub if_verbose : {A : Type 0} → LogLevel → A → Option A
if_verbose off a = none
if_verbose summary a = none
if_verbose verbose a = some a

module _ (hex_encode : Bytes → Bytes) where
  unfoldable pub decode_payload : Direction → ℕ → Bytes → Option (Option Map)
  decode_payload to_radio code payload = decode_command_payload hex_encode code payload
  decode_payload from_radio code payload = decode_response_payload hex_encode code payload

  abbrev pub event_of : LogLevel → Direction → ℕ → Bytes → Option (Option LogEvent)
  event_of level direction code payload = decode_payload direction code payload >>= λ decoded.
      some (
        some (record {
          direction = direction;
          packet_type = type_name direction code;
          decoded = decoded;
          payload_hex = if_verbose level (hex_encode payload);
          payload_len = if_verbose level (length payload);
        }))

  -- `none` is a panic, `some none` no event.
  unfoldable pub log_event : LogLevel → Direction → ℕ → Bytes → Option (Option LogEvent)
  log_event off direction code payload = some none
  log_event summary direction code payload = event_of summary direction code payload
  log_event verbose direction code payload = event_of verbose direction code payload
