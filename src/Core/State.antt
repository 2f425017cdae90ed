-- ===== src/Core/State.antt =====
-- src/core.rs: the state of `Core`. Channels keep what was sent on them; a `HashMap` is an association list.
-- `Instant` is in milliseconds. The receiving ends, the queue of commands and the shutdown flag are left out.
use Prim.Native.String.{String}
use coresplitter.Base.{ℕ, Bool, Option, List}
use coresplitter.Base.Bytes.{Bytes, byte_at}
use coresplitter.Node.Db.{Db, Result, Query}
use coresplitter.Node.Db.Tables.{Origin}
use coresplitter.Node.State.{Backlog, Retention}
use coresplitter.Core.Awaiting.{Awaiting}

pub data LogLevel : Type 0 where
  off summary verbose : LogLevel

pub data BackendType : Type 0 where
  serial ble tcp : BackendType

pub record CoreConfig : Type 0 where
  pub backend_type : BackendType
  pub serial_port : Option String
  pub serial_baud : ℕ
  pub ble_address : Option String
  pub ble_pin : String
  pub tcp_backend_host : Option String
  pub tcp_backend_port : ℕ
  pub tcp_frontend_host : String
  pub tcp_frontend_ports : List ℕ
  pub data_dir : String
  pub event_log_level : LogLevel
  pub event_log_json : Bool
  pub record_radio_rx : Bool
  pub retention : Retention
  pub new_client_backlog : Backlog

pub record InFlight : Type 0 where
  pub client_id : Option ℕ
  pub payload : Bytes
  pub last_activity : ℕ
  pub sent_unix : ℕ
  pub awaiting : Awaiting
  pub origin : Origin

abbrev pub cmd_code : InFlight → ℕ
cmd_code f = byte_at f.payload 0

pub record Session : Type 0 where
  pub port : ℕ
  pub app_name : Bytes
  pub pending : List ℕ

pub record Queued : Type 0 where
  pub client_id : Option ℕ
  pub payload : Bytes

pub record ClientCommand : Type 0 where
  pub client_id : ℕ
  pub local_port : ℕ
  pub payload : Bytes

-- The sending end to the backend: whether its receiver is still there, and what was sent.
pub record RadioLink : Type 0 where
  pub is_open : Bool
  pub sent : List Bytes

-- `Instant::now()` and `chrono::Utc::now().timestamp()` during one step.
pub record Clock : Type 0 where
  pub instant : ℕ
  pub unix : ℕ

pub record Core : Type 0 where
  pub config : CoreConfig
  pub db : Db
  pub self_info_raw : Option Bytes
  pub device_info_raw : Option Bytes
  pub battery_info_raw : Option Bytes
  pub radio_pubkey : Option Bytes
  pub radio_name : Option Bytes
  pub max_channels : ℕ
  pub radio_send_tx : Option RadioLink
  pub broadcast_tx : List Bytes
  -- `radio_up_tx`: while it is true the frontend lets clients in.
  pub radio_up : Bool
  pub client_channels : List (ℕ × List Bytes)
  pub in_flight : Option InFlight
  pub pending_queue : List Queued
  pub pending_acks : List (ℕ × (ℕ × ℕ))
  pub sessions : List (ℕ × Session)
  pub protocol_versions : List (ℕ × ℕ)

-- A call of a method of `self.state`.
abbrev pub with_db : {A : Type 0} → Query A → Core → Result A × Core
with_db query core = let (r, db') = query core.db in (r, record core { db = db' })
