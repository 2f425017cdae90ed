-- ===== src/Node/Db/Tables.antt =====
-- The rows of the tables in src/node/state.rs (`migrate`), and `CachedContact` and `CachedChannel`.
-- Text is its UTF-8 bytes. Unix times are numbers from 0 on; an INTEGER that the program fills from a byte,
-- a `u32` or a row id is a number.
use Prim.Native.String.{String}
use coresplitter.Base.{ℕ, Option}
use coresplitter.Base.Bytes.{Bytes}
use coresplitter.Base.Int.{F64}

pub record CachedContact : Type 0 where
  pub public_key : Bytes
  pub name : Bytes
  pub contact_type : ℕ
  pub last_advert : Option ℕ
  pub lat : Option F64
  pub lon : Option F64
  pub raw : Option Bytes

pub record ContactRow : Type 0 where
  pub contact : CachedContact
  pub open contact use *
  pub seen_at : Option ℕ

pub record CachedChannel : Type 0 where
  pub idx : ℕ
  pub name : Bytes
  pub config : Option Bytes

-- The two values of `msg_type`, "contact" and "channel".
pub data MessageType : Type 0 where
  contact channel : MessageType

-- `origin_port` and `origin_app`, which are NULL together.
abbrev pub Origin : Type 0
Origin = Option (ℕ × Bytes)

pub record MessageRow : Type 0 where
  pub id : ℕ
  pub msg_type : MessageType
  pub from_key : Option Bytes
  pub channel_idx : Option ℕ
  pub text : Bytes
  pub timestamp : ℕ
  pub received_at : Option ℕ
  pub frame : Option Bytes
  pub origin : Origin

pub record ClientRow : Type 0 where
  pub port : ℕ
  pub app_name : Bytes
  pub last_seen_id : ℕ
  pub last_connected_at : ℕ

pub record KvRow : Type 0 where
  pub key : String
  pub value : Bytes

pub record RxRow : Type 0 where
  pub id : ℕ
  pub ts : ℕ
  pub code : ℕ
  pub payload : Bytes
