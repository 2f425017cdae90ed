-- ===== src/Core/Connect/Restore.antt =====
-- src/core.rs: the blobs that `run` loads from the key-value store when it starts without a radio.
pub mod Laws
use Prim.Native.String.{String}
use coresplitter.Base.{
  leb, length, if◌then◌else◌, ℕ, ◌≡◌, refl, sym, ap, ◌∙◌, subst, Bool, true, false, Option, none,
  some, List, [], ◌∷◌,
}
use coresplitter.Base.Bytes.{Bytes, slice}
use coresplitter.Node.Db.{Db, Result, ok, err}
use coresplitter.Node.State.{kv_get, kv_set}
use coresplitter.Node.Kv.{value_in, replaced, value_in-replaced}
use coresplitter.Protocol.Decode.{Map, ◌>>=◌}
use coresplitter.Protocol.Decode.Chain.{bind-some, some-inner}
use coresplitter.Protocol.Decode.Response.{decode_response_payload}
use coresplitter.Core.State.{Core, Clock, with_db}
use coresplitter.Core.Cache.{
  cache_response, extract_radio_identity, extract_max_channels, name_in_blob, channels_in_blob,
}

-- `if let Ok(Some(blob)) = self.state.kv_get(key).await`
abbrev pub with_blob : (Bytes → Core → Option Core) → Result (Option Bytes) × Core → Option Core
with_blob load (ok (some blob), core) = load blob core
with_blob load (ok none, core) = some core
with_blob load (err, core) = some core

abbrev pub unless_known : Option Bytes → Core → Option Core → Option Core
unless_known none core loaded = loaded
unless_known (some blob) core loaded = some core

module _ (hex_encode : Bytes → Bytes) where
  abbrev pub load_self_info : Bytes → Core → Option Core
  load_self_info blob core = extract_radio_identity hex_encode blob core >>= λ core'.
      some (record core' { self_info_raw = some blob })

  abbrev pub load_device_info : Bytes → Core → Option Core
  load_device_info blob core = extract_max_channels hex_encode blob core >>= λ core'.
      some (record core' { device_info_raw = some blob })

  abbrev pub load_battery : Bytes → Core → Option Core
  load_battery blob core = some (record core { battery_info_raw = some blob })

  abbrev pub restore : String → (Bytes → Core → Option Core) → Option Bytes → Core → Option Core
  restore key load known core = unless_known known core (with_blob load (with_db (kv_get key) core))

  -- `none` is a panic of the decoder.
  unfoldable pub restore_blobs : Core → Option Core
  restore_blobs core = restore "self_info_raw" load_self_info core.self_info_raw core >>= λ c.
      restore "device_info_raw" load_device_info c.device_info_raw c >>= λ d.
      restore "battery_info_raw" load_battery d.battery_info_raw d
