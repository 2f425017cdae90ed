-- ===== src/Node/State/Cache.antt =====
-- src/node/state.rs: the methods of `NodeState` for contacts, channels, the key-value store and raw_rx.
-- `chrono::Utc::now().timestamp()` is the argument `now`.
use Prim.Native.String.{String}
use text.Mathlib.Text.{◌==◌ as str_eq}
use coresplitter.Base.{ℕ, ◌+◌, Bool, Option, none, some, List, [], ◌∷◌, ◌++◌, map, leb, ◌==◌}
use coresplitter.Base.Bytes.{Bytes, bytes_eq, bytes_le}
use coresplitter.Node.Sql.{select, delete, order_by, first}
use coresplitter.Node.Db.{Query, statement}
use coresplitter.Node.Db.Tables.{CachedContact, ContactRow, CachedChannel, KvRow}

-- Contacts

abbrev pub has_key : Bytes → ContactRow → Bool
has_key key row = bytes_eq row.public_key key

-- `INSERT OR REPLACE` takes the row with the same key out first.
unfoldable pub upsert_contact : ℕ → CachedContact → Query (Unit {0})
upsert_contact now contact = statement λ db. (
  tt,
  record db {
    contacts =
        delete (has_key contact.public_key) db.contacts
        ++ record { contact = contact; seen_at = some now } ∷ [];
  },
)

abbrev pub by_name : ContactRow → ContactRow → Bool
by_name a b = bytes_le a.name b.name

unfoldable pub get_contacts : Query (List CachedContact)
get_contacts = statement λ db. (map (λ row. row.contact) (order_by by_name db.contacts), db)

unfoldable pub delete_contact : Bytes → Query (Unit {0})
delete_contact public_key =
    statement λ db. (tt, record db { contacts = delete (has_key public_key) db.contacts })

-- Channels

unfoldable pub upsert_channel : CachedChannel → Query (Unit {0})
upsert_channel channel = statement λ db. (
  tt,
  record db { channels = delete (λ row. row.idx == channel.idx) db.channels ++ channel ∷ [] },
)

unfoldable pub delete_channel : ℕ → Query (Unit {0})
delete_channel idx =
    statement λ db. (tt, record db { channels = delete (λ row. row.idx == idx) db.channels })

unfoldable pub get_channels : Query (List CachedChannel)
get_channels = statement λ db. (order_by (λ a b. leb a.idx b.idx) db.channels, db)

-- Key-value store

unfoldable pub kv_set : String → Bytes → Query (Unit {0})
kv_set key value = statement λ db. (
  tt,
  record db {
    kv_store =
        delete (λ row. str_eq row.key key) db.kv_store ++ record { key = key; value = value } ∷ [];
  },
)

abbrev pub value_of : Option KvRow → Option Bytes
value_of none = none
value_of (some row) = some row.value

unfoldable pub kv_get : String → Query (Option Bytes)
kv_get key = statement λ db. (value_of (first (select (λ row. str_eq row.key key) db.kv_store)), db)

-- Raw RX recording

unfoldable pub insert_raw_rx : ℕ → ℕ → Bytes → Query (Unit {0})
insert_raw_rx now code payload = statement λ db.
    let id = db.raw_rx_seq + 1 in
    (
      tt,
      record db {
        raw_rx = db.raw_rx ++ record { id = id; ts = now; code = code; payload = payload } ∷ [];
        raw_rx_seq = id;
      },
    )
