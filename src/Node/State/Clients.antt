-- ===== src/Node/State/Clients.antt =====
-- src/node/state.rs: the methods of `NodeState` for clients.
-- `chrono::Utc::now().timestamp()` is the argument `now`.
use coresplitter.Base.{ℕ, max, Bool, ◌&&◌, Option, none, some, List, [], ◌∷◌, ◌==◌, if◌then◌else◌}
use coresplitter.Base.Bytes.{Bytes, bytes_eq}
use coresplitter.Node.Sql.{select, first}
use coresplitter.Node.Db.{Query, statement}
use coresplitter.Node.Db.Tables.{ClientRow}

-- Clients

abbrev pub is_client : ℕ → Bytes → ClientRow → Bool
is_client port app_name row = row.port == port && bytes_eq row.app_name app_name

abbrev last_seen : Option ClientRow → Option ℕ
last_seen none = none
last_seen (some row) = some row.last_seen_id

unfoldable pub cursor_in : ℕ → Bytes → List ClientRow → Option ℕ
cursor_in port app_name rows = last_seen (first (select (is_client port app_name) rows))

unfoldable pub client_cursor : ℕ → Bytes → Query (Option ℕ)
unfolding cursor_in
client_cursor port app_name = statement λ db. (cursor_in port app_name db.clients, db)

-- `INSERT ... ON CONFLICT (port, app_name) DO UPDATE`
unfoldable pub upsert_client : ℕ → ℕ → Bytes → ℕ → List ClientRow → List ClientRow
upsert_client now port app_name seen_id [] =
    record { port = port; app_name = app_name; last_seen_id = seen_id; last_connected_at = now }
    ∷ []
upsert_client now port app_name seen_id (row ∷ rows) =
    if is_client port app_name row
    then record row { last_seen_id = max row.last_seen_id seen_id; last_connected_at = now } ∷ rows
    else row ∷ upsert_client now port app_name seen_id rows

unfoldable pub advance_client_cursor : ℕ → ℕ → Bytes → ℕ → Query (Unit {0})
unfolding upsert_client
advance_client_cursor now port app_name seen_id =
    statement λ db. (tt, record db { clients = upsert_client now port app_name seen_id db.clients })
