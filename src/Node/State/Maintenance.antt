-- ===== src/Node/State/Maintenance.antt =====
-- src/node/state.rs: `maintain` and the time of the last contact sync.
-- `chrono::Utc::now().timestamp()` is the argument `now`.
use coresplitter.Base.{
  ℕ, ◌+◌, ◌*◌, ◌-◌, ◌^◌, Bool, ◌&&◌, Option, none, some, List, ltb, ◌==◌, if◌then◌else◌, length,
}
use coresplitter.Base.Bytes.{Bytes, from_le_bytes, to_le_bytes}
use coresplitter.Node.Sql.{delete}
use coresplitter.Node.Db.{Query, statement, ◌>>=◌, ◌>>◌, pure}
use coresplitter.Node.State.Cache.{kv_set, kv_get}

-- Maintenance

pub record Retention : Type 0 where
  pub messages_days : ℕ
  pub raw_rx_days : ℕ
  pub contacts_days : ℕ
  pub clients_days : ℕ

pub record PurgeStats : Type 0 where
  pub messages : ℕ
  pub raw_rx : ℕ
  pub contacts : ℕ
  pub clients : ℕ

abbrev pub secs_per_day : ℕ
secs_per_day = 86_400

-- `t < cutoff(days)`, where the cutoff may lie before 1970.
abbrev pub before_cutoff : ℕ → ℕ → ℕ → Bool
before_cutoff now days t = ltb (t + days * secs_per_day) now

abbrev pub coalesce : Option ℕ → ℕ → ℕ
coalesce none d = d
coalesce (some t) d = t

-- The rows that a DELETE took away.
abbrev pub affected {ℓ} : {A : Type ℓ} → List A → List A → ℕ
affected before after = length before - length after

unfoldable pub purge_messages : ℕ → ℕ → Query ℕ
purge_messages now days = statement λ db.
    let kept =
      delete (λ row. before_cutoff now days (coalesce row.received_at row.timestamp)) db.messages in
    (affected db.messages kept, record db { messages = kept })

unfoldable pub purge_raw_rx : ℕ → ℕ → Query ℕ
purge_raw_rx now days = statement λ db.
    let kept = delete (λ row. before_cutoff now days row.ts) db.raw_rx in
    (affected db.raw_rx kept, record db { raw_rx = kept })

-- `seen_at < min(synced_at, cutoff(days))`
unfoldable pub purge_contacts : ℕ → ℕ → ℕ → Query ℕ
purge_contacts now days synced_at = statement λ db.
    let kept =
      delete
        (λ row.
          ltb (coalesce row.seen_at 0) synced_at && before_cutoff now days (coalesce row.seen_at 0))
        db.contacts in
    (affected db.contacts kept, record db { contacts = kept })

unfoldable pub purge_clients : ℕ → ℕ → Query ℕ
purge_clients now days = statement λ db.
    let kept = delete (λ row. before_cutoff now days row.last_connected_at) db.clients in
    (affected db.clients kept, record db { clients = kept })

abbrev pub when_set : ℕ → (ℕ → Query ℕ) → Query ℕ
when_set days purge = if ltb 0 days then purge days else pure 0

unfoldable pub set_contacts_synced_at : ℕ → Query (Unit {0})
unfolding kv_set
set_contacts_synced_at started_at = kv_set "contacts_synced_at" (to_le_bytes 8 started_at)

-- Eight bytes as an `i64`, none for another length. A negative time stands as 0: no contact was seen before
-- either.
abbrev pub decode_synced_at : Option Bytes → Option ℕ
decode_synced_at none = none
decode_synced_at (some b) =
    if length b == 8
    then some (if ltb (from_le_bytes b) (2 ^ 63) then from_le_bytes b else 0)
    else none

unfoldable pub contacts_synced_at : Query (Option ℕ)
unfolding kv_get
contacts_synced_at = do value ← kv_get "contacts_synced_at"; pure (decode_synced_at value)

abbrev pub purge_missing : ℕ → ℕ → Option ℕ → Query ℕ
purge_missing now days none = pure 0
purge_missing now days (some synced_at) = purge_contacts now days synced_at

-- A pragma is a statement that changes no row.
abbrev pub pragma : Query (Unit {0})
pragma = statement λ db. (tt, db)

abbrev pub vacuum : PurgeStats → Query PurgeStats
vacuum stats = do pragma; pragma; pure stats

-- `maintain` from its last purge on, then from the one before, and so on.
unfoldable pub maintain_clients : ℕ → Retention → ℕ → ℕ → ℕ → Query PurgeStats
maintain_clients now retention purged_messages raw_rx contacts = do
  clients ← when_set retention.clients_days (purge_clients now)
  vacuum (record {
    messages = purged_messages;
    raw_rx = raw_rx;
    contacts = contacts;
    clients = clients;
  })

unfoldable pub maintain_contacts : ℕ → Retention → ℕ → ℕ → Query PurgeStats
maintain_contacts now retention purged_messages raw_rx = do
  contacts ←
      when_set retention.contacts_days (λ days. contacts_synced_at >>= purge_missing now days)
  maintain_clients now retention purged_messages raw_rx contacts

unfoldable pub maintain_raw_rx : ℕ → Retention → ℕ → Query PurgeStats
maintain_raw_rx now retention purged_messages = do
  raw_rx ← when_set retention.raw_rx_days (purge_raw_rx now)
  maintain_contacts now retention purged_messages raw_rx

unfoldable pub maintain : ℕ → Retention → Query PurgeStats
maintain now retention = do
  purged_messages ← when_set retention.messages_days (purge_messages now)
  maintain_raw_rx now retention purged_messages
