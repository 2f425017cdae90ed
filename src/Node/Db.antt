-- ===== src/Node/Db.antt =====
-- The database of src/node/state.rs. A table is the list of its rows, in the order of their insertion.
-- SQLite and sqlx are not part of the repository: a statement either runs as its SQL says, or fails and
-- changes nothing. Which of the coming statements fail is a list of the database; past its end all run.
pub mod Tables
pub mod Laws
use coresplitter.Base.{ℕ, Bool, true, false, Option, none, some, List, [], ◌∷◌, if◌then◌else◌}
use coresplitter.Base.Bytes.{Bytes}
use coresplitter.Node.Db.Tables.{ContactRow, CachedChannel, MessageRow, ClientRow, KvRow, RxRow}

pub record Db : Type 0 where
  pub contacts : List ContactRow
  pub channels : List CachedChannel
  pub messages : List MessageRow
  -- The largest `messages.id` ever given (AUTOINCREMENT never gives one twice).
  pub message_seq : ℕ
  pub kv_store : List KvRow
  pub raw_rx : List RxRow
  pub raw_rx_seq : ℕ
  pub clients : List ClientRow
  pub outcomes : List Bool

pub data Result {ℓ} (A : Type ℓ) : Type ℓ where
  ok : A → Result A
  err : Result A

-- A method of `NodeState`: a result, and the database after it, also where it failed half way.
abbrev pub Query : Type 0 → Type 0
Query A = Db → Result A × Db

abbrev run_if : {A : Type 0} → List Bool → (Db → A × Db) → Query A
run_if [] run db = (ok (run db).0, (run db).1)
run_if (true ∷ later) run db =
    let db' = record db { outcomes = later } in (ok (run db').0, (run db').1)
run_if (false ∷ later) run db = (err, record db { outcomes = later })

-- One `execute` or `fetch`.
abbrev pub statement : {A : Type 0} → (Db → A × Db) → Query A
statement run db = run_if db.outcomes run db

infixl 5 ◌>>=◌ ◌>>◌
abbrev pub ◌>>=◌ : {A B : Type 0} → Query A → (A → Query B) → Query B
◌>>=◌ m f db = let (r, db') = m db in elim r [ ok a ↦ f a db' | err ↦ (err, db') ]

abbrev pub ◌>>◌ : {A B : Type 0} → Query A → Query B → Query B
m >> k = m >>= λ _. k

abbrev pub pure : {A : Type 0} → A → Query A
pure a db = (ok a, db)
