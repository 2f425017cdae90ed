-- ===== src/Node/Cursor.antt =====
-- The cursors of the clients (src/node/state.rs, `advance_client_cursor` and `client_cursor`).
use coresplitter.Base.{
  ℕ, ◌≡◌, ap, ◌∙◌, max, Bool, ◌&&◌, ◌⊎◌, inl, inr, Option, none, some, List, [], ◌∷◌, arith, ◌==◌,
  if◌then◌else◌,
}
use coresplitter.Base.Bytes.{Bytes, bytes_eq, bytes_eq_iff}
use coresplitter.Node.Sql.{select, first}
use coresplitter.Node.Db.{Db, Result, ok, err}
use coresplitter.Node.Db.Tables.{ClientRow}
use coresplitter.Node.State.{cursor_in, client_cursor, upsert_client, advance_client_cursor}

-- The cursor after a report of `seen_id`.
abbrev pub forward : Option ℕ → ℕ → ℕ
forward none seen_id = seen_id
forward (some old) seen_id = max old seen_id

abbrev pub same_client : ℕ → Bytes → ℕ → Bytes → Bool
same_client port app q b = port == q && bytes_eq app b

cursor_in-upsert_client :
    (now port : ℕ) (app : Bytes) (seen_id q : ℕ) (b : Bytes) (rows : List ClientRow)
    → cursor_in q b (upsert_client now port app seen_id rows) ≡ (
        if same_client port app q b
        then some (forward (cursor_in port app rows) seen_id)
        else cursor_in q b rows)
unfolding cursor_in upsert_client select first
cursor_in-upsert_client now port app seen_id q b [] = ground arith
cursor_in-upsert_client now port app seen_id q b (row ∷ rows) = ground (
  arith,
  bytes_eq_iff app b,
  bytes_eq_iff row.app_name app,
  bytes_eq_iff row.app_name b,
  cursor_in-upsert_client now port app seen_id q b rows,
)

client_cursor-ok :
    (q : ℕ) (b : Bytes) (db db' : Db) (cursor : Option ℕ)
    → client_cursor q b db ≡ (ok cursor, db')
    → cursor ≡ cursor_in q b db.clients
unfolding client_cursor
client_cursor-ok q b db db' cursor e = ground arith

advance_client_cursor_lem :
    (now port : ℕ) (app : Bytes) (seen_id : ℕ) (db db' : Db) (r : Result (Unit {0}))
    → advance_client_cursor now port app seen_id db ≡ (r, db')
    → ((r ≡ ok tt) × (db'.clients ≡ upsert_client now port app seen_id db.clients))
      ⊎ ((r ≡ err) × (db'.clients ≡ db.clients))
unfolding advance_client_cursor
advance_client_cursor_lem now port app seen_id db db' r e = ground arith

-- Reporting a message as seen moves the cursor of that client, known by port and app name, to the later of
-- the two ids, and no other client's; a report that fails moves none. So no cursor ever goes back.
pub client_cursor-advance_client_cursor :
    (now port : ℕ) (app : Bytes) (seen_id q : ℕ) (b : Bytes) (db db₁ db₂ : Db)
    (r : Result (Unit {0})) (cursor : Option ℕ)
    → advance_client_cursor now port app seen_id db ≡ (r, db₁)
    → client_cursor q b db₁ ≡ (ok cursor, db₂)
    → ((r ≡ ok tt)
        → cursor ≡ (
            if same_client port app q b
            then some (forward (cursor_in port app db.clients) seen_id)
            else cursor_in q b db.clients))
      × ((r ≡ err) → cursor ≡ cursor_in q b db.clients)
client_cursor-advance_client_cursor now port app seen_id q b db db₁ db₂ r cursor e f =
    let read = client_cursor-ok q b db₁ db₂ cursor f in
    elim (advance_client_cursor_lem now port app seen_id db db₁ r e) [
      | inl done ↦ (
        λ k.
            read
            ∙ ap (cursor_in q b) done.1
            ∙ cursor_in-upsert_client now port app seen_id q b db.clients,
        λ k. cc,
      )
      | inr missed ↦ (λ k. cc, λ k. read ∙ ap (cursor_in q b) missed.1)
    ]
