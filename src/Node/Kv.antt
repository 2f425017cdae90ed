-- ===== src/Node/Kv.antt =====
-- The key-value store and the time of the last contact sync (src/node/state.rs).
use Prim.Native.String.{String}
use text.Mathlib.Text.{◌==◌ as str_eq}
use text.Mathlib.TextEquality.{eq_iff}
use coresplitter.Base.{
  ℕ, ◌^◌, ◌<◌, ◌≡◌, sym, ap, ◌∙◌, Option, none, some, List, [], ◌∷◌, ◌++◌, arith, if◌then◌else◌,
  length,
}
use coresplitter.Base.Bytes.{
  Bytes, from_le_bytes, to_le_bytes, from_le_bytes-to_le_bytes, length-to_le_bytes,
}
use coresplitter.Node.Sql.{select, delete, first}
use coresplitter.Node.Db.{Db, Result, ok, err, pure}
use coresplitter.Node.Db.Laws.{>>=-ok}
use coresplitter.Node.Db.Tables.{KvRow}
use coresplitter.Node.State.{
  kv_set, kv_get, value_of, decode_synced_at, contacts_synced_at, set_contacts_synced_at,
}

abbrev pub value_in : String → List KvRow → Option Bytes
value_in key rows = value_of (first (select (λ row. str_eq row.key key) rows))

abbrev pub replaced : String → Bytes → List KvRow → List KvRow
replaced key value rows =
    delete (λ row. str_eq row.key key) rows ++ record { key = key; value = value } ∷ []

pub value_in-replaced :
    (k j : String) (v : Bytes) (rows : List KvRow)
    → value_in j (replaced k v rows) ≡ (if str_eq k j then some v else value_in j rows)
unfolding select delete first
value_in-replaced k j v [] = ground (arith, eq_iff k j)
value_in-replaced k j v (row ∷ rows) =
    ground (arith, eq_iff k j, eq_iff row.key k, eq_iff row.key j, value_in-replaced k j v rows)

kv_set-ok :
    (k : String) (v : Bytes) (db db' : Db)
    → kv_set k v db ≡ (ok tt, db')
    → db'.kv_store ≡ replaced k v db.kv_store
unfolding kv_set
kv_set-ok k v db db' e = ground arith

pub kv_get-ok :
    (k : String) (db db' : Db) (value : Option Bytes)
    → kv_get k db ≡ (ok value, db')
    → value ≡ value_in k db.kv_store
unfolding kv_get
kv_get-ok k db db' value e = ground arith

-- A blob that is stored under a key is what that key gives from then on, and no other key's value changes.
pub kv_get-kv_set :
    (k j : String) (v : Bytes) (db db₁ db₂ : Db) (value : Option Bytes)
    → kv_set k v db ≡ (ok tt, db₁)
    → kv_get j db₁ ≡ (ok value, db₂)
    → value ≡ (if str_eq k j then some v else value_in j db.kv_store)
kv_get-kv_set k j v db db₁ db₂ value e f =
    kv_get-ok j db₁ db₂ value f
    ∙ ap (value_in j) (kv_set-ok k v db db₁ e)
    ∙ value_in-replaced k j v db.kv_store

decode_synced_at-some :
    (b : Bytes) (t : ℕ)
    → length b ≡ 8
    → from_le_bytes b ≡ t
    → t < 2 ^ 63
    → decode_synced_at (some b) ≡ some t
decode_synced_at-some b t l e h = ground arith

decode_synced_at-to_le_bytes :
    (t : ℕ) → t < 2 ^ 63 → decode_synced_at (some (to_le_bytes 8 t)) ≡ some t
decode_synced_at-to_le_bytes t h =
    decode_synced_at-some (to_le_bytes 8 t) t (length-to_le_bytes 8 t)
      (from_le_bytes-to_le_bytes 8 t (omega arith)) h

pub contacts_synced_at-ok :
    (db db' : Db) (synced : Option ℕ)
    → contacts_synced_at db ≡ (ok synced, db')
    → synced ≡ decode_synced_at (value_in "contacts_synced_at" db.kv_store)
unfolding contacts_synced_at
contacts_synced_at-ok db db' synced e =
    let (value, mid, read, decoded) =
      >>=-ok (kv_get "contacts_synced_at") (λ v. pure (decode_synced_at v)) db e in
    sym (ap synced_of decoded) ∙ ap decode_synced_at (kv_get-ok _ db mid value read)
  where
    synced_of : Result (Option ℕ) × Db → Option ℕ
    synced_of (ok s, d) = s
    synced_of (err, d) = none

-- The time of a full contact sync that was recorded is read back as it was, up to the end of `i64`.
pub contacts_synced_at-set :
    (t : ℕ) (db db₁ db₂ : Db) (synced : Option ℕ)
    → t < 2 ^ 63
    → set_contacts_synced_at t db ≡ (ok tt, db₁)
    → contacts_synced_at db₁ ≡ (ok synced, db₂)
    → synced ≡ some t
unfolding set_contacts_synced_at
contacts_synced_at-set t db db₁ db₂ synced h e f =
    contacts_synced_at-ok db₁ db₂ synced f
    ∙ ap (λ rows. decode_synced_at (value_in "contacts_synced_at" rows)) (kv_set-ok _ _ db db₁ e)
    ∙ ap decode_synced_at
        (value_in-replaced "contacts_synced_at" "contacts_synced_at" _ db.kv_store)
    ∙ decode_synced_at-to_le_bytes t h
