-- ===== src/Node/Contacts/Map.antt =====
-- The contact table of src/node/state.rs holds one row for each contact of its map, whatever changes it went
-- through.
use coresplitter.Base.{
  ℕ, ◌≤◌, Bool, true, ◌≡◌, ◌↔◌, sym, ap, ◌∙◌, false, inl, inr, some, List, [], ◌∷◌, arith,
  if◌then◌else◌, Bool-cases,
}
use coresplitter.Base.Bytes.{Bytes, bytes_eq, bytes_eq_iff}
use coresplitter.Node.Sql.{select, first}
use coresplitter.Node.Sql.Laws.{Found}
use coresplitter.Node.Db.{Db, ok}
use coresplitter.Node.Db.Laws.{statement-Keeps}
use coresplitter.Node.Db.Tables.{CachedContact, ContactRow}
use coresplitter.Node.State.{upsert_contact, delete_contact, get_contacts, has_key}
use coresplitter.Node.Contacts.{Change, upsert, remove, change, run, spec_run, find, view, view-run}
use coresplitter.Node.Contacts.Listed.{
  get_contacts-ok, Found-listed, how_many, is_under, how_many-listed, how_many-replaced,
  how_many-deleted,
}

-- No key has two rows.
abbrev pub IsKeyed : Db → Type 0
IsKeyed db = (key : Bytes) → how_many (has_key key) db.contacts ≤ 1

find-Found :
    (key : Bytes) (x : CachedContact) (rows : List ContactRow)
    → find key rows ≡ some x
    → Found (λ row. row.contact ≡ x) rows
unfolding select first
find-Found key x [] e = cc
find-Found key x (row ∷ rows) e = elim (Bool-cases (has_key key row)) [
  | inl here ↦ inl (ground (arith, here, e))
  | inr other ↦ inr (find-Found key x rows (ground (arith, other, e)))
]

counted :
    (x : CachedContact) (rows : List ContactRow)
    → Found (λ row. row.contact ≡ x) rows
    → 1 ≤ how_many (has_key x.public_key) rows
counted x [] f = absurd f
counted x (row ∷ rows) (inl e) =
    let mine : has_key x.public_key row ≡ true =
      (bytes_eq_iff row.public_key x.public_key).1 (ap (λ c. c.public_key) e) in
    rw mine (omega arith)
counted x (row ∷ rows) (inr f) = ground (arith, counted x rows f)

-- Where no key has two rows, each row is the one that its key finds.
find-keyed :
    (x : CachedContact) (rows : List ContactRow)
    → how_many (has_key x.public_key) rows ≤ 1
    → Found (λ row. row.contact ≡ x) rows
    → find x.public_key rows ≡ some x
unfolding select first
find-keyed x [] h f = absurd f
find-keyed x (row ∷ rows) h (inl e) =
    let mine : has_key x.public_key row ≡ true =
      (bytes_eq_iff row.public_key x.public_key).1 (ap (λ c. c.public_key) e) in
    rw mine (ap some e)
find-keyed x (row ∷ rows) h (inr f) = elim (Bool-cases (has_key x.public_key row)) [
  | inl mine ↦ absurd (ground (arith, h, mine, counted x rows f))
  | inr other ↦ rw other (find-keyed x rows (ground (arith, h, other)) f)
]

at_most_one : (b : Bool) (m n : ℕ) → m ≤ 1 → n ≤ 1 → (if b then m else n) ≤ 1
at_most_one true m n h k = h
at_most_one false m n h k = k

change-IsKeyed : (c : Change) (db : Db) → IsKeyed db → IsKeyed (change c db)
unfolding upsert_contact delete_contact
change-IsKeyed (upsert now contact) =
    statement-Keeps IsKeyed _ (λ db later h. h)
      λ db h key.
        rw (how_many-replaced now contact key db.contacts)
          (at_most_one (bytes_eq contact.public_key key) 1 _ (omega arith) (h key))
change-IsKeyed (remove removed) =
    statement-Keeps IsKeyed _ (λ db later h. h)
      λ db h key.
        rw (how_many-deleted removed key db.contacts)
          (at_most_one (bytes_eq removed key) 0 _ (omega arith) (h key))

run-IsKeyed : (changes : List Change) (db : Db) → IsKeyed db → IsKeyed (run changes db)
run-IsKeyed [] db h = h
run-IsKeyed (c ∷ changes) db h = run-IsKeyed changes (change c db) (change-IsKeyed c db h)

-- The contact table implements a map from public keys to contacts: after any upserts and deletes, of which some
-- statements may have failed, `get_contacts` lists exactly the contacts that the changes that ran leave in the map
-- under their own keys, each once; no key has two rows, before or after.
pub get_contacts-spec_run :
    (changes : List Change) (db db' : Db) (contacts : List CachedContact)
    → IsKeyed db
    → get_contacts (run changes db) ≡ (ok contacts, db')
    → IsKeyed (run changes db)
      × ((key : Bytes) → how_many (is_under key) contacts ≤ 1)
      × ((x : CachedContact)
          → Found (λ y. y ≡ x) contacts
            ↔ (spec_run changes db.outcomes (view db) x.public_key ≡ some x))
get_contacts-spec_run changes db db' contacts keyed e =
    let after = run changes db in
    let rows = after.contacts in
    let keyed' = run-IsKeyed changes db keyed in
    let same = λ (x : CachedContact). ap (λ map. map x.public_key) (view-run changes db) in
    let listing = get_contacts-ok after db' contacts e in
    (
      keyed',
      λ key. rw listing (rw (how_many-listed key rows) (keyed' key)),
      λ x. rw listing (
        λ f. sym (same x) ∙ find-keyed x rows (keyed' x.public_key) ((Found-listed x rows).0 f),
        λ k. (Found-listed x rows).1 (find-Found x.public_key x rows (same x ∙ k)),
      ),
    )
