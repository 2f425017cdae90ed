-- ===== src/Node/Contacts.antt =====
-- The contact table of src/node/state.rs as a map from public keys to contacts: `upsert_contact`,
-- `delete_contact` and `get_contacts` against it, where any statement may fail.
pub mod Listed
pub mod Map
mod Tests
use coresplitter.Base.{
  ℕ, ◌≡◌, ◌↔◌, refl, sym, ap, ◌∙◌, Bool, true, false, not, inl, inr, Option, none, some, List, [],
  ◌∷◌, ◌++◌, arith, if◌then◌else◌, Bool-cases,
}
use coresplitter.Base.Bytes.{Bytes, bytes_eq, bytes_eq_iff}
use coresplitter.Node.Sql.{select, delete, first}
use coresplitter.Node.Db.{Db}
use coresplitter.Node.Db.Tables.{CachedContact, ContactRow}
use coresplitter.Node.State.{upsert_contact, delete_contact, has_key}

-- A change of the table. The callers of both methods only log what they return.
pub data Change : Type 0 where
  upsert : ℕ → CachedContact → Change
  remove : Bytes → Change

abbrev pub change : Change → Db → Db
change (upsert now contact) db = (upsert_contact now contact db).1
change (remove key) db = (delete_contact key db).1

abbrev pub run : List Change → Db → Db
run [] db = db
run (c ∷ changes) db = run changes (change c db)

-- The map that the table stands for.
abbrev pub Directory : Type 0
Directory = Bytes → Option CachedContact

abbrev pub set_contact : CachedContact → Directory → Directory
set_contact contact view key = if bytes_eq contact.public_key key then some contact else view key

abbrev pub unset_contact : Bytes → Directory → Directory
unset_contact key view other = if bytes_eq key other then none else view other

abbrev pub spec : Change → Directory → Directory
spec (upsert now contact) view = set_contact contact view
spec (remove key) view = unset_contact key view

-- The changes whose statements run; past the end of the outcomes all do.
abbrev pub spec_run : List Change → List Bool → Directory → Directory
spec_run [] outcomes view = view
spec_run (c ∷ changes) [] view = spec_run changes [] (spec c view)
spec_run (c ∷ changes) (true ∷ outcomes) view = spec_run changes outcomes (spec c view)
spec_run (c ∷ changes) (false ∷ outcomes) view = spec_run changes outcomes view

abbrev contact_of : Option ContactRow → Option CachedContact
contact_of none = none
contact_of (some row) = some row.contact

abbrev pub find : Bytes → List ContactRow → Option CachedContact
find key rows = contact_of (first (select (has_key key) rows))

abbrev pub view : Db → Directory
view db key = find key db.contacts

pub find-upserted :
    (now : ℕ) (contact : CachedContact) (key : Bytes) (rows : List ContactRow)
    → find key (
        delete (has_key contact.public_key) rows
        ++ record { contact = contact; seen_at = some now } ∷ [])
      ≡ (if bytes_eq contact.public_key key then some contact else find key rows)
unfolding delete select first
find-upserted now contact key [] = ground arith
find-upserted now contact key (row ∷ rows) = ground (
  arith,
  find-upserted now contact key rows,
  bytes_eq_iff row.public_key contact.public_key,
  bytes_eq_iff row.public_key key,
  bytes_eq_iff contact.public_key key,
)

pub find-removed :
    (key other : Bytes) (rows : List ContactRow)
    → find other (delete (has_key key) rows)
      ≡ (if bytes_eq key other then none else find other rows)
unfolding delete select first
find-removed key other [] = ground arith
find-removed key other (row ∷ rows) = ground (
  arith,
  find-removed key other rows,
  bytes_eq_iff row.public_key key,
  bytes_eq_iff row.public_key other,
  bytes_eq_iff key other,
)

-- A change leaves these outcomes and this map.
abbrev Gives : Db → List Bool → Directory → Type 0
Gives db outcomes after = (db.outcomes ≡ outcomes) × (view db ≡ after)

pub change-free :
    (c : Change) (db : Db) → db.outcomes ≡ [] → Gives (change c db) [] (spec c (view db))
unfolding upsert_contact delete_contact
change-free (upsert now contact) db e =
    rw e (refl, λ i key. find-upserted now contact key db.contacts i)
change-free (remove key) db e = rw e (refl, λ i other. find-removed key other db.contacts i)

pub change-ran :
    (c : Change) (db : Db) (later : List Bool)
    → db.outcomes ≡ true ∷ later
    → Gives (change c db) later (spec c (view db))
unfolding upsert_contact delete_contact
change-ran (upsert now contact) db later e =
    rw e (refl, λ i key. find-upserted now contact key db.contacts i)
change-ran (remove key) db later e = rw e (refl, λ i other. find-removed key other db.contacts i)

pub change-failed :
    (c : Change) (db : Db) (later : List Bool)
    → db.outcomes ≡ false ∷ later
    → Gives (change c db) later (view db)
unfolding upsert_contact delete_contact
change-failed (upsert now contact) db later e = rw e (refl, refl)
change-failed (remove key) db later e = rw e (refl, refl)

view-steps :
    (c : Change) (changes : List Change) (db : Db)
    → ((outcomes : List Bool) (map : Directory)
        → Gives (change c db) outcomes map
        → view (run changes (change c db)) ≡ spec_run changes outcomes map)
    → (outcomes : List Bool) → db.outcomes ≡ outcomes
    → view (run changes (change c db)) ≡ spec_run (c ∷ changes) outcomes (view db)
view-steps c changes db after [] e = after [] (spec c (view db)) (change-free c db e)
view-steps c changes db after (true ∷ later) e =
    after later (spec c (view db)) (change-ran c db later e)
view-steps c changes db after (false ∷ later) e = after later (view db) (change-failed c db later e)

-- After any changes the map that the table stands for is the one that the changes that ran leave.
pub view-run :
    (changes : List Change) (db : Db)
    → view (run changes db) ≡ spec_run changes db.outcomes (view db)
view-run [] db = refl
view-run (c ∷ changes) db =
    view-steps c changes db
      (λ outcomes map g.
        view-run changes (change c db)
        ∙ ap (λ o. spec_run changes o (view (change c db))) g.0
        ∙ ap (spec_run changes outcomes) g.1)
      db.outcomes refl
