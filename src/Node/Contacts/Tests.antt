-- ===== src/Node/Contacts/Tests.antt =====
-- The contact table of src/node/state.rs through a run of changes.
use coresplitter.Base.{ℕ, ◌≤◌, arith, ◌≡◌, ◌↔◌, refl, none, some, List, [], ◌∷◌, replicate}
use coresplitter.Node.Sql.{delete, order_by, select}
use coresplitter.Node.Sql.Laws.{Found}
use coresplitter.Node.Db.Tables.{CachedContact}
use coresplitter.Node.State.{get_contacts, upsert_contact, delete_contact}
use coresplitter.Node.Contacts.{Change, upsert, remove, run, spec_run, view}
use coresplitter.Base.Bytes.{Bytes}
use coresplitter.Node.Contacts.Listed.{how_many, is_under}
use coresplitter.Node.Contacts.Map.{IsKeyed, get_contacts-spec_run}
use coresplitter.Node.Tests.{empty}

abbrev contact : ℕ → ℕ → CachedContact
contact key name = record {
  public_key = replicate 32 key;
  name = name ∷ [];
  contact_type = 1;
  last_advert = none;
  lat = none;
  lon = none;
  raw = none;
}

-- The first contact is renamed and the second dropped.
abbrev changes : List Change
changes =
    upsert 1 (contact 7 b'a')
    ∷ upsert 2 (contact 8 b'b')
    ∷ upsert 3 (contact 7 b'c')
    ∷ remove (replicate 32 8)
    ∷ []

get_contacts-spec_run_example :
    IsKeyed (run changes empty)
    × ((key : Bytes) → how_many (is_under key) (contact 7 b'c' ∷ []) ≤ 1)
    × ((x : CachedContact)
        → Found (λ y. y ≡ x) (contact 7 b'c' ∷ [])
          ↔ (spec_run changes [] (view empty) x.public_key ≡ some x))
unfolding get_contacts upsert_contact delete_contact delete select order_by
get_contacts-spec_run_example =
    get_contacts-spec_run changes empty (run changes empty) (contact 7 b'c' ∷ [])
      (λ key. omega arith) refl
