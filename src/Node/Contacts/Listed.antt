-- ===== src/Node/Contacts/Listed.antt =====
-- What `get_contacts` lists of the contact table (src/node/state.rs).
use coresplitter.Base.{
  ℕ, suc, if◌then◌else◌, ◌≡◌, ◌↔◌, ◌⊎◌, inl, inr, refl, sym, ap, ◌∙◌, Bool, true, false, some, List,
  [], ◌∷◌, ◌++◌, map, arith, Bool-cases,
}
use coresplitter.Base.Bytes.{Bytes, bytes_eq, bytes_eq_iff}
use coresplitter.Node.Sql.{select, delete, insert_by, order_by}
use coresplitter.Node.Sql.Laws.{Found}
use coresplitter.Node.Db.{Db, ok}
use coresplitter.Node.Db.Tables.{CachedContact, ContactRow}
use coresplitter.Node.State.{get_contacts, upsert_contact, by_name, has_key}

module _ {A : Type 0} (P : A → Type 0) (le : A → A → Bool) where
  Found-insert_by : (x : A) (ys : List A) → Found P (insert_by le x ys) ↔ (P x ⊎ Found P ys)
  unfolding insert_by
  Found-insert_by x [] = (λ f. f, λ f. f)
  Found-insert_by x (y ∷ ys) = ground (arith, Found-insert_by x ys)

  pub Found-order_by : (xs : List A) → Found P (order_by le xs) ↔ Found P xs
  unfolding order_by
  Found-order_by [] = (λ f. f, λ f. f)
  Found-order_by (x ∷ xs) = ground (arith, Found-insert_by x (order_by le xs), Found-order_by xs)

Found-map :
    {A B : Type 0} (P : B → Type 0) (f : A → B) (xs : List A)
    → Found P (map f xs) ↔ Found (λ x. P (f x)) xs
Found-map P f [] = (λ g. g, λ g. g)
Found-map P f (x ∷ xs) = ground (arith, Found-map P f xs)

abbrev pub how_many : {A : Type 0} → (A → Bool) → List A → ℕ
how_many p [] = 0
how_many p (x ∷ xs) = let n = how_many p xs in if p x then suc n else n

module _ {A : Type 0} (p : A → Bool) (le : A → A → Bool) where
  how_many-insert_by : (x : A) (ys : List A) → how_many p (insert_by le x ys) ≡ how_many p (x ∷ ys)
  unfolding insert_by
  how_many-insert_by x [] = refl
  how_many-insert_by x (y ∷ ys) = ground (arith, how_many-insert_by x ys)

  how_many-order_by : (xs : List A) → how_many p (order_by le xs) ≡ how_many p xs
  unfolding order_by
  how_many-order_by [] = refl
  how_many-order_by (x ∷ xs) =
      how_many-insert_by x (order_by le xs)
      ∙ ap (λ n. if p x then suc n else n) (how_many-order_by xs)

how_many-map :
    {A B : Type 0} (p : B → Bool) (f : A → B) (xs : List A)
    → how_many p (map f xs) ≡ how_many (λ x. p (f x)) xs
how_many-map p f [] = refl
how_many-map p f (x ∷ xs) = ap (λ n. if p (f x) then suc n else n) (how_many-map p f xs)

-- The contact has this public key.
abbrev pub is_under : Bytes → CachedContact → Bool
is_under key contact = bytes_eq contact.public_key key

-- The contacts of a table.
abbrev pub listed : List ContactRow → List CachedContact
listed rows = map (λ row. row.contact) (order_by by_name rows)

pub get_contacts-ok :
    (db db' : Db) (contacts : List CachedContact)
    → get_contacts db ≡ (ok contacts, db')
    → contacts ≡ listed db.contacts
unfolding get_contacts
get_contacts-ok db db' contacts e = ground arith

pub Found-listed :
    (x : CachedContact) (rows : List ContactRow)
    → Found (λ y. y ≡ x) (listed rows) ↔ Found (λ row. row.contact ≡ x) rows
Found-listed x rows = ground (
  arith,
  Found-map (λ y. y ≡ x) (λ row. row.contact) (order_by by_name rows),
  Found-order_by (λ row. row.contact ≡ x) by_name rows,
)

-- What `upsert_contact` leaves of the table.
abbrev pub replaced : ℕ → CachedContact → List ContactRow → List ContactRow
replaced now contact rows =
    delete (has_key contact.public_key) rows
    ++ record { contact = contact; seen_at = some now } ∷ []

pub Found-deleted :
    (key : Bytes) (x : CachedContact) (rows : List ContactRow)
    → Found (λ row. row.contact ≡ x) (delete (has_key key) rows)
      ↔ (Found (λ row. row.contact ≡ x) rows × (bytes_eq x.public_key key ≡ false))
unfolding delete select
Found-deleted key x [] = ground arith
Found-deleted key x (row ∷ rows) = elim (Bool-cases (has_key key row)) [
  | inl out ↦
      let other : row.contact ≡ x → bytes_eq x.public_key key ≡ true =
        λ e. ap (λ y. bytes_eq y.public_key key) (sym e) ∙ out in
      rw out (ground (arith, Found-deleted key x rows, other))
  | inr kept ↦
      let other : row.contact ≡ x → bytes_eq x.public_key key ≡ false =
        λ e. ap (λ y. bytes_eq y.public_key key) (sym e) ∙ kept in
      rw kept (ground (arith, Found-deleted key x rows, other))
]

pub upsert_contact-rows :
    (now : ℕ) (contact : CachedContact) (db : Db)
    → db.outcomes ≡ []
    → (upsert_contact now contact db).1.contacts ≡ replaced now contact db.contacts
unfolding upsert_contact
upsert_contact-rows now contact db e = rw e refl

pub how_many-listed :
    (key : Bytes) (rows : List ContactRow)
    → how_many (is_under key) (listed rows) ≡ how_many (has_key key) rows
how_many-listed key rows =
    how_many-map (is_under key) (λ row. row.contact) (order_by by_name rows)
    ∙ how_many-order_by (has_key key) by_name rows

pub how_many-replaced :
    (now : ℕ) (contact : CachedContact) (key : Bytes) (rows : List ContactRow)
    → how_many (has_key key) (replaced now contact rows)
      ≡ (if bytes_eq contact.public_key key then 1 else how_many (has_key key) rows)
unfolding delete select
how_many-replaced now contact key [] = ground arith
how_many-replaced now contact key (row ∷ rows) = ground (
  arith,
  how_many-replaced now contact key rows,
  bytes_eq_iff row.public_key contact.public_key,
  bytes_eq_iff row.public_key key,
  bytes_eq_iff contact.public_key key,
)

pub how_many-deleted :
    (removed key : Bytes) (rows : List ContactRow)
    → how_many (has_key key) (delete (has_key removed) rows)
      ≡ (if bytes_eq removed key then 0 else how_many (has_key key) rows)
unfolding delete select
how_many-deleted removed key [] = ground arith
how_many-deleted removed key (row ∷ rows) = ground (
  arith,
  how_many-deleted removed key rows,
  bytes_eq_iff row.public_key removed,
  bytes_eq_iff row.public_key key,
  bytes_eq_iff removed key,
)
