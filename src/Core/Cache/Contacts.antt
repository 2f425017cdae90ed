-- ===== src/Core/Cache/Contacts.antt =====
-- A contact that the radio sends is what GET_CONTACTS is answered with from then on (src/core.rs).
use coresplitter.Base.{
  ℕ, zero, suc, subst, ◌++◌, ◌≢◌, false, inl, inr, Bool-cases, take-append_length, ◌≤◌, ◌≡◌, ◌↔◌,
  ◌⊎◌, refl, sym, ap, ◌∙◌, true, false, some, List, [], ◌∷◌, arith, leb, if◌then◌else◌, length,
  take, length-take,
}
use coresplitter.Base.Bytes.{Bytes, bytes_eq, bytes_eq_iff}
use coresplitter.Node.Sql.{delete}
use coresplitter.Node.Sql.Laws.{Found, Found-append}
use coresplitter.Node.Db.{Db, ok}
use coresplitter.Node.Db.Tables.{CachedContact, ContactRow}
use coresplitter.Node.State.{get_contacts, upsert_contact, has_key}
use coresplitter.Node.Contacts.Listed.{
  listed, get_contacts-ok, Found-listed, replaced, Found-deleted, upsert_contact-rows, how_many,
  is_under, how_many-listed, how_many-replaced,
}
use coresplitter.Protocol.Decode.Chain.{some-inner}
use coresplitter.Core.State.{Core, Clock}
use coresplitter.Core.Cached.{contact_frame, contact_frame_len}
use coresplitter.Core.Cache.{cache_contact, cache_response, cache_undecoded, contact_of}

take-take : {A : Type 0} (n : ℕ) (xs : List A) → take n (take n xs) ≡ take n xs
take-take zero xs = refl
take-take (suc n) [] = refl
take-take (suc n) (x ∷ xs) = ap (◌∷◌ x) (take-take n xs)

contact_frame-contact_of :
    (rest : Bytes)
    → contact_frame_len ≤ length (0x03 ∷ rest)
    → contact_frame (contact_of (0x03 ∷ rest)) ≡ take contact_frame_len (0x03 ∷ rest)
unfolding contact_frame contact_of
contact_frame-contact_of rest h =
    let whole : leb contact_frame_len (length (take contact_frame_len (0x03 ∷ rest))) ≡ true =
      ground (arith, h, length-take contact_frame_len (0x03 ∷ rest)) in
    rw whole (ap (◌∷◌ 0x03) (take-take 147 rest))

contact_cached :
    (hex_encode : Bytes → Bytes) (clock : Clock) (rest : Bytes) (c d : Core)
    → contact_frame_len ≤ length (0x03 ∷ rest)
    → cache_response hex_encode clock 0x03 (0x03 ∷ rest) c ≡ some d
    → (upsert_contact clock.unix (contact_of (0x03 ∷ rest)) c.db).1 ≡ d.db
unfolding cache_response cache_undecoded
contact_cached hex_encode clock rest c d h e =
    let payload = 0x03 ∷ rest in
    let whole : leb contact_frame_len (length payload) ≡ true = ground (arith, h) in
    ap (λ test. (if test then cache_contact clock payload c else c).db) (sym whole)
    ∙ ap (λ x. x.db) (some-inner e)

public_key-contact_of :
    (key rest : Bytes) → length key ≡ 32 → (contact_of (0x03 ∷ key ++ rest)).public_key ≡ key
unfolding contact_of
public_key-contact_of key rest h =
    ap (λ n. take n (key ++ rest)) (sym h) ∙ take-append_length key rest

differs_iff : (a b : Bytes) → (bytes_eq a b ≡ false) ↔ (a ≢ b)
differs_iff a b = (
  λ e k. cc (sym e ∙ (bytes_eq_iff a b).1 k),
  λ n. elim (Bool-cases (bytes_eq a b)) [ inl e ↦ absurd (n ((bytes_eq_iff a b).0 e)) | inr e ↦ e ],
)

Found-replaced :
    (now : ℕ) (contact x : CachedContact) (rows : List ContactRow)
    → Found (λ y. y ≡ x) (listed (replaced now contact rows))
      ↔ ((contact ≡ x) ⊎ (Found (λ y. y ≡ x) (listed rows) × (x.public_key ≢ contact.public_key)))
Found-replaced now contact x rows = ground (
  arith,
  Found-listed x (replaced now contact rows),
  Found-listed x rows,
  Found-append (λ row. row.contact ≡ x) (delete (has_key contact.public_key) rows)
      (record { contact = contact; seen_at = some now } ∷ []),
  Found-deleted contact.public_key x rows,
  differs_iff x.public_key contact.public_key,
)

-- A whole CONTACT frame of the radio, whose public key is its bytes 1 to 32, while no statement fails: the contacts
-- that the cache lists from then on are those that it listed before, without any under that key, and the new one,
-- which stands there once; and what GET_CONTACTS is answered with for the new one is the first 148 bytes of the
-- radio's frame.
pub get_contacts-cache_response :
    (hex_encode : Bytes → Bytes) (clock : Clock) (key rest : Bytes) (c d : Core)
    (before contacts : List CachedContact) (db₁ db₂ : Db)
    → length key ≡ 32
    → contact_frame_len ≤ length (0x03 ∷ key ++ rest)
    → c.db.outcomes ≡ []
    → cache_response hex_encode clock 0x03 (0x03 ∷ key ++ rest) c ≡ some d
    → get_contacts c.db ≡ (ok before, db₁)
    → get_contacts d.db ≡ (ok contacts, db₂)
    → (contact : CachedContact) × (contact.public_key ≡ key)
      × (contact_frame contact ≡ take contact_frame_len (0x03 ∷ key ++ rest))
      × ((x : CachedContact)
          → Found (λ y. y ≡ x) contacts
            ↔ ((contact ≡ x) ⊎ (Found (λ y. y ≡ x) before × (x.public_key ≢ key))))
      × ((k : Bytes)
          → how_many (is_under k) contacts
            ≡ (if bytes_eq key k then 1 else how_many (is_under k) before))
get_contacts-cache_response hex_encode clock key rest c d before contacts db₁ db₂ l h runs e f g =
    let payload = 0x03 ∷ key ++ rest in
    let contact = contact_of payload in
    let own = public_key-contact_of key rest l in
    let rows = c.db.contacts in
    let now : contacts ≡ listed (replaced clock.unix contact rows) =
      get_contacts-ok d.db db₂ contacts g
      ∙ ap (λ db. listed db.contacts) (sym (contact_cached hex_encode clock (key ++ rest) c d h e))
      ∙ ap listed (upsert_contact-rows clock.unix contact c.db runs) in
    let old : before ≡ listed rows = get_contacts-ok c.db db₁ before f in
    (
      contact,
      own,
      contact_frame-contact_of (key ++ rest) h,
      λ x.
          rw (now, old)
            (subst
              (λ k.
                Found (λ y. y ≡ x) (listed (replaced clock.unix contact rows))
                ↔ ((contact ≡ x) ⊎ (Found (λ y. y ≡ x) (listed rows) × (x.public_key ≢ k))))
              own (Found-replaced clock.unix contact x rows)),
      λ k.
          ap (how_many (is_under k)) now
          ∙ how_many-listed k (replaced clock.unix contact rows)
          ∙ how_many-replaced clock.unix contact k rows
          ∙ ap (λ n. if bytes_eq contact.public_key k then 1 else n)
              (sym (how_many-listed k rows) ∙ ap (how_many (is_under k)) (sym old))
          ∙ ap (λ own_key. if bytes_eq own_key k then 1 else how_many (is_under k) before) own,
    )
