-- ===== src/Node/Db/Laws.antt =====
-- Rules for chains of statements.
use coresplitter.Base.{◌≡◌, refl, Bool, true, false, List, [], ◌∷◌}
use coresplitter.Node.Db.{Db, Result, ok, err, Query, run_if, statement, ◌>>=◌}

after_result :
    {A B : Type 0} (r : Result A) (d : Db) (f : A → Query B) {b : B} {db' : Db}
    → (elim r [ ok a ↦ f a d | err ↦ (err, d) ]) ≡ (ok b, db')
    → (a : A) × (r ≡ ok a) × (f a d ≡ (ok b, db'))
after_result (ok a) d f e = (a, refl, e)
after_result err d f e = cc

-- A chain that succeeded succeeded at each link.
pub >>=-ok :
    {A B : Type 0} (m : Query A) (f : A → Query B) (db : Db) {b : B} {db' : Db}
    → (m >>= f) db ≡ (ok b, db')
    → (a : A) × (mid : Db) × (m db ≡ (ok a, mid)) × (f a mid ≡ (ok b, db'))
>>=-ok m f db e =
    let (a, r, k) = after_result (m db).0 (m db).1 f e in (a, (m db).1, λ i. (r i, (m db).1), k)

-- A property of the database that a method keeps, whether it succeeds or not.
abbrev pub Keeps : {A : Type 0} → (Db → Type 0) → Query A → Type 0
Keeps I m = (db : Db) → I db → I (m db).1

module _ (I : Db → Type 0) where
  after_result-Keeps :
      {A B : Type 0} (r : Result A) (d : Db) (f : A → Query B)
      → ((a : A) → r ≡ ok a → I (f a d).1)
      → I d
      → I (let s : Result B × Db = elim r [ ok a ↦ f a d | err ↦ (err, d) ] in s.1)
  after_result-Keeps (ok a) d f k h = k a refl
  after_result-Keeps err d f k h = h

  -- The rest of a chain may rely on what the first link returned.
  pub >>=-Keeps_value :
      {A B : Type 0} (m : Query A) (f : A → Query B) (db : Db)
      → I (m db).1
      → ((a : A) → (m db).0 ≡ ok a → I (f a (m db).1).1)
      → I ((m >>= f) db).1
  >>=-Keeps_value m f db h k = after_result-Keeps (m db).0 (m db).1 f k h

  pub >>=-Keeps :
      {A B : Type 0} (m : Query A) (f : A → Query B)
      → Keeps I m
      → ((a : A) → Keeps I (f a))
      → Keeps I (m >>= f)
  >>=-Keeps m f k l db h = >>=-Keeps_value m f db (k db h) (λ a e. l a (m db).1 (k db h))

  -- A statement keeps what its function keeps, if that does not speak of the outcomes to come.
  pub statement-Keeps :
      {A : Type 0} (run : Db → A × Db)
      → ((db : Db) (later : List Bool) → I db → I (record db { outcomes = later }))
      → ((db : Db) → I db → I (run db).1)
      → Keeps I (statement run)
  statement-Keeps run blind k db h = go db.outcomes
    where
      go : (o : List Bool) → I (run_if o run db).1
      go [] = k db h
      go (true ∷ later) = k (record db { outcomes = later }) (blind db later h)
      go (false ∷ later) = blind db later h
