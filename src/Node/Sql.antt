-- ===== src/Node/Sql.antt =====
-- The clauses of SQL that src/node/state.rs uses, over lists of rows.
pub mod Laws
pub mod Order
use coresplitter.Base.{Bool, true, false, not, Option, none, some, List, [], ◌∷◌, if◌then◌else◌}

module _ {ℓ} {A : Type ℓ} where
  -- `WHERE p`
  unfoldable pub select : (A → Bool) → List A → List A
  select p [] = []
  select p (x ∷ xs) = let rest = select p xs in if p x then x ∷ rest else rest

  -- `DELETE ... WHERE p`: the rows that stay.
  unfoldable pub delete : (A → Bool) → List A → List A
  unfolding select
  delete p = select (λ x. not (p x))

  unfoldable pub insert_by : (A → A → Bool) → A → List A → List A
  insert_by le x [] = x ∷ []
  insert_by le x (y ∷ ys) = if le x y then x ∷ y ∷ ys else y ∷ insert_by le x ys

  -- `ORDER BY`, rows that compare equal in the order of the table.
  unfoldable pub order_by : (A → A → Bool) → List A → List A
  unfolding insert_by
  order_by le [] = []
  order_by le (x ∷ xs) = insert_by le x (order_by le xs)

  -- The first row, for `fetch_optional` on a key.
  unfoldable pub first : List A → Option A
  first [] = none
  first (x ∷ xs) = some x
