-- ===== src/Node/Sql/Laws.antt =====
-- Laws of the clauses: which rows a SELECT or a DELETE leaves, and in which order.
use coresplitter.Base.{
  ◌≤◌, ◌≡◌, ◌↔◌, refl, ap, ◌∙◌, Bool, true, false, ◌⊎◌, inl, inr, List, [], ◌∷◌, ◌++◌, arith,
  length, Bool-cases,
}
use coresplitter.Node.Sql.{select, delete}

module _ {ℓ} {A : Type ℓ} where
  -- Some row has the property.
  abbrev pub Found : (A → Type 0) → List A → Type 0
  Found P [] = ⊥
  Found P (x ∷ xs) = P x ⊎ Found P xs

module _ {ℓ} {A : Type ℓ} where
  pub Found-select :
      (P : A → Type 0) (p : A → Bool) (xs : List A)
      → Found P (select p xs) ↔ Found (λ x. P x × (p x ≡ true)) xs
  unfolding select
  Found-select P p [] = (λ f. f, λ f. f)
  Found-select P p (x ∷ xs) = elim (Bool-cases (p x)) [
    | inl keep ↦ rw keep (ground (arith, Found-select P p xs, keep))
    | inr out ↦ rw out (ground (arith, Found-select P p xs, out))
  ]

  pub Found-append :
      (P : A → Type 0) (xs ys : List A) → Found P (xs ++ ys) ↔ (Found P xs ⊎ Found P ys)
  Found-append P [] ys = (λ f. inr f, λ f. elim f [ inl e ↦ absurd e | inr g ↦ g ])
  Found-append P (x ∷ xs) ys = ground (arith, Found-append P xs ys)

  pub length-select-le : (p : A → Bool) (xs : List A) → length (select p xs) ≤ length xs
  unfolding select
  length-select-le p [] = omega arith
  length-select-le p (x ∷ xs) = ground (arith, length-select-le p xs)

  pub select-select :
      (p q : A → Bool) (xs : List A)
      → ((x : A) → p x ≡ true → q x ≡ true)
      → select p (select q xs) ≡ select p xs
  unfolding select
  select-select p q [] h = refl
  select-select p q (x ∷ xs) h = ground (arith, h x, select-select p q xs h)

module _ {A : Type 0} where
  -- A row that fails the condition of a DELETE stays.
  pub Found-delete :
      (p : A → Bool) (row : A) (rows : List A)
      → p row ≡ false
      → Found (λ r. r ≡ row) rows
      → Found (λ r. r ≡ row) (delete p rows)
  unfolding delete select
  Found-delete p row [] h f = f
  Found-delete p row (x ∷ xs) h (inl e) = let kept : p x ≡ false = ap p e ∙ h in rw kept (inl e)
  Found-delete p row (x ∷ xs) h (inr f) = elim (Bool-cases (p x)) [
    | inl out ↦ rw out (Found-delete p row xs h f)
    | inr kept ↦ rw kept (inr (Found-delete p row xs h f))
  ]
