-- ===== src/Base/Maps.antt =====
-- Association lists under number keys, for the maps of the program.
use Prim.Native.Nat.{ℕ}
use mathlib.Core.Path.{◌≡◌}
use mathlib.Core.Bool.{Bool}
use mathlib.Core.Option.{Option, none, some}
use mathlib.Core.List.{List, [], ◌∷◌}
use native.Mathlib.Omega.{arith}
use coresplitter.Base.Tests.{◌==◌, if◌then◌else◌}

module _ {ℓ} {A : Type ℓ} where
  abbrev pub lookup : ℕ → List (ℕ × A) → Option A
  lookup k [] = none
  lookup k ((j, a) ∷ entries) = if j == k then some a else lookup k entries

  abbrev pub update : ℕ → (A → A) → List (ℕ × A) → List (ℕ × A)
  update k f [] = []
  update k f ((j, a) ∷ entries) = if j == k then (j, f a) ∷ entries else (j, a) ∷ update k f entries

  abbrev pub remove : ℕ → List (ℕ × A) → List (ℕ × A)
  remove k [] = []
  remove k ((j, a) ∷ entries) =
      let rest = remove k entries in if j == k then rest else (j, a) ∷ rest

  abbrev pub insert : ℕ → A → List (ℕ × A) → List (ℕ × A)
  insert k a entries = (k, a) ∷ remove k entries

  abbrev pub retain : (ℕ → A → Bool) → List (ℕ × A) → List (ℕ × A)
  retain keep [] = []
  retain keep ((j, a) ∷ entries) =
      let rest = retain keep entries in if keep j a then (j, a) ∷ rest else rest

  abbrev pub apply_to : (A → A) → Option A → Option A
  apply_to f none = none
  apply_to f (some a) = some (f a)

  pub lookup-update :
      (k j : ℕ) (f : A → A) (entries : List (ℕ × A))
      → lookup j (update k f entries)
        ≡ (if k == j then apply_to f (lookup j entries) else lookup j entries)
  lookup-update k j f [] = ground arith
  lookup-update k j f ((i, a) ∷ entries) = ground (arith, lookup-update k j f entries)

  pub lookup-remove :
      (k j : ℕ) (entries : List (ℕ × A))
      → lookup j (remove k entries) ≡ (if k == j then none else lookup j entries)
  lookup-remove k j [] = ground arith
  lookup-remove k j ((i, a) ∷ entries) = ground (arith, lookup-remove k j entries)
