-- ===== src/Protocol/Decode/Total.antt =====
-- Indices and slices of src/protocol/decode.rs that are in range.
use coresplitter.Base.{
  ℕ, zero, suc, ◌≤◌, ◌<◌, ◌≡◌, ◌≢◌, refl, true, ◌&&◌, inl, inr, Option, none, some, List, [], ◌∷◌,
  arith, ◌==◌, Bool-cases, length, get_elem?,
}
use coresplitter.Base.Bytes.{Bytes, All, slice}
use coresplitter.Protocol.Decode.{
  Map, ◌>>=◌, range, u32_range, index, Arm, first_match, none_if_empty,
}

pub range-cases :
    (a b : ℕ) (p : Bytes) → a ≤ b → b ≤ length p → (x : Bytes) × (range a b p ≡ some x)
unfolding range
range-cases a b p h k = (slice a b p, ground (arith, h, k))

pub get_elem-cases : (i : ℕ) (p : Bytes) → i < length p → (x : ℕ) × (get_elem? p i ≡ some x)
get_elem-cases i [] h = absurd (omega arith)
get_elem-cases zero (x ∷ p) h = (x, refl)
get_elem-cases (suc i) (x ∷ p) h = get_elem-cases i p (omega arith)

module _ {B : Type 0} where
  pub range-total :
      (a b : ℕ) (p : Bytes) (f : Bytes → Option B)
      → a ≤ b
      → b ≤ length p
      → ((x : Bytes) → f x ≢ none)
      → (range a b p >>= f) ≢ none
  range-total a b p f h k total = let (x, e) = range-cases a b p h k in rw e (total x)

  pub u32-total :
      (a b : ℕ) (p : Bytes) (f : ℕ → Option B)
      → a ≤ b
      → b ≤ length p
      → ((x : ℕ) → f x ≢ none)
      → (u32_range a b p >>= f) ≢ none
  u32-total a b p f h k total = let (x, e) = range-cases a b p h k in rw e (total _)

  pub index-total :
      (i : ℕ) (p : Bytes) (f : ℕ → Option B)
      → i < length p
      → ((x : ℕ) → f x ≢ none)
      → (index i p >>= f) ≢ none
  unfolding index
  index-total i p f h total = let (x, e) = get_elem-cases i p h in rw e (total x)

-- Every body that the code and its guard let through is total.
abbrev pub IsTotal : ℕ → Arm → Type 0
IsTotal code arm = arm.code ≡ code → arm.guard ≡ true → arm.body ≢ none

pub first_match-IsTotal :
    (code : ℕ) (arms : List Arm) → All (IsTotal code) arms → first_match code arms ≢ none
unfolding first_match
first_match-IsTotal code [] h = λ e. cc
first_match-IsTotal code (arm ∷ arms) h = elim (Bool-cases (arm.code == code && arm.guard)) [
  | inl e ↦ rw e (h.0 (ground arith) (ground arith))
  | inr e ↦ rw e (first_match-IsTotal code arms h.1)
]

pub none_if_empty-total : (m : Option Map) → m ≢ none → none_if_empty m ≢ none
none_if_empty-total none h = λ e. h refl
none_if_empty-total (some []) h = λ e. cc
none_if_empty-total (some (entry ∷ m)) h = λ e. cc
