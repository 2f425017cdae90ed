-- ===== src/Node/Sql/Order.antt =====
-- ORDER BY on the ids of a table, which grow along it.
use mathlib.Core.List.{reverse, reverse-cons, reverse-append, reverse-reverse}
use coresplitter.Base.{
  ℕ, zero, suc, ◌-◌, ◌≤◌, ◌<◌, ◌≡◌, refl, sym, ap, ◌∙◌, Bool, false, inl, inr, List, [], ◌∷◌, ◌++◌,
  arith, tests, leb, length, length-append, take, drop, take-append-drop, take-append_length,
  length-drop, Bool-cases,
}
use coresplitter.Base.Bytes.{All}
use coresplitter.Node.Sql.{insert_by, order_by}

module _ {ℓ} {A : Type ℓ} where
  pub All-append {κ} :
      (P : A → Type κ) (front back : List A) → All P front → All P back → All P (front ++ back)
  All-append P [] back tt k = k
  All-append P (a ∷ front) back (p, h) k = (p, All-append P front back h k)

  pub All-reverse {κ} : (P : A → Type κ) (xs : List A) → All P xs → All P (reverse xs)
  All-reverse P [] h = h
  All-reverse P (x ∷ xs) h =
      rw (reverse-cons x xs) (All-append P (reverse xs) (x ∷ []) (All-reverse P xs h.1) (h.0, tt))

  pub length-reverse : (l : List A) → length (reverse l) ≡ length l
  length-reverse [] = refl
  length-reverse (a ∷ l) =
      rw (reverse-cons a l) (length-append (reverse l) (a ∷ []) ∙ omega (arith, length-reverse l))

  take_all : (n : ℕ) (xs : List A) → length xs ≤ n → take n xs ≡ xs
  take_all zero [] h = refl
  take_all zero (x ∷ xs) h = absurd (omega arith)
  take_all (suc n) [] h = refl
  take_all (suc n) (x ∷ xs) h = ap (◌∷◌ x) (take_all n xs (omega arith))

  take_first : (n : ℕ) (xs ys : List A) → length xs ≡ n → take n (xs ++ ys) ≡ xs
  take_first n xs ys e = rw (← e) (take-append_length xs ys)

  -- The last n, newest first, are the last n turned round.
  pub take-reverse : (n : ℕ) (xs : List A) → take n (reverse xs) ≡ reverse (drop (length xs - n) xs)
  take-reverse n xs = elim (Bool-cases (leb n (length xs))) [
    | inl enough ↦
        let k = length xs - n in
        ap (λ l. take n (reverse l)) (sym (take-append-drop k xs))
        ∙ ap (take n) (reverse-append (take k xs) (drop k xs))
        ∙ take_first n (reverse (drop k xs)) (reverse (take k xs))
            (omega (tests, length-reverse (drop k xs), length-drop k xs, enough))
    | inr short ↦
        let none_left : length xs - n ≡ 0 = omega (tests, short) in
        rw none_left (take_all n (reverse xs) (omega (tests, length-reverse xs, short)))
  ]

module _ {ℓ} {A : Type ℓ} (le : A → A → Bool) where
  -- No row comes before a row that stands in front of it.
  abbrev Backwards : List A → Type 0
  Backwards [] = Unit
  Backwards (x ∷ xs) = All (λ z. le x z ≡ false) xs × Backwards xs

  insert_by-last :
      (x : A) (zs : List A) → All (λ z. le x z ≡ false) zs → insert_by le x zs ≡ zs ++ x ∷ []
  unfolding insert_by
  insert_by-last x [] h = refl
  insert_by-last x (z ∷ zs) h = rw h.0 (ap (◌∷◌ z) (insert_by-last x zs h.1))

  order_by-Backwards : (xs : List A) → Backwards xs → order_by le xs ≡ reverse xs
  unfolding order_by
  order_by-Backwards [] h = refl
  order_by-Backwards (x ∷ xs) h =
      rw (order_by-Backwards xs h.1, reverse-cons x xs)
        (insert_by-last x (reverse xs) (All-reverse (λ z. le x z ≡ false) xs h.0))

-- The ids grow along the list.
abbrev pub IsIncreasing : List ℕ → Type 0
IsIncreasing [] = Unit {0}
IsIncreasing (x ∷ xs) = All (λ y. x < y) xs × IsIncreasing xs

increasing-Backwards_desc : (xs : List ℕ) → IsIncreasing xs → Backwards (λ a b. leb b a) xs
increasing-Backwards_desc [] h = tt
increasing-Backwards_desc (x ∷ xs) h = (above xs h.0, increasing-Backwards_desc xs h.1)
  where
    above : (ys : List ℕ) → All (λ y. x < y) ys → All (λ z. leb z x ≡ false) ys
    above [] k = tt
    above (y ∷ ys) k = (ground arith, above ys k.1)

Backwards-append :
    (xs : List ℕ) (y : ℕ) → Backwards leb xs → All (λ x. y < x) xs → Backwards leb (xs ++ y ∷ [])
Backwards-append [] y h k = (tt, tt)
Backwards-append (x ∷ xs) y h k =
    (All-append _ xs (y ∷ []) h.0 (ground arith, tt), Backwards-append xs y h.1 k.1)

increasing-Backwards-reverse : (xs : List ℕ) → IsIncreasing xs → Backwards leb (reverse xs)
increasing-Backwards-reverse [] h = tt
increasing-Backwards-reverse (x ∷ xs) h = rw (reverse-cons x xs) (
    Backwards-append (reverse xs) x (increasing-Backwards-reverse xs h.1)
      (All-reverse (λ y. x < y) xs h.0))

-- `ORDER BY id DESC` turns the table round, and `ORDER BY id` turns it back.
pub order_by-desc : (xs : List ℕ) → IsIncreasing xs → order_by (λ a b. leb b a) xs ≡ reverse xs
order_by-desc xs h = order_by-Backwards (λ a b. leb b a) xs (increasing-Backwards_desc xs h)

pub order_by-reverse : (xs : List ℕ) → IsIncreasing xs → order_by leb (reverse xs) ≡ xs
order_by-reverse xs h =
    order_by-Backwards leb (reverse xs) (increasing-Backwards-reverse xs h) ∙ reverse-reverse xs

insert_by-first : (x : ℕ) (ys : List ℕ) → All (λ y. x < y) ys → insert_by leb x ys ≡ x ∷ ys
unfolding insert_by
insert_by-first x [] h = refl
insert_by-first x (y ∷ ys) h = ground arith

-- The ids of a table stand in order as they are.
pub order_by-increasing : (xs : List ℕ) → IsIncreasing xs → order_by leb xs ≡ xs
unfolding order_by
order_by-increasing [] h = refl
order_by-increasing (x ∷ xs) h = rw (order_by-increasing xs h.1) (insert_by-first x xs h.0)

pub IsIncreasing-drop : (n : ℕ) (xs : List ℕ) → IsIncreasing xs → IsIncreasing (drop n xs)
IsIncreasing-drop zero xs h = h
IsIncreasing-drop (suc n) [] h = tt
IsIncreasing-drop (suc n) (x ∷ xs) h = IsIncreasing-drop n xs h.1
