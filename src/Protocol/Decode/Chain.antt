-- ===== src/Protocol/Decode/Chain.antt =====
-- Chains of results that may be a panic, as src/protocol/decode.rs and its callers build them.
use coresplitter.Base.{ap, ◌≡◌, ◌≢◌, refl, ◌↔◌, Option, none, some}
use coresplitter.Protocol.Decode.{◌>>=◌}

pub some-inner : {A : Type 0} {a b : A} → some a ≡ some b → a ≡ b
some-inner {a = a} e = ap (λ o. elim o [ none ↦ a | some x ↦ x ]) e

module _ {A B : Type 0} where
  -- A chain that does not panic has both links.
  pub bind-some :
      (m : Option A) (f : A → Option B) {b : B}
      → (m >>= f) ≡ some b
      → (a : A) × (m ≡ some a) × (f a ≡ some b)
  bind-some none f e = cc
  bind-some (some a) f e = (a, refl, e)

  -- Where the rest does not panic, only the first link can.
  pub bind-panic : (m : Option A) (f : A → B) → ((m >>= λ a. some (f a)) ≡ none) ↔ (m ≡ none)
  bind-panic none f = (λ e. refl, λ e. refl)
  bind-panic (some a) f = (λ e. cc, λ e. cc)

  pub bind-total :
      (m : Option A) (f : A → Option B) → ((a : A) → f a ≢ none) → ((m >>= f) ≡ none) ↔ (m ≡ none)
  bind-total none f total = (λ e. refl, λ e. refl)
  bind-total (some a) f total = (λ e. absurd (total a e), λ e. cc)
