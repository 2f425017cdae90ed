-- ===== src/Core/Awaiting/Last.antt =====
-- Which frame ends a reply (src/core.rs, `Awaiting`).
use coresplitter.Base.{
  ℕ, ◌≡◌, ◌<◌, sym, ap, ◌∙◌, true, not, ◌||◌, ◌⊎◌, inl, inr, [], ◌∷◌, arith, leb, ◌==◌, ==_iff,
  Bool-cases,
}
use coresplitter.Base.Bytes.{Bytes}
use coresplitter.Node.Sql.Laws.{Found}
use coresplitter.Core.Awaiting.{Awaiting, any, one_of, stream, classify, is_push_event, contains}

-- The last frame of the reply that the request waits for: any frame but a push, one of the codes or ERROR, the end
-- of the stream or ERROR.
abbrev pub IsLastFrame : Awaiting → ℕ → Type 0
IsLastFrame any code = code < 0x80
IsLastFrame (one_of codes) code = (code ≡ 0x01) ⊎ Found (λ c. c ≡ code) codes
IsLastFrame (stream codes terminator) code = (code ≡ 0x01) ⊎ (code ≡ terminator)

contains-Found :
    (codes : Bytes) (code : ℕ) → contains codes code ≡ true → Found (λ c. c ≡ code) codes
unfolding contains
contains-Found [] code h = absurd (cc h)
contains-Found (c ∷ codes) code h = ground (arith, h, contains-Found codes code)

pub classify-IsLastFrame :
    (a : Awaiting) (code : ℕ) → classify a code ≡ (true, true) → IsLastFrame a code
unfolding classify is_push_event
classify-IsLastFrame any code h =
    let plain : not (leb 0x80 code) ≡ true = ap (λ r. r.0) h in ground (arith, plain)
classify-IsLastFrame (one_of codes) code h =
    let matched : (code == 0x01 || contains codes code) ≡ true = ap (λ r. r.0) h in
    elim (Bool-cases (code == 0x01)) [
      | inl e ↦ inl ((==_iff code 0x01).0 e)
      | inr e ↦
          inr (contains-Found codes code (sym (ap (λ b. b || contains codes code) e) ∙ matched))
    ]
classify-IsLastFrame (stream codes terminator) code h =
    let last : (code == terminator || code == 0x01) ≡ true = ap (λ r. r.1) h in ground (arith, last)
