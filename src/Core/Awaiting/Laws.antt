-- ===== src/Core/Awaiting/Laws.antt =====
-- Which frames can answer which command (src/core.rs, `Awaiting`).
use coresplitter.Base.{
  ℕ, ◌<◌, ◌≤◌, ◌≡◌, ◌↔◌, refl, sym, ap, ◌∙◌, Bool, true, false, not, ◌&&◌, ◌||◌, Option, none, some,
  [], ◌∷◌, arith, ltb, ◌==◌, if◌then◌else◌, length, ◌≢◌, ◌⊎◌, inl, inr, Bool-cases,
}
use native.Mathlib.Decide.{ℕ_discrete}
use coresplitter.Base.Bytes.{Bytes, byte_at}
use coresplitter.Protocol.Types.Arms.{holds_below, holds_below_lem}
use coresplitter.Protocol.Types.Command.{CommandCode, from_byte}
use coresplitter.Core.Awaiting.{
  Awaiting, any, one_of, stream, contains, classify, first_awaiting, arms, awaiting_for,
}

-- ERROR ends every request, whatever it waits for.
pub classify-error : (a : Awaiting) → classify a 0x01 ≡ (true, true)
unfolding classify
classify-error any = refl
classify-error (one_of codes) = refl
classify-error (stream codes t) = ground arith

below_push : Bytes → Bool
below_push [] = true
below_push (c ∷ cs) = ltb c 0x80 && below_push cs

contains-below_push :
    (codes : Bytes) (c : ℕ) → below_push codes ≡ true → 0x80 ≤ c → contains codes c ≡ false
unfolding contains below_push
contains-below_push [] c h p = refl
contains-below_push (d ∷ ds) c h p = ground (arith, contains-below_push ds c)

-- The codes that a request lists are no pushes.
lists_no_push : Awaiting → Bool
unfolding below_push
lists_no_push any = true
lists_no_push (one_of codes) = below_push codes
lists_no_push (stream codes t) = below_push codes && ltb t 0x80

classify-lists_no_push :
    (a : Awaiting) (c : ℕ) → lists_no_push a ≡ true → 0x80 ≤ c → (classify a c).0 ≡ false
unfolding classify lists_no_push
classify-lists_no_push any c h p = ground arith
classify-lists_no_push (one_of codes) c h p = ground (arith, contains-below_push codes c)
classify-lists_no_push (stream codes t) c h p = ground (arith, contains-below_push codes c)

no_push_table : holds_below (λ b. lists_no_push (first_awaiting b (arms false))) 256 ≡ true
unfolding holds_below lists_no_push first_awaiting arms
no_push_table = refl

no_push_table_self :
    holds_below (λ b. b == 0x27 || lists_no_push (first_awaiting b (arms true))) 256 ≡ true
unfolding holds_below lists_no_push first_awaiting arms
no_push_table_self = refl

telemetry_lem : first_awaiting 0x27 (arms true) ≡ one_of (0x8B ∷ [])
unfolding first_awaiting arms
telemetry_lem = refl

classify-telemetry : (c : ℕ) → 0x80 ≤ c → ((classify (one_of (0x8B ∷ [])) c).0 ≡ true) ↔ (c ≡ 0x8B)
unfolding classify
classify-telemetry c p = ground arith

self_push :
    (b code : ℕ)
    → b < 256
    → 0x80 ≤ code
    → ((classify (first_awaiting b (arms true)) code).0 ≡ true) ↔ ((b ≡ 0x27) × (code ≡ 0x8B))
self_push b code h p = elim (ℕ_discrete b 0x27) [
  | yes e ↦
      let same : first_awaiting b (arms true) ≡ one_of (0x8B ∷ []) =
        ap (λ c. first_awaiting c (arms true)) e ∙ telemetry_lem in
      rw same (λ t. (e, (classify-telemetry code p).0 t), λ k. (classify-telemetry code p).1 k.1)
  | no other ↦ ground (
    arith,
    classify-lists_no_push (first_awaiting b (arms true)) code,
    holds_below_lem (λ c. c == 0x27 || lists_no_push (first_awaiting c (arms true))) 256 b h
        no_push_table_self,
  )
]

-- A push event answers no request, but for the telemetry response (0x8B) to a SEND_TELEMETRY_REQ of four
-- bytes.
pub classify-push :
    (payload : Bytes) (code : ℕ)
    → byte_at payload 0 < 256
    → 0x80 ≤ code
    → ((classify (awaiting_for payload) code).0 ≡ true)
      ↔ ((byte_at payload 0 ≡ 0x27) × (length payload ≡ 4) × (code ≡ 0x8B))
unfolding awaiting_for
classify-push payload code h p = elim (Bool-cases (length payload == 4)) [
  | inl self ↦ rw self (ground (arith, self_push (byte_at payload 0) code h p, self))
  | inr other ↦ rw other (
      ground (
        arith,
        classify-lists_no_push (first_awaiting (byte_at payload 0) (arms false)) code
            (holds_below_lem _ 256 (byte_at payload 0) h no_push_table) p,
        other,
      ))
]

is_any : Awaiting → Bool
is_any any = true
is_any (one_of codes) = false
is_any (stream codes t) = false

is_any_iff : (a : Awaiting) → (is_any a ≡ true) ↔ (a ≡ any)
unfolding is_any
is_any_iff any = (λ e. refl, λ e. refl)
is_any_iff (one_of codes) = (λ e. cc, λ e. cc)
is_any_iff (stream codes t) = (λ e. cc, λ e. cc)

is_known : Option CommandCode → Bool
is_known none = false
is_known (some c) = true

abbrev fallback_agrees : Bool → ℕ → Bool
fallback_agrees is_self b =
    if is_any (first_awaiting b (arms is_self))
    then not (is_known (from_byte b)) || b == 0x13
    else is_known (from_byte b) && not (b == 0x13)

fallback_table : (is_self : Bool) → holds_below (fallback_agrees is_self) 256 ≡ true
unfolding holds_below is_any is_known first_awaiting arms from_byte
fallback_table true = refl
fallback_table false = refl

is_known_iff : (c : Option CommandCode) → (is_known c ≡ false) ↔ (c ≡ none)
unfolding is_known
is_known_iff none = (λ e. refl, λ e. refl)
is_known_iff (some c) = (λ e. cc, λ e. cc)

-- A request takes any reply that is no push exactly if its code is unknown to `CommandCode` or is REBOOT:
-- every other known command pins the codes of its replies.
pub awaiting_for-any :
    (payload : Bytes)
    → byte_at payload 0 < 256
    → (awaiting_for payload ≡ any)
      ↔ ((from_byte (byte_at payload 0) ≡ none) ⊎ (byte_at payload 0 ≡ 0x13))
unfolding awaiting_for
awaiting_for-any payload h = (
  λ e. ground (arith, agrees, any_iff.1 e, known),
  λ e. any_iff.0 (ground (arith, agrees, known)),
)
  where
    s : Bool
    s = length payload == 4

    b : ℕ
    b = byte_at payload 0

    agrees : fallback_agrees s b ≡ true
    agrees = holds_below_lem (fallback_agrees s) 256 b h (fallback_table s)

    any_iff : (is_any (first_awaiting b (arms s)) ≡ true) ↔ (first_awaiting b (arms s) ≡ any)
    any_iff = is_any_iff (first_awaiting b (arms s))

    known : (is_known (from_byte b) ≡ false) ↔ (from_byte b ≡ none)
    known = is_known_iff (from_byte b)

streams : Awaiting → ℕ → Bool
streams any b = not (b == 0x04)
streams (one_of codes) b = not (b == 0x04)
streams (stream codes t) b = b == 0x04

stream_table :
    (is_self : Bool) → holds_below (λ b. streams (first_awaiting b (arms is_self)) b) 256 ≡ true
unfolding holds_below streams first_awaiting arms
stream_table true = refl
stream_table false = refl

contacts_lem :
    (is_self : Bool) → first_awaiting 0x04 (arms is_self) ≡ stream (0x02 ∷ 0x03 ∷ []) 0x04
unfolding first_awaiting arms
contacts_lem true = refl
contacts_lem false = refl

classify-streams :
    (a : Awaiting) (b code : ℕ) → streams a b ≡ true → b ≢ 0x04 → (classify a code).1 ≡ true
unfolding streams classify
classify-streams any b code h n = refl
classify-streams (one_of codes) b code h n = refl
classify-streams (stream codes t) b code h n = ground arith

classify-contacts :
    (code : ℕ)
    → (classify (stream (0x02 ∷ 0x03 ∷ []) 0x04) code ≡ (true, false))
      ↔ ((code ≡ 0x02) ⊎ (code ≡ 0x03))
unfolding classify
classify-contacts code = ground arith

-- A frame belongs to a reply without ending it exactly as CONTACTS_START or CONTACT in the reply to a
-- GET_CONTACTS: every other command is answered by one frame.
pub classify-stream :
    (payload : Bytes) (code : ℕ)
    → byte_at payload 0 < 256
    → (classify (awaiting_for payload) code ≡ (true, false))
      ↔ ((byte_at payload 0 ≡ 0x04) × ((code ≡ 0x02) ⊎ (code ≡ 0x03)))
unfolding awaiting_for
classify-stream payload code h = elim (ℕ_discrete (byte_at payload 0) 0x04) [
  | yes e ↦
      let s = length payload == 4 in
      let same : first_awaiting (byte_at payload 0) (arms s) ≡ stream (0x02 ∷ 0x03 ∷ []) 0x04 =
        ap (λ c. first_awaiting c (arms s)) e ∙ contacts_lem s in
      rw same (λ t. (e, (classify-contacts code).0 t), λ k. (classify-contacts code).1 k.1)
  | no other ↦ (
    λ t. absurd (
        single
          (classify-streams _ (byte_at payload 0) code
            (holds_below_lem _ 256 (byte_at payload 0) h (stream_table (length payload == 4)))
            other)
          t),
    λ k. absurd (other k.0),
  )
]
  where
    single : {r : Bool × Bool} → r.1 ≡ true → r ≡ (true, false) → ⊥
    single p q = cc (sym p ∙ ap (λ t. t.1) q)
