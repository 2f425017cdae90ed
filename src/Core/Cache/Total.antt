-- ===== src/Core/Cache/Total.antt =====
-- `cache_response` of src/core.rs never panics: the arms that decode the payload are not those where the
-- decoder panics.
use coresplitter.Base.{
  ℕ, refl, ◌*◌, ◌≡◌, ◌≢◌, ◌≤◌, Bool, true, false, Option, none, some, arith, ◌==◌, if◌then◌else◌,
  length,
}
use coresplitter.Base.Bytes.{Bytes}
use coresplitter.Protocol.Decode.{◌>>=◌}
use coresplitter.Protocol.Decode.Response.{decode_response_payload}
use coresplitter.Protocol.Decode.Response.Panic.{IsCut, decode_response_payload-panic}
use coresplitter.Core.State.{Core, Clock}
use coresplitter.Core.Cache.{cache_response, extract_radio_identity, extract_max_channels}

chain-total :
    {A B C : Type 0} (m : Option A) (f : A → B) (g : B → C)
    → m ≢ none
    → (m >>= (λ a. some (f a)) >>= λ b. some (g b)) ≢ none
chain-total none f g h e = h refl
chain-total (some a) f g h e = cc

pub bind_some-total :
    {A B : Type 0} (m : Option A) (f : A → B) → m ≢ none → (m >>= λ a. some (f a)) ≢ none
bind_some-total none f h e = h refl
bind_some-total (some a) f h e = cc

-- Each branch under its test.
if-total :
    {A : Type 0} (test : Bool) (r s : Option A)
    → (test ≡ true → r ≢ none)
    → s ≢ none
    → (if test then r else s) ≢ none
if-total true r s h k = h refl
if-total false r s h k = k

-- The codes whose arms decode the payload.
uncut : (code n : ℕ) → code ≤ 0x0D → code ≢ 0x06 → ¬ IsCut code n
uncut code n h k = λ cut. ground (arith, cut)

module _ (hex_encode : Bytes → Bytes)
    (two_digits : (x : Bytes) → length (hex_encode x) ≡ 2 * length x) where
  decode-total :
      (code : ℕ) (payload : Bytes)
      → code ≤ 0x0D
      → code ≢ 0x06
      → decode_response_payload hex_encode code payload ≢ none
  decode-total code payload h k e =
      uncut code (length payload) h k
        ((decode_response_payload-panic hex_encode code payload two_digits).0 e)

  pub cache_response-total :
      (clock : Clock) (code : ℕ) (payload : Bytes) (c : Core)
      → cache_response hex_encode clock code payload c ≢ none
  unfolding cache_response extract_radio_identity extract_max_channels
  cache_response-total clock code payload c =
      if-total (code == 0x05) _ _
        (λ e.
          chain-total (decode_response_payload hex_encode 0x05 payload) _ _
            (decode-total 0x05 payload (omega arith) (omega arith)))
        (if-total (code == 0x0D) _ _
          (λ e.
            chain-total (decode_response_payload hex_encode 0x0D payload) _ _
              (decode-total 0x0D payload (omega arith) (omega arith)))
          (if-total (code == 0x07) _ _
            (λ e.
              bind_some-total (decode_response_payload hex_encode code payload) _
                (decode-total code payload (ground (arith, e)) (ground (arith, e))))
            (if-total (code == 0x08) _ _
              (λ e.
                bind_some-total (decode_response_payload hex_encode code payload) _
                  (decode-total code payload (ground (arith, e)) (ground (arith, e))))
              λ e. cc)))
