-- ===== src/Protocol/Decode/Response/Panic.antt =====
-- Where `decode_response_payload` of src/protocol/decode.rs panics.
use coresplitter.Base.{
  ℕ, ◌*◌, ◌≤◌, ◌<◌, ◌≡◌, ◌↔◌, refl, sym, true, ◌⊎◌, inl, inr, Option, none, some, [], ◌∷◌, arith,
  ltb, leb, ltb→lt, lt→ltb, leb→le, ◌==◌, length,
}
use coresplitter.Base.Bytes.{Bytes, All}
use coresplitter.Protocol.Decode.{Map, literal, ◌>>=◌, range, index, first_match}
use coresplitter.Protocol.Decode.Total.{
  range-total, IsTotal, first_match-IsTotal, none_if_empty-total,
}
use coresplitter.Protocol.Decode.Response.{
  decode_channel_info, decode_sent, decode_message_v3, response_arms, decode_response_payload,
}
use coresplitter.Protocol.Decode.Response.Total.{
  some-total, join-total, when-total, if-total, u32_entry-total, byte_entry-total,
  decode_message_channel-total, decode_channel_v3-total, decode_battery-total,
  decode_device_info-total, decode_sent-total, decode_message-total, decode_message_v3-total,
  decode_channel_info-total, decode_contact-total, decode_self_info-total,
}

bind-none :
    {A : Type 0} (m : Option A) (f : A → Option Map) → ((x : A) → f x ≡ none) → (m >>= f) ≡ none
bind-none none f h = refl
bind-none (some x) f h = h x

range-none : (a b : ℕ) (p : Bytes) → length p < b → range a b p ≡ none
unfolding range
range-none a b p h = ground (arith, h)

le→leb : (a b : ℕ) → a ≤ b → leb a b ≡ true
le→leb a b h = ground arith

-- The payloads that are shorter than the decoder takes for granted, by code and length.
abbrev pub IsCut : ℕ → ℕ → Type 0
IsCut code n =
    ((code ≡ 0x06) × (n ≡ 9))
    ⊎ ((code ≡ 0x10) × (12 < n) × (n < 16))
    ⊎ ((code ≡ 0x12) × (2 < n) × (n < 34))

IsCut-cases : (code n : ℕ) → ¬ IsCut code n ⊎ IsCut code n
IsCut-cases code n = ground arith

-- A guard that the code passes is enough, or the payload is cut.
module _ (code n : ℕ) (sound : ¬ IsCut code n) where
  enough-sent : code ≡ 0x06 → 9 ≤ n → 10 ≤ n
  enough-sent c g = ground (arith, sound, c, g)

  enough-message : code ≡ 0x10 → 13 ≤ n → 16 ≤ n
  enough-message c g = ground (arith, sound, c, g)

  enough-channel : code ≡ 0x12 → 2 < n → 34 ≤ n
  enough-channel c g = ground (arith, sound, c, g)

module _ (hex_encode : Bytes → Bytes)
    (two_digits : (x : Bytes) → length (hex_encode x) ≡ 2 * length x) (p : Bytes) where
  response_arms-IsTotal :
      (code : ℕ) → ¬ IsCut code (length p) → All (IsTotal code) (response_arms hex_encode p)
  unfolding response_arms
  response_arms-IsTotal code sound = (
    λ c g.
        join-total (some (("status", literal "OK") ∷ [])) _ (some-total _)
          (when-total (length p == 5) _ λ k. u32_entry-total p "value" 1 (ground (arith, k))),
    (
      λ c g. join-total (some (("status", literal "ERROR") ∷ [])) _ (some-total _) (
          when-total (ltb 1 (length p)) _
            λ k. byte_entry-total p "error_code" 1 (ltb→lt 1 (length p) k)),
      (
        λ c g. u32_entry-total p "contact_count" 1 (leb→le 5 (length p) g),
        (
          λ c g. decode_contact-total hex_encode two_digits p (leb→le 148 (length p) g),
          (
            λ c g. u32_entry-total p "lastmod" 1 (leb→le 5 (length p) g),
            (
              λ c g. decode_self_info-total hex_encode two_digits p (leb→le 52 (length p) g),
              (
                λ c g.
                    decode_sent-total p hex_encode
                      (enough-sent code (length p) sound (sym c) (leb→le 9 (length p) g)),
                (
                  λ c g. decode_message-total p hex_encode (leb→le 13 (length p) g),
                  (
                    λ c g. decode_message_channel-total p (leb→le 9 (length p) g),
                    (
                      λ c g. u32_entry-total p "time" 1 (leb→le 5 (length p) g),
                      (
                        λ c g. some-total _,
                        (
                          λ c g. decode_battery-total p (leb→le 3 (length p) g),
                          (
                            λ c g. decode_device_info-total p (ltb→lt 1 (length p) g),
                            (
                              λ c g. decode_message_v3-total p hex_encode (
                                  enough-message code (length p) sound (sym c)
                                    (leb→le 13 (length p) g)),
                              (
                                λ c g. decode_channel_v3-total p (leb→le 11 (length p) g),
                                (
                                  λ c g. decode_channel_info-total p (
                                      enough-channel code (length p) sound (sym c)
                                        (ltb→lt 2 (length p) g)),
                                  (
                                    λ c g.
                                        if-total (leb 5 (length p)) _ _
                                          (λ k.
                                            range-total 1 5 p _ (omega arith)
                                              (leb→le 5 (length p) k) λ x e. cc)
                                          (some-total _),
                                    (
                                      λ c g. some-total _,
                                      (λ c g. some-total _, (λ c g. some-total _, tt)),
                                    ),
                                  ),
                                ),
                              ),
                            ),
                          ),
                        ),
                      ),
                    ),
                  ),
                ),
              ),
            ),
          ),
        ),
      ),
    ),
  )

  sent-panics : length p ≡ 9 → first_match 0x06 (response_arms hex_encode p) ≡ none
  unfolding first_match response_arms decode_sent
  sent-panics n = rw (le→leb 9 (length p) (omega (arith, n))) (
      bind-none (index 1 p) _
        λ a. bind-none (range 2 6 p) _ λ b. rw (range-none 6 10 p (omega (arith, n))) refl)

  message-panics :
      12 < length p → length p < 16 → first_match 0x10 (response_arms hex_encode p) ≡ none
  unfolding first_match response_arms decode_message_v3
  message-panics n m = rw (le→leb 13 (length p) (omega (arith, n))) (
      bind-none (index 1 p) _ λ a. bind-none (range 4 10 p) _ λ b.
        bind-none (index 10 p) _
          λ c. bind-none (index 11 p) _ λ d. rw (range-none 12 16 p (omega (arith, m))) refl)

  channel-panics :
      2 < length p → length p < 34 → first_match 0x12 (response_arms hex_encode p) ≡ none
  unfolding first_match response_arms decode_channel_info
  channel-panics n m =
      rw (lt→ltb 2 (length p) (omega (arith, n)))
        (bind-none (index 1 p) _ λ a. rw (range-none 2 34 p (omega (arith, m))) refl)

  cut-panics :
      (code : ℕ) → IsCut code (length p) → first_match code (response_arms hex_encode p) ≡ none
  cut-panics code (inl (c, n)) = rw c (sent-panics n)
  cut-panics code (inr (inl (c, n, m))) = rw c (message-panics n m)
  cut-panics code (inr (inr (c, n, m))) = rw c (channel-panics n m)

-- Where `hex::encode` writes two digits for a byte, the decoder of responses panics exactly for a payload that
-- is shorter than its code's arm takes for granted: SENT of 9 bytes, CONTACT_MSG_RECV_V3 of 13 to 15, and
-- CHANNEL_INFO of 3 to 33.
pub decode_response_payload-panic :
    (hex_encode : Bytes → Bytes) (code : ℕ) (payload : Bytes)
    → ((x : Bytes) → length (hex_encode x) ≡ 2 * length x)
    → (decode_response_payload hex_encode code payload ≡ none) ↔ IsCut code (length payload)
unfolding decode_response_payload
decode_response_payload-panic hex_encode code [] two_digits =
    (λ e. cc, λ h. absurd (ground (arith, h)))
decode_response_payload-panic hex_encode code (b ∷ data_) two_digits =
    let p = b ∷ data_ in
    (
      λ e. elim (IsCut-cases code (length p)) [
        | inl sound ↦ absurd (
            none_if_empty-total _
              (first_match-IsTotal code (response_arms hex_encode p)
                (response_arms-IsTotal hex_encode two_digits p code sound))
              e)
        | inr cut ↦ cut
      ],
      λ h. rw (cut-panics hex_encode two_digits p code h) refl,
    )
