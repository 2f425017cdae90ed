-- ===== src/Protocol/Decode/Command/Panic.antt =====
-- Where `decode_command_payload` of src/protocol/decode.rs panics.
use coresplitter.Base.{
  ℕ, ◌≤◌, ◌<◌, ◌≡◌, ◌≢◌, ◌↔◌, refl, sym, min, ◌⊎◌, inl, inr, Option, none, [], ◌∷◌, arith, ltb, leb,
  ltb→lt, leb→le, leb_false→lt, Bool-cases, length, tests,
}
use coresplitter.Base.Bytes.{Bytes, All}
use coresplitter.Protocol.Decode.{◌>>=◌, range, first_match}
use coresplitter.Protocol.Decode.Total.{
  range-cases, range-total, u32-total, index-total, IsTotal, first_match-IsTotal,
  none_if_empty-total,
}
use coresplitter.Protocol.Decode.Command.{
  decode_app_start, decode_send_txt_msg, decode_send_channel_txt_msg, decode_set_radio_params,
  decode_set_lat_lon, decode_set_channel, telemetry_target, command_arms, decode_command_payload,
  hex_up_to,
}

module _ (hex_encode : Bytes → Bytes) (p : Bytes) where
  decode_app_start-total : 2 ≤ length p → decode_app_start hex_encode p ≢ none
  unfolding decode_app_start
  decode_app_start-total h = index-total 1 p _ (omega arith) λ x e. cc

  hex_up_to-total :
      {B : Type 0} (i j : ℕ) (f : _ → Option B)
      → i ≤ j
      → ((x : _) → f x ≢ none)
      → (hex_up_to hex_encode i j p >>= f) ≢ none
  hex_up_to-total i j f h total = elim (Bool-cases (ltb i (length p))) [
    | inl e ↦ rw e (
        let (x, r) =
          range-cases i (min j (length p)) p (omega (tests, ltb→lt i (length p) e)) (omega arith) in
        rw r (total _))
    | inr e ↦ rw e (total _)
  ]

  decode_send_txt_msg-total : 7 ≤ length p → decode_send_txt_msg hex_encode p ≢ none
  unfolding decode_send_txt_msg
  decode_send_txt_msg-total h = index-total 1 p _ (omega arith) λ msg_type.
      index-total 2 p _ (omega arith) λ attempt.
        u32-total 3 7 p _ (omega arith) (omega arith)
          λ timestamp. hex_up_to-total 7 13 _ (omega arith) λ x e. cc

  decode_send_channel_txt_msg-total : 7 ≤ length p → decode_send_channel_txt_msg hex_encode p ≢ none
  unfolding decode_send_channel_txt_msg
  decode_send_channel_txt_msg-total h =
      index-total 2 p _ (omega arith)
        λ channel. u32-total 3 7 p _ (omega arith) (omega arith) λ timestamp e. cc

  decode_set_radio_params-total : 11 ≤ length p → decode_set_radio_params hex_encode p ≢ none
  unfolding decode_set_radio_params
  decode_set_radio_params-total h = u32-total 1 5 p _ (omega arith) (omega arith) λ freq.
      u32-total 5 9 p _ (omega arith) (omega arith)
        λ bw. index-total 9 p _ (omega arith) λ sf. index-total 10 p _ (omega arith) λ cr e. cc

  decode_set_lat_lon-total : 9 ≤ length p → decode_set_lat_lon hex_encode p ≢ none
  unfolding decode_set_lat_lon
  decode_set_lat_lon-total h =
      u32-total 1 5 p _ (omega arith) (omega arith)
        λ lat. u32-total 5 9 p _ (omega arith) (omega arith) λ lon e. cc

  decode_set_channel-total : 49 < length p → decode_set_channel hex_encode p ≢ none
  unfolding decode_set_channel
  decode_set_channel-total h = index-total 1 p _ (omega arith) λ idx.
      range-total 2 34 p _ (omega arith) (omega arith)
        λ name. range-total 34 50 p _ (omega arith) (omega arith) λ psk e. cc

  telemetry_target-total : telemetry_target hex_encode p ≢ none
  unfolding telemetry_target
  telemetry_target-total = elim (Bool-cases (ltb 4 (length p))) [
    | inl e ↦ rw e (
        range-total 4 (min 10 (length p)) p _ (omega (arith, ltb→lt 4 (length p) e)) (omega arith)
          λ target k. cc)
    | inr e ↦ rw e (λ k. cc)
  ]

  -- A GET_CONTACTS with a part of its four bytes.
  abbrev pub IsCut : ℕ → Type 0
  IsCut code = (code ≡ 0x04) × (1 < length p) × (length p < 5)

  lastmod-whole : (code : ℕ) → ¬ IsCut code → code ≡ 0x04 → 1 < length p → 5 ≤ length p
  lastmod-whole code whole c g = elim (Bool-cases (leb 5 (length p))) [
    | inl e ↦ leb→le 5 (length p) e
    | inr e ↦ absurd (whole (c, g, leb_false→lt 5 (length p) e))
  ]

  command_arms-IsTotal : (code : ℕ) → ¬ IsCut code → All (IsTotal code) (command_arms hex_encode p)
  unfolding command_arms
  command_arms-IsTotal code whole = (
    λ c g. decode_app_start-total (leb→le 2 (length p) g),
    (
      λ c g. decode_send_txt_msg-total (leb→le 7 (length p) g),
      (
        λ c g. decode_send_channel_txt_msg-total (leb→le 7 (length p) g),
        (
          λ c g.
              u32-total 1 5 p _ (omega arith)
                (lastmod-whole code whole (sym c) (ltb→lt 1 (length p) g)) λ x e. cc,
          (
            λ c g. u32-total 1 5 p _ (omega arith) (leb→le 5 (length p) g) λ x e. cc,
            (
              λ c g e. cc,
              (
                λ c g. decode_set_radio_params-total (leb→le 11 (length p) g),
                (
                  λ c g. u32-total 1 5 p _ (omega arith) (leb→le 5 (length p) g) λ x e. cc,
                  (
                    λ c g. decode_set_lat_lon-total (leb→le 9 (length p) g),
                    (
                      λ c g e. cc,
                      (
                        λ c g e. cc,
                        (
                          λ c g.
                              range-total 1 33 p _ (omega arith)
                                (omega (arith, ltb→lt 33 (length p) g)) λ x e. cc,
                          (
                            λ c g. index-total 1 p _ (ltb→lt 1 (length p) g) λ x e. cc,
                            (
                              λ c g. decode_set_channel-total (ltb→lt 49 (length p) g),
                              (
                                λ c g.
                                    u32-total 1 5 p _ (omega arith) (leb→le 5 (length p) g)
                                      λ x e. cc,
                                (
                                  λ c g. telemetry_target-total,
                                  (
                                    λ c g.
                                        range-total 2 (min 34 (length p)) p _
                                          (omega (arith, ltb→lt 2 (length p) g)) (omega arith)
                                          λ x e. cc,
                                    (
                                      λ c g. index-total 2 p _ (leb→le 3 (length p) g) λ x e. cc,
                                      (
                                        λ c g. index-total 1 p _ (ltb→lt 1 (length p) g) λ x e. cc,
                                        tt,
                                      ),
                                    ),
                                  ),
                                ),
                              ),
                            ),
                          ),
                        ),
                      ),
                    ),
                  ),
                ),
              ),
            ),
          ),
        ),
      ),
    ),
  )

  cut-panics : 1 < length p → length p < 5 → first_match 0x04 (command_arms hex_encode p) ≡ none
  unfolding first_match command_arms range
  cut-panics h k = ground (arith, h, k)

IsCut-cases :
    (code n : ℕ) → ¬ ((code ≡ 0x04) × (1 < n) × (n < 5)) ⊎ ((code ≡ 0x04) × (1 < n) × (n < 5))
IsCut-cases code n = ground arith

-- Whatever the payload and however hex strings are written, the decoder of commands panics for exactly one
-- kind of input: a GET_CONTACTS of two to four bytes, which has a part of its `since`.
pub decode_command_payload-panic :
    (hex_encode : Bytes → Bytes) (code : ℕ) (payload : Bytes)
    → (decode_command_payload hex_encode code payload ≡ none)
      ↔ ((code ≡ 0x04) × (1 < length payload) × (length payload < 5))
unfolding decode_command_payload
decode_command_payload-panic hex_encode code [] = (λ e. cc, λ h. absurd (omega (arith, h.1)))
decode_command_payload-panic hex_encode code (b ∷ data_) =
    let p = b ∷ data_ in
    (
      λ e. elim (IsCut-cases code (length p)) [
        | inl whole ↦ absurd (
            none_if_empty-total _
              (first_match-IsTotal code (command_arms hex_encode p)
                (command_arms-IsTotal hex_encode p code whole))
              e)
        | inr cut ↦ cut
      ],
      λ h. rw (h.0) (rw (cut-panics hex_encode p h.1 h.2) refl),
    )
