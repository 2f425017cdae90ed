-- ===== src/Core/Cache/Layouts.antt =====
-- The message that a frame of the radio carries, read by the layout of its code, and that it is the one which
-- `cache_response` of src/core.rs stores.
use coresplitter.Base.{
  ℕ, ◌≡◌, ◌≢◌, ◌⊎◌, inl, inr, refl, sym, ap, subst, ◌∙◌, Bool, true, false, Option, none, some,
  List, [], ◌∷◌, arith, leb, ◌==◌, if◌then◌else◌, Bool-cases, length, drop,
}
use coresplitter.Base.Bytes.{Bytes, byte_at, slice, u32_at}
use coresplitter.Base.Utf8.{from_utf8_lossy}
use coresplitter.Node.Db.Tables.{MessageType, MessageRow}
use coresplitter.Node.State.{NewMessage, kv_set, upsert_contact, upsert_channel}
use coresplitter.Protocol.Decode.{◌>>=◌}
use coresplitter.Protocol.Decode.Chain.{some-inner}
use coresplitter.Protocol.Decode.Response.{decode_response_payload}
use coresplitter.Core.State.{Core, Clock}
use coresplitter.Core.Cache.{
  cache_response, cache_undecoded, extract_radio_identity, extract_max_channels, get,
  channel_message, contact_message_v3, channel_message_v3,
}
use coresplitter.Core.Cache.Messages.{
  with_message, store_message-rows, decode-contact, decode-channel, channel_map, Holds,
}

abbrev from_contact : Bytes → ℕ → Bytes → Bytes → NewMessage
from_contact key timestamp text frame = record {
  msg_type = MessageType.contact;
  from_key = some key;
  channel_idx = none;
  text = text;
  timestamp = timestamp;
  frame = frame;
  origin = none;
}

abbrev on_channel : ℕ → ℕ → Bytes → Bytes → NewMessage
on_channel idx timestamp text frame = record {
  msg_type = MessageType.channel;
  from_key = none;
  channel_idx = some idx;
  text = text;
  timestamp = timestamp;
  frame = frame;
  origin = none;
}

abbrev if_whole : ℕ → Bytes → NewMessage → Option NewMessage
if_whole n frame msg = if leb n (length frame) then some msg else none

-- The key, the time and the text of a message to the radio stand at these places of its frame; the text of a
-- signed message comes behind four bytes of signature.
abbrev pub carried_by : ℕ → Bytes → Option NewMessage
carried_by code f =
    if code == 0x07
    then if_whole 13 f (from_contact (slice 1 7 f) (u32_at f 9) (from_utf8_lossy (drop 13 f)) f)
    else if code == 0x08
    then if_whole 9 f (on_channel (byte_at f 1) (u32_at f 4) (from_utf8_lossy (drop 8 f)) f)
    else if code == 0x10
    then if_whole 16 f (
        from_contact (slice 4 10 f) (u32_at f 12)
          (from_utf8_lossy (if byte_at f 11 == 2 then drop 20 f else drop 16 f)) f)
    else if code == 0x11
    then if_whole 11 f (on_channel (byte_at f 4) (u32_at f 7) (from_utf8_lossy (drop 11 f)) f)
    else none

code_cases :
    (code : ℕ)
    → (code ≡ 0x07)
      ⊎ (code ≡ 0x08)
      ⊎ (code ≡ 0x10)
      ⊎ (code ≡ 0x11)
      ⊎ ((code ≢ 0x07) × (code ≢ 0x08) × (code ≢ 0x10) × (code ≢ 0x11))
code_cases code = ground arith

-- The table after a frame, where caching it did not panic.
abbrev Stores : List MessageRow → Option Core → Type 0
Stores rows r = (d : Core) → r ≡ some d → d.db.messages ≡ rows

some-Stores : (rows : List MessageRow) (d : Core) → d.db.messages ≡ rows → Stores rows (some d)
some-Stores rows d h e eq = ap (λ x. x.db.messages) (sym (some-inner eq)) ∙ h

chain-Stores :
    {A B : Type 0} (rows : List MessageRow) (m : Option A) (f : A → B) (g : B → Core)
    → ((a : A) → (g (f a)).db.messages ≡ rows)
    → Stores rows (m >>= (λ a. some (f a)) >>= λ b. some (g b))
chain-Stores rows none f g h d e = cc
chain-Stores rows (some a) f g h d e = some-Stores rows (g (f a)) (h a) d e

if-Stores :
    (rows : List MessageRow) (test : Bool) (r s : Option Core)
    → (test ≡ true → Stores rows r)
    → Stores rows s
    → Stores rows (if test then r else s)
if-Stores rows true r s h k = h refl
if-Stores rows false r s h k = k

if-Holds :
    (rows : List MessageRow) (test : Bool) (c d : Core)
    → (test ≡ true → Holds rows c.db)
    → Holds rows d.db
    → Holds rows (if test then c else d).db
if-Holds rows true c d h k = h refl
if-Holds rows false c d h k = k

module _ (hex_encode : Bytes → Bytes) (clock : Clock) (rest : Bytes) (c : Core)
    (runs : c.db.outcomes ≡ []) where
  abbrev IsAfter : ℕ → Type 0
  IsAfter code =
      Stores (with_message clock.unix (carried_by code (code ∷ rest)) c.db)
        (cache_response hex_encode clock code (code ∷ rest) c)

  v3-IsAfter : IsAfter 0x10
  unfolding cache_response cache_undecoded
  v3-IsAfter = elim (Bool-cases (leb 16 (length (0x10 ∷ rest)))) [
    | inl whole ↦
        rw whole
          (some-Stores _ _ (store_message-rows clock (contact_message_v3 (0x10 ∷ rest)) c runs))
    | inr cut ↦ rw cut (some-Stores _ c refl)
  ]

  channel_v3-IsAfter : IsAfter 0x11
  unfolding cache_response cache_undecoded
  channel_v3-IsAfter = elim (Bool-cases (leb 11 (length (0x11 ∷ rest)))) [
    | inl whole ↦
        rw whole
          (some-Stores _ _ (store_message-rows clock (channel_message_v3 (0x11 ∷ rest)) c runs))
    | inr cut ↦ rw cut (some-Stores _ c refl)
  ]

  contact-IsAfter : IsAfter 0x07
  unfolding cache_response get
  contact-IsAfter =
      rw (decode-contact hex_encode 0x07 rest) (elim (Bool-cases (leb 13 (length (0x07 ∷ rest)))) [
        | inl whole ↦
            let p = 0x07 ∷ rest in
            let keyed : leb 7 (length (0x07 ∷ rest)) ≡ true = ground (arith, whole) in
            rw (whole, keyed)
              (some-Stores _ _ (
                store_message-rows clock
                  (from_contact (slice 1 7 p) (u32_at p 9) (from_utf8_lossy (drop 13 p)) p) c runs))
        | inr cut ↦ rw cut (some-Stores _ c refl)
      ])

  channel-IsAfter : IsAfter 0x08
  unfolding cache_response get
  channel-IsAfter =
      rw (decode-channel hex_encode 0x08 rest) (elim (Bool-cases (leb 9 (length (0x08 ∷ rest)))) [
        | inl whole ↦ rw whole (
            some-Stores _ _ (
              store_message-rows clock
                (channel_message clock.unix (0x08 ∷ rest) (channel_map (0x08 ∷ rest))) c runs))
        | inr cut ↦ rw cut (some-Stores _ c refl)
      ])

  -- Any other code stores no message.
  other-IsAfter :
      (code : ℕ)
      → code ≢ 0x07
      → code ≢ 0x08
      → code ≢ 0x10
      → code ≢ 0x11
      → Stores c.db.messages (cache_response hex_encode clock code (code ∷ rest) c)
  unfolding cache_response cache_undecoded extract_radio_identity extract_max_channels kv_set
      upsert_contact upsert_channel
  other-IsAfter code n7 n8 n10 n11 =
      let rows = c.db.messages in
      let payload = code ∷ rest in
      if-Stores rows (code == 0x05) _ _
        (λ e.
          chain-Stores rows (decode_response_payload hex_encode 0x05 payload) _ _ λ d. rw runs refl)
        (if-Stores rows (code == 0x0D) _ _
          (λ e.
            chain-Stores rows (decode_response_payload hex_encode 0x0D payload) _ _
              λ d. rw runs refl)
          (if-Stores rows (code == 0x07) _ _ (λ e. absurd (n7 (ground (arith, e))))
            (if-Stores rows (code == 0x08) _ _ (λ e. absurd (n8 (ground (arith, e))))
              (some-Stores rows _ (
                if-Holds rows (code == 0x03) _ _
                  (λ e. if-Holds rows (leb 148 (length payload)) _ _ (λ k. rw runs refl) refl)
                  (if-Holds rows (code == 0x0C) _ _ (λ e. rw runs refl)
                    (if-Holds rows (code == 0x10) _ _ (λ e. absurd (n10 (ground (arith, e))))
                      (if-Holds rows (code == 0x11) _ _ (λ e. absurd (n11 (ground (arith, e))))
                        (if-Holds rows (code == 0x12) _ _
                          (λ e.
                            if-Holds rows (leb 50 (length payload)) _ _ (λ k. rw runs refl) refl)
                          refl)))))))))

  carried_by-other :
      (code : ℕ)
      → code ≢ 0x07
      → code ≢ 0x08
      → code ≢ 0x10
      → code ≢ 0x11
      → carried_by code (code ∷ rest) ≡ none
  carried_by-other code n7 n8 n10 n11 = ground (arith, n7, n8, n10, n11)

  any-IsAfter : (code : ℕ) → IsAfter code
  any-IsAfter code = elim (code_cases code) [
    | inl e ↦ subst IsAfter (sym e) contact-IsAfter
    | inr (inl e) ↦ subst IsAfter (sym e) channel-IsAfter
    | inr (inr (inl e)) ↦ subst IsAfter (sym e) v3-IsAfter
    | inr (inr (inr (inl e))) ↦ subst IsAfter (sym e) channel_v3-IsAfter
    | inr (inr (inr (inr (n7, n8, n10, n11)))) ↦
        let other = carried_by-other code n7 n8 n10 n11 in
        λ d e.
          other-IsAfter code n7 n8 n10 n11 d e
          ∙ ap (λ msg. with_message clock.unix msg c.db) (sym other)
  ]

-- While no statement fails, a frame of the radio adds to the stored messages the one that it carries by the layout
-- of its code, with the frame itself and no origin, behind all others under the next id; and it adds nothing where
-- it carries none: another code, or a frame that is too short. Caching it did not panic.
pub cache_response-carried_by :
    (hex_encode : Bytes → Bytes) (clock : Clock) (code : ℕ) (rest : Bytes) (c d : Core)
    → c.db.outcomes ≡ []
    → cache_response hex_encode clock code (code ∷ rest) c ≡ some d
    → d.db.messages ≡ with_message clock.unix (carried_by code (code ∷ rest)) c.db
cache_response-carried_by hex_encode clock code rest c d runs e =
    any-IsAfter hex_encode clock rest c runs code d e
