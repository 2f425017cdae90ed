-- ===== src/Protocol/Frame/RoundTrip.antt =====
-- What `encode` writes, `feed` reads back: over any split into reads, and past stray bytes.
use coresplitter.Base.{
  ℕ, zero, suc, ◌+◌, ◌*◌, ◌/◌, ◌%◌, ◌^◌, ◌<◌, ◌≡◌, refl, sym, ◌∙◌, ap, ◌↔◌, true, false, none, List,
  [], ◌∷◌, ◌++◌, append-nil, arith, length, take-length, drop-length, length-append, length-take,
  take, drop, take-append, drop-append,
}
use coresplitter.Base.Bytes.{Bytes}
use coresplitter.Protocol.Frame.{
  stop, skip, emit, is_header, frame_header_client, encode, encode_command, new, round, read_header,
  read_len, read_payload, take_header, take_len, rounds, buffered, fuel_for, feed,
}
use coresplitter.Protocol.Frame.Chunks.{parser}

-- A sender's stream: stray bytes, and frames under either header.
pub data Item : Type 0 where
  junk : ℕ → Item
  frame : ℕ → Bytes → Item

abbrev pub IsSendable : List Item → Type 0
IsSendable [] = Unit {0}
IsSendable (junk b ∷ items) = (is_header b ≡ false) × IsSendable items
IsSendable (frame h payload ∷ items) =
    (is_header h ≡ true) × (length payload < 2 ^ 16) × IsSendable items

abbrev pub wire : List Item → Bytes
wire [] = []
wire (junk b ∷ items) = b ∷ wire items
wire (frame h payload ∷ items) = encode h payload ++ wire items

abbrev pub payloads : List Item → List Bytes
payloads [] = []
payloads (junk b ∷ items) = payloads items
payloads (frame h payload ∷ items) = payload ∷ payloads items

-- One round on an encoded payload, which loses what does not fit the 16-bit length.
round-encode :
    (h : ℕ) (payload rest : Bytes)
    → is_header h ≡ true
    → let n = length payload % 2 ^ 16 in
      round (parser none none (encode h payload ++ rest))
      ≡ emit (take n payload) (parser none none (drop n payload ++ rest))
unfolding round read_header encode take_header read_len take_len read_payload
round-encode h payload rest good =
    let n = length payload % 2 ^ 16 in
    let len : n % 256 + 256 * (n / 256) ≡ n = omega arith in
    rw (good, len)
      (ground (
        arith,
        length-append payload rest,
        take-append n payload rest (omega arith),
        drop-append n payload rest (omega arith),
      ))

round-encode_whole :
    (h : ℕ) (payload rest : Bytes)
    → is_header h ≡ true
    → length payload < 2 ^ 16
    → round (parser none none (encode h payload ++ rest)) ≡ emit payload (parser none none rest)
round-encode_whole h payload rest good fits =
    let n : length payload % 2 ^ 16 ≡ length payload = omega arith in
    round-encode h payload rest good ∙ rw (n, take-length payload, drop-length payload) refl

round-junk :
    (b : ℕ) (rest : Bytes)
    → is_header b ≡ false
    → round (parser none none (b ∷ rest)) ≡ skip (parser none none rest)
unfolding round read_header take_header
round-junk b rest bad = rw bad refl

round-new : round new ≡ stop new
unfolding round read_header take_header
round-new = refl

length-encode : (h : ℕ) (payload : Bytes) → length (encode h payload) ≡ length payload + 3
unfolding encode
length-encode h payload = omega arith

rounds-wire :
    (f : ℕ) (items : List Item)
    → length (wire items) < f
    → IsSendable items
    → rounds f (parser none none (wire items)) ≡ (payloads items, new)
unfolding rounds
rounds-wire zero items h s = absurd (omega arith)
rounds-wire (suc f) [] h s = rw round-new refl
rounds-wire (suc f) (junk b ∷ items) h s =
    rw (round-junk b (wire items) s.0) (rounds-wire f items (omega arith) s.1)
rounds-wire (suc f) (frame x payload ∷ items) h s =
    rw (round-encode_whole x payload (wire items) s.0 s.1) (
      rw
        (rounds-wire f items
          (omega (arith, length-append (encode x payload) (wire items), length-encode x payload))
          s.2)
        refl)

-- A whole stream fed at once: its payloads in order, past all stray bytes, and a parser that is as good
-- as new.
pub feed-wire :
    (items : List Item) → IsSendable items → feed new (wire items) ≡ (payloads items, new)
unfolding feed
feed-wire items s = rounds-wire (fuel_for (buffered new (wire items))) items (omega arith) s

first_of_list : List Bytes → Bytes
first_of_list [] = []
first_of_list (x ∷ xs) = x

truncated :
    (f : ℕ) (h : ℕ) (payload : Bytes)
    → is_header h ≡ true
    → rounds f (parser none none (encode h payload)) ≡ (payload ∷ [], new)
    → length payload < 2 ^ 16
unfolding rounds first_of_list
truncated zero h payload good e = cc
truncated (suc f) h payload good e =
    let n = length payload % 2 ^ 16 in
    let r : round (parser none none (encode h payload))
        ≡ emit (take n payload) (parser none none (drop n payload ++ [])) =
      ap (λ b. round (parser none none b)) (sym (append-nil (encode h payload)))
      ∙ round-encode h payload [] good in
    let whole : take n payload ≡ payload = ap (λ t. first_of_list t.0) (rw r at e) in
    omega (arith, ap length whole, length-take n payload)

-- A command frame fed to a new parser comes back alone and whole exactly when its length fits the 16-bit
-- length field.
pub feed-encode_command :
    (payload : Bytes)
    → (feed new (encode_command payload) ≡ (payload ∷ [], new)) ↔ (length payload < 2 ^ 16)
unfolding feed encode_command
feed-encode_command payload = (
  λ e.
      truncated (fuel_for (buffered new (encode frame_header_client payload))) frame_header_client
        payload refl e,
  λ h.
      ap (feed new) (sym (append-nil (encode frame_header_client payload)))
      ∙ feed-wire (frame frame_header_client payload ∷ []) (refl, h, tt),
)
