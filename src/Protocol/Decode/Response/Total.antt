-- ===== src/Protocol/Decode/Response/Total.antt =====
-- Arms of `decode_response_payload` (src/protocol/decode.rs) on payloads that are long enough.
use Prim.Native.String.{String}
use coresplitter.Base.{
  ℕ, ◌+◌, ◌*◌, ◌-◌, ◌≤◌, ◌<◌, ◌≡◌, ◌≢◌, refl, ap, ◌∙◌, Bool, true, false, ◌&&◌, inl, inr, Option,
  none, some, [], ◌∷◌, arith, ltb, leb, ltb→lt, leb→le, if◌then◌else◌, Bool-cases, Option-cases,
  length, drop, length-take, length-drop,
}
use coresplitter.Base.Bytes.{Bytes, slice}
use coresplitter.Protocol.Decode.{Map, ◌>>=◌, range}
use coresplitter.Protocol.Decode.Total.{range-cases, range-total, u32-total, index-total}
use coresplitter.Protocol.Decode.Response.{
  when, join, u32_entry, byte_entry, trimmed_entry, degrees_entry, zero_position, name_end,
  decode_message_channel, decode_channel_v3, decode_battery, decode_device_info,
  decode_channel_info, short_key, decode_contact, decode_self_info, decode_sent, decode_message,
  decode_message_v3,
}

pub some-total : (m : Map) → some m ≢ none
some-total m = λ e. cc

pub join-total : (m n : Option Map) → m ≢ none → n ≢ none → join m n ≢ none
join-total none n h k = λ e. h refl
join-total (some xs) none h k = λ e. k refl
join-total (some xs) (some ys) h k = λ e. cc

pub when-total : (test : Bool) (m : Option Map) → (test ≡ true → m ≢ none) → when test m ≢ none
when-total true m h = h refl
when-total false m h = λ e. cc

pub if-total :
    (test : Bool) (m n : Option Map)
    → (test ≡ true → m ≢ none)
    → n ≢ none
    → (if test then m else n) ≢ none
if-total true m n h k = h refl
if-total false m n h k = k

module _ (p : Bytes) where
  pub u32_entry-total : (key : String) (i : ℕ) → i + 4 ≤ length p → u32_entry key i p ≢ none
  u32_entry-total key i h = u32-total i (i + 4) p _ (omega arith) h λ x e. cc

  pub byte_entry-total : (key : String) (i : ℕ) → i < length p → byte_entry key i p ≢ none
  byte_entry-total key i h = index-total i p _ h λ x e. cc

  pub trimmed_entry-total :
      (key : String) (i j : ℕ) → i ≤ j → j ≤ length p → trimmed_entry key i j p ≢ none
  trimmed_entry-total key i j h k = range-total i j p _ h k λ x e. cc

  pub degrees_entry-total : (key : String) (i : ℕ) → i + 4 ≤ length p → degrees_entry key i p ≢ none
  degrees_entry-total key i h = u32-total i (i + 4) p _ (omega arith) h λ x e. cc

  pub decode_message_channel-total : 9 ≤ length p → decode_message_channel p ≢ none
  unfolding decode_message_channel
  decode_message_channel-total h = index-total 1 p _ (omega arith) λ a.
      index-total 2 p _ (omega arith) λ b.
        index-total 3 p _ (omega arith) λ c. u32-total 4 8 p _ (omega arith) (omega arith) λ d e. cc

  pub decode_channel_v3-total : 11 ≤ length p → decode_channel_v3 p ≢ none
  unfolding decode_channel_v3
  decode_channel_v3-total h = index-total 1 p _ (omega arith) λ a.
      index-total 4 p _ (omega arith) λ b. index-total 5 p _ (omega arith) λ c.
        index-total 6 p _ (omega arith)
          λ d. u32-total 7 11 p _ (omega arith) (omega arith) λ x e. cc

  pub decode_battery-total : 3 ≤ length p → decode_battery p ≢ none
  unfolding decode_battery
  decode_battery-total h =
      join-total _ _ (range-total 1 3 p _ (omega arith) (omega arith) λ x e. cc) (
        when-total (leb 11 (length p)) _ λ g.
          let enough = leb→le 11 (length p) g in
          join-total _ _ (u32_entry-total "used_kb" 3 (omega (arith, enough)))
            (u32_entry-total "total_kb" 7 (omega (arith, enough))))

  pub decode_device_info-total : 1 < length p → decode_device_info p ≢ none
  unfolding decode_device_info
  decode_device_info-total h = join-total _ _ (byte_entry-total "fw_version" 1 h) (
      join-total _ _
        (when-total (ltb 3 (length p)) _ λ g.
          let enough = ltb→lt 3 (length p) g in
          join-total _ _ (index-total 2 p _ (omega (arith, enough)) λ x e. cc)
            (byte_entry-total "max_channels" 3 enough))
        (join-total _ _
          (when-total (leb 8 (length p)) _ λ g. u32_entry-total "ble_pin" 4 (leb→le 8 (length p) g))
          (join-total _ _
            (when-total (leb 20 (length p)) _
              λ g. trimmed_entry-total "fw_build" 8 20 (omega arith) (leb→le 20 (length p) g))
            (join-total _ _
              (when-total (leb 60 (length p)) _
                λ g. trimmed_entry-total "model" 20 60 (omega arith) (leb→le 60 (length p) g))
              (join-total _ _
                (when-total (ltb 80 (length p)) _ λ g.
                  trimmed_entry-total "version" 60 80 (omega arith)
                    (omega (arith, ltb→lt 80 (length p) g)))
                (join-total _ _
                  (when-total (ltb 81 (length p)) _ λ g.
                    byte_entry-total "client_repeat" 80 (omega (arith, ltb→lt 81 (length p) g)))
                  (when-total (ltb 82 (length p)) _ λ g.
                    byte_entry-total "path_hash_mode" 81
                      (omega (arith, ltb→lt 82 (length p) g)))))))))

  pub decode_sent-total :
      (hex_encode : Bytes → Bytes) → 10 ≤ length p → decode_sent hex_encode p ≢ none
  unfolding decode_sent
  decode_sent-total hex_encode h = index-total 1 p _ (omega arith) λ a.
      range-total 2 6 p _ (omega arith) (omega arith)
        λ b. u32-total 6 10 p _ (omega arith) (omega arith) λ c e. cc

  pub decode_message-total :
      (hex_encode : Bytes → Bytes) → 13 ≤ length p → decode_message hex_encode p ≢ none
  unfolding decode_message
  decode_message-total hex_encode h = range-total 1 7 p _ (omega arith) (omega arith) λ a.
      index-total 7 p _ (omega arith) λ b.
        index-total 8 p _ (omega arith)
          λ c. u32-total 9 13 p _ (omega arith) (omega arith) λ d e. cc

  pub decode_message_v3-total :
      (hex_encode : Bytes → Bytes) → 16 ≤ length p → decode_message_v3 hex_encode p ≢ none
  unfolding decode_message_v3
  decode_message_v3-total hex_encode h = index-total 1 p _ (omega arith) λ a.
      range-total 4 10 p _ (omega arith) (omega arith) λ b. index-total 10 p _ (omega arith) λ c.
        index-total 11 p _ (omega arith)
          λ d. u32-total 12 16 p _ (omega arith) (omega arith) λ x e. cc

pub zero_position-lt : (bytes : Bytes) (i : ℕ) → zero_position bytes ≡ some i → i < length bytes
zero_position-lt [] i e = cc
zero_position-lt (b ∷ bytes) i e = elim (Option-cases (zero_position bytes)) [
  | inl missing ↦ ground (arith, missing)
  | inr (j, found) ↦ ground (arith, found, zero_position-lt bytes j found)
]

pub name_end-le : (bytes : Bytes) → 32 ≤ length bytes → name_end bytes ≤ length bytes
name_end-le bytes h = elim (Option-cases (zero_position bytes)) [
  | inl missing ↦ rw (missing, name_end) h
  | inr (i, found) ↦ rw (found, name_end) (omega (arith, zero_position-lt bytes i found))
]

pub range-slice : (a b : ℕ) (p x : Bytes) → range a b p ≡ some x → x ≡ slice a b p
unfolding range
range-slice a b p x e = elim (Bool-cases (leb a b && leb b (length p))) [
  | inl inside ↦ ground (arith, inside, e)
  | inr outside ↦ ground (arith, outside, e)
]

-- The bytes of a slice that is in range are as many as it says.
pub range-exact :
    (a b : ℕ) (p : Bytes) (f : Bytes → Option Map)
    → a ≤ b
    → b ≤ length p
    → ((x : Bytes) → length x ≡ b - a → f x ≢ none)
    → (range a b p >>= f) ≢ none
range-exact a b p f h k total =
    let (x, e) = range-cases a b p h k in
    rw e (
      total x (
        ap length (range-slice a b p x e)
        ∙ omega (arith, length-take (b - a) (drop a p), length-drop a p)))

pub decode_channel_info-total : (p : Bytes) → 34 ≤ length p → decode_channel_info p ≢ none
unfolding decode_channel_info
decode_channel_info-total p h = index-total 1 p _ (omega arith) λ idx.
    range-exact 2 34 p _ (omega arith) h λ field l.
      range-total 2 (2 + name_end field) p _ (omega arith)
        (omega (arith, name_end-le field (omega (arith, l)), l)) λ name e. cc

module _ (hex_encode : Bytes → Bytes)
    (two_digits : (x : Bytes) → length (hex_encode x) ≡ 2 * length x) (p : Bytes) where
  pub short_key-total : (i j : ℕ) → i + 6 ≤ j → j ≤ length p → short_key hex_encode i j p ≢ none
  short_key-total i j h k = range-exact i j p _ (omega arith) k λ pk l.
      range-total 0 12 (hex_encode pk) _ (omega arith) (omega (arith, two_digits pk, l)) λ x e. cc

  pub decode_contact-total : 148 ≤ length p → decode_contact hex_encode p ≢ none
  unfolding decode_contact
  decode_contact-total h = join-total _ _ (short_key-total 1 33 (omega arith) (omega arith)) (
      index-total 33 p _ (omega arith) λ a. index-total 34 p _ (omega arith) λ b.
        index-total 35 p _ (omega arith) λ c.
          range-total 0 (name_end (drop 100 p)) (drop 100 p) _ (omega arith)
            (name_end-le (drop 100 p) (omega (arith, length-drop 100 p)))
            λ name. join-total _ _ (u32_entry-total p "last_advert" 132 (omega arith)) (
              join-total _ _ (degrees_entry-total p "lat" 136 (omega arith))
                (join-total _ _ (degrees_entry-total p "lon" 140 (omega arith)) (some-total _))))

  pub decode_self_info-total : 52 ≤ length p → decode_self_info hex_encode p ≢ none
  unfolding decode_self_info
  decode_self_info-total h = join-total _ _ (index-total 1 p _ (omega arith) λ n e. cc) (
      join-total _ _ (byte_entry-total p "tx_power" 2 (omega arith)) (
        join-total _ _ (byte_entry-total p "max_tx_power" 3 (omega arith)) (
          join-total _ _ (short_key-total 4 36 (omega arith) (omega arith)) (
            join-total _ _ (degrees_entry-total p "lat" 36 (omega arith)) (
              join-total _ _ (degrees_entry-total p "lon" 40 (omega arith)) (
                join-total _ _ (byte_entry-total p "multi_acks" 44 (omega arith)) (
                  join-total _ _ (byte_entry-total p "adv_loc_policy" 45 (omega arith)) (
                    join-total _ _ (byte_entry-total p "telemetry_mode" 46 (omega arith)) (
                      join-total _ _ (byte_entry-total p "manual_add_contacts" 47 (omega arith)) (
                        join-total _ _ (u32-total 48 52 p _ (omega arith) h λ x e. cc) (
                          join-total _ _
                            (if-total (leb 56 (length p)) _ _
                              (λ g.
                                u32-total 52 56 p _ (omega arith) (leb→le 56 (length p) g)
                                  λ x e. cc)
                              λ e. cc)
                            (join-total _ _
                              (when-total (ltb 57 (length p)) _ λ g.
                                join-total _ _
                                  (byte_entry-total p "sf" 56
                                    (omega (arith, ltb→lt 57 (length p) g)))
                                  (byte_entry-total p "cr" 57 (ltb→lt 57 (length p) g)))
                              (some-total _)))))))))))))
