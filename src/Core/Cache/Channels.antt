-- ===== src/Core/Cache/Channels.antt =====
-- A channel that the radio reports is what GET_CHANNEL is answered with from then on (src/core.rs).
pub mod Served
use coresplitter.Base.{
  ℕ, zero, suc, ◌+◌, ◌-◌, ◌≤◌, ◌<◌, ◌≡◌, ◌⊎◌, inl, inr, refl, sym, ap, ◌∙◌, Bool, true, false,
  Option, none, some, List, [], ◌∷◌, ◌++◌, arith, leb, ◌==◌, if◌then◌else◌, length, take, drop,
  replicate, length-append, length-replicate, append-nil, ◌%◌, drop-append_length,
  take-append_length,
}
use coresplitter.Base.Bytes.{Bytes, All, slice}
use coresplitter.Base.Utf8.{from_utf8_lossy, decode, step, lead, whole}
use coresplitter.Protocol.Decode.Response.{zero_position, name_end}
use coresplitter.Node.Db.Tables.{CachedChannel}
use coresplitter.Core.Cached.{channel_frame, padded}
use coresplitter.Core.Cache.{channel_info_of, name_field}

-- Characters of ASCII but for NUL.
abbrev pub IsPlain : Bytes → Type 0
IsPlain = All (λ b. (0 < b) × (b < 128))

decode-plain : (bytes : Bytes) → IsPlain bytes → decode whole bytes ≡ bytes
unfolding decode step lead
decode-plain [] h = refl
decode-plain (b ∷ bytes) h =
    let ascii : leb b 0x7F ≡ true = ground (arith, h.0) in
    rw ascii (ap (◌∷◌ b) (decode-plain bytes h.1))

from_utf8_lossy-plain : (bytes : Bytes) → IsPlain bytes → from_utf8_lossy bytes ≡ bytes
unfolding from_utf8_lossy
from_utf8_lossy-plain = decode-plain

zero_position-plain :
    (name : Bytes) (n : ℕ)
    → IsPlain name
    → zero_position (name ++ replicate n 0) ≡ (if n == 0 then none else some (length name))
zero_position-plain [] zero h = refl
zero_position-plain [] (suc n) h = ground arith
zero_position-plain (b ∷ name) n h = ground (arith, zero_position-plain name n h.1, h.0)

take-all : (n : ℕ) (xs : Bytes) → length xs ≤ n → take n xs ≡ xs
take-all zero [] h = refl
take-all zero (x ∷ xs) h = absurd (omega arith)
take-all (suc n) [] h = refl
take-all (suc n) (x ∷ xs) h = ap (◌∷◌ x) (take-all n xs (omega arith))

take-front : (n : ℕ) (xs ys : Bytes) → length xs ≡ n → take n (xs ++ ys) ≡ xs
take-front n xs ys e = rw (← e) (take-append_length xs ys)

drop-front : (n : ℕ) (xs ys : Bytes) → length xs ≡ n → drop n (xs ++ ys) ≡ ys
drop-front n xs ys e = rw (← e) (drop-append_length xs ys)

padded-full : (n : ℕ) (xs : Bytes) → length xs ≡ n → padded n xs ≡ xs
padded-full n xs e =
    let nothing : n - length xs ≡ 0 = omega arith in
    rw (nothing, take-all n xs (omega arith)) (append-nil xs)

padded-short :
    (n : ℕ) (xs : Bytes) → length xs ≤ n → padded n xs ≡ xs ++ replicate (n - length xs) 0
padded-short n xs h = rw (take-all n xs h) refl

name_end-plain :
    (name : Bytes)
    → IsPlain name
    → length name ≤ 32
    → name_end (name ++ replicate (32 - length name) 0) ≡ length name
name_end-plain name h k = ground (arith, zero_position-plain name (32 - length name) h, k)

-- The name that stands in a field of 32 bytes is read back.
name_field-padded :
    (name : Bytes) → IsPlain name → length name ≤ 32 → name_field (padded 32 name) ≡ name
name_field-padded name h k =
    let field = name ++ replicate (32 - length name) 0 in
    ap name_field (padded-short 32 name k)
    ∙ ap (λ n. from_utf8_lossy (take n field)) (name_end-plain name h k)
    ∙ ap from_utf8_lossy (take-append_length name (replicate (32 - length name) 0))
    ∙ from_utf8_lossy-plain name h

channel_frame-fields :
    (idx : ℕ) (field secret more : Bytes)
    → idx < 256
    → padded 32 (name_field field) ≡ field
    → length field ≡ 32
    → length secret ≡ 16
    → channel_frame (channel_info_of (0x12 ∷ idx ∷ (field ++ (secret ++ more))))
      ≡ 0x12 ∷ idx ∷ (field ++ secret)
unfolding channel_frame channel_info_of
channel_frame-fields idx field secret more i e f s =
    let back = secret ++ more in
    let byte : idx % 256 ≡ idx = omega arith in
    λ j.
      0x12
      ∷ byte j
      ∷ ((ap (λ x. padded 32 (name_field x)) (take-front 32 field back f) ∙ e) j
          ++ (ap (λ x. padded 16 (take 16 x)) (drop-front 32 field back f)
                ∙ ap (padded 16) (take-front 16 secret more s)
                ∙ padded-full 16 secret s)
              j)

-- CHANNEL_INFO of 50 bytes or more.
abbrev pub channel_info : ℕ → Bytes → Bytes → Bytes → Bytes
channel_info idx name secret more = 0x12 ∷ idx ∷ (padded 32 name ++ (secret ++ more))

length-padded : (name : Bytes) → length name ≤ 32 → length (padded 32 name) ≡ 32
length-padded name k =
    ap length (padded-short 32 name k)
    ∙ omega (
      arith,
      length-append name (replicate (32 - length name) 0),
      length-replicate {A = ℕ} (32 - length name) 0,
    )

pub length-channel_info :
    (idx : ℕ) (name secret more : Bytes)
    → length name ≤ 32
    → length secret ≡ 16
    → 50 ≤ length (channel_info idx name secret more)
length-channel_info idx name secret more k l = omega (
  arith,
  length-append (padded 32 name) (secret ++ more),
  length-append secret more,
  length-padded name k,
)

pub channel_frame-channel_info_of :
    (idx : ℕ) (name secret more : Bytes)
    → idx < 256
    → IsPlain name
    → length name ≤ 32
    → length secret ≡ 16
    → channel_frame (channel_info_of (channel_info idx name secret more))
      ≡ channel_info idx name secret []
channel_frame-channel_info_of idx name secret more i h k l =
    channel_frame-fields idx (padded 32 name) secret more i
      (ap (padded 32) (name_field-padded name h k)) (length-padded name k) l
    ∙ ap (λ xs. 0x12 ∷ idx ∷ (padded 32 name ++ xs)) (sym (append-nil secret))
