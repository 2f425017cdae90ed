-- ===== src/Core/Frames/Laws.antt =====
-- Message frames across protocol versions, and the text of a channel echo (src/core.rs).
use coresplitter.Base.{
  ℕ, zero, suc, ◌-◌, ◌<◌, ◌≤◌, ◌≡◌, refl, sym, ap, ◌≢◌, ◌⊎◌, Option, [], ◌∷◌, ◌++◌, arith, min, max,
  length, take,
}
use coresplitter.Base.Bytes.{Bytes, byte_at}
use coresplitter.Core.Frames.{max_text_len, prefix_for, channel_text_on_air, message_frame_for}

take-min : (n : ℕ) (ys : Bytes) → take (min (length ys) n) ys ≡ take n ys
take-min zero ys = rw (min_zero ys) refl
  where
    min_zero : (zs : Bytes) → min (length zs) 0 ≡ 0
    min_zero zs = omega arith
take-min (suc n) [] = rw none_left refl
  where
    none_left : min 0 (suc n) ≡ 0
    none_left = omega arith
take-min (suc n) (y ∷ ys) =
    let step : min (suc (length ys)) (suc n) ≡ suc (min (length ys) n) = omega arith in
    rw step (ap (◌∷◌ y) (take-min n ys))

take-append_take :
    (n : ℕ) (xs ys : Bytes)
    → take (max n (length xs)) (xs ++ ys) ≡ xs ++ take (min (length ys) (n - length xs)) ys
take-append_take n [] ys =
    let zero_max : max n 0 ≡ n = omega arith in
    let zero_sub : n - 0 ≡ n = omega arith in rw (zero_max, zero_sub) (sym (take-min n ys))
take-append_take zero (x ∷ xs) ys =
    let a : max 0 (suc (length xs)) ≡ suc (max 0 (length xs)) = omega arith in
    let b : 0 - suc (length xs) ≡ 0 - length xs = omega arith in
    rw (a, b) (ap (◌∷◌ x) (take-append_take zero xs ys))
take-append_take (suc n) (x ∷ xs) ys =
    let a : max (suc n) (suc (length xs)) ≡ suc (max n (length xs)) = omega arith in
    let b : suc n - suc (length xs) ≡ n - length xs = omega arith in
    rw (a, b) (ap (◌∷◌ x) (take-append_take n xs ys))

-- The text on the air is the node's prefix and the message, cut at `MAX_TEXT_LEN` bytes, or after the
-- prefix where that alone is longer.
pub channel_text_on_air-take :
    (node_name : Option Bytes) (text : Bytes)
    → channel_text_on_air node_name text
      ≡ take (max max_text_len (length (prefix_for node_name))) (prefix_for node_name ++ text)
unfolding channel_text_on_air
channel_text_on_air-take node_name text =
    sym (take-append_take max_text_len (prefix_for node_name) text)

-- Every client gets each message in one layout: converting twice for the same version changes nothing more.
pub message_frame_for_idem :
    (v : ℕ) (frame : Bytes)
    → message_frame_for v (message_frame_for v frame) ≡ message_frame_for v frame
unfolding message_frame_for
message_frame_for_idem v [] = refl
message_frame_for_idem v (code ∷ rest) = ground arith

-- A message in the old layout that is upgraded for a client of version 3 or later reads the same once it is
-- converted back.
pub message_frame_for-upgrade :
    (v w : ℕ) (frame : Bytes)
    → 3 ≤ v
    → w < 3
    → (byte_at frame 0 ≡ 0x07) ⊎ (byte_at frame 0 ≡ 0x08)
    → message_frame_for w (message_frame_for v frame) ≡ frame
unfolding message_frame_for
message_frame_for-upgrade v w [] hv hw k = refl
message_frame_for-upgrade v w (code ∷ rest) hv hw k = ground arith

-- A frame of four bytes or more reaches a client of version 3 or later never as 0x07 or 0x08, and an older
-- one never as 0x10 or 0x11; a frame under any other code is passed on as it is.
pub message_frame_for-layout :
    (v code : ℕ) (rest : Bytes)
    → 4 ≤ length (code ∷ rest)
    → let sent = byte_at (message_frame_for v (code ∷ rest)) 0 in
      (3 ≤ v → (sent ≢ 0x07) × (sent ≢ 0x08))
      × (v < 3 → (sent ≢ 0x10) × (sent ≢ 0x11))
      × (code ≢ 0x07
          → code ≢ 0x08
          → code ≢ 0x10
          → code ≢ 0x11
          → message_frame_for v (code ∷ rest) ≡ code ∷ rest)
unfolding message_frame_for
message_frame_for-layout v code rest h = (
  λ new. (ground arith, ground arith),
  λ old. (ground arith, ground arith),
  λ a b c d. ground arith,
)
