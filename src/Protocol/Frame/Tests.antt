-- ===== src/Protocol/Frame/Tests.antt =====
-- The framing of src/frame.rs on concrete streams.
use coresplitter.Base.{◌≡◌, ◌↔◌, ◌<◌, ◌^◌, refl, none, some, List, [], ◌∷◌, ◌++◌, arith}
use coresplitter.Base.Bytes.{Bytes}
use coresplitter.Protocol.Frame.{
  FrameParser, new, feed, rounds, buffered, encode_command, encode_response,
}
use coresplitter.Protocol.Frame.Loop.{Ends, feed-Ends}
use coresplitter.Protocol.Frame.Chunks.{feed-append}
use coresplitter.Protocol.Frame.RoundTrip.{Item, junk, frame, wire, feed-wire, feed-encode_command}

-- The first half of a frame with three bytes, and the rest of it with one more frame.
abbrev start : Bytes
start = 0x07 ∷ 0x3C ∷ 0x03 ∷ []

abbrev rest : Bytes
rest = 0x00 ∷ 1 ∷ 2 ∷ 3 ∷ 0x3E ∷ 0x01 ∷ 0x00 ∷ 9 ∷ []

feed-start :
    feed new start
    ≡ ([], record { header_byte = some 0x3C; expected_len = none; buffer = 0x03 ∷ [] })
unfolding feed rounds
feed-start = refl

feed-both : (feed new (start ++ rest)).0 ≡ (1 ∷ 2 ∷ 3 ∷ []) ∷ (9 ∷ []) ∷ []
unfolding feed rounds
feed-both = refl

encode-command : encode_command (1 ∷ 2 ∷ []) ≡ 0x3C ∷ 2 ∷ 0 ∷ 1 ∷ 2 ∷ []
unfolding encode_command
encode-command = refl

encode-response : encode_response (5 ∷ []) ≡ 0x3E ∷ 1 ∷ 0 ∷ 5 ∷ []
unfolding encode_response
encode-response = refl

feed-append_example :
    feed new (start ++ rest)
    ≡ (let (frames, q) = feed new start in let (later, r) = feed q rest in (frames ++ later, r))
feed-append_example = feed-append new start rest

abbrev stream : List Item
stream = junk 0x07 ∷ frame 0x3C (1 ∷ 2 ∷ []) ∷ junk 0x00 ∷ frame 0x3E [] ∷ []

feed-wire_example : feed new (wire stream) ≡ ((1 ∷ 2 ∷ []) ∷ [] ∷ [], new)
feed-wire_example = feed-wire stream (refl, (refl, omega arith, (refl, (refl, omega arith, tt))))

feed-encode_command_example :
    (feed new (encode_command (0x16 ∷ 3 ∷ [])) ≡ ((0x16 ∷ 3 ∷ []) ∷ [], new)) ↔ (2 < 2 ^ 16)
feed-encode_command_example = feed-encode_command (0x16 ∷ 3 ∷ [])

abbrev loaded : FrameParser
loaded = record { header_byte = none; expected_len = none; buffer = 0x07 ∷ 0x3C ∷ [] }

-- A stray byte, then a frame that the read completes.
feed-Ends_example :
    Ends
      (buffered loaded (1 ∷ 0 ∷ 5 ∷ []))
      (feed loaded (1 ∷ 0 ∷ 5 ∷ [])).0
      (feed loaded (1 ∷ 0 ∷ 5 ∷ [])).1
feed-Ends_example = feed-Ends loaded (1 ∷ 0 ∷ 5 ∷ [])
