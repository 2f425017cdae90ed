-- ===== src/Core/Frames.antt =====
-- src/core.rs: the frames that the core builds or converts.
pub mod Laws
use coresplitter.Base.{
  ℕ, ◌+◌, ◌-◌, Bool, true, false, ◌&&◌, ◌||◌, Option, none, some, List, [], ◌∷◌, ◌++◌, leb, ◌==◌,
  min, length, take, drop, replicate, if◌then◌else◌,
}
use coresplitter.Base.Bytes.{Bytes, byte_at}

abbrev pub max_text_len : ℕ
max_text_len = 160

-- "<node name>: " in front of a channel message, when the name is known.
abbrev pub prefix_for : Option Bytes → Bytes
prefix_for none = []
prefix_for (some name) = name ++ b':' ∷ b' ' ∷ []

unfoldable pub channel_text_on_air : Option Bytes → Bytes → Bytes
channel_text_on_air node_name text =
    let out = prefix_for node_name in
    let room = max_text_len - length out in out ++ take (min (length text) room) text

-- `none` is `Cow::Borrowed(frame)`, `some` the converted frame.
converted_frame : ℕ → Bytes → Option Bytes
converted_frame version [] = none
converted_frame version (code ∷ rest) =
    if leb 3 version
    then (if code == 0x07 || code == 0x08 then some ((code + 0x09) ∷ 0 ∷ 0 ∷ 0 ∷ rest) else none)
    else (if (code == 0x10 || code == 0x11) && leb 4 (length (code ∷ rest))
        then some ((code - 0x09) ∷ drop 3 rest)
        else none)

abbrev or_else : Option Bytes → Bytes → Bytes
or_else none frame = frame
or_else (some converted) frame = converted

unfoldable pub message_frame_for : ℕ → Bytes → Bytes
unfolding converted_frame
message_frame_for version frame = or_else (converted_frame version frame) frame

-- `build_appstart`: the bytes of "coresplitter" from offset 8.
unfoldable pub build_appstart : Bytes
build_appstart =
    0x01 ∷ 1 ∷ replicate 6 0
    ++ b'c' ∷ b'o' ∷ b'r' ∷ b'e' ∷ b's' ∷ b'p' ∷ b'l' ∷ b'i' ∷ b't' ∷ b't' ∷ b'e' ∷ b'r' ∷ []
