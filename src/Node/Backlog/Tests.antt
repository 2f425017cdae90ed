-- ===== src/Node/Backlog/Tests.antt =====
-- `Backlog::from_str` of src/node/state.rs on single texts.
use coresplitter.Base.{◌≡◌, refl, none, some, [], ◌∷◌, arith}
use coresplitter.Node.State.{off, messages, seconds}
use coresplitter.Node.Backlog.{trim_start, trim_end, split_last, digits_value, parse_u32, from_str}
use coresplitter.Node.Backlog.Texts.{from_str-meant}

-- " 30D"
from_str-meant_example : from_str (b' ' ∷ b'3' ∷ b'0' ∷ b'D' ∷ []) ≡ some (seconds 2_592_000)
from_str-meant_example =
    from_str-meant (b' ' ∷ []) (b'3' ∷ []) b'0' (some b'D') [] (refl, tt) tt (refl, (refl, tt))
      (omega arith) refl

others :
    (from_str (b'0' ∷ b'x' ∷ []) ≡ some off)
    × (from_str (b'+' ∷ b'5' ∷ []) ≡ some (messages 5))
    × (from_str (b'5' ∷ b'x' ∷ []) ≡ none)
    × (from_str (b'd' ∷ []) ≡ none)
unfolding from_str trim_start trim_end split_last parse_u32 digits_value
others = (refl, refl, refl, refl)
