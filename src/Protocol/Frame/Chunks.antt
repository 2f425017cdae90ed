-- ===== src/Protocol/Frame/Chunks.antt =====
-- `feed` does not see where a read from the socket ends.
use coresplitter.Base.{
  ℕ, zero, suc, ◌+◌, ◌<◌, ◌≡◌, refl, inl, inr, Option, none, some, List, [], ◌∷◌, ◌++◌,
  append_assoc, arith, ltb, Bool-cases, length, length-append, take-append, drop-append,
  ltb_false→le,
}
use coresplitter.Base.Bytes.{Bytes}
use coresplitter.Protocol.Frame.{
  FrameParser, Round, stop, skip, emit, is_header, round, read_header, read_len, read_payload,
  take_header, take_len, rounds, after_round, buffered, fuel_for, feed,
}
use coresplitter.Protocol.Frame.Loop.{measure, flag-le, Shrinks, round-Shrinks, rounds-fuel}

abbrev pub parser : Option ℕ → Option ℕ → Bytes → FrameParser
parser h e b = record { header_byte = h; expected_len = e; buffer = b }

-- How a round goes when `more` bytes stand behind the buffer: as before where it finished, and where
-- it stopped, on from the parser that it left.
abbrev Extends : Bytes → Round → Round → Type 0
Extends more (stop q) r = r ≡ round (buffered q more)
Extends more (skip q) r = r ≡ skip (buffered q more)
Extends more (emit payload q) r = r ≡ emit payload (buffered q more)

module _ (more : Bytes) where
  read_payload-Extends :
      (x needed : ℕ) (b : Bytes)
      → let p = parser (some x) (some needed) b in
        Extends more (read_payload p needed) (read_payload (buffered p more) needed)
  unfolding read_payload round
  read_payload-Extends x needed b = elim (Bool-cases (ltb (length b) needed)) [
    | inl short ↦ rw short refl
    | inr long ↦ ground (
      arith,
      length-append b more,
      take-append needed b more (ltb_false→le _ _ long),
      drop-append needed b more (ltb_false→le _ _ long),
    )
  ]

  take_len-Extends :
      (x : ℕ) (b : Bytes)
      → let p = parser (some x) none b in
        Extends more (take_len p b) (take_len (buffered p more) (b ++ more))
  unfolding take_len round
  take_len-Extends x [] = refl
  take_len-Extends x (lo ∷ []) = refl
  take_len-Extends x (lo ∷ hi ∷ rest) = read_payload-Extends x _ rest

  read_len-Extends :
      (x : ℕ) (e : Option ℕ) (b : Bytes)
      → let p = parser (some x) e b in Extends more (read_len p e) (read_len (buffered p more) e)
  unfolding read_len
  read_len-Extends x none b = take_len-Extends x b
  read_len-Extends x (some needed) b = read_payload-Extends x needed b

  take_header-Extends :
      (e : Option ℕ) (b : Bytes)
      → let p = parser none e b in
        Extends more (take_header p b) (take_header (buffered p more) (b ++ more))
  unfolding take_header round
  take_header-Extends e [] = refl
  take_header-Extends e (h ∷ rest) = elim (Bool-cases (is_header h)) [
    | inl good ↦ rw good (read_len-Extends h e rest)
    | inr bad ↦ rw bad refl
  ]

  round-Extends : (p : FrameParser) → Extends more (round p) (round (buffered p more))
  unfolding round read_header
  round-Extends p = go p.header_byte
    where
      go :
          (h : Option ℕ)
          → let q = parser h p.expected_len p.buffer in
            Extends more (read_header q h) (read_header (buffered q more) h)
      go none = take_header-Extends p.expected_len p.buffer
      go (some x) = read_len-Extends x p.expected_len p.buffer

-- The loop on what is left, from the parser that an earlier call returned.
abbrev resume : Bytes → List Bytes × FrameParser → List Bytes × FrameParser
resume more (frames, q) =
    let p = buffered q more in let (later, r) = rounds (fuel_for p) p in (frames ++ later, r)

after_round-buffered :
    (more : Bytes) (f : FrameParser → List Bytes × FrameParser) (n g : ℕ) (r r' : Round)
    → Extends more r r'
    → Shrinks n r
    → n + length more < suc g
    → ((q : FrameParser)
        → measure q < n
        → measure (buffered q more) < g
        → rounds g (buffered q more) ≡ resume more (f q))
    → after_round (rounds g) r' ≡ resume more (after_round f r)
unfolding rounds
after_round-buffered more f n g (stop q) r' e s h ih = rw e (
    rounds-fuel (suc g) (fuel_for (buffered q more)) (buffered q more)
      (omega (arith, length-append q.buffer more)) (omega (arith, flag-le q.header_byte)))
after_round-buffered more f n g (skip q) r' e s h ih =
    rw e (ih q s (omega (arith, length-append q.buffer more)))
after_round-buffered more f n g (emit payload q) r' e s h ih =
    rw (e, ih q s (omega (arith, length-append q.buffer more)))

rounds-buffered :
    (more : Bytes) (f g : ℕ) (p : FrameParser)
    → measure p < f
    → measure (buffered p more) < g
    → rounds g (buffered p more) ≡ resume more (rounds f p)
unfolding rounds
rounds-buffered more zero g p hf hg = absurd (omega arith)
rounds-buffered more (suc f) zero p hf hg = absurd (omega arith)
rounds-buffered more (suc f) (suc g) p hf hg =
    after_round-buffered more (rounds f) (measure p) g (round p) (round (buffered p more))
      (round-Extends more p) (round-Shrinks p) (omega (arith, length-append p.buffer more))
      λ q h k. rounds-buffered more f g q (omega arith) k

-- Bytes fed in one read or in two give the same frames, in the same order, and the same parser.
pub feed-append :
    (p : FrameParser) (a b : Bytes)
    → feed p (a ++ b)
      ≡ (let (frames, q) = feed p a in let (later, r) = feed q b in (frames ++ later, r))
unfolding feed
feed-append p a b =
    let q = buffered p a in
    rw (← append_assoc p.buffer a b) (
      rounds-buffered b (fuel_for q) (fuel_for (buffered q b)) q
        (omega (arith, flag-le p.header_byte)) (omega (arith, flag-le p.header_byte)))
