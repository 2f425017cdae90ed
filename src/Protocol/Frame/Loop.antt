-- ===== src/Protocol/Frame/Loop.antt =====
-- The loop of `feed` (src/protocol/frame.rs) ends, and more fuel changes nothing.
use coresplitter.Base.{
  ℕ, zero, suc, ◌+◌, ◌<◌, ◌≤◌, ◌≡◌, refl, none, some, [], ◌∷◌, arith, length, length-drop, Option,
  List,
}
use coresplitter.Base.Bytes.{Bytes}
use coresplitter.Protocol.Frame.{
  FrameParser, Round, stop, skip, emit, round, read_header, read_len, read_payload, take_header,
  take_len, rounds, after_round, buffered, fuel_for, feed,
}

abbrev pub flag : Option ℕ → ℕ
flag none = 0
flag (some h) = 1

abbrev pub measure : FrameParser → ℕ
measure p = length p.buffer + flag p.header_byte

pub flag-le : (o : Option ℕ) → flag o ≤ 1
flag-le none = omega arith
flag-le (some h) = omega arith

-- What a round leaves to do.
abbrev pub Shrinks : ℕ → Round → Type 0
Shrinks n (stop q) = measure q ≤ n
Shrinks n (skip q) = measure q < n
Shrinks n (emit payload q) = measure q < n

read_payload-Shrinks :
    (p : FrameParser) (needed n : ℕ) → length p.buffer < n → Shrinks n (read_payload p needed)
unfolding read_payload
read_payload-Shrinks p needed n h =
    ground (arith, length-drop needed p.buffer, flag-le p.header_byte)

take_len-Shrinks :
    (p : FrameParser) (b : Bytes) (n : ℕ)
    → length p.buffer < n
    → length b < n
    → Shrinks n (take_len p b)
unfolding take_len
take_len-Shrinks p [] n k h = omega (arith, flag-le p.header_byte)
take_len-Shrinks p (lo ∷ []) n k h = omega (arith, flag-le p.header_byte)
take_len-Shrinks p (lo ∷ hi ∷ rest) n k h = read_payload-Shrinks _ _ n (omega arith)

read_len-Shrinks :
    (p : FrameParser) (e : Option ℕ) (n : ℕ) → length p.buffer < n → Shrinks n (read_len p e)
unfolding read_len
read_len-Shrinks p none n h = take_len-Shrinks p p.buffer n h h
read_len-Shrinks p (some needed) n h = read_payload-Shrinks p needed n h

take_header-Shrinks :
    (p : FrameParser) (b : Bytes) (n : ℕ)
    → p.header_byte ≡ none
    → length p.buffer ≤ n
    → length b ≤ n
    → Shrinks n (take_header p b)
unfolding take_header
take_header-Shrinks p [] n e k h = rw e (omega arith)
take_header-Shrinks p (x ∷ rest) n e k h = ground (
  arith,
  read_len-Shrinks (record p { header_byte = some x; buffer = rest }) p.expected_len n
      (omega arith),
)

pub round-Shrinks : (p : FrameParser) → Shrinks (measure p) (round p)
unfolding round read_header
round-Shrinks p = go p.header_byte refl
  where
    go : (h : Option ℕ) → p.header_byte ≡ h → Shrinks (measure p) (read_header p h)
    go none e = take_header-Shrinks p p.buffer (measure p) e (omega arith) (omega arith)
    go (some x) e = read_len-Shrinks p p.expected_len (measure p) (rw e (omega arith))

-- The loop, started on a parser, ends by `break` after finitely many rounds, with these frames and this parser.
pub data Ends : FrameParser → List Bytes → FrameParser → Type 0 where
  stopped : {p q : FrameParser} → round p ≡ stop q → Ends p [] q
  skipped :
      {p q r : FrameParser} {frames : List Bytes}
      → round p ≡ skip q
      → Ends q frames r
      → Ends p frames r
  emitted :
      {p q r : FrameParser} {payload : Bytes} {frames : List Bytes}
      → round p ≡ emit payload q
      → Ends q frames r
      → Ends p (payload ∷ frames) r

after_round-Ends :
    (f : FrameParser → List Bytes × FrameParser) (p : FrameParser) (n : ℕ) (r : Round)
    → round p ≡ r
    → Shrinks n r
    → ((q : FrameParser) → measure q < n → Ends q (f q).0 (f q).1)
    → Ends p (after_round f r).0 (after_round f r).1
after_round-Ends f p n (stop q) e s h = stopped e
after_round-Ends f p n (skip q) e s h = skipped e (h q s)
after_round-Ends f p n (emit payload q) e s h = emitted e (h q s)

rounds-Ends :
    (fuel : ℕ) (p : FrameParser) → measure p < fuel → Ends p (rounds fuel p).0 (rounds fuel p).1
unfolding rounds
rounds-Ends zero p h = absurd (omega arith)
rounds-Ends (suc fuel) p h =
    after_round-Ends (rounds fuel) p (measure p) (round p) refl (round-Shrinks p)
      λ q k. rounds-Ends fuel q (omega arith)

-- Whatever bytes come on whatever parser, the loop of `feed` ends by its `break`, and what `feed` returns are the
-- frames and the parser that it ends with: the fuel of the model is never used up.
pub feed-Ends :
    (p : FrameParser) (bytes : Bytes) → Ends (buffered p bytes) (feed p bytes).0 (feed p bytes).1
unfolding feed
feed-Ends p bytes =
    let q = buffered p bytes in rounds-Ends (fuel_for q) q (omega (arith, flag-le q.header_byte))

after_round-fuel :
    (f g : FrameParser → List Bytes × FrameParser) (n : ℕ) (r : Round)
    → Shrinks n r
    → ((q : FrameParser) → measure q < n → f q ≡ g q)
    → after_round f r ≡ after_round g r
after_round-fuel f g n (stop q) s h = refl
after_round-fuel f g n (skip q) s h = h q s
after_round-fuel f g n (emit payload q) s h = rw (h q s)

-- Two amounts of fuel above the measure give the same frames and the same parser.
pub rounds-fuel :
    (f g : ℕ) (p : FrameParser) → measure p < f → measure p < g → rounds f p ≡ rounds g p
unfolding rounds
rounds-fuel zero g p hf hg = absurd (omega arith)
rounds-fuel (suc f) zero p hf hg = absurd (omega arith)
rounds-fuel (suc f) (suc g) p hf hg =
    after_round-fuel (rounds f) (rounds g) (measure p) (round p) (round-Shrinks p)
      λ q h. rounds-fuel f g q (omega arith) (omega arith)
