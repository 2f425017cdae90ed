-- ===== src/Node/Backlog/Texts.antt =====
-- The texts that `Backlog::from_str` of src/node/state.rs reads: digits and a unit, with blanks around them.
use coresplitter.Base.{
  ℕ, zero, suc, ◌||◌, ◌+◌, ◌-◌, ◌*◌, ◌^◌, ◌≤◌, ◌<◌, ◌≡◌, refl, sym, ap, ◌∙◌, true, false, Option,
  none, some, [], ◌∷◌, ◌++◌, arith, ltb, ◌==◌, if◌then◌else◌, append_assoc, append-nil,
}
use coresplitter.Base.Bytes.{All}
use coresplitter.Node.State.{Backlog, off, messages, seconds}
use coresplitter.Node.Backlog.{
  Text, is_whitespace, trim_start, trim_end, is_ascii_alphabetic, to_ascii_lowercase, after_first,
  split_last, unit_of, is_digit, digits_value, parse_u32, backlog_of, with_number, from_str,
}

abbrev pub AllBlank : Text → Type 0
AllBlank = All (λ c. is_whitespace c ≡ true)

abbrev pub AllDigits : Text → Type 0
AllDigits = All (λ c. is_digit c ≡ true)

-- The number that the digits spell behind `n`.
abbrev pub value : ℕ → Text → ℕ
value n [] = n
value n (c ∷ s) = value (n * 10 + (c - 0x30)) s

digit_plain :
    (c : ℕ)
    → is_digit c ≡ true
    → (is_whitespace c ≡ false) × (is_ascii_alphabetic c ≡ false) × ((c == 0x2B) ≡ false)
digit_plain c h = ground (arith, h)

letter_plain : (c : ℕ) → is_ascii_alphabetic c ≡ true → is_whitespace c ≡ false
letter_plain c h = ground (arith, h)

trim_start-blanks :
    (blanks : Text) (c : ℕ) (s : Text)
    → AllBlank blanks
    → is_whitespace c ≡ false
    → trim_start (blanks ++ c ∷ s) ≡ c ∷ s
unfolding trim_start
trim_start-blanks [] c s h k = rw k refl
trim_start-blanks (b ∷ blanks) c s h k = rw h.0 (trim_start-blanks blanks c s h.1 k)

trim_end-nil : (blanks : Text) → AllBlank blanks → trim_end blanks ≡ []
unfolding trim_end
trim_end-nil [] h = refl
trim_end-nil (b ∷ blanks) h = rw (trim_end-nil blanks h.1, h.0) refl

-- The end of the text that is kept.
trim_end-blanks :
    (s : Text) (c : ℕ) (blanks : Text)
    → AllBlank blanks
    → is_whitespace c ≡ false
    → trim_end (s ++ c ∷ blanks) ≡ s ++ c ∷ []
unfolding trim_end
trim_end-blanks [] c blanks h k = rw (trim_end-nil blanks h, k) refl
trim_end-blanks (b ∷ []) c blanks h k = rw (trim_end-blanks [] c blanks h k) refl
trim_end-blanks (b ∷ d ∷ s) c blanks h k = rw (trim_end-blanks (d ∷ s) c blanks h k) refl

split_last-append : (s : Text) (c : ℕ) → split_last (s ++ c ∷ []) ≡ some (s, c)
unfolding split_last
split_last-append [] c = refl
split_last-append (b ∷ s) c = ap (λ o. some (after_first b o)) (split_last-append s c)

le-value : (n : ℕ) (s : Text) → n ≤ value n s
le-value n [] = omega arith
le-value n (c ∷ s) = omega (arith, le-value (n * 10 + (c - 0x30)) s)

digits_value-value :
    (n : ℕ) (s : Text) → AllDigits s → value n s < 2 ^ 32 → digits_value n s ≡ some (value n s)
unfolding digits_value
digits_value-value n [] h k = refl
digits_value-value n (c ∷ s) h k =
    let m = n * 10 + (c - 0x30) in
    let fits : ltb m (2 ^ 32) ≡ true = ground (arith, k, le-value m s) in
    rw (h.0, fits) (digits_value-value m s h.1 k)

parse_u32-value :
    (c : ℕ) (s : Text)
    → AllDigits (c ∷ s)
    → value 0 (c ∷ s) < 2 ^ 32
    → parse_u32 (c ∷ s) ≡ some (value 0 (c ∷ s))
unfolding parse_u32
parse_u32-value c [] h k = digits_value-value 0 (c ∷ []) h k
parse_u32-value c (d ∷ s) h k =
    ap (λ plus. if plus then digits_value 0 (d ∷ s) else digits_value 0 (c ∷ d ∷ s))
      (digit_plain c h.0).2
    ∙ digits_value-value 0 (c ∷ d ∷ s) h k

-- Digits, the last one apart.
abbrev pub digits : Text → ℕ → Text
digits init d = init ++ d ∷ []

abbrev pub unit_text : Option ℕ → Text
unit_text none = []
unit_text (some u) = u ∷ []

abbrev pub IsUnit : Option ℕ → Type 0
IsUnit none = Unit
IsUnit (some u) = is_ascii_alphabetic u ≡ true

abbrev pub lowercase : Option ℕ → Option ℕ
lowercase none = none
lowercase (some u) = some (to_ascii_lowercase u)

parse_u32-digits :
    (init : Text) (d : ℕ)
    → AllDigits (digits init d)
    → value 0 (digits init d) < 2 ^ 32
    → parse_u32 (digits init d) ≡ some (value 0 (digits init d))
parse_u32-digits [] d h k = parse_u32-value d [] h k
parse_u32-digits (c ∷ init) d h k = parse_u32-value c (init ++ d ∷ []) h k

trim_start-digits :
    (before init : Text) (d : ℕ) (rest : Text)
    → AllBlank before
    → AllDigits (digits init d)
    → trim_start (before ++ (init ++ d ∷ rest)) ≡ init ++ d ∷ rest
trim_start-digits before [] d rest h k = trim_start-blanks before d rest h (digit_plain d k.0).0
trim_start-digits before (c ∷ init) d rest h k =
    trim_start-blanks before c (init ++ d ∷ rest) h (digit_plain c k.0).0

last_digit : (init : Text) (d : ℕ) → AllDigits (digits init d) → is_digit d ≡ true
last_digit [] d h = h.0
last_digit (c ∷ init) d h = last_digit init d h.1

-- What is left after `trim`, and its parts.
abbrev parsed : Text → Option Backlog
parsed t = let (num, unit) = unit_of t (split_last t) in with_number (parse_u32 num) unit

parsed-digits :
    (init : Text) (d : ℕ) (unit : Option ℕ)
    → AllDigits (digits init d)
    → value 0 (digits init d) < 2 ^ 32
    → IsUnit unit
    → parsed (digits init d ++ unit_text unit)
      ≡ backlog_of (value 0 (digits init d)) (lowercase unit)
parsed-digits init d none h k u =
    let t = digits init d in
    ap parsed (append-nil t)
    ∙ ap (λ o. with_number (parse_u32 (unit_of t o).0) (unit_of t o).1) (split_last-append init d)
    ∙ ap
        (λ letter.
          let r : Text × Option ℕ =
            if letter then (init, some (to_ascii_lowercase d)) else (t, none) in
          with_number (parse_u32 r.0) r.1)
        (digit_plain d (last_digit init d h)).1
    ∙ ap (λ n. with_number n none) (parse_u32-digits init d h k)
parsed-digits init d (some c) h k u =
    let t = digits init d in
    let all = t ++ c ∷ [] in
    ap (λ o. with_number (parse_u32 (unit_of all o).0) (unit_of all o).1) (split_last-append t c)
    ∙ ap
        (λ letter.
          let r : Text × Option ℕ =
            if letter then (t, some (to_ascii_lowercase c)) else (all, none) in
          with_number (parse_u32 r.0) r.1)
        u
    ∙ ap (λ n. with_number n (some (to_ascii_lowercase c))) (parse_u32-digits init d h k)

trim-digits :
    (before init : Text) (d : ℕ) (unit : Option ℕ) (after : Text)
    → AllBlank before
    → AllBlank after
    → AllDigits (digits init d)
    → IsUnit unit
    → trim_end (trim_start (before ++ (digits init d ++ (unit_text unit ++ after))))
      ≡ digits init d ++ unit_text unit
trim-digits before init d none after b a h u =
    ap (λ x. trim_end (trim_start (before ++ x))) (append_assoc init (d ∷ []) after)
    ∙ ap trim_end (trim_start-digits before init d after b h)
    ∙ trim_end-blanks init d after a (digit_plain d (last_digit init d h)).0
    ∙ sym (append-nil (digits init d))
trim-digits before init d (some c) after b a h u =
    ap (λ x. trim_end (trim_start (before ++ x))) (append_assoc init (d ∷ []) (c ∷ after))
    ∙ ap trim_end (trim_start-digits before init d (c ∷ after) b h)
    ∙ ap trim_end (sym (append_assoc init (d ∷ []) (c ∷ after)))
    ∙ trim_end-blanks (digits init d) c after a (letter_plain c u)

-- The backlog that a number with a letter, or with none, asks for.
abbrev pub meant : ℕ → Option ℕ → Option Backlog
meant zero letter = some off
meant (suc n) none = some (messages (suc n))
meant (suc n) (some letter) =
    if letter == b'h' || letter == b'H'
    then some (seconds (60 * 60 * suc n))
    else if letter == b'd' || letter == b'D'
    then some (seconds (24 * 60 * 60 * suc n))
    else none

hours : (n : ℕ) → n * 3600 ≡ 60 * 60 * n
hours n = omega arith

days : (n : ℕ) → n * 86_400 ≡ 24 * 60 * 60 * n
days n = omega arith

backlog_of-meant :
    (n : ℕ) (unit : Option ℕ) → IsUnit unit → backlog_of n (lowercase unit) ≡ meant n unit
backlog_of-meant zero unit u = refl
backlog_of-meant (suc n) none u = refl
backlog_of-meant (suc n) (some c) u = ground (arith, hours (suc n), days (suc n))

-- Digits that spell a number below 2 ^ 32, with a letter behind them or not, and blanks around the two: the backlog
-- is off for 0 whatever the letter, else that many messages without a letter, that many hours for h or H and days
-- for d or D, and an error for any other letter.
pub from_str-meant :
    (before init : Text) (d : ℕ) (unit : Option ℕ) (after : Text)
    → AllBlank before
    → AllBlank after
    → AllDigits (digits init d)
    → value 0 (digits init d) < 2 ^ 32
    → IsUnit unit
    → from_str (before ++ (digits init d ++ (unit_text unit ++ after)))
      ≡ meant (value 0 (digits init d)) unit
unfolding from_str
from_str-meant before init d unit after b a h k u =
    ap parsed (trim-digits before init d unit after b a h u)
    ∙ parsed-digits init d unit h k u
    ∙ backlog_of-meant (value 0 (digits init d)) unit u
