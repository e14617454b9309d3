-- ===== src/Json/Numbers.antt =====
-- JsonParseAsNumber of libutils/json.c.
use libntech.Prelude.{
  ℕ, Bool, true, false, not, ◌&&◌, ◌||◌, ◌⊎◌, inl, inr, List, [], ◌∷◌, ◌++◌, if◌then◌else◌, ◌==◌,
  leb,
}
use libntech.Json.{
  Json, primitive, integer_type, real_type, ParseError, number_exponent_negative,
  number_exponent_positive, number_duplicate_zero, number_no_digit, number_multiple_dots,
  number_exponent_duplicate, number_exponent_digit, number_exponent_follow_leading_zero,
  number_bad_symbol, number_digit_end, Parsed, ok, fail,
}

abbrev pub is_whitespace : ℕ → Bool
is_whitespace c = c == b' ' || c == 9 || c == 10 || c == 13

abbrev pub is_separator : ℕ → Bool
is_separator c = is_whitespace c || c == b',' || c == b']' || c == b'}'

-- IsDigit: without the zero.
abbrev pub is_digit : ℕ → Bool
is_digit c = leb 49 c && leb c 57

abbrev pub is_exponent : ℕ → Bool
is_exponent c = c == b'e' || c == b'E'

-- The local variables of the loop.
pub record NumberState : Type 0 where
  pub zero_started : Bool
  pub seen_dot : Bool
  pub seen_exponent : Bool
  pub prev_char : ℕ
  pub written : List ℕ

-- The end of each turn: the byte is written and becomes `prev_char`.
abbrev pub keep : NumberState → ℕ → ParseError ⊎ NumberState
keep s c = inr (record s { prev_char = c; written = s.written ++ c ∷ [] })

-- `zero_started && !seen_dot && !seen_exponent`
abbrev pub leading_zero : NumberState → Bool
leading_zero s = s.zero_started && not s.seen_dot && not s.seen_exponent

-- The cases of the switch.
unfoldable pub number_byte : NumberState → ℕ → ParseError ⊎ NumberState
number_byte s c =
    let p = s.prev_char in
    if c == b'-'
    then (if not (p == 0) && not (is_exponent p) then inl number_exponent_negative else keep s c)
    else if c == b'+'
    then (if not (is_exponent p) then inl number_exponent_positive else keep s c)
    else if c == b'0'
    then (if leading_zero s
        then inl number_duplicate_zero
        else keep (record s { zero_started = p == 0 || s.zero_started }) c)
    else if c == b'.'
    then (if s.seen_dot
        then inl number_multiple_dots
        else if not (p == b'0') && not (is_digit p)
        then inl number_no_digit
        else keep (record s { seen_dot = true }) c)
    else if is_exponent c
    then (if s.seen_exponent
        then inl number_exponent_duplicate
        else if not (is_digit p) && not (p == b'0')
        then inl number_exponent_digit
        else keep (record s { seen_exponent = true }) c)
    else if leading_zero s
    then inl number_exponent_follow_leading_zero
    else if not (is_digit c)
    then inl number_bad_symbol
    else keep s c

-- What follows the loop, with the text from `*data` on. The byte before it is `prev_char`, which
-- the rewinding makes the last byte used.
unfoldable pub number_end : NumberState → List ℕ → Parsed Json
number_end s cs =
    if not (s.prev_char == b'0') && not (is_digit s.prev_char)
    then fail number_digit_end
    else ok (primitive (if s.seen_dot then real_type else integer_type) s.written) s.prev_char cs

unfoldable pub number_loop : NumberState → List ℕ → Parsed Json
unfolding number_byte number_end
number_loop s [] = number_end s []
number_loop s (c ∷ cs) =
    if is_separator c
    then number_end s (c ∷ cs)
    else elim (number_byte s c) [ inl e ↦ fail e | inr t ↦ number_loop t cs ]

abbrev pub initial : NumberState
initial = record {
  zero_started = false;
  seen_dot = false;
  seen_exponent = false;
  prev_char = 0;
  written = [];
}

unfoldable pub parse_as_number : List ℕ → Parsed Json
unfolding number_loop
parse_as_number cs = number_loop initial cs
