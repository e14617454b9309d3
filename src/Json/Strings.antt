-- ===== src/Json/Strings.antt =====
-- The strings of libutils/json.c: escaping for the output, the parser of a quoted string, and the
-- decoding that follows it for the strings that are values.
use libntech.Prelude.{
  ℕ, zero, suc, ◌+◌, ◌*◌, ◌/◌, ◌%◌, ◌-◌, Bool, true, false, ◌&&◌, ◌||◌, Option, none, some, List,
  [], ◌∷◌, ◌++◌, if◌then◌else◌, ◌==◌, leb, ltb,
}
use libntech.Json.{
  Parsed, ok, fail, overrun, string_no_doublequote_start, string_no_doublequote_end,
}

-- CharIsPrintableAscii
abbrev pub is_printable : ℕ → Bool
is_printable c = leb b' ' c && leb c b'~'

-- One digit of `%x`.
abbrev pub hex_digit : ℕ → ℕ
hex_digit n = if ltb n 10 then b'0' + n else b'a' + (n - 10)

-- The byte that stands behind the backslash for `c`, where there is one.
unfoldable pub short_escape : ℕ → Option ℕ
short_escape c =
    if c == b'"' || c == b'\\'
    then some c
    else if c == 8
    then some b'b'
    else if c == 12
    then some b'f'
    else if c == 10
    then some b'n'
    else if c == 13
    then some b'r'
    else if c == 9
    then some b't'
    else none

-- `\u%04x` for a byte
unfoldable pub unicode_escape : ℕ → List ℕ
unicode_escape c = b'\\' ∷ b'u' ∷ b'0' ∷ b'0' ∷ hex_digit (c / 16) ∷ hex_digit (c % 16) ∷ []

-- What one turn of the loop of JsonEncodeStringWriter writes.
unfoldable pub encode_byte : ℕ → List ℕ
unfolding short_escape unicode_escape
encode_byte c = elim (short_escape c) [
  | some e ↦ b'\\' ∷ e ∷ []
  | none ↦ if is_printable c then c ∷ [] else unicode_escape c
]

unfoldable pub encode_string : List ℕ → List ℕ
unfolding encode_byte
encode_string [] = []
encode_string (c ∷ cs) = encode_byte c ++ encode_string cs

-- The value of a hexadecimal digit.
unfoldable pub hex_value : ℕ → Option ℕ
hex_value c =
    if leb b'0' c && leb c b'9'
    then some (c - b'0')
    else if leb b'A' c && leb c b'F'
    then some (c - b'A' + 10)
    else if leb b'a' c && leb c b'f'
    then some (c - b'a' + 10)
    else none

unfoldable pub hex_pair : Option ℕ → Option ℕ → Option ℕ
hex_pair (some h) (some l) = some (h * 16 + l)
hex_pair _ _ = none

-- The number that four hexadecimal digits write.
unfoldable pub hex_number : ℕ → ℕ → ℕ → ℕ → Option ℕ
unfolding hex_value hex_pair
hex_number a b c d = elim (hex_pair (hex_value a) (hex_value b)) [
  | none ↦ none
  | some h ↦ elim (hex_pair (hex_value c) (hex_value d)) [
    | none ↦ none
    | some l ↦ some (h * 256 + l)
  ]
]

unfoldable pub hex_string_to_char : List ℕ → Option ℕ
unfolding hex_number
hex_string_to_char (a ∷ b ∷ c ∷ d ∷ rest) = elim (hex_number a b c d) [
  | none ↦ none
  | some n ↦ if ltb 255 n then none else some n
]
hex_string_to_char _ = none

-- A control character from the letter behind its backslash.
unfoldable pub control_of : ℕ → Option ℕ
control_of c =
    if c == b'b'
    then some 8
    else if c == b'f'
    then some 12
    else if c == b'n'
    then some 10
    else if c == b'r'
    then some 13
    else if c == b't'
    then some 9
    else none

-- `case 'u'` of JsonDecodeStringWriter, on the text behind the `u`: what is written and how many
-- bytes more are passed. Writing the byte 0 with `%c` writes nothing.
unfoldable pub decode_unicode : List ℕ → List ℕ × ℕ
unfolding hex_string_to_char
decode_unicode cs = elim (hex_string_to_char cs) [
  | none ↦ ([], 0)
  | some d ↦ ((if d == 0 then [] else d ∷ []), 5)
]

-- The cases of the switch of JsonDecodeStringWriter, on the text behind the backslash.
unfoldable pub decode_escape : List ℕ → List ℕ × ℕ
unfolding control_of decode_unicode
decode_escape [] = (b'\\' ∷ [], 0)
decode_escape (e ∷ cs) = if e == b'"' || e == b'\\' then (e ∷ [], 1) else elim (control_of e) [
  | some k ↦ (k ∷ [], 1)
  | none ↦ if e == b'u' then decode_unicode cs else (b'\\' ∷ [], 0)
]

-- One turn of the loop: what is written, and the bytes to pass beside `*c`.
unfoldable pub decode_byte : ℕ → List ℕ → List ℕ × ℕ
unfolding decode_escape
decode_byte c cs = if c == b'\\' then decode_escape cs else (c ∷ [], 0)

-- The loop of JsonDecodeStringWriter, with the number of bytes still to pass.
unfoldable pub decode_from : ℕ → List ℕ → List ℕ
unfolding decode_byte
decode_from n [] = []
decode_from (suc n) (c ∷ cs) = decode_from n cs
decode_from zero (c ∷ cs) = let w = decode_byte c cs in w.0 ++ decode_from w.1 cs

-- JsonDecodeString
unfoldable pub decode_string : List ℕ → List ℕ
unfolding decode_from
decode_string s = decode_from 0 s

-- What JsonParseAsString writes for the byte behind a backslash.
unfoldable pub unescape : ℕ → List ℕ
unfolding control_of
unescape c =
    if c == b'\\' || c == b'"' || c == b'/'
    then c ∷ []
    else elim (control_of c) [ some k ↦ k ∷ [] | none ↦ b'\\' ∷ c ∷ [] ]

-- The loop of JsonParseAsString: `escaped` says that the byte before was an open backslash. A
-- backslash at the end of the text is followed by its terminator, which is written and passed.
unfoldable pub string_loop : List ℕ → Bool → List ℕ → Parsed (List ℕ)
unfolding unescape
string_loop w false [] = fail string_no_doublequote_end
string_loop w true [] = overrun
string_loop w true (c ∷ cs) = string_loop (w ++ unescape c) false cs
string_loop w false (c ∷ cs) =
    let rest = string_loop (if c == b'\\' then w else w ++ c ∷ []) (c == b'\\') cs in
    if c == b'"' then ok w c cs else rest

unfoldable pub parse_as_string : List ℕ → Parsed (List ℕ)
unfolding string_loop
parse_as_string [] = fail string_no_doublequote_start
parse_as_string (c ∷ cs) =
    if c == b'"' then string_loop [] false cs else fail string_no_doublequote_start
