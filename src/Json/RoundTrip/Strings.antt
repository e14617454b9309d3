-- ===== src/Json/RoundTrip/Strings.antt =====
-- A string that has been escaped, read back by JsonParseAsString and by JsonDecodeString.
use libntech.Prelude.{
  ℕ, ◌/◌, ◌%◌, ◌<◌, ◌≡◌, ◌≢◌, ◌||◌, refl, ap, ap₂, ◌∙◌, Bool, true, false, inl, inr, none, some,
  List, [], ◌∷◌, ◌++◌, if◌then◌else◌, ◌==◌, append_assoc, append-nil, arith, Bool-cases,
  Option-cases, All,
}
use libntech.Json.{primitive, string_type, ok}
use libntech.Json.Strings.{
  is_printable, hex_digit, hex_value, short_escape, unicode_escape, encode_byte, encode_string,
  unescape, control_of, hex_pair, hex_number, hex_string_to_char, string_loop, parse_as_string,
  decode_string, decode_from, decode_byte, decode_escape, decode_unicode,
}
use libntech.Json.Parser.{parse_as_value}
use libntech.Json.Writer.{quoted}

-- What one reading makes of an escaped byte: the escapes of other bytes are kept.
unfoldable pub half_byte : ℕ → List ℕ
half_byte c = elim (short_escape c) [
  | some e ↦ c ∷ []
  | none ↦ if is_printable c then c ∷ [] else unicode_escape c
]

unfoldable pub half : List ℕ → List ℕ
unfolding half_byte
half [] = []
half (c ∷ cs) = half_byte c ++ half cs

unescape-short_escape : (c e : ℕ) → short_escape c ≡ some e → unescape e ≡ c ∷ []
unfolding short_escape unescape
unescape-short_escape c e h = ground arith

string_loop-escape :
    (w : List ℕ) (e : ℕ) (rest : List ℕ)
    → string_loop w false (b'\\' ∷ e ∷ rest) ≡ string_loop (w ++ unescape e) false rest
unfolding string_loop
string_loop-escape w e rest = refl

pub string_loop-plain :
    (w : List ℕ) (c : ℕ) (rest : List ℕ)
    → c ≢ b'"'
    → c ≢ b'\\'
    → string_loop w false (c ∷ rest) ≡ string_loop (w ++ c ∷ []) false rest
unfolding string_loop
string_loop-plain w c rest q b = ground arith

hex_digit-plain : (n : ℕ) → (hex_digit n ≢ b'"') × (hex_digit n ≢ b'\\')
hex_digit-plain n = (ground arith, ground arith)

append_in_turn :
    (w u : List ℕ) (a b c d : ℕ)
    → (((w ++ u) ++ a ∷ []) ++ b ∷ []) ++ c ∷ [] ++ d ∷ [] ≡ w ++ (u ++ (a ∷ b ∷ c ∷ d ∷ []))
append_in_turn [] [] a b c d = refl
append_in_turn [] (x ∷ u) a b c d = ap (λ l. x ∷ l) (append_in_turn [] u a b c d)
append_in_turn (x ∷ w) u a b c d = ap (λ l. x ∷ l) (append_in_turn w u a b c d)

unescape-u : unescape b'u' ≡ b'\\' ∷ b'u' ∷ []
unfolding unescape control_of
unescape-u = refl

string_loop-unicode :
    (w : List ℕ) (c : ℕ) (rest : List ℕ)
    → string_loop w false (unicode_escape c ++ rest)
      ≡ string_loop (w ++ unicode_escape c) false rest
unfolding unicode_escape
string_loop-unicode w c rest =
    let h = hex_digit-plain (c / 16) in
    let l = hex_digit-plain (c % 16) in
    string_loop-escape w b'u' _
    ∙ string_loop-plain _ b'0' _ (omega arith) (omega arith)
    ∙ string_loop-plain _ b'0' _ (omega arith) (omega arith)
    ∙ string_loop-plain _ (hex_digit (c / 16)) _ h.0 h.1
    ∙ string_loop-plain _ (hex_digit (c % 16)) _ l.0 l.1
    ∙ ap (λ t. string_loop t false rest)
        (append_in_turn w (unescape b'u') b'0' b'0' (hex_digit (c / 16)) (hex_digit (c % 16))
          ∙ ap (λ u. w ++ (u ++ (b'0' ∷ b'0' ∷ hex_digit (c / 16) ∷ hex_digit (c % 16) ∷ [])))
              unescape-u)

-- The three kinds of bytes: with a short escape, printed as they are, and the others.
data Byte (c : ℕ) : Type 0 where
  short :
      (e : ℕ)
      → short_escape c ≡ some e
      → encode_byte c ≡ b'\\' ∷ e ∷ []
      → half_byte c ≡ c ∷ []
      → Byte c
  plain : c ≢ b'"' → c ≢ b'\\' → encode_byte c ≡ c ∷ [] → half_byte c ≡ c ∷ [] → Byte c
  rare :
      c ≢ b'"'
      → c ≢ b'\\'
      → encode_byte c ≡ unicode_escape c
      → half_byte c ≡ unicode_escape c
      → Byte c

no_short_escape : (c : ℕ) → short_escape c ≡ none → (c ≢ b'"') × (c ≢ b'\\')
unfolding short_escape
no_short_escape c s = (ground arith, ground arith)

Byte-cases : (c : ℕ) → Byte c
unfolding encode_byte half_byte
Byte-cases c = elim (Option-cases (short_escape c)) [
  | inr (e, s) ↦ short e s (rw (encode_byte, s) refl) (rw (half_byte, s) refl)
  | inl s ↦
      let (q, b) = no_short_escape c s in
      elim (Bool-cases (is_printable c)) [
        | inl p ↦ plain q b (rw (encode_byte, s, p) refl) (rw (half_byte, s, p) refl)
        | inr p ↦ rare q b (rw (encode_byte, s, p) refl) (rw (half_byte, s, p) refl)
      ]
]

string_loop-encode_byte :
    (w : List ℕ) (c : ℕ) (rest : List ℕ)
    → string_loop w false (encode_byte c ++ rest) ≡ string_loop (w ++ half_byte c) false rest
string_loop-encode_byte w c rest = elim (Byte-cases c) [
  | short e s f h ↦ rw (f, h) (string_loop-escape w e rest ∙ rw (unescape-short_escape c e s) refl)
  | plain q b f h ↦ rw (f, h) (string_loop-plain w c rest q b)
  | rare q b f h ↦ rw (f, h) (string_loop-unicode w c rest)
]

pub string_loop-encode_string :
    (w s rest : List ℕ)
    → string_loop w false (encode_string s ++ (b'"' ∷ rest)) ≡ ok (w ++ half s) b'"' rest
unfolding encode_string half
string_loop-encode_string w [] rest = unfold string_loop in rw append-nil refl
string_loop-encode_string w (c ∷ s) rest =
    ap (string_loop w false) (append_assoc (encode_byte c) (encode_string s) (b'"' ∷ rest))
    ∙ string_loop-encode_byte w c _
    ∙ string_loop-encode_string (w ++ half_byte c) s rest
    ∙ ap (λ l. ok l b'"' rest) (append_assoc w (half_byte c) (half s))

-- A byte that one reading gives back: printable, or with a short escape.
abbrev pub is_plain : ℕ → Bool
is_plain c = is_printable c || c == 8 || c == 9 || c == 10 || c == 12 || c == 13

half_byte-is_plain : (c : ℕ) → is_plain c ≡ true → half_byte c ≡ c ∷ []
unfolding half_byte short_escape
half_byte-is_plain c p = ground arith

pub half-is_plain : (s : List ℕ) → All (λ c. is_plain c ≡ true) s → half s ≡ s
unfolding half
half-is_plain [] p = refl
half-is_plain (c ∷ s) p = ap₂ ◌++◌ (half_byte-is_plain c p.0) (half-is_plain s p.1)

-- Reading an escaped string of plain bytes, in quotes, gives the string.
pub parse_as_string-quoted :
    (s rest : List ℕ)
    → All (λ c. is_plain c ≡ true) s
    → parse_as_string (quoted s rest) ≡ ok s b'"' rest
unfolding parse_as_string quoted
parse_as_string-quoted s rest p =
    string_loop-encode_string [] s rest ∙ ap (λ l. ok l b'"' rest) (half-is_plain s p)

hex_value-hex_digit : (n : ℕ) → n < 16 → hex_value (hex_digit n) ≡ some n
unfolding hex_value
hex_value-hex_digit n h = ground arith

hex_string_to_char-hex_digit :
    (c : ℕ) (rest : List ℕ)
    → c < 256
    → hex_string_to_char (b'0' ∷ b'0' ∷ hex_digit (c / 16) ∷ hex_digit (c % 16) ∷ rest) ≡ some c
unfolding hex_string_to_char hex_number hex_pair hex_value
hex_string_to_char-hex_digit c rest h =
    ground (
      arith,
      hex_value-hex_digit (c / 16) (omega arith),
      hex_value-hex_digit (c % 16) (omega arith),
    )

-- The bytes of a string: no NUL.
abbrev pub IsByte : ℕ → Type 0
IsByte c = (c < 256) × (c ≢ 0)

decode_from-unicode :
    (c : ℕ) (rest : List ℕ)
    → IsByte c
    → decode_from 0 (unicode_escape c ++ rest) ≡ c ∷ decode_from 0 rest
unfolding decode_from decode_byte decode_escape decode_unicode control_of unicode_escape
decode_from-unicode c rest h = ground (arith, hex_string_to_char-hex_digit c rest h.0, h.1)

pub decode_from-plain :
    (c : ℕ) (rest : List ℕ) → c ≢ b'\\' → decode_from 0 (c ∷ rest) ≡ c ∷ decode_from 0 rest
unfolding decode_from decode_byte
decode_from-plain c rest h = ground arith

decode_from-half_byte :
    (c : ℕ) (rest : List ℕ)
    → IsByte c
    → c ≢ b'\\'
    → decode_from 0 (half_byte c ++ rest) ≡ c ∷ decode_from 0 rest
decode_from-half_byte c rest h b = elim (Byte-cases c) [
  | short e s f g ↦ rw g (decode_from-plain c rest b)
  | plain q _ f g ↦ rw g (decode_from-plain c rest b)
  | rare q _ f g ↦ rw g (decode_from-unicode c rest h)
]

decode_string-half : (s : List ℕ) → All (λ c. IsByte c × (c ≢ b'\\')) s → decode_string (half s) ≡ s
unfolding decode_string half decode_from
decode_string-half [] h = refl
decode_string-half (c ∷ s) h =
    decode_from-half_byte c (half s) h.0.0 h.0.1 ∙ ap (λ l. c ∷ l) (decode_string-half s h.1)

-- A string that is a value comes back where it holds no backslash.
pub parse_as_value-quoted :
    (s rest : List ℕ)
    → All (λ c. IsByte c × (c ≢ b'\\')) s
    → parse_as_value (quoted s rest) ≡ ok (primitive string_type s) b'"' rest
unfolding parse_as_value parse_as_string quoted
parse_as_value-quoted s rest h =
    rw (string_loop-encode_string [] s rest)
      (ap (λ l. ok (primitive string_type l) b'"' rest) (decode_string-half s h))
