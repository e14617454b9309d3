-- ===== src/Json/RoundTrip/Faults.antt =====
-- Strings that libutils/json.c does not give back: a value is decoded twice, a key keeps the escapes
-- of the bytes that have no short one, and a backslash at the end of a text is followed by its
-- terminator.
use libntech.Prelude.{
  some, ap, sym, append-nil, All-append, arith, ℕ, ◌≡◌, ◌≢◌, refl, ◌∙◌, true, false, List, [], ◌∷◌,
  ◌++◌, All,
}
use libntech.Json.{primitive, string_type, ok, overrun}
use libntech.Json.Strings.{
  control_of, decode_from, decode_byte, decode_escape, string_loop, parse_as_string, decode_string,
}
use libntech.Json.Parser.{parse_as_value, parse_all, parse}
use libntech.Json.Writer.{quoted}
use libntech.Json.RoundTrip.Strings.{
  decode_from-plain, is_plain, half, parse_as_string-quoted, string_loop-encode_string,
  string_loop-plain,
}

decode_from-escape :
    (c d : ℕ) (t : List ℕ)
    → control_of c ≡ some d
    → decode_from 0 (b'\\' ∷ c ∷ t) ≡ d ∷ decode_from 0 t
unfolding decode_from decode_byte decode_escape control_of
decode_from-escape c d t h = ground arith

decode_from-plains :
    (s t : List ℕ)
    → All (λ c. (is_plain c ≡ true) × (c ≢ b'\\')) s
    → decode_from 0 (s ++ t) ≡ s ++ decode_from 0 t
decode_from-plains [] t h = refl
decode_from-plains (c ∷ s) t h =
    decode_from-plain c (s ++ t) h.0.1 ∙ ap (λ l. c ∷ l) (decode_from-plains s t h.1)

plains :
    (s : List ℕ) → All (λ c. (is_plain c ≡ true) × (c ≢ b'\\')) s → All (λ c. is_plain c ≡ true) s
plains [] h = tt
plains (c ∷ s) h = (h.0.0, plains s h.1)

control_of-IsPlain : (c d : ℕ) → control_of c ≡ some d → is_plain c ≡ true
unfolding control_of
control_of-IsPlain c d h = ground arith

-- A value that is written with JsonEncodeString and read is decoded twice: of a value of plain bytes
-- with one backslash, which stands in front of the letter of an escape, the backslash is lost and the
-- byte that the escape means stands in place of the letter.
pub parse_as_value-twice :
    (s t rest : List ℕ) (c d : ℕ)
    → All (λ c. (is_plain c ≡ true) × (c ≢ b'\\')) s
    → All (λ c. (is_plain c ≡ true) × (c ≢ b'\\')) t
    → control_of c ≡ some d
    → parse_as_value (quoted (s ++ b'\\' ∷ c ∷ t) rest)
      ≡ ok (primitive string_type (s ++ d ∷ t)) b'"' rest
unfolding parse_as_value decode_string
parse_as_value-twice s t rest c d hs ht h =
    let whole = s ++ b'\\' ∷ c ∷ t in
    let plain : All (λ c. is_plain c ≡ true) whole =
      All-append _ s (b'\\' ∷ c ∷ t) (plains s hs)
        (refl, (control_of-IsPlain c d h, plains t ht)) in
    let last : decode_from 0 t ≡ t =
      ap (decode_from 0) (sym (append-nil t)) ∙ decode_from-plains t [] ht ∙ append-nil t in
    let decoded : decode_from 0 whole ≡ s ++ d ∷ t =
      decode_from-plains s (b'\\' ∷ c ∷ t) hs
      ∙ ap (λ l. s ++ l) (decode_from-escape c d t h ∙ ap (λ l. d ∷ l) last) in
    rw (parse_as_string-quoted whole rest plain)
      (ap (λ l. ok (primitive string_type l) b'"' rest) decoded)

-- Any key that is written and read comes back with the escape `\u00XX` of each byte that is
-- neither printable nor written with a short escape.
pub parse_as_string-half :
    (k rest : List ℕ) → parse_as_string (quoted k rest) ≡ ok (half k) b'"' rest
unfolding parse_as_string quoted
parse_as_string-half k rest = string_loop-encode_string [] k rest

string_loop-open :
    (w s : List ℕ)
    → All (λ c. (c ≢ b'"') × (c ≢ b'\\')) s
    → string_loop w false (s ++ b'\\' ∷ []) ≡ overrun
string_loop-open w [] h = unfold string_loop in refl
string_loop-open w (c ∷ s) h =
    string_loop-plain w c (s ++ b'\\' ∷ []) h.0.0 h.0.1 ∙ string_loop-open (w ++ c ∷ []) s h.1

-- JsonParseAll reads behind the terminator of a text that is an open string and ends in a
-- backslash.
pub parse_all-overrun :
    (s : List ℕ)
    → All (λ c. (c ≢ b'"') × (c ≢ b'\\')) s
    → parse_all (b'"' ∷ (s ++ b'\\' ∷ [])) ≡ overrun
unfolding parse_all parse parse_as_value parse_as_string
parse_all-overrun s h = rw (string_loop-open [] s h) refl
