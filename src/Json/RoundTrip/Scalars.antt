-- ===== src/Json/RoundTrip/Scalars.antt =====
-- The primitives that the parser gives back, each in front of a separator.
use libntech.Prelude.{
  false, ltb, int_rounds, ◌^◌, if◌then◌else◌, Bool-cases, ℕ, ◌≡◌, ◌≢◌, refl, ap, ◌∙◌, Bool, true,
  not, ◌&&◌, ◌⊎◌, inl, inr, List, [], ◌∷◌, ◌++◌, ◌==◌, arith, All, some, none, length,
  length-append, ◌<◌,
}
use libntech.Json.{
  Json, PrimitiveType, string_type, integer_type, real_type, bool_type, null_type, primitive, ok,
}
use libntech.Json.Strings.{encode_string}
use libntech.Json.Numbers.{parse_as_number}
use libntech.Json.Parser.{
  after_bytes, ends_word, starts_number, true_text, false_text, null_text, after_word, after_prefix,
  parse_as_word, parse_as_scalar, parse_as_value, other, lead,
}
use libntech.Json.Writer.{quoted, primitive_write}
use libntech.Json.RoundTrip.Strings.{IsByte, parse_as_value-quoted}
use libntech.Json.RoundTrip.Printed.{quoted-append}
use libntech.Json.RoundTrip.Numerals.{IsInteger, IsReal, integer-read, real-read}
use libntech.Json.RoundTrip.Numbers.{is_last, parse_as_number-starts, parse_as_number-append}

-- The primitives that can be printed and read: a string without a NUL or a backslash, a decimal
-- number without or with a fraction, one of the two Boolean words, the null word.
abbrev pub IsPrimitive : PrimitiveType → List ℕ → Type 0
IsPrimitive string_type v = All (λ c. IsByte c × (c ≢ b'\\')) v
IsPrimitive integer_type v = IsInteger v
IsPrimitive real_type v = IsReal v
IsPrimitive bool_type v = (v ≡ true_text) ⊎ (v ≡ false_text)
IsPrimitive null_type v = v ≡ null_text

-- The bytes that may stand last in an element: after them the loops go on alike.
abbrev pub may_end : ℕ → Bool
may_end c = not (c == b',') && not (c == b':') && not (c == b'[') && not (c == b'{')

-- How the loops meet the text of a primitive.
pub data Reads (j : Json) (text rest : List ℕ) : Type 0 where
  as_string :
      (t : List ℕ) → text ≡ b'"' ∷ t → parse_as_value text ≡ ok j b'"' rest → Reads j text rest
  as_scalar :
      (c : ℕ) (cs : List ℕ) (last : ℕ)
      → text ≡ c ∷ cs
      → lead c ≡ other
      → parse_as_scalar text ≡ ok j last rest
      → may_end last ≡ true
      → Reads j text rest

number-lead : (c : ℕ) (cs : List ℕ) → starts_number (c ∷ cs) ≡ true → lead c ≡ other
unfolding lead
number-lead c cs h = ground arith

is_last-may_end : (c : ℕ) → is_last c ≡ true → may_end c ≡ true
is_last-may_end c h = ground arith

Reads-number :
    (t : PrimitiveType) (v rest : List ℕ) (last : ℕ)
    → parse_as_number v ≡ ok (primitive t v) last []
    → ends_word rest ≡ true
    → Reads (primitive t v) (v ++ rest) rest
Reads-number t [] rest last h e = absurd (unfold parse_as_number in ground arith)
Reads-number t (c ∷ cs) rest last h e =
    let s = parse_as_number-starts c cs h in
    let (q, l) = parse_as_number-append (c ∷ cs) rest h e in
    as_scalar c (cs ++ rest) last refl (number-lead c cs s) (unfold parse_as_scalar in rw s q)
      (is_last-may_end last l)

after_bytes_self : (w rest : List ℕ) → after_bytes w (w ++ rest) ≡ some rest
unfolding after_bytes
after_bytes_self [] rest = refl
after_bytes_self (c ∷ w) rest = ground (arith, after_bytes_self w rest)

after_prefix_self :
    (w rest : List ℕ) → length (w ++ rest) < 2 ^ 31 → after_prefix w (w ++ rest) ≡ some rest
unfolding after_prefix
after_prefix_self w rest z =
    let p : ltb (int_rounds (length (w ++ rest))) (length w) ≡ false =
      ground (arith, length-append w rest, z) in
    ap (λ b. if b then none else after_bytes w (w ++ rest)) p ∙ after_bytes_self w rest

after_word_self :
    (w rest : List ℕ)
    → ends_word rest ≡ true
    → length (w ++ rest) < 2 ^ 31
    → after_word w (w ++ rest) ≡ some rest
unfolding after_word
after_word_self w rest e z = rw (after_word, after_prefix_self w rest z, e) refl

-- A word that the text does not begin with is not found.
after_word-none : (w cs : List ℕ) → after_bytes w cs ≡ none → after_word w cs ≡ none
unfolding after_word after_prefix
after_word-none w cs h =
    let none_found : after_prefix w cs ≡ none =
      elim (Bool-cases (ltb (int_rounds (length cs)) (length w))) [
        | inl p ↦ ap (λ b. if b then none else after_bytes w cs) p
        | inr p ↦ ap (λ b. if b then none else after_bytes w cs) p ∙ h
      ] in
    rw (after_word, none_found)

parse_as_word-true :
    (cs rest : List ℕ)
    → after_word true_text cs ≡ some rest
    → parse_as_word cs ≡ ok (primitive bool_type true_text) b'e' rest
unfolding parse_as_word
parse_as_word-true cs rest h = rw (parse_as_word, h) refl

parse_as_word-false :
    (cs rest : List ℕ)
    → after_word true_text cs ≡ none
    → after_word false_text cs ≡ some rest
    → parse_as_word cs ≡ ok (primitive bool_type false_text) b'e' rest
unfolding parse_as_word
parse_as_word-false cs rest t h = rw (parse_as_word, t, h) refl

parse_as_word-null :
    (cs rest : List ℕ)
    → after_word true_text cs ≡ none
    → after_word false_text cs ≡ none
    → after_word null_text cs ≡ some rest
    → parse_as_word cs ≡ ok (primitive null_type null_text) b'l' rest
unfolding parse_as_word
parse_as_word-null cs rest t f h = rw (parse_as_word, t, f, h) refl

pub Reads-primitive :
    (t : PrimitiveType) (v rest : List ℕ)
    → IsPrimitive t v
    → ends_word rest ≡ true
    → length (primitive_write t v ++ rest) < 2 ^ 31
    → Reads (primitive t v) (primitive_write t v ++ rest) rest
unfolding primitive_write
Reads-primitive string_type v rest h e z =
    as_string ((encode_string v ++ b'"' ∷ []) ++ rest) (unfold quoted in refl)
      (ap parse_as_value (quoted-append v [] rest) ∙ parse_as_value-quoted v rest h)
Reads-primitive integer_type v rest h e z =
    let (last, r) = integer-read v h in Reads-number integer_type v rest last r e
Reads-primitive real_type v rest h e z =
    let (last, r) = real-read v h in Reads-number real_type v rest last r e
Reads-primitive bool_type v rest (inl h) e z = rw h (
    as_scalar b't' _ b'e' refl (unfold lead in refl)
      (unfold parse_as_scalar in
        parse_as_word-true (true_text ++ rest) rest
          (after_word_self true_text rest e (omega (arith, z, ap (λ l. length (l ++ rest)) h))))
      refl)
Reads-primitive bool_type v rest (inr h) e z = rw h (
    as_scalar b'f' _ b'e' refl (unfold lead in refl)
      (unfold parse_as_scalar in
        parse_as_word-false (false_text ++ rest) rest
          (after_word-none true_text (false_text ++ rest) (unfold after_bytes in refl))
          (after_word_self false_text rest e (omega (arith, z, ap (λ l. length (l ++ rest)) h))))
      refl)
Reads-primitive null_type v rest h e z = rw h (
    as_scalar b'n' _ b'l' refl (unfold lead in refl)
      (unfold parse_as_scalar in
        parse_as_word-null (null_text ++ rest) rest
          (after_word-none true_text (null_text ++ rest) (unfold after_bytes in refl))
          (after_word-none false_text (null_text ++ rest) (unfold after_bytes in refl))
          (after_word_self null_text rest e (omega (arith, z, ap (λ l. length (l ++ rest)) h))))
      refl)

parse_as_number-nil : {j : Json} {last : ℕ} {rest : List ℕ} → parse_as_number [] ≢ ok j last rest
unfolding parse_as_number
parse_as_number-nil h = ground arith

number-length :
    (v : List ℕ) {j : Json} {last : ℕ} {rest : List ℕ}
    → parse_as_number v ≡ ok j last rest
    → 0 < length v
number-length [] h = absurd (parse_as_number-nil h)
number-length (c ∷ v) h = omega arith

primitive_write-length :
    (t : PrimitiveType) (v : List ℕ) → IsPrimitive t v → 0 < length (primitive_write t v)
unfolding primitive_write quoted
primitive_write-length string_type v h = omega arith
primitive_write-length integer_type v h = let (last, r) = integer-read v h in number-length v r
primitive_write-length real_type v h = let (last, r) = real-read v h in number-length v r
primitive_write-length bool_type v (inl h) = rw h (omega arith)
primitive_write-length bool_type v (inr h) = rw h (omega arith)
primitive_write-length null_type v h = rw h (omega arith)

pub length-primitive_write :
    (t : PrimitiveType) (v rest : List ℕ)
    → IsPrimitive t v
    → length rest < length (primitive_write t v ++ rest)
length-primitive_write t v rest h =
    omega (arith, primitive_write-length t v h, length-append (primitive_write t v) rest)
