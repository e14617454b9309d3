-- ===== src/Json/Parser.antt =====
-- The parsers of libutils/json.c for arrays, objects and whole texts, without a lookup function.
-- Each turn of a loop and each nested container takes one unit of fuel and at least one byte.
use libntech.Prelude.{
  ◌+◌, ◌^◌, ltb, int_rounds, ℕ, zero, suc, Bool, true, false, not, ◌&&◌, ◌||◌, Option, none, some,
  List, [], ◌∷◌, if◌then◌else◌, ◌==◌, leb, length,
}
use libntech.Json.{
  string_type, bool_type, null_type, Json, primitive, array, object, Elements, no_elements, element,
  Properties, no_properties, property, array_start, array_end, array_comma, object_bad_symbol,
  object_end, object_colon, object_comma, object_comma_missing, object_array_lval,
  object_object_lval, object_open_lval, invalid_end, no_data, Parsed, ok, fail, overrun,
  out_of_fuel,
}
use libntech.Json.Strings.{parse_as_string, decode_string}
use libntech.Json.Numbers.{is_whitespace, is_separator, is_digit, parse_as_number}

infixl 5 ◌>>=◌
abbrev pub ◌>>=◌ {ℓ κ} :
    {A : Type ℓ} {B : Type κ} → Parsed A → (A → ℕ → List ℕ → Parsed B) → Parsed B
ok a last rest >>= f = f a last rest
fail e >>= f = fail e
overrun >>= f = overrun
out_of_fuel >>= f = out_of_fuel

-- SeqAppend on the children of an array.
unfoldable pub append_element : Elements → Json → Elements
append_element no_elements j = element j no_elements
append_element (element i es) j = element i (append_element es j)

-- The equality of two C strings.
unfoldable pub string_equal : List ℕ → List ℕ → Bool
string_equal [] [] = true
string_equal (a ∷ s) (b ∷ t) = a == b && string_equal s t
string_equal _ _ = false

-- JsonObjectRemoveKey: the first child with the key goes.
unfoldable pub remove_key : Properties → List ℕ → Properties
unfolding string_equal
remove_key no_properties k = no_properties
remove_key (property l j ps) k =
    let rest = remove_key ps k in if string_equal k l then ps else property l j rest

unfoldable pub append_property : Properties → List ℕ → Json → Properties
append_property no_properties k j = property k j no_properties
append_property (property l i ps) k j = property l i (append_property ps k j)

-- JsonObjectAppendElement
unfoldable pub object_append_element : Properties → List ℕ → Json → Properties
unfolding remove_key append_property
object_append_element ps k j = append_property (remove_key ps k) k j

-- The loop of StringStartsWith: the text behind the prefix.
unfoldable pub after_bytes : List ℕ → List ℕ → Option (List ℕ)
after_bytes [] cs = some cs
after_bytes (p ∷ ps) [] = none
after_bytes (p ∷ ps) (c ∷ cs) = if p == c then after_bytes ps cs else none

-- The text behind a prefix of at least one byte, where StringStartsWith holds. The length of the text
-- is stored in an int, and a negative one is below that of the prefix.
unfoldable pub after_prefix : List ℕ → List ℕ → Option (List ℕ)
unfolding after_bytes
after_prefix w cs = if ltb (int_rounds (length cs)) (length w) then none else after_bytes w cs

-- `IsSeparator(next) || next == '\0'`
unfoldable pub ends_word : List ℕ → Bool
ends_word [] = true
ends_word (c ∷ cs) = is_separator c

abbrev pub true_text : List ℕ
true_text = b't' ∷ b'r' ∷ b'u' ∷ b'e' ∷ []

abbrev pub false_text : List ℕ
false_text = b'f' ∷ b'a' ∷ b'l' ∷ b's' ∷ b'e' ∷ []

abbrev pub null_text : List ℕ
null_text = b'n' ∷ b'u' ∷ b'l' ∷ b'l' ∷ []

-- The text behind a word that stands alone.
unfoldable pub after_word : List ℕ → List ℕ → Option (List ℕ)
unfolding after_prefix ends_word
after_word w cs = elim (after_prefix w cs) [
  | none ↦ none
  | some rest ↦ if ends_word rest then some rest else none
]

-- JsonParseAsBoolean, then JsonParseAsNull, then the error.
unfoldable pub parse_as_word : List ℕ → Parsed Json
unfolding after_word
parse_as_word cs = elim (after_word true_text cs) [
  | some rest ↦ ok (primitive bool_type true_text) b'e' rest
  | none ↦ elim (after_word false_text cs) [
    | some rest ↦ ok (primitive bool_type false_text) b'e' rest
    | none ↦ elim (after_word null_text cs) [
      | some rest ↦ ok (primitive null_type null_text) b'l' rest
      | none ↦ fail object_bad_symbol
    ]
  ]
]

-- `**data == '-' || **data == '0' || IsDigit(**data)`
abbrev pub starts_number : List ℕ → Bool
starts_number [] = false
starts_number (c ∷ cs) = c == b'-' || c == b'0' || is_digit c

-- What the parsers of containers do at any other byte.
unfoldable pub parse_as_scalar : List ℕ → Parsed Json
unfolding parse_as_word
parse_as_scalar cs = if starts_number cs then parse_as_number cs else parse_as_word cs

-- A string that is a value: it is decoded once more.
unfoldable pub parse_as_value : List ℕ → Parsed Json
parse_as_value cs =
    parse_as_string cs >>= λ s last rest. ok (primitive string_type (decode_string s)) last rest

abbrev pub is_word_byte : ℕ → Bool
is_word_byte c =
    (leb b'a' c && leb c b'z')
    || (leb b'A' c && leb c b'Z')
    || (leb b'0' c && leb c b'9')
    || c == b'_'

-- The key that unquoted_key_with_colon finds, cut before the blanks, from its second byte on, and
-- the text behind the colon. The flag says that the key is over.
unfoldable pub unquoted_key_rest : Bool → List ℕ → Option (List ℕ × List ℕ)
unquoted_key_rest over [] = none
unquoted_key_rest over (c ∷ cs) =
    let rest = unquoted_key_rest (over || is_whitespace c) cs in
    if not over && (c == b'-' || is_word_byte c)
    then (elim rest [ none ↦ none | some r ↦ some (c ∷ r.0, r.1) ])
    else if is_whitespace c
    then rest
    else if c == b':'
    then some ([], cs)
    else none

-- The bytes that the two loops of unquoted_key_with_colon pass.
unfoldable pub key_bytes : Bool → List ℕ → ℕ
key_bytes over [] = 0
key_bytes over (c ∷ cs) =
    let rest = key_bytes (over || is_whitespace c) cs in
    if not over && (c == b'-' || is_word_byte c)
    then rest + 1
    else if is_whitespace c
    then rest + 1
    else 0

-- `none` is a key whose bytes overflow the `int i` that counts them, so that the code reads outside
-- the text.
unfoldable pub unquoted_key_with_colon : List ℕ → Option (Option (List ℕ × List ℕ))
unfolding unquoted_key_rest key_bytes
unquoted_key_with_colon [] = some none
unquoted_key_with_colon (c ∷ cs) =
    if is_word_byte c
    then (if ltb (key_bytes false cs + 1) (2 ^ 31)
        then some (elim (unquoted_key_rest false cs) [ none ↦ none | some r ↦ some (c ∷ r.0, r.1) ])
        else none)
    else some none

-- The cases of the two switches.
pub data Lead : Type 0 where
  space quote square curly comma colon square_end curly_end other : Lead

unfoldable pub lead : ℕ → Lead
lead c =
    if is_whitespace c
    then space
    else if c == b'"'
    then quote
    else if c == b'['
    then square
    else if c == b'{'
    then curly
    else if c == b','
    then comma
    else if c == b':'
    then colon
    else if c == b']'
    then square_end
    else if c == b'}'
    then curly_end
    else other

-- The loops of JsonParseAsArray and JsonParseAsObject, on the text behind `*data`. The error paths
-- destroy what has been read, except for a string in an array.
unfoldable mutual
  pub array_loop : ℕ → ℕ → Elements → List ℕ → Parsed Json
  array_loop zero prev es cs = out_of_fuel
  array_loop (suc n) prev es [] = fail array_end
  array_loop (suc n) prev es (c ∷ cs) =
      let next : Json → ℕ → List ℕ → Parsed Json =
        λ j last rest. array_loop n last (append_element es j) rest in
      elim (lead c) [
        | space ↦ array_loop n prev es cs
        | quote ↦ parse_as_value (c ∷ cs) >>= next
        | square ↦
            if not (prev == b'[') && not (prev == b',')
            then fail array_start
            else (array_loop n b'[' no_elements cs >>= next)
        | curly ↦
            if not (prev == b'[') && not (prev == b',')
            then fail array_start
            else (object_loop n none b'{' no_properties cs >>= next)
        | comma ↦ if prev == b',' || prev == b'[' then fail array_comma else array_loop n c es cs
        | square_end ↦ ok (array es) c cs
        | colon ↦ parse_as_scalar (c ∷ cs) >>= next
        | curly_end ↦ parse_as_scalar (c ∷ cs) >>= next
        | other ↦ parse_as_scalar (c ∷ cs) >>= next
      ]

  pub object_loop : ℕ → Option (List ℕ) → ℕ → Properties → List ℕ → Parsed Json
  object_loop zero name prev ps cs = out_of_fuel
  object_loop (suc n) name prev ps [] = fail object_end
  object_loop (suc n) none prev ps (c ∷ cs) = elim (lead c) [
    | space ↦ object_loop n none prev ps cs
    | quote ↦
        if not (prev == b'{') && not (prev == b',')
        then fail object_comma_missing
        else (parse_as_string (c ∷ cs) >>= λ k last rest. object_loop n (some k) last ps rest)
    | colon ↦ fail object_colon
    | comma ↦ if prev == b':' || prev == b',' then fail object_comma else object_loop n none c ps cs
    | square ↦ fail object_array_lval
    | curly ↦ fail object_object_lval
    | curly_end ↦ ok (object ps) c cs
    | square_end ↦ fail object_bad_symbol
    | other ↦ elim (unquoted_key_with_colon (c ∷ cs)) [
      | none ↦ overrun
      | some none ↦ fail object_bad_symbol
      | some (some k) ↦ object_loop n (some k.0) b':' ps k.1
    ]
  ]
  object_loop (suc n) (some k) prev ps (c ∷ cs) =
      let next : Json → ℕ → List ℕ → Parsed Json =
        λ j last rest. object_loop n none last (object_append_element ps k j) rest in
      elim (lead c) [
        | space ↦ object_loop n (some k) prev ps cs
        | quote ↦ parse_as_value (c ∷ cs) >>= next
        | colon ↦
            if prev == b':' || prev == b','
            then fail object_colon
            else object_loop n (some k) c ps cs
        | comma ↦ fail object_comma
        | square ↦ array_loop n b'[' no_elements cs >>= next
        | curly ↦ object_loop n none b'{' no_properties cs >>= next
        | curly_end ↦ fail object_open_lval
        | square_end ↦ parse_as_scalar (c ∷ cs) >>= next
        | other ↦ parse_as_scalar (c ∷ cs) >>= next
      ]

-- JsonParseAsPrimitive
unfoldable pub parse_as_primitive : List ℕ → Parsed Json
unfolding parse_as_value parse_as_scalar
parse_as_primitive [] = fail object_bad_symbol
parse_as_primitive (c ∷ cs) =
    if c == b'"' then parse_as_value (c ∷ cs) else parse_as_scalar (c ∷ cs)

-- JsonParseWithLookup without a lookup function, which is JsonParse.
unfoldable pub parse : List ℕ → Parsed Json
unfolding array_loop parse_as_primitive
parse [] = fail no_data
parse (c ∷ cs) =
    let rest = parse cs in
    if c == b'{'
    then object_loop (suc (length cs)) none b'{' no_properties cs
    else if c == b'['
    then array_loop (suc (length cs)) b'[' no_elements cs
    else if is_whitespace c
    then rest
    else parse_as_primitive (c ∷ cs)

-- isspace, in the locale "C"
abbrev pub is_space : ℕ → Bool
is_space c = c == b' ' || (leb 9 c && leb c 13)

unfoldable pub all_space : List ℕ → Bool
all_space [] = true
all_space (c ∷ cs) = is_space c && all_space cs

-- JsonParseAll
unfoldable pub parse_all : List ℕ → Parsed Json
unfolding parse all_space
parse_all cs = parse cs >>= λ j last rest.
    if not (last == 0) && not (all_space rest) then fail invalid_end else ok j last rest
