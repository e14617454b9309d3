-- ===== src/Json/Objects/Sound.antt =====
-- Elements of libutils/json.c whose objects hold each key once, the operations that keep them so, and
-- the parsers of scalars.
use libntech.Prelude.{ℕ, not, ◌&&◌, ◌⊎◌, inl, inr, List, [], ◌∷◌, ◌==◌, Bool-cases, Option-cases}
use libntech.Json.{
  Json, primitive, array, object, Elements, no_elements, element, Properties, no_properties,
  property, ParseError, Parsed, ok, fail, overrun, out_of_fuel,
}
use libntech.Json.Strings.{parse_as_string}
use libntech.Json.Numbers.{
  NumberState, initial, number_byte, number_end, number_loop, parse_as_number, is_separator,
  is_digit,
}
use libntech.Json.Parser.{
  ◌>>=◌, string_equal, append_element, remove_key, append_property, object_append_element,
  parse_as_value, parse_as_scalar, starts_number, parse_as_word, after_word, true_text, false_text,
  null_text,
}
use libntech.Json.Objects.{IsDistinct, objects_refine}

-- No object in the element has a key twice.
abbrev mutual
  pub IsSound : Json → Type 0
  IsSound (primitive t v) = Unit
  IsSound (array es) = ElementsSound es
  IsSound (object ps) = IsDistinct ps × PropertiesSound ps

  pub ElementsSound : Elements → Type 0
  ElementsSound no_elements = Unit
  ElementsSound (element j es) = IsSound j × ElementsSound es

  pub PropertiesSound : Properties → Type 0
  PropertiesSound no_properties = Unit
  PropertiesSound (property k j ps) = IsSound j × PropertiesSound ps

-- A parser gives nothing else.
abbrev pub Gives : Parsed Json → Type 0
Gives (ok j last rest) = IsSound j
Gives (fail e) = Unit
Gives overrun = Unit
Gives out_of_fuel = Unit

pub Gives-bind :
    (p : Parsed Json) (f : Json → ℕ → List ℕ → Parsed Json)
    → Gives p
    → ((j : Json) (last : ℕ) (rest : List ℕ) → IsSound j → Gives (f j last rest))
    → Gives (p >>= f)
Gives-bind (ok j last rest) f e h = h j last rest e
Gives-bind (fail e') f e h = tt
Gives-bind overrun f e h = tt
Gives-bind out_of_fuel f e h = tt

pub Gives-text :
    {A : Type 0} (p : Parsed A) (f : A → ℕ → List ℕ → Parsed Json)
    → ((a : A) (last : ℕ) (rest : List ℕ) → Gives (f a last rest))
    → Gives (p >>= f)
Gives-text (ok a last rest) f h = h a last rest
Gives-text (fail e') f h = tt
Gives-text overrun f h = tt
Gives-text out_of_fuel f h = tt

pub append_element-Sound :
    (es : Elements) (j : Json) → ElementsSound es → IsSound j → ElementsSound (append_element es j)
unfolding append_element
append_element-Sound no_elements j h s = (s, tt)
append_element-Sound (element i es) j (h, hs) s = (h, append_element-Sound es j hs s)

remove_key-Sound :
    (ps : Properties) (k : List ℕ) → PropertiesSound ps → PropertiesSound (remove_key ps k)
unfolding remove_key
remove_key-Sound no_properties k h = tt
remove_key-Sound (property l j ps) k (h, hs) = elim (Bool-cases (string_equal k l)) [
  | inl e ↦ rw e hs
  | inr e ↦ rw e (h, remove_key-Sound ps k hs)
]

append_property-Sound :
    (ps : Properties) (k : List ℕ) (j : Json)
    → PropertiesSound ps
    → IsSound j
    → PropertiesSound (append_property ps k j)
unfolding append_property
append_property-Sound no_properties k j h s = (s, tt)
append_property-Sound (property l i ps) k j (h, hs) s = (h, append_property-Sound ps k j hs s)

pub object_append_element-Sound :
    (ps : Properties) (k : List ℕ) (j : Json)
    → IsSound (object ps)
    → IsSound j
    → IsSound (object (object_append_element ps k j))
unfolding object_append_element
object_append_element-Sound ps k j (d, h) s = (
  (objects_refine ps k j d).1,
  append_property-Sound (remove_key ps k) k j (remove_key-Sound ps k h) s,
)

pub parse_as_value-Gives : (cs : List ℕ) → Gives (parse_as_value cs)
unfolding parse_as_value
parse_as_value-Gives cs = Gives-text (parse_as_string cs) _ (λ s last rest. tt)

number_end-Gives : (s : NumberState) (cs : List ℕ) → Gives (number_end s cs)
unfolding number_end
number_end-Gives s cs =
    elim (Bool-cases (not (s.prev_char == b'0') && not (is_digit s.prev_char))) [
      | inl p ↦ rw p tt
      | inr p ↦ rw p tt
    ]

number_byte-Gives :
    (o : ParseError ⊎ NumberState) (cs : List ℕ)
    → ((t : NumberState) → Gives (number_loop t cs))
    → Gives (elim o [ inl e ↦ fail e | inr t ↦ number_loop t cs ])
number_byte-Gives (inl e) cs h = tt
number_byte-Gives (inr t) cs h = h t

number_loop-Gives : (cs : List ℕ) (s : NumberState) → Gives (number_loop s cs)
unfolding number_loop
number_loop-Gives [] s = number_end-Gives s []
number_loop-Gives (c ∷ cs) s = elim (Bool-cases (is_separator c)) [
  | inl p ↦ rw p (number_end-Gives s (c ∷ cs))
  | inr p ↦ rw p (number_byte-Gives (number_byte s c) cs (number_loop-Gives cs))
]

parse_as_word-Gives : (cs : List ℕ) → Gives (parse_as_word cs)
unfolding parse_as_word
parse_as_word-Gives cs = elim (Option-cases (after_word true_text cs)) [
  | inr (r, p) ↦ rw (parse_as_word, p) tt
  | inl p ↦ elim (Option-cases (after_word false_text cs)) [
    | inr (r, q) ↦ rw (parse_as_word, p, q) tt
    | inl q ↦ elim (Option-cases (after_word null_text cs)) [
      | inr (r, z) ↦ rw (parse_as_word, p, q, z) tt
      | inl z ↦ rw (parse_as_word, p, q, z) tt
    ]
  ]
]

pub parse_as_scalar-Gives : (cs : List ℕ) → Gives (parse_as_scalar cs)
unfolding parse_as_scalar parse_as_number
parse_as_scalar-Gives cs = elim (Bool-cases (starts_number cs)) [
  | inl p ↦ rw p (number_loop-Gives cs initial)
  | inr p ↦ rw p (parse_as_word-Gives cs)
]
