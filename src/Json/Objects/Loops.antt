-- ===== src/Json/Objects/Loops.antt =====
-- The keys of the objects that the loops of JsonParseAsArray and JsonParseAsObject and the parsers of
-- whole texts read.
use libntech.Prelude.{
  ℕ, zero, suc, ◌≡◌, refl, not, ◌&&◌, ◌||◌, inl, inr, Option, none, some, List, [], ◌∷◌, ◌==◌,
  Bool-cases, length,
}
use libntech.Json.{
  overrun, Json, object, Elements, no_elements, Properties, no_properties, Parsed, fail,
  object_bad_symbol,
}
use libntech.Json.Strings.{parse_as_string}
use libntech.Json.Numbers.{is_whitespace}
use libntech.Json.Parser.{
  ◌>>=◌, append_element, object_append_element, unquoted_key_with_colon, Lead, space, quote, square,
  curly, comma, colon, square_end, curly_end, other, lead, array_loop, object_loop,
  parse_as_primitive, parse, all_space, parse_all,
}
use libntech.Json.Objects.Sound.{
  IsSound, ElementsSound, Gives, Gives-bind, Gives-text, append_element-Sound,
  object_append_element-Sound, parse_as_value-Gives, parse_as_scalar-Gives,
}

-- What the induction gives for one unit of fuel less.
module _ (n : ℕ)
    (loop_a : (prev : ℕ) (es : Elements) (cs : List ℕ)
      → ElementsSound es
      → Gives (array_loop n prev es cs))
    (loop_o : (name : Option (List ℕ)) (prev : ℕ) (ps : Properties) (cs : List ℕ)
      → IsSound (object ps)
      → Gives (object_loop n name prev ps cs)) where
  array_next :
      (es : Elements) (p : Parsed Json)
      → ElementsSound es
      → Gives p
      → Gives (p >>= λ j last rest. array_loop n last (append_element es j) rest)
  array_next es p s e =
      Gives-bind p _ e
        (λ j last rest h. loop_a last (append_element es j) rest (append_element-Sound es j s h))

  object_next :
      (name : List ℕ) (ps : Properties) (p : Parsed Json)
      → IsSound (object ps)
      → Gives p
      → Gives (p >>= λ j last rest. object_loop n none last (object_append_element ps name j) rest)
  object_next name ps p s e = Gives-bind p _ e (λ j last rest h.
      loop_o none last (object_append_element ps name j) rest
        (object_append_element-Sound ps name j s h))

  array_step :
      (prev : ℕ) (es : Elements) (c : ℕ) (cs : List ℕ) (l : Lead)
      → lead c ≡ l
      → ElementsSound es
      → Gives (array_loop (suc n) prev es (c ∷ cs))
  unfolding array_loop
  array_step prev es c cs space e h = rw (array_loop, e) (loop_a prev es cs h)
  array_step prev es c cs quote e h =
      rw (array_loop, e) (array_next es _ h (parse_as_value-Gives (c ∷ cs)))
  array_step prev es c cs square e h =
      elim (Bool-cases (not (prev == b'[') && not (prev == b','))) [
        | inl p ↦ rw (array_loop, e, p) tt
        | inr p ↦ rw (array_loop, e, p) (array_next es _ h (loop_a b'[' no_elements cs tt))
      ]
  array_step prev es c cs curly e h = elim (Bool-cases (not (prev == b'[') && not (prev == b','))) [
    | inl p ↦ rw (array_loop, e, p) tt
    | inr p ↦ rw (array_loop, e, p) (array_next es _ h (loop_o none b'{' no_properties cs (tt, tt)))
  ]
  array_step prev es c cs comma e h = elim (Bool-cases (prev == b',' || prev == b'[')) [
    | inl p ↦ rw (array_loop, e, p) tt
    | inr p ↦ rw (array_loop, e, p) (loop_a c es cs h)
  ]
  array_step prev es c cs square_end e h = rw (array_loop, e) h
  array_step prev es c cs colon e h =
      rw (array_loop, e) (array_next es _ h (parse_as_scalar-Gives (c ∷ cs)))
  array_step prev es c cs curly_end e h =
      rw (array_loop, e) (array_next es _ h (parse_as_scalar-Gives (c ∷ cs)))
  array_step prev es c cs other e h =
      rw (array_loop, e) (array_next es _ h (parse_as_scalar-Gives (c ∷ cs)))

  -- A step of the object's loop without a key.
  object_step :
      (prev : ℕ) (ps : Properties) (c : ℕ) (cs : List ℕ) (l : Lead)
      → lead c ≡ l
      → IsSound (object ps)
      → Gives (object_loop (suc n) none prev ps (c ∷ cs))
  unfolding object_loop
  object_step prev ps c cs space e h = rw (object_loop, e) (loop_o none prev ps cs h)
  object_step prev ps c cs quote e h =
      elim (Bool-cases (not (prev == b'{') && not (prev == b','))) [
        | inl p ↦ rw (object_loop, e, p) tt
        | inr p ↦
            rw (object_loop, e, p)
              (Gives-text (parse_as_string (c ∷ cs)) _
                (λ k last rest. loop_o (some k) last ps rest h))
      ]
  object_step prev ps c cs square e h = rw (object_loop, e) tt
  object_step prev ps c cs curly e h = rw (object_loop, e) tt
  object_step prev ps c cs comma e h = elim (Bool-cases (prev == b':' || prev == b',')) [
    | inl p ↦ rw (object_loop, e, p) tt
    | inr p ↦ rw (object_loop, e, p) (loop_o none c ps cs h)
  ]
  object_step prev ps c cs square_end e h = rw (object_loop, e) tt
  object_step prev ps c cs colon e h = rw (object_loop, e) tt
  object_step prev ps c cs curly_end e h = rw (object_loop, e) h
  object_step prev ps c cs other e h =
      rw (object_loop, e) (at_key (unquoted_key_with_colon (c ∷ cs)))
    where
      at_key :
          (o : Option (Option (List ℕ × List ℕ)))
          → Gives (elim o [
            | none ↦ overrun
            | some none ↦ fail object_bad_symbol
            | some (some k) ↦ object_loop n (some k.0) b':' ps k.1
          ])
      at_key none = tt
      at_key (some none) = tt
      at_key (some (some k)) = loop_o (some k.0) b':' ps k.1 h

  -- A step behind a key.
  property_step :
      (k : List ℕ) (prev : ℕ) (ps : Properties) (c : ℕ) (cs : List ℕ) (l : Lead)
      → lead c ≡ l
      → IsSound (object ps)
      → Gives (object_loop (suc n) (some k) prev ps (c ∷ cs))
  unfolding object_loop
  property_step k prev ps c cs space e h = rw (object_loop, e) (loop_o (some k) prev ps cs h)
  property_step k prev ps c cs quote e h =
      rw (object_loop, e) (object_next k ps _ h (parse_as_value-Gives (c ∷ cs)))
  property_step k prev ps c cs square e h =
      rw (object_loop, e) (object_next k ps _ h (loop_a b'[' no_elements cs tt))
  property_step k prev ps c cs curly e h =
      rw (object_loop, e) (object_next k ps _ h (loop_o none b'{' no_properties cs (tt, tt)))
  property_step k prev ps c cs comma e h = rw (object_loop, e) tt
  property_step k prev ps c cs square_end e h =
      rw (object_loop, e) (object_next k ps _ h (parse_as_scalar-Gives (c ∷ cs)))
  property_step k prev ps c cs colon e h = elim (Bool-cases (prev == b':' || prev == b',')) [
    | inl p ↦ rw (object_loop, e, p) tt
    | inr p ↦ rw (object_loop, e, p) (loop_o (some k) c ps cs h)
  ]
  property_step k prev ps c cs curly_end e h = rw (object_loop, e) tt
  property_step k prev ps c cs other e h =
      rw (object_loop, e) (object_next k ps _ h (parse_as_scalar-Gives (c ∷ cs)))

mutual
  unfolding array_loop object_loop

  array_loop-Gives :
      (n prev : ℕ) (es : Elements) (cs : List ℕ)
      → ElementsSound es
      → Gives (array_loop n prev es cs)
  array_loop-Gives zero prev es cs h = tt
  array_loop-Gives (suc n) prev es [] h = tt
  array_loop-Gives (suc n) prev es (c ∷ cs) h =
      array_step n (array_loop-Gives n) (object_loop-Gives n) prev es c cs (lead c) refl h

  object_loop-Gives :
      (n : ℕ) (name : Option (List ℕ)) (prev : ℕ) (ps : Properties) (cs : List ℕ)
      → IsSound (object ps)
      → Gives (object_loop n name prev ps cs)
  object_loop-Gives zero name prev ps cs h = tt
  object_loop-Gives (suc n) none prev ps [] h = tt
  object_loop-Gives (suc n) (some k) prev ps [] h = tt
  object_loop-Gives (suc n) none prev ps (c ∷ cs) h =
      object_step n (array_loop-Gives n) (object_loop-Gives n) prev ps c cs (lead c) refl h
  object_loop-Gives (suc n) (some k) prev ps (c ∷ cs) h =
      property_step n (array_loop-Gives n) (object_loop-Gives n) k prev ps c cs (lead c) refl h

parse_as_primitive-Gives : (c : ℕ) (cs : List ℕ) → Gives (parse_as_primitive (c ∷ cs))
unfolding parse_as_primitive
parse_as_primitive-Gives c cs = elim (Bool-cases (c == b'"')) [
  | inl p ↦ rw p (parse_as_value-Gives (c ∷ cs))
  | inr p ↦ rw p (parse_as_scalar-Gives (c ∷ cs))
]

parse-Gives : (cs : List ℕ) → Gives (parse cs)
unfolding parse
parse-Gives [] = tt
parse-Gives (c ∷ cs) = elim (Bool-cases (c == b'{')) [
  | inl p ↦ rw p (object_loop-Gives (suc (length cs)) none b'{' no_properties cs (tt, tt))
  | inr p ↦ elim (Bool-cases (c == b'[')) [
    | inl q ↦ rw (p, q) (array_loop-Gives (suc (length cs)) b'[' no_elements cs tt)
    | inr q ↦ elim (Bool-cases (is_whitespace c)) [
      | inl s ↦ rw (p, q, s) (parse-Gives cs)
      | inr s ↦ rw (p, q, s) (parse_as_primitive-Gives c cs)
    ]
  ]
]

-- No object in an element that JsonParseAll returns, on any text, has a key twice.
pub parse_all-Gives : (cs : List ℕ) → Gives (parse_all cs)
unfolding parse_all
parse_all-Gives cs = Gives-bind (parse cs) _ (parse-Gives cs) (λ j last rest h.
    elim (Bool-cases (not (last == 0) && not (all_space rest))) [
      | inl p ↦ rw p tt
      | inr p ↦ rw p h
    ])
