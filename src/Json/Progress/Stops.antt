-- ===== src/Json/Progress/Stops.antt =====
-- What JsonParseAll comes to on any text, by the loops of JsonParseAsArray and JsonParseAsObject on
-- clean texts.
use libntech.Prelude.{
  Bool, true, false, All, ◌≢◌, ◌<◌, ◌^◌, leb, arith, ℕ, zero, suc, ◌≡◌, refl, not, ◌&&◌, ◌||◌, inl,
  inr, Option, none, some, List, [], ◌∷◌, ◌==◌, Bool-cases, length,
}
use libntech.Json.{
  ok, out_of_fuel, overrun, Json, Elements, no_elements, Properties, no_properties, Parsed, fail,
  object_bad_symbol,
}
use libntech.Json.Strings.{parse_as_string}
use libntech.Json.Numbers.{is_whitespace}
use libntech.Json.Parser.{
  ◌>>=◌, append_element, object_append_element, unquoted_key_with_colon, Lead, space, quote, square,
  curly, comma, colon, square_end, curly_end, other, lead, array_loop, object_loop,
  parse_as_primitive, parse, all_space, parse_all,
}
use libntech.Json.Progress.{Ends}
use libntech.Json.Progress.Loops.{parse_all-Ends}
use libntech.Json.Progress.Safe.{
  IsClean, IsClean-tail, Safe, Safe-bind, IsSearched, parse_as_string-Safe, parse_as_value-Safe,
  parse_as_scalar-Safe, unquoted_key_with_colon-IsSearched,
}

-- What the induction gives for one unit of fuel less.
module _ (n : ℕ)
    (loop_a : (prev : ℕ) (es : Elements) (cs : List ℕ)
      → IsClean cs
      → Safe (array_loop n prev es cs))
    (loop_o : (name : Option (List ℕ)) (prev : ℕ) (ps : Properties) (cs : List ℕ)
      → IsClean cs
      → Safe (object_loop n name prev ps cs)) where
  array_next :
      (es : Elements) (p : Parsed Json)
      → Safe p
      → Safe (p >>= λ j last rest. array_loop n last (append_element es j) rest)
  array_next es p e = Safe-bind p _ e (λ j last rest h. loop_a last (append_element es j) rest h)

  object_next :
      (name : List ℕ) (ps : Properties) (p : Parsed Json)
      → Safe p
      → Safe (p >>= λ j last rest. object_loop n none last (object_append_element ps name j) rest)
  object_next name ps p e =
      Safe-bind p _ e (λ j last rest h. loop_o none last (object_append_element ps name j) rest h)

  array_step :
      (prev : ℕ) (es : Elements) (c : ℕ) (cs : List ℕ) (l : Lead)
      → lead c ≡ l
      → IsClean (c ∷ cs)
      → Safe (array_loop (suc n) prev es (c ∷ cs))
  unfolding array_loop
  array_step prev es c cs space e h = rw (array_loop, e) (loop_a prev es cs (IsClean-tail c cs h))
  array_step prev es c cs quote e h =
      rw (array_loop, e) (array_next es _ (parse_as_value-Safe (c ∷ cs) h))
  array_step prev es c cs square e h =
      elim (Bool-cases (not (prev == b'[') && not (prev == b','))) [
        | inl p ↦ rw (array_loop, e, p) tt
        | inr p ↦
            rw (array_loop, e, p)
              (array_next es _ (loop_a b'[' no_elements cs (IsClean-tail c cs h)))
      ]
  array_step prev es c cs curly e h = elim (Bool-cases (not (prev == b'[') && not (prev == b','))) [
    | inl p ↦ rw (array_loop, e, p) tt
    | inr p ↦
        rw (array_loop, e, p)
          (array_next es _ (loop_o none b'{' no_properties cs (IsClean-tail c cs h)))
  ]
  array_step prev es c cs comma e h = elim (Bool-cases (prev == b',' || prev == b'[')) [
    | inl p ↦ rw (array_loop, e, p) tt
    | inr p ↦ rw (array_loop, e, p) (loop_a c es cs (IsClean-tail c cs h))
  ]
  array_step prev es c cs square_end e h = rw (array_loop, e) (IsClean-tail c cs h)
  array_step prev es c cs colon e h =
      rw (array_loop, e) (array_next es _ (parse_as_scalar-Safe (c ∷ cs) h))
  array_step prev es c cs curly_end e h =
      rw (array_loop, e) (array_next es _ (parse_as_scalar-Safe (c ∷ cs) h))
  array_step prev es c cs other e h =
      rw (array_loop, e) (array_next es _ (parse_as_scalar-Safe (c ∷ cs) h))

  -- A step of the object's loop without a key.
  object_step :
      (prev : ℕ) (ps : Properties) (c : ℕ) (cs : List ℕ) (l : Lead)
      → lead c ≡ l
      → IsClean (c ∷ cs)
      → Safe (object_loop (suc n) none prev ps (c ∷ cs))
  unfolding object_loop
  object_step prev ps c cs space e h =
      rw (object_loop, e) (loop_o none prev ps cs (IsClean-tail c cs h))
  object_step prev ps c cs quote e h =
      elim (Bool-cases (not (prev == b'{') && not (prev == b','))) [
        | inl p ↦ rw (object_loop, e, p) tt
        | inr p ↦
            rw (object_loop, e, p)
              (Safe-bind (parse_as_string (c ∷ cs)) _ (parse_as_string-Safe (c ∷ cs) h)
                (λ k last rest g. loop_o (some k) last ps rest g))
      ]
  object_step prev ps c cs square e h = rw (object_loop, e) tt
  object_step prev ps c cs curly e h = rw (object_loop, e) tt
  object_step prev ps c cs comma e h = elim (Bool-cases (prev == b':' || prev == b',')) [
    | inl p ↦ rw (object_loop, e, p) tt
    | inr p ↦ rw (object_loop, e, p) (loop_o none c ps cs (IsClean-tail c cs h))
  ]
  object_step prev ps c cs square_end e h = rw (object_loop, e) tt
  object_step prev ps c cs colon e h = rw (object_loop, e) tt
  object_step prev ps c cs curly_end e h = rw (object_loop, e) (IsClean-tail c cs h)
  object_step prev ps c cs other e h =
      rw (object_loop, e)
        (at_key (unquoted_key_with_colon (c ∷ cs)) (unquoted_key_with_colon-IsSearched c cs h))
    where
      at_key :
          (o : Option (Option (List ℕ × List ℕ)))
          → IsSearched o
          → Safe (elim o [
            | none ↦ overrun
            | some none ↦ fail object_bad_symbol
            | some (some k) ↦ object_loop n (some k.0) b':' ps k.1
          ])
      at_key none s = s
      at_key (some none) s = tt
      at_key (some (some k)) s = loop_o (some k.0) b':' ps k.1 s

  -- A step behind a key.
  property_step :
      (k : List ℕ) (prev : ℕ) (ps : Properties) (c : ℕ) (cs : List ℕ) (l : Lead)
      → lead c ≡ l
      → IsClean (c ∷ cs)
      → Safe (object_loop (suc n) (some k) prev ps (c ∷ cs))
  unfolding object_loop
  property_step k prev ps c cs space e h =
      rw (object_loop, e) (loop_o (some k) prev ps cs (IsClean-tail c cs h))
  property_step k prev ps c cs quote e h =
      rw (object_loop, e) (object_next k ps _ (parse_as_value-Safe (c ∷ cs) h))
  property_step k prev ps c cs square e h =
      rw (object_loop, e) (object_next k ps _ (loop_a b'[' no_elements cs (IsClean-tail c cs h)))
  property_step k prev ps c cs curly e h =
      rw (object_loop, e)
        (object_next k ps _ (loop_o none b'{' no_properties cs (IsClean-tail c cs h)))
  property_step k prev ps c cs comma e h = rw (object_loop, e) tt
  property_step k prev ps c cs square_end e h =
      rw (object_loop, e) (object_next k ps _ (parse_as_scalar-Safe (c ∷ cs) h))
  property_step k prev ps c cs colon e h = elim (Bool-cases (prev == b':' || prev == b',')) [
    | inl p ↦ rw (object_loop, e, p) tt
    | inr p ↦ rw (object_loop, e, p) (loop_o (some k) c ps cs (IsClean-tail c cs h))
  ]
  property_step k prev ps c cs curly_end e h = rw (object_loop, e) tt
  property_step k prev ps c cs other e h =
      rw (object_loop, e) (object_next k ps _ (parse_as_scalar-Safe (c ∷ cs) h))

mutual
  unfolding array_loop object_loop

  array_loop-Safe :
      (n prev : ℕ) (es : Elements) (cs : List ℕ) → IsClean cs → Safe (array_loop n prev es cs)
  array_loop-Safe zero prev es cs h = tt
  array_loop-Safe (suc n) prev es [] h = tt
  array_loop-Safe (suc n) prev es (c ∷ cs) h =
      array_step n (array_loop-Safe n) (object_loop-Safe n) prev es c cs (lead c) refl h

  object_loop-Safe :
      (n : ℕ) (name : Option (List ℕ)) (prev : ℕ) (ps : Properties) (cs : List ℕ)
      → IsClean cs
      → Safe (object_loop n name prev ps cs)
  object_loop-Safe zero name prev ps cs h = tt
  object_loop-Safe (suc n) none prev ps [] h = tt
  object_loop-Safe (suc n) (some k) prev ps [] h = tt
  object_loop-Safe (suc n) none prev ps (c ∷ cs) h =
      object_step n (array_loop-Safe n) (object_loop-Safe n) prev ps c cs (lead c) refl h
  object_loop-Safe (suc n) (some k) prev ps (c ∷ cs) h =
      property_step n (array_loop-Safe n) (object_loop-Safe n) k prev ps c cs (lead c) refl h

parse_as_primitive-Safe :
    (c : ℕ) (cs : List ℕ) → IsClean (c ∷ cs) → Safe (parse_as_primitive (c ∷ cs))
unfolding parse_as_primitive
parse_as_primitive-Safe c cs h = elim (Bool-cases (c == b'"')) [
  | inl p ↦ rw p (parse_as_value-Safe (c ∷ cs) h)
  | inr p ↦ rw p (parse_as_scalar-Safe (c ∷ cs) h)
]

parse-Safe : (cs : List ℕ) → IsClean cs → Safe (parse cs)
unfolding parse
parse-Safe [] h = tt
parse-Safe (c ∷ cs) h = elim (Bool-cases (c == b'{')) [
  | inl p ↦
      rw p (object_loop-Safe (suc (length cs)) none b'{' no_properties cs (IsClean-tail c cs h))
  | inr p ↦ elim (Bool-cases (c == b'[')) [
    | inl q ↦
        rw (p, q) (array_loop-Safe (suc (length cs)) b'[' no_elements cs (IsClean-tail c cs h))
    | inr q ↦ elim (Bool-cases (is_whitespace c)) [
      | inl s ↦ rw (p, q, s) (parse-Safe cs (IsClean-tail c cs h))
      | inr s ↦ rw (p, q, s) (parse_as_primitive-Safe c cs h)
    ]
  ]
]

parse_all-Safe : (cs : List ℕ) → IsClean cs → Safe (parse_all cs)
unfolding parse_all
parse_all-Safe cs h = Safe-bind (parse cs) _ (parse-Safe cs h) (λ j last rest g.
    elim (Bool-cases (not (last == 0) && not (all_space rest))) [
      | inl p ↦ rw p tt
      | inr p ↦ rw p g
    ])

abbrev pub has_backslash : List ℕ → Bool
has_backslash [] = false
has_backslash (c ∷ cs) = c == b'\\' || has_backslash cs

-- How JsonParseAll may stop on a text: only a text with a backslash or of 2 ^ 31 bytes or more may
-- take it behind the terminator.
abbrev pub Stops : List ℕ → Parsed Json → Type 0
Stops cs (ok j last rest) = length rest < length cs
Stops cs (fail e) = Unit
Stops cs overrun = (has_backslash cs || leb (2 ^ 31) (length cs)) ≡ true
Stops cs out_of_fuel = ⊥

no_backslash : (cs : List ℕ) → has_backslash cs ≡ false → All (λ c. c ≢ b'\\') cs
no_backslash [] h = tt
no_backslash (c ∷ cs) h =
    let p : (c == b'\\') ≡ false = ground (arith, h) in
    let q : has_backslash cs ≡ false = ground (arith, h) in (ground (arith, p), no_backslash cs q)

-- An outcome that ends, on a text that may take the parser behind the terminator or not.
Stops-risky :
    (cs : List ℕ) (p : Parsed Json)
    → (has_backslash cs || leb (2 ^ 31) (length cs)) ≡ true
    → Ends (length cs) p
    → Stops cs p
Stops-risky cs (ok j last rest) r e = e
Stops-risky cs (fail f) r e = tt
Stops-risky cs overrun r e = r
Stops-risky cs out_of_fuel r e = e

Stops-clean : (cs : List ℕ) (p : Parsed Json) → Safe p → Ends (length cs) p → Stops cs p
Stops-clean cs (ok j last rest) s e = e
Stops-clean cs (fail f) s e = tt
Stops-clean cs overrun s e = absurd s
Stops-clean cs out_of_fuel s e = e

-- JsonParseAll on any text does not run out of fuel, which is one unit for each byte of a container
-- and one more: it ends with an error, or with an element and at least one byte used, or, only on a
-- text with a backslash or of 2 ^ 31 bytes or more, it reads behind the terminator.
pub parse_all-Stops : (cs : List ℕ) → Stops cs (parse_all cs)
parse_all-Stops cs =
    let ends = parse_all-Ends cs in
    elim (Bool-cases (has_backslash cs || leb (2 ^ 31) (length cs))) [
      | inl r ↦ Stops-risky cs (parse_all cs) r ends
      | inr r ↦
          let q : has_backslash cs ≡ false = ground (arith, r) in
          Stops-clean cs (parse_all cs) (parse_all-Safe cs (no_backslash cs q, ground (arith, r)))
            ends
    ]
