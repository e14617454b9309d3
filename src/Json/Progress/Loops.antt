-- ===== src/Json/Progress/Loops.antt =====
-- The loops of JsonParseAsArray and JsonParseAsObject, and the parsers of whole texts.
use libntech.Prelude.{
  ℕ, zero, suc, ◌≤◌, ◌<◌, ◌≡◌, refl, not, ◌&&◌, ◌||◌, inl, inr, Option, none, some, List, [], ◌∷◌,
  ◌==◌, arith, Bool-cases, length,
}
use libntech.Json.{
  overrun, Json, Elements, no_elements, Properties, no_properties, Parsed, fail, object_bad_symbol,
}
use libntech.Json.Strings.{parse_as_string}
use libntech.Json.Numbers.{is_whitespace}
use libntech.Json.Parser.{
  ◌>>=◌, append_element, object_append_element, unquoted_key_with_colon, Lead, space, quote, square,
  curly, comma, colon, square_end, curly_end, other, lead, array_loop, object_loop,
  parse_as_primitive, parse, all_space, parse_all,
}
use libntech.Json.Progress.{
  Ends, Ends-bind, Ends-weaken, IsFound, parse_as_string-Ends, parse_as_value-Ends,
  parse_as_scalar-Ends, unquoted_key_with_colon-IsFound,
}

-- What the induction gives for one unit of fuel less.
module _ (n : ℕ)
    (loop_a : (prev : ℕ) (es : Elements) (cs : List ℕ)
      → length cs < n
      → Ends (length cs) (array_loop n prev es cs))
    (loop_o : (name : Option (List ℕ)) (prev : ℕ) (ps : Properties) (cs : List ℕ)
      → length cs < n
      → Ends (length cs) (object_loop n name prev ps cs)) where
  array_next :
      (es : Elements) (k : ℕ) (p : Parsed Json)
      → k ≤ n
      → Ends k p
      → Ends k (p >>= λ j last rest. array_loop n last (append_element es j) rest)
  array_next es k p h e = Ends-bind k k p _ e (λ j last rest l.
      Ends-weaken (length rest) k _ (loop_a last (append_element es j) rest (omega arith))
        (omega arith))

  object_next :
      (name : List ℕ) (ps : Properties) (k : ℕ) (p : Parsed Json)
      → k ≤ n
      → Ends k p
      → Ends k (p >>= λ j last rest. object_loop n none last (object_append_element ps name j) rest)
  object_next name ps k p h e = Ends-bind k k p _ e (λ j last rest l.
      Ends-weaken (length rest) k _
        (loop_o none last (object_append_element ps name j) rest (omega arith)) (omega arith))

  array_step :
      (prev : ℕ) (es : Elements) (c : ℕ) (cs : List ℕ) (l : Lead)
      → lead c ≡ l
      → length cs < n
      → Ends (suc (length cs)) (array_loop (suc n) prev es (c ∷ cs))
  unfolding array_loop
  array_step prev es c cs space e h =
      rw (array_loop, e) (Ends-weaken (length cs) _ _ (loop_a prev es cs h) (omega arith))
  array_step prev es c cs quote e h =
      rw (array_loop, e) (array_next es _ _ (omega arith) (parse_as_value-Ends (c ∷ cs)))
  array_step prev es c cs square e h =
      elim (Bool-cases (not (prev == b'[') && not (prev == b','))) [
        | inl p ↦ rw (array_loop, e, p) tt
        | inr p ↦
            rw (array_loop, e, p)
              (array_next es _ _ (omega arith)
                (Ends-weaken (length cs) _ _ (loop_a b'[' no_elements cs h) (omega arith)))
      ]
  array_step prev es c cs curly e h = elim (Bool-cases (not (prev == b'[') && not (prev == b','))) [
    | inl p ↦ rw (array_loop, e, p) tt
    | inr p ↦
        rw (array_loop, e, p)
          (array_next es _ _ (omega arith)
            (Ends-weaken (length cs) _ _ (loop_o none b'{' no_properties cs h) (omega arith)))
  ]
  array_step prev es c cs comma e h = elim (Bool-cases (prev == b',' || prev == b'[')) [
    | inl p ↦ rw (array_loop, e, p) tt
    | inr p ↦ rw (array_loop, e, p) (Ends-weaken (length cs) _ _ (loop_a c es cs h) (omega arith))
  ]
  array_step prev es c cs square_end e h = rw (array_loop, e) (omega arith)
  array_step prev es c cs colon e h =
      rw (array_loop, e) (array_next es _ _ (omega arith) (parse_as_scalar-Ends c cs))
  array_step prev es c cs curly_end e h =
      rw (array_loop, e) (array_next es _ _ (omega arith) (parse_as_scalar-Ends c cs))
  array_step prev es c cs other e h =
      rw (array_loop, e) (array_next es _ _ (omega arith) (parse_as_scalar-Ends c cs))

  -- A step of the object's loop without a key.
  object_step :
      (prev : ℕ) (ps : Properties) (c : ℕ) (cs : List ℕ) (l : Lead)
      → lead c ≡ l
      → length cs < n
      → Ends (suc (length cs)) (object_loop (suc n) none prev ps (c ∷ cs))
  unfolding object_loop
  object_step prev ps c cs space e h =
      rw (object_loop, e) (Ends-weaken (length cs) _ _ (loop_o none prev ps cs h) (omega arith))
  object_step prev ps c cs quote e h =
      elim (Bool-cases (not (prev == b'{') && not (prev == b','))) [
        | inl p ↦ rw (object_loop, e, p) tt
        | inr p ↦
            rw (object_loop, e, p)
              (Ends-bind (suc (length cs)) _ (parse_as_string (c ∷ cs)) _
                (parse_as_string-Ends (c ∷ cs))
                (λ k last rest l.
                  Ends-weaken (length rest) _ _ (loop_o (some k) last ps rest (omega arith))
                    (omega arith)))
      ]
  object_step prev ps c cs square e h = rw (object_loop, e) tt
  object_step prev ps c cs curly e h = rw (object_loop, e) tt
  object_step prev ps c cs comma e h = elim (Bool-cases (prev == b':' || prev == b',')) [
    | inl p ↦ rw (object_loop, e, p) tt
    | inr p ↦
        rw (object_loop, e, p) (Ends-weaken (length cs) _ _ (loop_o none c ps cs h) (omega arith))
  ]
  object_step prev ps c cs square_end e h = rw (object_loop, e) tt
  object_step prev ps c cs colon e h = rw (object_loop, e) tt
  object_step prev ps c cs curly_end e h = rw (object_loop, e) (omega arith)
  object_step prev ps c cs other e h =
      rw (object_loop, e)
        (at_key (unquoted_key_with_colon (c ∷ cs)) (unquoted_key_with_colon-IsFound c cs))
    where
      at_key :
          (o : Option (Option (List ℕ × List ℕ)))
          → IsFound (suc (length cs)) o
          → Ends (suc (length cs)) (elim o [
            | none ↦ overrun
            | some none ↦ fail object_bad_symbol
            | some (some k) ↦ object_loop n (some k.0) b':' ps k.1
          ])
      at_key none s = tt
      at_key (some none) s = tt
      at_key (some (some k)) s =
          Ends-weaken (length k.1) _ _ (loop_o (some k.0) b':' ps k.1 (omega (arith, s, h)))
            (omega (arith, s))

  -- A step behind a key.
  property_step :
      (k : List ℕ) (prev : ℕ) (ps : Properties) (c : ℕ) (cs : List ℕ) (l : Lead)
      → lead c ≡ l
      → length cs < n
      → Ends (suc (length cs)) (object_loop (suc n) (some k) prev ps (c ∷ cs))
  unfolding object_loop
  property_step k prev ps c cs space e h =
      rw (object_loop, e) (Ends-weaken (length cs) _ _ (loop_o (some k) prev ps cs h) (omega arith))
  property_step k prev ps c cs quote e h =
      rw (object_loop, e) (object_next k ps _ _ (omega arith) (parse_as_value-Ends (c ∷ cs)))
  property_step k prev ps c cs square e h =
      rw (object_loop, e)
        (object_next k ps _ _ (omega arith)
          (Ends-weaken (length cs) _ _ (loop_a b'[' no_elements cs h) (omega arith)))
  property_step k prev ps c cs curly e h =
      rw (object_loop, e)
        (object_next k ps _ _ (omega arith)
          (Ends-weaken (length cs) _ _ (loop_o none b'{' no_properties cs h) (omega arith)))
  property_step k prev ps c cs comma e h = rw (object_loop, e) tt
  property_step k prev ps c cs square_end e h =
      rw (object_loop, e) (object_next k ps _ _ (omega arith) (parse_as_scalar-Ends c cs))
  property_step k prev ps c cs colon e h = elim (Bool-cases (prev == b':' || prev == b',')) [
    | inl p ↦ rw (object_loop, e, p) tt
    | inr p ↦
        rw (object_loop, e, p)
          (Ends-weaken (length cs) _ _ (loop_o (some k) c ps cs h) (omega arith))
  ]
  property_step k prev ps c cs curly_end e h = rw (object_loop, e) tt
  property_step k prev ps c cs other e h =
      rw (object_loop, e) (object_next k ps _ _ (omega arith) (parse_as_scalar-Ends c cs))

mutual
  unfolding array_loop object_loop

  pub array_loop-Ends :
      (n prev : ℕ) (es : Elements) (cs : List ℕ)
      → length cs < n
      → Ends (length cs) (array_loop n prev es cs)
  array_loop-Ends zero prev es cs h = absurd (omega arith)
  array_loop-Ends (suc n) prev es [] h = tt
  array_loop-Ends (suc n) prev es (c ∷ cs) h =
      array_step n (array_loop-Ends n) (object_loop-Ends n) prev es c cs (lead c) refl (omega arith)

  pub object_loop-Ends :
      (n : ℕ) (name : Option (List ℕ)) (prev : ℕ) (ps : Properties) (cs : List ℕ)
      → length cs < n
      → Ends (length cs) (object_loop n name prev ps cs)
  object_loop-Ends zero name prev ps cs h = absurd (omega arith)
  object_loop-Ends (suc n) none prev ps [] h = tt
  object_loop-Ends (suc n) (some k) prev ps [] h = tt
  object_loop-Ends (suc n) none prev ps (c ∷ cs) h =
      object_step n (array_loop-Ends n) (object_loop-Ends n) prev ps c cs (lead c) refl
        (omega arith)
  object_loop-Ends (suc n) (some k) prev ps (c ∷ cs) h =
      property_step n (array_loop-Ends n) (object_loop-Ends n) k prev ps c cs (lead c) refl
        (omega arith)

parse_as_primitive-Ends :
    (c : ℕ) (cs : List ℕ) → Ends (suc (length cs)) (parse_as_primitive (c ∷ cs))
unfolding parse_as_primitive
parse_as_primitive-Ends c cs = elim (Bool-cases (c == b'"')) [
  | inl p ↦ rw p (parse_as_value-Ends (c ∷ cs))
  | inr p ↦ rw p (parse_as_scalar-Ends c cs)
]

parse-Ends : (cs : List ℕ) → Ends (length cs) (parse cs)
unfolding parse
parse-Ends [] = tt
parse-Ends (c ∷ cs) = elim (Bool-cases (c == b'{')) [
  | inl p ↦ rw p (
      Ends-weaken (length cs) _ _
        (object_loop-Ends (suc (length cs)) none b'{' no_properties cs (omega arith)) (omega arith))
  | inr p ↦ elim (Bool-cases (c == b'[')) [
    | inl q ↦
        rw (p, q)
          (Ends-weaken (length cs) _ _
            (array_loop-Ends (suc (length cs)) b'[' no_elements cs (omega arith)) (omega arith))
    | inr q ↦ elim (Bool-cases (is_whitespace c)) [
      | inl s ↦ rw (p, q, s) (Ends-weaken (length cs) _ (parse cs) (parse-Ends cs) (omega arith))
      | inr s ↦ rw (p, q, s) (parse_as_primitive-Ends c cs)
    ]
  ]
]

-- JsonParseAll does not run out of fuel.
pub parse_all-Ends : (cs : List ℕ) → Ends (length cs) (parse_all cs)
unfolding parse_all
parse_all-Ends cs = Ends-bind (length cs) (length cs) (parse cs) _ (parse-Ends cs) (λ j last rest h.
    elim (Bool-cases (not (last == 0) && not (all_space rest))) [
      | inl p ↦ rw p tt
      | inr p ↦ rw p h
    ])
