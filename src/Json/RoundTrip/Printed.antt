-- ===== src/Json/RoundTrip/Printed.antt =====
-- Both printers of libutils/json.c as one: they write the same bytes, up to the blanks around them.
use libntech.Prelude.{
  int_rounds, ℕ, ◌+◌, ◌*◌, ◌≡◌, refl, ap, sym, ◌∙◌, List, [], ◌∷◌, ◌++◌, append_assoc, replicate,
}
use libntech.Json.{
  Json, primitive, array, object, Elements, no_elements, element, Properties, no_properties,
  property,
}
use libntech.Json.Strings.{encode_string}
use libntech.Json.Writer.{
  quoted, primitive_write, write_compact, elements_compact, properties_compact, indent,
  write_behind, elements_write, properties_write,
}

-- An element printed at a level in front of `rest`: `gap n` stands in front of what begins a line
-- at level `n`, `space` behind a colon.
module _ (gap : ℕ → List ℕ) (space : List ℕ) where
  unfoldable mutual
    pub print : ℕ → Json → List ℕ → List ℕ
    print n (primitive t v) rest = primitive_write t v ++ rest
    print n (array no_elements) rest = b'[' ∷ b']' ∷ rest
    print n (array (element j es)) rest =
        b'[' ∷ print_elements (n + 1) (element j es) (gap n ++ (b']' ∷ rest))
    print n (object ps) rest = b'{' ∷ print_properties (n + 1) ps (gap n ++ (b'}' ∷ rest))

    pub print_elements : ℕ → Elements → List ℕ → List ℕ
    print_elements n no_elements rest = rest
    print_elements n (element j no_elements) rest = gap n ++ print n j rest
    print_elements n (element j (element i es)) rest =
        gap n ++ print n j (b',' ∷ print_elements n (element i es) rest)

    pub print_properties : ℕ → Properties → List ℕ → List ℕ
    print_properties n no_properties rest = rest
    print_properties n (property k j no_properties) rest =
        gap n ++ quoted k (b':' ∷ (space ++ print n j rest))
    print_properties n (property k j (property l i ps)) rest =
        gap n
        ++ quoted k (b':' ∷ (space ++ print n j (b',' ∷ print_properties n (property l i ps) rest)))

pub quoted-append : (k t rest : List ℕ) → quoted k t ++ rest ≡ quoted k (t ++ rest)
unfolding quoted
quoted-append k t rest = ap (λ l. b'"' ∷ l) (append_assoc (encode_string k) (b'"' ∷ t) rest)

abbrev pub no_gap : ℕ → List ℕ
no_gap n = []

-- JsonWriteCompact prints without blanks.
mutual
  unfolding print print_elements print_properties write_compact elements_compact properties_compact

  write_compact-print :
      (n : ℕ) (j : Json) (rest : List ℕ) → write_compact j ++ rest ≡ print no_gap [] n j rest
  write_compact-print n (primitive t v) rest = refl
  write_compact-print n (array no_elements) rest = refl
  write_compact-print n (array (element j es)) rest =
      ap (λ l. b'[' ∷ l)
        (append_assoc (elements_compact (element j es)) (b']' ∷ []) rest
          ∙ elements_compact-print (n + 1) (element j es) (b']' ∷ rest))
  write_compact-print n (object ps) rest =
      ap (λ l. b'{' ∷ l)
        (append_assoc (properties_compact ps) (b'}' ∷ []) rest
          ∙ properties_compact-print (n + 1) ps (b'}' ∷ rest))

  elements_compact-print :
      (n : ℕ) (es : Elements) (rest : List ℕ)
      → elements_compact es ++ rest ≡ print_elements no_gap [] n es rest
  elements_compact-print n no_elements rest = refl
  elements_compact-print n (element j no_elements) rest = write_compact-print n j rest
  elements_compact-print n (element j (element i es)) rest =
      append_assoc (write_compact j) (b',' ∷ elements_compact (element i es)) rest
      ∙ write_compact-print n j _
      ∙ ap (λ l. print no_gap [] n j (b',' ∷ l)) (elements_compact-print n (element i es) rest)

  properties_compact-print :
      (n : ℕ) (ps : Properties) (rest : List ℕ)
      → properties_compact ps ++ rest ≡ print_properties no_gap [] n ps rest
  properties_compact-print n no_properties rest = refl
  properties_compact-print n (property k j no_properties) rest =
      quoted-append k (b':' ∷ write_compact j) rest
      ∙ ap (λ l. quoted k (b':' ∷ l)) (write_compact-print n j rest)
  properties_compact-print n (property k j (property l i ps)) rest =
      quoted-append k (b':' ∷ (write_compact j ++ (b',' ∷ properties_compact (property l i ps))))
        rest
      ∙ ap (λ l. quoted k (b':' ∷ l))
          (append_assoc (write_compact j) (b',' ∷ properties_compact (property l i ps)) rest
            ∙ write_compact-print n j _
            ∙ ap (λ t. print no_gap [] n j (b',' ∷ t))
                (properties_compact-print n (property l i ps) rest))

abbrev pub line : ℕ → List ℕ
line n = 10 ∷ replicate (int_rounds (n * 2)) b' '

abbrev pub blank : List ℕ
blank = b' ' ∷ []

indent-append : (n : ℕ) (t rest : List ℕ) → indent n t ++ rest ≡ indent n (t ++ rest)
indent-append n t rest = append_assoc (replicate (int_rounds (n * 2)) b' ') t rest

-- JsonWrite prints each line at its level.
mutual
  unfolding print print_elements print_properties write_behind elements_write properties_write

  write_behind-print :
      (n : ℕ) (j : Json) (rest : List ℕ) → write_behind n j ++ rest ≡ print line blank n j rest
  write_behind-print n (primitive t v) rest = refl
  write_behind-print n (array no_elements) rest = refl
  write_behind-print n (array (element j es)) rest =
      ap (λ l. b'[' ∷ 10 ∷ l)
        (append_assoc (elements_write (n + 1) (element j es)) (indent n (b']' ∷ [])) rest
          ∙ ap (λ l. elements_write (n + 1) (element j es) ++ l) (indent-append n (b']' ∷ []) rest))
      ∙ ap (λ l. b'[' ∷ l) (elements_write-print (n + 1) (element j es) (indent n (b']' ∷ rest)))
  write_behind-print n (object ps) rest =
      ap (λ l. b'{' ∷ 10 ∷ l)
        (append_assoc (properties_write (n + 1) ps) (indent n (b'}' ∷ [])) rest
          ∙ ap (λ l. properties_write (n + 1) ps ++ l) (indent-append n (b'}' ∷ []) rest))
      ∙ ap (λ l. b'{' ∷ l) (properties_write-print (n + 1) ps (indent n (b'}' ∷ rest)))

  elements_write-print :
      (n : ℕ) (es : Elements) (rest : List ℕ)
      → 10 ∷ (elements_write n es ++ rest) ≡ print_elements line blank n es (10 ∷ rest)
  elements_write-print n no_elements rest = refl
  elements_write-print n (element j no_elements) rest =
      ap (λ l. 10 ∷ l)
        (indent-append n (write_behind n j ++ 10 ∷ []) rest
          ∙ ap (indent n)
              (append_assoc (write_behind n j) (10 ∷ []) rest ∙ write_behind-print n j _))
  elements_write-print n (element j (element i es)) rest =
      ap (λ l. 10 ∷ l)
        (indent-append n (write_behind n j ++ (b',' ∷ 10 ∷ elements_write n (element i es))) rest
          ∙ ap (indent n) (
              append_assoc (write_behind n j) (b',' ∷ 10 ∷ elements_write n (element i es)) rest
              ∙ write_behind-print n j _
              ∙ ap (λ l. print line blank n j (b',' ∷ l))
                  (elements_write-print n (element i es) rest)))

  properties_write-print :
      (n : ℕ) (ps : Properties) (rest : List ℕ)
      → 10 ∷ (properties_write n ps ++ rest) ≡ print_properties line blank n ps (10 ∷ rest)
  properties_write-print n no_properties rest = refl
  properties_write-print n (property k j no_properties) rest =
      ap (λ l. 10 ∷ l)
        (indent-append n (quoted k (b':' ∷ b' ' ∷ (write_behind n j ++ 10 ∷ []))) rest
          ∙ ap (indent n) (
              quoted-append k (b':' ∷ b' ' ∷ (write_behind n j ++ 10 ∷ [])) rest
              ∙ ap (λ l. quoted k (b':' ∷ b' ' ∷ l))
                  (append_assoc (write_behind n j) (10 ∷ []) rest ∙ write_behind-print n j _)))
  properties_write-print n (property k j (property l i ps)) rest =
      let more = b',' ∷ 10 ∷ properties_write n (property l i ps) in
      ap (λ t. 10 ∷ t)
        (indent-append n (quoted k (b':' ∷ b' ' ∷ (write_behind n j ++ more))) rest
          ∙ ap (indent n) (
              quoted-append k (b':' ∷ b' ' ∷ (write_behind n j ++ more)) rest
              ∙ ap (λ t. quoted k (b':' ∷ b' ' ∷ t))
                  (append_assoc (write_behind n j) more rest
                    ∙ write_behind-print n j _
                    ∙ ap (λ t. print line blank n j (b',' ∷ t))
                        (properties_write-print n (property l i ps) rest))))

pub print-write_compact :
    (n : ℕ) (j : Json) (rest : List ℕ) → print no_gap [] n j rest ≡ write_compact j ++ rest
print-write_compact n j rest = sym (write_compact-print n j rest)

pub print-write_behind :
    (n : ℕ) (j : Json) (rest : List ℕ) → print line blank n j rest ≡ write_behind n j ++ rest
print-write_behind n j rest = sym (write_behind-print n j rest)
