-- ===== src/Json/RoundTrip/Lengths.antt =====
-- What is printed in front of a text makes it no shorter.
use libntech.Prelude.{ℕ, ◌+◌, ◌≤◌, List, ◌∷◌, ◌++◌, arith, length, length-append}
use libntech.Json.{
  Json, primitive, array, object, Elements, no_elements, element, Properties, no_properties,
  property,
}
use libntech.Json.Strings.{encode_string}
use libntech.Json.Writer.{quoted, primitive_write}
use libntech.Json.RoundTrip.Printed.{print, print_elements, print_properties}

pub length-quoted : (k rest : List ℕ) → length rest + 2 ≤ length (quoted k rest)
unfolding quoted
length-quoted k rest = omega (arith, length-append (encode_string k) (b'"' ∷ rest))

module _ (gap : ℕ → List ℕ) (space : List ℕ) where
  -- A key with its value, or with what else is printed behind its colon.
  pub length-named :
      (k text : List ℕ) (level : ℕ)
      → length text ≤ length (gap level ++ quoted k (b':' ∷ (space ++ text)))
  length-named k text level = omega (
    arith,
    length-append (gap level) (quoted k (b':' ∷ (space ++ text))),
    length-quoted k (b':' ∷ (space ++ text)),
    length-append space text,
  )

  mutual
    unfolding print print_elements print_properties

    pub length-print :
        (j : Json) (level : ℕ) (rest : List ℕ) → length rest ≤ length (print gap space level j rest)
    length-print (primitive t v) level rest =
        omega (arith, length-append (primitive_write t v) rest)
    length-print (array no_elements) level rest = omega arith
    length-print (array (element j es)) level rest = omega (
      arith,
      length-print_elements (element j es) (level + 1) (gap level ++ (b']' ∷ rest)),
      length-append (gap level) (b']' ∷ rest),
    )
    length-print (object ps) level rest = omega (
      arith,
      length-print_properties ps (level + 1) (gap level ++ (b'}' ∷ rest)),
      length-append (gap level) (b'}' ∷ rest),
    )

    pub length-print_elements :
        (es : Elements) (level : ℕ) (rest : List ℕ)
        → length rest ≤ length (print_elements gap space level es rest)
    length-print_elements no_elements level rest = omega arith
    length-print_elements (element j no_elements) level rest =
        omega (
          arith,
          length-append (gap level) (print gap space level j rest),
          length-print j level rest,
        )
    length-print_elements (element j (element i es)) level rest =
        let more = print_elements gap space level (element i es) rest in
        omega (
          arith,
          length-append (gap level) (print gap space level j (b',' ∷ more)),
          length-print j level (b',' ∷ more),
          length-print_elements (element i es) level rest,
        )

    pub length-print_properties :
        (ps : Properties) (level : ℕ) (rest : List ℕ)
        → length rest ≤ length (print_properties gap space level ps rest)
    length-print_properties no_properties level rest = omega arith
    length-print_properties (property k j no_properties) level rest =
        omega
          (arith, length-named k (print gap space level j rest) level, length-print j level rest)
    length-print_properties (property k j (property l i ps)) level rest =
        let more = print_properties gap space level (property l i ps) rest in
        omega (
          arith,
          length-named k (print gap space level j (b',' ∷ more)) level,
          length-print j level (b',' ∷ more),
          length-print_properties (property l i ps) level rest,
        )
