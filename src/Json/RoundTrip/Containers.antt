-- ===== src/Json/RoundTrip/Containers.antt =====
-- Printed arrays and objects, read back by the loops of the parser. The proofs hand on what happens
-- to the text behind an element, whatever fuel is left.
use libntech.Prelude.{
  ◌^◌, ℕ, zero, suc, ◌+◌, ◌<◌, ◌≡◌, refl, ap, ◌∙◌, true, none, some, List, [], ◌∷◌, ◌++◌, arith,
  All, length, length-append, subst,
}
use libntech.Json.{
  Json, primitive, array, object, Elements, no_elements, element, Properties, no_properties,
  property, Parsed, ok,
}
use libntech.Json.Parser.{
  ◌>>=◌, append_element, append_property, object_append_element, ends_word, array_loop, object_loop,
}
use libntech.Json.Writer.{quoted}
use libntech.Json.Progress.{Ends}
use libntech.Json.Progress.Loops.{array_loop-Ends, object_loop-Ends}
use libntech.Json.RoundTrip.Strings.{is_plain}
use libntech.Json.RoundTrip.Scalars.{may_end, Reads-primitive, length-primitive_write}
use libntech.Json.RoundTrip.Printed.{print, print_elements, print_properties}
use libntech.Json.RoundTrip.Lengths.{length-quoted, length-named, length-print}
use libntech.Json.RoundTrip.Printable.{
  IsPrintable, ElementsPrintable, PropertiesPrintable, append_elements, append_properties,
  append_elements-none, append_properties-none, IsApart, IsApart-none, IsApart-append,
  object_append_element-IsApart,
}
use libntech.Json.RoundTrip.Steps.{
  IsBlank, array_loop-blank, object_loop-blank, array_loop-Reads, object_loop-Reads,
  array_loop-close, object_loop-close, array_loop-next, object_loop-next, ends_word-comma,
  ends_word-square, ends_word-curly, opens, starts_key, object_loop-key, object_loop-square,
  object_loop-curly, array_loop-square, array_loop-curly,
}

ends_word-blank :
    (g rest : List ℕ) → IsBlank g → ends_word rest ≡ true → ends_word (g ++ rest) ≡ true
unfolding ends_word
ends_word-blank [] rest b e = e
ends_word-blank (c ∷ g) rest b e = rw (b.0) refl

-- An array that has been read leaves fewer bytes.
array_loop-length :
    (n prev : ℕ) (es : Elements) (cs : List ℕ) {j : Json} {last : ℕ} {rest : List ℕ}
    → length cs < n
    → array_loop n prev es cs ≡ ok j last rest
    → length rest < length cs
array_loop-length n prev es cs h e = subst (Ends (length cs)) e (array_loop-Ends n prev es cs h)

object_loop-length :
    (n prev : ℕ) (ps : Properties) (cs : List ℕ) {j : Json} {last : ℕ} {rest : List ℕ}
    → length cs < n
    → object_loop n none prev ps cs ≡ ok j last rest
    → length rest < length cs
object_loop-length n prev ps cs h e =
    subst (Ends (length cs)) e (object_loop-Ends n none prev ps cs h)

module _ (gap : ℕ → List ℕ) (space : List ℕ) (gap_blank : (n : ℕ) → IsBlank (gap n))
    (space_blank : IsBlank space) where
  array_loop-end :
      (n prev level : ℕ) (es : Elements) (rest : List ℕ)
      → length (gap level ++ (b']' ∷ rest)) < n
      → array_loop n prev es (gap level ++ (b']' ∷ rest)) ≡ ok (array es) b']' rest
  array_loop-end n prev level es rest h =
      array_loop-blank n prev es (gap level) (b']' ∷ rest) _ (gap_blank level) h
        (λ m l. array_loop-close m prev es rest l)

  object_loop-end :
      (n prev level : ℕ) (ps : Properties) (rest : List ℕ)
      → length (gap level ++ (b'}' ∷ rest)) < n
      → object_loop n none prev ps (gap level ++ (b'}' ∷ rest)) ≡ ok (object ps) b'}' rest
  object_loop-end n prev level ps rest h =
      object_loop-blank n none prev ps (gap level) (b'}' ∷ rest) _ (gap_blank level) h
        (λ m l. object_loop-close m prev ps rest l)

  -- The key and what is between it and its value.
  object_loop-name :
      (n prev level : ℕ) (ps : Properties) (k text : List ℕ) (r : Parsed Json)
      → starts_key prev ≡ true
      → All (λ c. is_plain c ≡ true) k
      → length (gap level ++ quoted k (b':' ∷ (space ++ text))) < n
      → ((m : ℕ) → length text < m → object_loop m (some k) b':' ps text ≡ r)
      → object_loop n none prev ps (gap level ++ quoted k (b':' ∷ (space ++ text))) ≡ r
  object_loop-name n prev level ps k text r o p h cont =
      object_loop-blank n none prev ps (gap level) _ r (gap_blank level) h key
    where
      key :
          (m : ℕ)
          → length (quoted k (b':' ∷ (space ++ text))) < m
          → object_loop m none prev ps (quoted k (b':' ∷ (space ++ text))) ≡ r
      key zero l = absurd (omega arith)
      key (suc zero) l = absurd (omega (arith, l, length-quoted k (b':' ∷ (space ++ text))))
      key (suc (suc m)) l =
          object_loop-key m prev ps k (space ++ text) o p
          ∙ object_loop-blank m (some k) b':' ps space text r space_blank
              (omega (arith, l, length-quoted k (b':' ∷ (space ++ text)))) cont

  square_ends : (level : ℕ) (rest : List ℕ) → ends_word (gap level ++ (b']' ∷ rest)) ≡ true
  square_ends level rest = ends_word-blank (gap level) _ (gap_blank level) (ends_word-square rest)

  curly_ends : (level : ℕ) (rest : List ℕ) → ends_word (gap level ++ (b'}' ∷ rest)) ≡ true
  curly_ends level rest = ends_word-blank (gap level) _ (gap_blank level) (ends_word-curly rest)

  -- The elements of an array and the bracket behind them, if the elements can be read.
  elements_read :
      (fs : Elements) (n level : ℕ) (rest : List ℕ)
      → let tail = gap level ++ (b']' ∷ rest) in
        let text = print_elements gap space (level + 1) fs tail in
        length text < n
        → ((r : Parsed Json)
            → ((m last : ℕ)
                → length tail < m
                → array_loop m last (append_elements no_elements fs) tail ≡ r)
            → array_loop n b'[' no_elements text ≡ r)
        → (array_loop n b'[' no_elements text ≡ ok (array fs) b']' rest)
          × (length rest < length text)
  elements_read fs n level rest h from =
      let read =
        from (ok (array (append_elements no_elements fs)) b']' rest)
          (λ m last l. array_loop-end m last level _ rest l) in
      (
        read ∙ ap (λ f. ok (array f) b']' rest) (append_elements-none fs),
        array_loop-length n b'[' no_elements _ h read,
      )

  -- The properties of an object and the brace behind them, if the properties can be read.
  properties_read :
      (qs : Properties) (n level : ℕ) (rest : List ℕ)
      → let tail = gap level ++ (b'}' ∷ rest) in
        let text = print_properties gap space (level + 1) qs tail in
        length text < n
        → ((r : Parsed Json)
            → ((m last : ℕ)
                → length tail < m
                → object_loop m none last (append_properties no_properties qs) tail ≡ r)
            → object_loop n none b'{' no_properties text ≡ r)
        → (object_loop n none b'{' no_properties text ≡ ok (object qs) b'}' rest)
          × (length rest < length text)
  properties_read qs n level rest h from =
      let read =
        from (ok (object (append_properties no_properties qs)) b'}' rest)
          (λ m last l. object_loop-end m last level _ rest l) in
      (
        read ∙ ap (λ f. ok (object f) b'}' rest) (append_properties-none qs),
        object_loop-length n b'{' no_properties _ h read,
      )

  mutual
    unfolding print print_elements print_properties append_elements append_properties

    array_loop-print :
        (j : Json) (n prev level : ℕ) (es : Elements) (rest : List ℕ) (r : Parsed Json)
        → IsPrintable j
        → ends_word rest ≡ true
        → opens prev ≡ true
        → length (print gap space level j rest) < n
        → length (print gap space level j rest) < 2 ^ 31
        → ((m last : ℕ)
            → length rest < m
            → may_end last ≡ true
            → array_loop m last (append_element es j) rest ≡ r)
        → array_loop n prev es (print gap space level j rest) ≡ r
    array_loop-print j zero prev level es rest r g e o h z cont = absurd (omega arith)
    array_loop-print (primitive t v) (suc n) prev level es rest r g e o h z cont =
        let (last, q, m) = array_loop-Reads n prev es (Reads-primitive t v rest g e z) in
        q ∙ cont n last (omega (arith, h, length-primitive_write t v rest g)) m
    array_loop-print (array no_elements) (suc n) prev level es rest r g e o h z cont =
        array_loop-square n prev es (b']' ∷ rest) o
        ∙ ap (λ p. p >>= λ j last more. array_loop n last (append_element es j) more)
            (array_loop-close n b'[' no_elements rest (omega (arith, h)))
        ∙ cont n b']' (omega (arith, h)) refl
    array_loop-print (array (element i fs)) (suc n) prev level es rest r g e o h z cont =
        let (read, l) = elements_read (element i fs) n level rest (omega (arith, h)) (λ d.
          elements_from-print (element i fs) n b'[' (level + 1) no_elements _ d g
            (square_ends level rest) refl (omega (arith, h)) (omega (arith, z))) in
        array_loop-square n prev es _ o
        ∙ ap (λ p. p >>= λ j last more. array_loop n last (append_element es j) more) read
        ∙ cont n b']' (omega (arith, h, l)) refl
    array_loop-print (object ps) (suc n) prev level es rest r g e o h z cont =
        let (read, l) = properties_read ps n level rest (omega (arith, h)) (λ d.
          properties_from-print ps n b'{' (level + 1) no_properties _ d g (IsApart-none ps)
            (curly_ends level rest) refl (omega (arith, h)) (omega (arith, z))) in
        array_loop-curly n prev es _ o
        ∙ ap (λ p. p >>= λ j last more. array_loop n last (append_element es j) more) read
        ∙ cont n b'}' (omega (arith, h, l)) refl

    object_loop-print :
        (j : Json) (n level : ℕ) (k : List ℕ) (ps : Properties) (rest : List ℕ) (r : Parsed Json)
        → IsPrintable j
        → ends_word rest ≡ true
        → length (print gap space level j rest) < n
        → length (print gap space level j rest) < 2 ^ 31
        → ((m last : ℕ)
            → length rest < m
            → may_end last ≡ true
            → object_loop m none last (object_append_element ps k j) rest ≡ r)
        → object_loop n (some k) b':' ps (print gap space level j rest) ≡ r
    object_loop-print j zero level k ps rest r g e h z cont = absurd (omega arith)
    object_loop-print (primitive t v) (suc n) level k ps rest r g e h z cont =
        let (last, q, m) = object_loop-Reads n b':' k ps (Reads-primitive t v rest g e z) in
        q ∙ cont n last (omega (arith, h, length-primitive_write t v rest g)) m
    object_loop-print (array no_elements) (suc n) level k ps rest r g e h z cont =
        object_loop-square n k ps (b']' ∷ rest)
        ∙ ap (λ p. p >>= λ j last more. object_loop n none last (object_append_element ps k j) more)
            (array_loop-close n b'[' no_elements rest (omega (arith, h)))
        ∙ cont n b']' (omega (arith, h)) refl
    object_loop-print (array (element i fs)) (suc n) level k ps rest r g e h z cont =
        let (read, l) = elements_read (element i fs) n level rest (omega (arith, h)) (λ d.
          elements_from-print (element i fs) n b'[' (level + 1) no_elements _ d g
            (square_ends level rest) refl (omega (arith, h)) (omega (arith, z))) in
        object_loop-square n k ps _
        ∙ ap (λ p. p >>= λ j last more. object_loop n none last (object_append_element ps k j) more)
            read
        ∙ cont n b']' (omega (arith, h, l)) refl
    object_loop-print (object qs) (suc n) level k ps rest r g e h z cont =
        let (read, l) = properties_read qs n level rest (omega (arith, h)) (λ d.
          properties_from-print qs n b'{' (level + 1) no_properties _ d g (IsApart-none qs)
            (curly_ends level rest) refl (omega (arith, h)) (omega (arith, z))) in
        object_loop-curly n k ps _
        ∙ ap (λ p. p >>= λ j last more. object_loop n none last (object_append_element ps k j) more)
            read
        ∙ cont n b'}' (omega (arith, h, l)) refl

    elements_from-print :
        (fs : Elements) (n prev level : ℕ) (es : Elements) (tail : List ℕ) (r : Parsed Json)
        → ElementsPrintable fs
        → ends_word tail ≡ true
        → opens prev ≡ true
        → length (print_elements gap space level fs tail) < n
        → length (print_elements gap space level fs tail) < 2 ^ 31
        → ((m last : ℕ) → length tail < m → array_loop m last (append_elements es fs) tail ≡ r)
        → array_loop n prev es (print_elements gap space level fs tail) ≡ r
    elements_from-print no_elements n prev level es tail r g e o h z cont = cont n prev h
    elements_from-print (element j no_elements) n prev level es tail r g e o h z cont =
        array_loop-blank n prev es (gap level) _ r (gap_blank level) h (λ m l.
          array_loop-print j m prev level es tail r g.0 e o l
            (omega (arith, z, length-append (gap level) (print gap space level j tail)))
            (λ p last q _. cont p last q))
    elements_from-print (element j (element i fs)) n prev level es tail r g e o h z cont =
        let more = print_elements gap space level (element i fs) tail in
        let one = length-append (gap level) (print gap space level j (b',' ∷ more)) in
        array_loop-blank n prev es (gap level) _ r (gap_blank level) h (λ m l.
          array_loop-print j m prev level es (b',' ∷ more) r g.0 (ends_word-comma _) o l
            (omega (arith, z, one))
            (λ p last q t. array_loop-next p last (append_element es j) _ r t q (λ d y.
              elements_from-print (element i fs) d b',' level _ tail r g.1 e refl y
                (omega (arith, z, one, length-print gap space j level (b',' ∷ more))) cont)))

    properties_from-print :
        (qs : Properties) (n prev level : ℕ) (ps : Properties) (tail : List ℕ) (r : Parsed Json)
        → PropertiesPrintable qs
        → IsApart ps qs
        → ends_word tail ≡ true
        → starts_key prev ≡ true
        → length (print_properties gap space level qs tail) < n
        → length (print_properties gap space level qs tail) < 2 ^ 31
        → ((m last : ℕ)
            → length tail < m
            → object_loop m none last (append_properties ps qs) tail ≡ r)
        → object_loop n none prev ps (print_properties gap space level qs tail) ≡ r
    properties_from-print no_properties n prev level ps tail r g a e o h z cont = cont n prev h
    properties_from-print (property k j no_properties) n prev level ps tail r g a e o h z cont =
        object_loop-name n prev level ps k _ r o g.0.0 h (λ m l.
          object_loop-print j m level k ps tail r g.1.0 e l
            (omega (arith, z, length-named gap space k (print gap space level j tail) level))
            (λ p last q _.
              ap (λ f. object_loop p none last f tail)
                (object_append_element-IsApart ps no_properties k j j a)
              ∙ cont p last q))
    properties_from-print (property k j (property l i qs)) n prev level ps tail r g a e o h z cont =
        let more = print_properties gap space level (property l i qs) tail in
        let one = length-named gap space k (print gap space level j (b',' ∷ more)) level in
        object_loop-name n prev level ps k _ r o g.0.0 h (λ m y.
          object_loop-print j m level k ps (b',' ∷ more) r g.1.0 (ends_word-comma _) y
            (omega (arith, z, one))
            (λ p last q t.
              ap (λ f. object_loop p none last f (b',' ∷ more))
                (object_append_element-IsApart ps (property l i qs) k j j a)
              ∙ object_loop-next p last (append_property ps k j) _ r t q (λ d x.
                properties_from-print (property l i qs) d b',' level _ tail r g.1.1
                  (IsApart-append ps (property l i qs) k j a.1 g.0.1) e refl x
                  (omega (arith, z, one, length-print gap space j level (b',' ∷ more))) cont)))

  -- A printed container, from behind its first byte.
  pub array-read :
      (fs : Elements) (level : ℕ) (rest : List ℕ)
      → ElementsPrintable fs
      → let text = print_elements gap space (level + 1) fs (gap level ++ (b']' ∷ rest)) in
        length text < 2 ^ 31
        → array_loop (suc (length text)) b'[' no_elements text ≡ ok (array fs) b']' rest
  array-read fs level rest g z =
      (elements_read fs _ level rest (omega arith) (λ d.
        elements_from-print fs _ b'[' (level + 1) no_elements _ d g (square_ends level rest) refl
          (omega arith) z)).0

  pub object-read :
      (qs : Properties) (level : ℕ) (rest : List ℕ)
      → PropertiesPrintable qs
      → let text = print_properties gap space (level + 1) qs (gap level ++ (b'}' ∷ rest)) in
        length text < 2 ^ 31
        → object_loop (suc (length text)) none b'{' no_properties text ≡ ok (object qs) b'}' rest
  object-read qs level rest g z =
      (properties_read qs _ level rest (omega arith) (λ d.
        properties_from-print qs _ b'{' (level + 1) no_properties _ d g (IsApart-none qs)
          (curly_ends level rest) refl (omega arith) z)).0
