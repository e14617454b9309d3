-- ===== src/Json/RoundTrip/Documents.antt =====
-- What JsonParseAll makes of the texts that JsonWriteCompact and JsonWrite write.
use libntech.Prelude.{
  ◌^◌, ◌<◌, int_rounds, append_assoc, length-append, false, none, ◌==◌, if◌then◌else◌, ℕ, zero, suc,
  ◌*◌, ◌≡◌, refl, ap, sym, ◌∙◌, true, List, [], ◌∷◌, ◌++◌, arith, length, replicate,
}
use libntech.Json.{no_properties, Json, primitive, array, object, no_elements, element, ok}
use libntech.Json.Parser.{
  array_loop, object_loop, ends_word, other, lead, parse_as_scalar, parse_as_value,
  parse_as_primitive, parse, all_space, parse_all,
}
use libntech.Json.Numbers.{is_whitespace}
use libntech.Json.Writer.{primitive_write, write_at, write_compact, write_behind}
use libntech.Json.RoundTrip.Scalars.{Reads, as_string, as_scalar, Reads-primitive}
use libntech.Json.RoundTrip.Printed.{
  print, no_gap, line, blank, print-write_compact, print-write_behind,
}
use libntech.Json.RoundTrip.Printable.{IsPrintable}
use libntech.Json.RoundTrip.Steps.{IsBlank, array_loop-close}
use libntech.Json.RoundTrip.Containers.{array-read, object-read}

parse-lead : (c : ℕ) (cs : List ℕ) → lead c ≡ other → parse (c ∷ cs) ≡ parse_as_scalar (c ∷ cs)
unfolding parse parse_as_primitive lead
parse-lead c cs h = ground arith

parse-Reads :
    {j : Json} {text rest : List ℕ} → Reads j text rest → (last : ℕ) × (parse text ≡ ok j last rest)
parse-Reads (as_string t e h) =
    (b'"', ap parse e ∙ (unfold parse parse_as_primitive in sym (ap parse_as_value e) ∙ h))
parse-Reads (as_scalar c cs last e l h m) =
    (last, ap parse e ∙ parse-lead c cs l ∙ sym (ap parse_as_scalar e) ∙ h)

module _ (gap : ℕ → List ℕ) (space : List ℕ) (gap_blank : (n : ℕ) → IsBlank (gap n))
    (space_blank : IsBlank space) where
  parse-print :
      (j : Json) (level : ℕ) (rest : List ℕ)
      → IsPrintable j
      → ends_word rest ≡ true
      → length (print gap space level j rest) < 2 ^ 31
      → (last : ℕ) × (parse (print gap space level j rest) ≡ ok j last rest)
  unfolding print
  parse-print (primitive t v) level rest g e z = parse-Reads (Reads-primitive t v rest g e z)
  parse-print (array no_elements) level rest g e z = (
    b']',
    unfold parse in
        array_loop-close (suc (length (b']' ∷ rest))) b'[' no_elements rest (omega arith),
  )
  parse-print (array (element i fs)) level rest g e z = (
    b']',
    unfold parse in
        array-read gap space gap_blank space_blank (element i fs) level rest g (omega (arith, z)),
  )
  parse-print (object qs) level rest g e z = (
    b'}',
    unfold parse in object-read gap space gap_blank space_blank qs level rest g (omega (arith, z)),
  )

all_space-IsBlank : (cs : List ℕ) → IsBlank cs → all_space cs ≡ true
unfolding all_space
all_space-IsBlank [] b = refl
all_space-IsBlank (c ∷ cs) b = ground (arith, b.0, all_space-IsBlank cs b.1)

ends_word-IsBlank : (cs : List ℕ) → IsBlank cs → ends_word cs ≡ true
unfolding ends_word
ends_word-IsBlank [] b = refl
ends_word-IsBlank (c ∷ cs) b = rw (b.0) refl

parse_all-parse :
    (cs rest : List ℕ) {j : Json} {last : ℕ}
    → parse cs ≡ ok j last rest
    → IsBlank rest
    → parse_all cs ≡ ok j last rest
unfolding parse_all
parse_all-parse cs rest h b = rw h (rw (all_space-IsBlank rest b) (ground arith))

replicate-IsBlank : (n : ℕ) → IsBlank (replicate n b' ')
replicate-IsBlank zero = tt
replicate-IsBlank (suc n) = (refl, replicate-IsBlank n)

parse-write_compact :
    (j : Json) (rest : List ℕ)
    → IsPrintable j
    → IsBlank rest
    → length (write_compact j ++ rest) < 2 ^ 31
    → (last : ℕ) × (parse (write_compact j ++ rest) ≡ ok j last rest)
parse-write_compact j rest g b z =
    let same = print-write_compact 0 j rest in
    let (last, h) =
      parse-print no_gap [] (λ n. tt) tt j 0 rest g (ends_word-IsBlank rest b)
        (omega (arith, z, ap (length {A = ℕ}) same)) in
    (last, ap parse (sym same) ∙ h)

parse-write_behind :
    (level : ℕ) (j : Json) (rest : List ℕ)
    → IsPrintable j
    → IsBlank rest
    → length (write_behind level j ++ rest) < 2 ^ 31
    → (last : ℕ) × (parse (write_behind level j ++ rest) ≡ ok j last rest)
parse-write_behind level j rest g b z =
    let same = print-write_behind level j rest in
    let (last, h) =
      parse-print line blank (λ n. (refl, replicate-IsBlank (int_rounds (n * 2)))) (refl, tt) j
        level rest g (ends_word-IsBlank rest b) (omega (arith, z, ap (length {A = ℕ}) same)) in
    (last, ap parse (sym same) ∙ h)

parse-blanks : (g text : List ℕ) → IsBlank g → parse (g ++ text) ≡ parse text
unfolding parse
parse-blanks [] text b = refl
parse-blanks (c ∷ g) text b =
    let p : (c == b'{') ≡ false = ground (arith, b.0) in
    let q : (c == b'[') ≡ false = ground (arith, b.0) in
    let w : is_whitespace c ≡ true = b.0 in
    ap
      (λ t.
        if t
        then object_loop (suc (length (g ++ text))) none b'{' no_properties (g ++ text)
        else if c == b'['
        then array_loop (suc (length (g ++ text))) b'[' no_elements (g ++ text)
        else if is_whitespace c
        then parse (g ++ text)
        else parse_as_primitive (c ∷ (g ++ text)))
      p
    ∙ ap
        (λ t.
          if t
          then array_loop (suc (length (g ++ text))) b'[' no_elements (g ++ text)
          else if is_whitespace c
          then parse (g ++ text)
          else parse_as_primitive (c ∷ (g ++ text)))
        q
    ∙ ap (λ t. if t then parse (g ++ text) else parse_as_primitive (c ∷ (g ++ text))) w
    ∙ parse-blanks g text b.1

-- The blanks of JsonWrite in front of a primitive are passed.
parse-write_at :
    (level : ℕ) (j : Json) (rest : List ℕ)
    → IsPrintable j
    → IsBlank rest
    → length (write_at level j ++ rest) < 2 ^ 31
    → (last : ℕ) × (parse (write_at level j ++ rest) ≡ ok j last rest)
unfolding write_at write_behind
parse-write_at level (array es) rest g b z = parse-write_behind level (array es) rest g b z
parse-write_at level (object ps) rest g b z = parse-write_behind level (object ps) rest g b z
parse-write_at level (primitive t v) rest g b z =
    let g' = replicate (int_rounds (level * 2)) b' ' in
    let apart = append_assoc g' (primitive_write t v) rest in
    let (last, h) = parse-write_behind level (primitive t v) rest g b (
      omega (
        arith,
        z,
        ap (length {A = ℕ}) apart,
        length-append {0} g' (primitive_write t v ++ rest),
      )) in
    (
      last,
      ap parse apart
          ∙ parse-blanks g' (primitive_write t v ++ rest)
              (replicate-IsBlank (int_rounds (level * 2)))
          ∙ h,
    )

pub parse_all-write_compact :
    (j : Json) (rest : List ℕ)
    → IsPrintable j
    → IsBlank rest
    → length (write_compact j ++ rest) < 2 ^ 31
    → (last : ℕ) × (parse_all (write_compact j ++ rest) ≡ ok j last rest)
parse_all-write_compact j rest g b z =
    let (last, h) = parse-write_compact j rest g b z in (last, parse_all-parse _ rest h b)

pub parse_all-write_at :
    (level : ℕ) (j : Json) (rest : List ℕ)
    → IsPrintable j
    → IsBlank rest
    → length (write_at level j ++ rest) < 2 ^ 31
    → (last : ℕ) × (parse_all (write_at level j ++ rest) ≡ ok j last rest)
parse_all-write_at level j rest g b z =
    let (last, h) = parse-write_at level j rest g b z in (last, parse_all-parse _ rest h b)
