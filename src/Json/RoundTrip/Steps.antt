-- ===== src/Json/RoundTrip/Steps.antt =====
-- Single steps of the two loops of the parser, on what the printers write.
use libntech.Prelude.{
  ℕ, zero, suc, ◌<◌, ◌≡◌, refl, ap, sym, ◌∙◌, Bool, true, false, not, ◌&&◌, ◌||◌, Option, none,
  some, List, [], ◌∷◌, ◌++◌, ◌==◌, arith, All, length,
}
use libntech.Json.{
  Json, array, object, Elements, no_elements, Properties, no_properties, Parsed, ok,
}
use libntech.Json.Strings.{parse_as_string}
use libntech.Json.Numbers.{is_whitespace}
use libntech.Json.Parser.{
  ◌>>=◌, append_element, object_append_element, ends_word, parse_as_scalar, parse_as_value, space,
  lead, array_loop, object_loop,
}
use libntech.Json.Writer.{quoted}
use libntech.Json.RoundTrip.Strings.{is_plain, parse_as_string-quoted}
use libntech.Json.RoundTrip.Scalars.{may_end, Reads, as_string, as_scalar}

lead-space : (c : ℕ) → is_whitespace c ≡ true → lead c ≡ space
unfolding lead
lead-space c h = rw h refl

abbrev pub IsBlank : List ℕ → Type 0
IsBlank = All (λ c. is_whitespace c ≡ true)

-- Blanks are passed.
pub array_loop-blank :
    (n prev : ℕ) (es : Elements) (g rest : List ℕ) (r : Parsed Json)
    → IsBlank g
    → length (g ++ rest) < n
    → ((m : ℕ) → length rest < m → array_loop m prev es rest ≡ r)
    → array_loop n prev es (g ++ rest) ≡ r
array_loop-blank n prev es [] rest r b h k = k n h
array_loop-blank zero prev es (c ∷ g) rest r b h k = absurd (omega arith)
array_loop-blank (suc n) prev es (c ∷ g) rest r b h k =
    step ∙ array_loop-blank n prev es g rest r b.1 (omega (arith, h)) k
  where
    step : array_loop (suc n) prev es (c ∷ (g ++ rest)) ≡ array_loop n prev es (g ++ rest)
    step = unfold array_loop in rw (array_loop, lead-space c b.0) refl

pub object_loop-blank :
    (n : ℕ) (name : Option (List ℕ)) (prev : ℕ) (ps : Properties) (g rest : List ℕ)
    (r : Parsed Json)
    → IsBlank g
    → length (g ++ rest) < n
    → ((m : ℕ) → length rest < m → object_loop m name prev ps rest ≡ r)
    → object_loop n name prev ps (g ++ rest) ≡ r
object_loop-blank n name prev ps [] rest r b h k = k n h
object_loop-blank zero name prev ps (c ∷ g) rest r b h k = absurd (omega arith)
object_loop-blank (suc n) none prev ps (c ∷ g) rest r b h k =
    step ∙ object_loop-blank n none prev ps g rest r b.1 (omega (arith, h)) k
  where
    step :
        object_loop (suc n) none prev ps (c ∷ (g ++ rest)) ≡ object_loop n none prev ps (g ++ rest)
    step = unfold object_loop in rw (object_loop, lead-space c b.0) refl
object_loop-blank (suc n) (some name) prev ps (c ∷ g) rest r b h k =
    step ∙ object_loop-blank n (some name) prev ps g rest r b.1 (omega (arith, h)) k
  where
    step :
        object_loop (suc n) (some name) prev ps (c ∷ (g ++ rest))
        ≡ object_loop n (some name) prev ps (g ++ rest)
    step = unfold object_loop in rw (object_loop, lead-space c b.0) refl

-- A primitive in an array, and behind a key.
pub array_loop-Reads :
    (n prev : ℕ) (es : Elements) {j : Json} {text rest : List ℕ}
    → Reads j text rest
    → (last : ℕ) × (array_loop (suc n) prev es text ≡ array_loop n last (append_element es j) rest)
      × (may_end last ≡ true)
array_loop-Reads n prev es (as_string t e h) =
    (b'"', rw e (unfold array_loop lead in rw (sym (ap parse_as_value e) ∙ h) refl), refl)
array_loop-Reads n prev es (as_scalar c cs last e l h m) =
    (last, rw e (unfold array_loop in rw (array_loop, l, sym (ap parse_as_scalar e) ∙ h) refl), m)

pub object_loop-Reads :
    (n prev : ℕ) (k : List ℕ) (ps : Properties) {j : Json} {text rest : List ℕ}
    → Reads j text rest
    → (last : ℕ) × (object_loop (suc n) (some k) prev ps text
        ≡ object_loop n none last (object_append_element ps k j) rest)
      × (may_end last ≡ true)
object_loop-Reads n prev k ps (as_string t e h) =
    (b'"', rw e (unfold object_loop lead in rw (sym (ap parse_as_value e) ∙ h) refl), refl)
object_loop-Reads n prev k ps (as_scalar c cs last e l h m) =
    (last, rw e (unfold object_loop in rw (object_loop, l, sym (ap parse_as_scalar e) ∙ h) refl), m)

pub array_loop-close :
    (n prev : ℕ) (es : Elements) (rest : List ℕ)
    → length (b']' ∷ rest) < n
    → array_loop n prev es (b']' ∷ rest) ≡ ok (array es) b']' rest
unfolding array_loop lead
array_loop-close zero prev es rest h = absurd (omega arith)
array_loop-close (suc n) prev es rest h = refl

pub object_loop-close :
    (n prev : ℕ) (ps : Properties) (rest : List ℕ)
    → length (b'}' ∷ rest) < n
    → object_loop n none prev ps (b'}' ∷ rest) ≡ ok (object ps) b'}' rest
unfolding object_loop lead
object_loop-close zero prev ps rest h = absurd (omega arith)
object_loop-close (suc n) prev ps rest h = refl

array_loop-comma :
    (n prev : ℕ) (es : Elements) (rest : List ℕ)
    → may_end prev ≡ true
    → array_loop (suc n) prev es (b',' ∷ rest) ≡ array_loop n b',' es rest
unfolding array_loop lead
array_loop-comma n prev es rest h =
    let p : (prev == b',' || prev == b'[') ≡ false = ground arith in rw p refl

object_loop-comma :
    (n prev : ℕ) (ps : Properties) (rest : List ℕ)
    → may_end prev ≡ true
    → object_loop (suc n) none prev ps (b',' ∷ rest) ≡ object_loop n none b',' ps rest
unfolding object_loop lead
object_loop-comma n prev ps rest h =
    let p : (prev == b':' || prev == b',') ≡ false = ground arith in rw p refl

pub array_loop-next :
    (n prev : ℕ) (es : Elements) (rest : List ℕ) (r : Parsed Json)
    → may_end prev ≡ true
    → length (b',' ∷ rest) < n
    → ((m : ℕ) → length rest < m → array_loop m b',' es rest ≡ r)
    → array_loop n prev es (b',' ∷ rest) ≡ r
array_loop-next zero prev es rest r e h cont = absurd (omega arith)
array_loop-next (suc n) prev es rest r e h cont =
    array_loop-comma n prev es rest e ∙ cont n (omega (arith, h))

pub object_loop-next :
    (n prev : ℕ) (ps : Properties) (rest : List ℕ) (r : Parsed Json)
    → may_end prev ≡ true
    → length (b',' ∷ rest) < n
    → ((m : ℕ) → length rest < m → object_loop m none b',' ps rest ≡ r)
    → object_loop n none prev ps (b',' ∷ rest) ≡ r
object_loop-next zero prev ps rest r e h cont = absurd (omega arith)
object_loop-next (suc n) prev ps rest r e h cont =
    object_loop-comma n prev ps rest e ∙ cont n (omega (arith, h))

-- A container may open in an array here, and a key may start in an object.
abbrev pub opens : ℕ → Bool
opens c = not (not (c == b'[') && not (c == b','))

abbrev pub starts_key : ℕ → Bool
starts_key c = not (not (c == b'{') && not (c == b','))

object_loop-quote :
    (n prev : ℕ) (ps : Properties) (k rest : List ℕ)
    → starts_key prev ≡ true
    → object_loop (suc n) none prev ps (quoted k rest)
      ≡ (parse_as_string (quoted k rest) >>= λ l last more. object_loop n (some l) last ps more)
unfolding object_loop lead quoted
object_loop-quote n prev ps k rest h =
    let p : (not (prev == b'{') && not (prev == b',')) ≡ false = ground arith in rw p refl

object_loop-colon :
    (n : ℕ) (ps : Properties) (k rest : List ℕ)
    → object_loop (suc n) (some k) b'"' ps (b':' ∷ rest) ≡ object_loop n (some k) b':' ps rest
unfolding object_loop lead
object_loop-colon n ps k rest = refl

pub object_loop-key :
    (n prev : ℕ) (ps : Properties) (k rest : List ℕ)
    → starts_key prev ≡ true
    → All (λ c. is_plain c ≡ true) k
    → object_loop (suc (suc n)) none prev ps (quoted k (b':' ∷ rest))
      ≡ object_loop n (some k) b':' ps rest
object_loop-key n prev ps k rest h p =
    object_loop-quote (suc n) prev ps k (b':' ∷ rest) h
    ∙ ap (λ q. q >>= λ l last more. object_loop (suc n) (some l) last ps more)
        (parse_as_string-quoted k (b':' ∷ rest) p)
    ∙ object_loop-colon n ps k rest

pub object_loop-square :
    (n : ℕ) (k : List ℕ) (ps : Properties) (rest : List ℕ)
    → object_loop (suc n) (some k) b':' ps (b'[' ∷ rest) ≡ (
        array_loop n b'[' no_elements rest >>= λ j last more.
        object_loop n none last (object_append_element ps k j) more)
unfolding object_loop lead
object_loop-square n k ps rest = refl

pub object_loop-curly :
    (n : ℕ) (k : List ℕ) (ps : Properties) (rest : List ℕ)
    → object_loop (suc n) (some k) b':' ps (b'{' ∷ rest) ≡ (
        object_loop n none b'{' no_properties rest >>= λ j last more.
        object_loop n none last (object_append_element ps k j) more)
unfolding object_loop lead
object_loop-curly n k ps rest = refl

pub array_loop-square :
    (n prev : ℕ) (es : Elements) (rest : List ℕ)
    → opens prev ≡ true
    → array_loop (suc n) prev es (b'[' ∷ rest) ≡ (
        array_loop n b'[' no_elements rest >>= λ j last more.
        array_loop n last (append_element es j) more)
unfolding array_loop lead
array_loop-square n prev es rest h =
    let p : (not (prev == b'[') && not (prev == b',')) ≡ false = ground arith in rw p refl

pub array_loop-curly :
    (n prev : ℕ) (es : Elements) (rest : List ℕ)
    → opens prev ≡ true
    → array_loop (suc n) prev es (b'{' ∷ rest) ≡ (
        object_loop n none b'{' no_properties rest >>= λ j last more.
        array_loop n last (append_element es j) more)
unfolding array_loop lead
array_loop-curly n prev es rest h =
    let p : (not (prev == b'[') && not (prev == b',')) ≡ false = ground arith in rw p refl

pub ends_word-comma : (rest : List ℕ) → ends_word (b',' ∷ rest) ≡ true
unfolding ends_word
ends_word-comma rest = refl

pub ends_word-square : (rest : List ℕ) → ends_word (b']' ∷ rest) ≡ true
unfolding ends_word
ends_word-square rest = refl

pub ends_word-curly : (rest : List ℕ) → ends_word (b'}' ∷ rest) ≡ true
unfolding ends_word
ends_word-curly rest = refl
