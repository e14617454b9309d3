-- ===== src/Json/Progress.antt =====
-- The parsers of libutils/json.c end, and use at least one byte where they succeed.
pub mod Loops
pub mod Safe
pub mod Stops
use libntech.Prelude.{
  ◌^◌, ltb, int_rounds, ℕ, zero, suc, ◌+◌, ◌≤◌, ◌<◌, ◌≡◌, refl, ap, sym, ◌∙◌, Bool, true, false,
  not, ◌&&◌, ◌||◌, ◌⊎◌, inl, inr, Option, none, some, List, [], ◌∷◌, ◌++◌, if◌then◌else◌, ◌==◌,
  arith, Bool-cases, Option-cases, length, subst,
}
use libntech.Json.{
  Json, Elements, no_elements, Properties, no_properties, ParseError, Parsed, ok, fail, overrun,
  out_of_fuel,
}
use libntech.Json.Strings.{unescape, string_loop, parse_as_string}
use libntech.Json.Numbers.{
  NumberState, initial, number_byte, number_end, number_loop, parse_as_number, is_whitespace,
  is_separator, is_digit,
}
use libntech.Json.Parser.{
  key_bytes, after_bytes, ◌>>=◌, after_prefix, ends_word, after_word, true_text, false_text,
  null_text, parse_as_word, parse_as_scalar, starts_number, parse_as_value, is_word_byte,
  unquoted_key_rest, unquoted_key_with_colon,
}

-- A parser has ended, and if it succeeded fewer than `k` bytes are left.
abbrev pub Ends {ℓ} : {A : Type ℓ} → ℕ → Parsed A → Type 0
Ends k (ok a last rest) = length rest < k
Ends k (fail e) = Unit
Ends k overrun = Unit
Ends k out_of_fuel = ⊥

pub Ends-bind {ℓ κ} :
    {A : Type ℓ} {B : Type κ} (k l : ℕ) (p : Parsed A) (f : A → ℕ → List ℕ → Parsed B)
    → Ends k p
    → ((a : A) (last : ℕ) (rest : List ℕ) → length rest < k → Ends l (f a last rest))
    → Ends l (p >>= f)
Ends-bind k l (ok a last rest) f e h = h a last rest e
Ends-bind k l (fail e') f e h = tt
Ends-bind k l overrun f e h = tt
Ends-bind k l out_of_fuel f e h = e

pub Ends-weaken {ℓ} : {A : Type ℓ} (k l : ℕ) (p : Parsed A) → Ends k p → k ≤ l → Ends l p
Ends-weaken k l (ok a last rest) e h = omega (arith, e, h)
Ends-weaken k l (fail e') e h = tt
Ends-weaken k l overrun e h = tt
Ends-weaken k l out_of_fuel e h = e

string_loop-Ends : (cs w : List ℕ) (b : Bool) → Ends (length cs) (string_loop w b cs)
unfolding string_loop
string_loop-Ends [] w false = tt
string_loop-Ends [] w true = tt
string_loop-Ends (c ∷ cs) w true =
    Ends-weaken (length cs) _ _ (string_loop-Ends cs (w ++ unescape c) false) (omega arith)
string_loop-Ends (c ∷ cs) w false = elim (Bool-cases (c == b'"')) [
  | inl p ↦ rw p (omega arith)
  | inr p ↦
      let next = if c == b'\\' then w else w ++ c ∷ [] in
      rw p (
        Ends-weaken (length cs) _ (string_loop next (c == b'\\') cs)
          (string_loop-Ends cs next (c == b'\\')) (omega arith))
]

pub parse_as_string-Ends : (cs : List ℕ) → Ends (length cs) (parse_as_string cs)
unfolding parse_as_string
parse_as_string-Ends [] = tt
parse_as_string-Ends (c ∷ cs) = elim (Bool-cases (c == b'"')) [
  | inl p ↦ rw p (
      Ends-weaken (length cs) _ (string_loop [] false cs) (string_loop-Ends cs [] false)
        (omega arith))
  | inr p ↦ rw p tt
]

pub parse_as_value-Ends : (cs : List ℕ) → Ends (length cs) (parse_as_value cs)
unfolding parse_as_value
parse_as_value-Ends cs =
    Ends-bind (length cs) (length cs) (parse_as_string cs) _ (parse_as_string-Ends cs)
      (λ s last rest h. h)

number_end-Ends : (s : NumberState) (cs : List ℕ) → Ends (suc (length cs)) (number_end s cs)
unfolding number_end
number_end-Ends s cs = elim (Bool-cases (not (s.prev_char == b'0') && not (is_digit s.prev_char))) [
  | inl p ↦ rw p tt
  | inr p ↦ rw p (omega arith)
]

number_byte-Ends :
    (o : ParseError ⊎ NumberState) (cs : List ℕ)
    → ((t : NumberState) → Ends (suc (length cs)) (number_loop t cs))
    → Ends (suc (length cs)) (elim o [ inl e ↦ fail e | inr t ↦ number_loop t cs ])
number_byte-Ends (inl e) cs h = tt
number_byte-Ends (inr t) cs h = h t

number_loop-Ends : (cs : List ℕ) (s : NumberState) → Ends (suc (length cs)) (number_loop s cs)
unfolding number_loop
number_loop-Ends [] s = number_end-Ends s []
number_loop-Ends (c ∷ cs) s = elim (Bool-cases (is_separator c)) [
  | inl p ↦ rw p (number_end-Ends s (c ∷ cs))
  | inr p ↦ rw p (
      Ends-weaken (suc (length cs)) _
        (elim (number_byte s c) [ inl e ↦ fail e | inr t ↦ number_loop t cs ])
        (number_byte-Ends (number_byte s c) cs (number_loop-Ends cs)) (omega arith))
]

parse_as_number-Ends :
    (c : ℕ) (cs : List ℕ)
    → starts_number (c ∷ cs) ≡ true
    → Ends (suc (length cs)) (parse_as_number (c ∷ cs))
unfolding parse_as_number number_loop
parse_as_number-Ends c cs h =
    let p : is_separator c ≡ false = ground arith in
    rw p (number_byte-Ends (number_byte initial c) cs (number_loop-Ends cs))

after_bytes-length :
    (w cs : List ℕ) {rest : List ℕ}
    → after_bytes w cs ≡ some rest
    → length w + length rest ≡ length cs
unfolding after_bytes
after_bytes-length [] cs h = ground arith
after_bytes-length (p ∷ w) [] h = ground arith
after_bytes-length (p ∷ w) (c ∷ cs) h = elim (Bool-cases (p == c)) [
  | inl e ↦ omega (arith, after_bytes-length w cs (sym (rw e refl) ∙ h))
  | inr e ↦ absurd (ground arith)
]

after_prefix-bytes :
    (w cs : List ℕ) {rest : List ℕ} → after_prefix w cs ≡ some rest → after_bytes w cs ≡ some rest
unfolding after_prefix
after_prefix-bytes w cs h = elim (Bool-cases (ltb (int_rounds (length cs)) (length w))) [
  | inl p ↦
      let refused : after_prefix w cs ≡ none = ap (λ b. if b then none else after_bytes w cs) p in
      absurd (ground (arith, refused, h))
  | inr p ↦ sym (ap (λ b. if b then none else after_bytes w cs) p) ∙ h
]

after_prefix-length :
    (w cs : List ℕ) {rest : List ℕ}
    → after_prefix w cs ≡ some rest
    → length w + length rest ≡ length cs
after_prefix-length w cs h = after_bytes-length w cs (after_prefix-bytes w cs h)

after_word-length :
    (w cs : List ℕ) {rest : List ℕ}
    → after_word w cs ≡ some rest
    → length w + length rest ≡ length cs
unfolding after_word
after_word-length w cs h = elim (Option-cases (after_prefix w cs)) [
  | inl p ↦ absurd (ground arith)
  | inr (r, p) ↦ elim (Bool-cases (ends_word r)) [
    | inl e ↦
        let same : some r ≡ some _ = sym (rw (after_word, p, e) refl) ∙ h in
        omega (arith, after_prefix-length w cs (p ∙ same))
    | inr e ↦ absurd (ground arith)
  ]
]

parse_as_word-Ends : (cs : List ℕ) → Ends (length cs) (parse_as_word cs)
unfolding parse_as_word
parse_as_word-Ends cs = elim (Option-cases (after_word true_text cs)) [
  | inr (r, p) ↦ rw (parse_as_word, p) (omega (arith, after_word-length true_text cs p))
  | inl p ↦ elim (Option-cases (after_word false_text cs)) [
    | inr (r, q) ↦ rw (parse_as_word, p, q) (omega (arith, after_word-length false_text cs q))
    | inl q ↦ elim (Option-cases (after_word null_text cs)) [
      | inr (r, z) ↦ rw (parse_as_word, p, q, z) (omega (arith, after_word-length null_text cs z))
      | inl z ↦ rw (parse_as_word, p, q, z) tt
    ]
  ]
]

pub parse_as_scalar-Ends : (c : ℕ) (cs : List ℕ) → Ends (suc (length cs)) (parse_as_scalar (c ∷ cs))
unfolding parse_as_scalar
parse_as_scalar-Ends c cs = elim (Bool-cases (starts_number (c ∷ cs))) [
  | inl p ↦ rw p (parse_as_number-Ends c cs p)
  | inr p ↦ rw p (parse_as_word-Ends (c ∷ cs))
]

-- Fewer than `k` bytes are left behind a key.
abbrev pub IsShort : ℕ → Option (List ℕ × List ℕ) → Type 0
IsShort k none = Unit
IsShort k (some r) = length r.1 < k

-- Fewer than `k` bytes are left behind a key that has been found, if its search has come to an end.
abbrev pub IsFound : ℕ → Option (Option (List ℕ × List ℕ)) → Type 0
IsFound k none = Unit
IsFound k (some o) = IsShort k o

IsShort-cons :
    (c k : ℕ) (o : Option (List ℕ × List ℕ))
    → IsShort k o
    → IsShort (suc k) (elim o [ none ↦ none | some r ↦ some (c ∷ r.0, r.1) ])
IsShort-cons c k none h = tt
IsShort-cons c k (some r) h = omega (arith, h)

IsShort-weaken : (k : ℕ) (o : Option (List ℕ × List ℕ)) → IsShort k o → IsShort (suc k) o
IsShort-weaken k none h = tt
IsShort-weaken k (some r) h = omega (arith, h)

unquoted_key_rest-IsShort :
    (cs : List ℕ) (over : Bool) → IsShort (length cs) (unquoted_key_rest over cs)
unfolding unquoted_key_rest
unquoted_key_rest-IsShort [] over = tt
unquoted_key_rest-IsShort (c ∷ cs) over =
    let rest = unquoted_key_rest (over || is_whitespace c) cs in
    let h = unquoted_key_rest-IsShort cs (over || is_whitespace c) in
    elim (Bool-cases (not over && (c == b'-' || is_word_byte c))) [
      | inl p ↦ rw p (IsShort-cons c (length cs) rest h)
      | inr p ↦ elim (Bool-cases (is_whitespace c)) [
        | inl q ↦
            rw (p, q)
              (IsShort-weaken (length cs) (unquoted_key_rest (over || true) cs)
                (unquoted_key_rest-IsShort cs (over || true)))
        | inr q ↦ elim (Bool-cases (c == b':')) [
          | inl z ↦ rw (p, q, z) (omega arith)
          | inr z ↦ rw (p, q, z) tt
        ]
      ]
    ]

pub unquoted_key_with_colon-IsFound :
    (c : ℕ) (cs : List ℕ) → IsFound (suc (length cs)) (unquoted_key_with_colon (c ∷ cs))
unfolding unquoted_key_with_colon
unquoted_key_with_colon-IsFound c cs = elim (Bool-cases (is_word_byte c)) [
  | inl p ↦ elim (Bool-cases (ltb (key_bytes false cs + 1) (2 ^ 31))) [
    | inl q ↦ rw (p, q) (IsShort-cons c (length cs) _ (unquoted_key_rest-IsShort cs false))
    | inr q ↦ rw (p, q) tt
  ]
  | inr p ↦ rw p tt
]
