-- ===== src/Json/Progress/Safe.antt =====
-- Texts without a backslash and of fewer than 2 ^ 31 bytes, and the parsers of libutils/json.c for
-- strings, numbers, words and keys on them.
use libntech.Prelude.{
  ℕ, ◌+◌, ◌^◌, ◌≤◌, ◌<◌, ◌≡◌, ◌≢◌, Bool, true, false, not, ◌&&◌, ◌||◌, ◌⊎◌, inl, inr, Option, none,
  some, List, [], ◌∷◌, ◌++◌, if◌then◌else◌, ◌==◌, ltb, arith, Bool-cases, Option-cases, length,
  subst, All, int_rounds,
}
use libntech.Json.{ParseError, Parsed, ok, fail, overrun, out_of_fuel}
use libntech.Json.Strings.{string_loop, parse_as_string}
use libntech.Json.Numbers.{
  NumberState, initial, number_byte, number_end, number_loop, parse_as_number, is_whitespace,
  is_separator, is_digit,
}
use libntech.Json.Parser.{
  ◌>>=◌, after_bytes, after_prefix, ends_word, after_word, true_text, false_text, null_text,
  parse_as_word, parse_as_scalar, starts_number, parse_as_value, is_word_byte, unquoted_key_rest,
  key_bytes, unquoted_key_with_colon,
}

abbrev pub IsClean : List ℕ → Type 0
IsClean cs = All (λ c. c ≢ b'\\') cs × (length cs < 2 ^ 31)

pub IsClean-tail : (c : ℕ) (cs : List ℕ) → IsClean (c ∷ cs) → IsClean cs
IsClean-tail c cs h = (h.0.1, omega (arith, h.1))

-- A parser has not read behind the terminator, and leaves a clean text.
abbrev pub Safe {ℓ} : {A : Type ℓ} → Parsed A → Type 0
Safe (ok a last rest) = IsClean rest
Safe (fail e) = Unit
Safe overrun = ⊥
Safe out_of_fuel = Unit

pub Safe-bind {ℓ κ} :
    {A : Type ℓ} {B : Type κ} (p : Parsed A) (f : A → ℕ → List ℕ → Parsed B)
    → Safe p
    → ((a : A) (last : ℕ) (rest : List ℕ) → IsClean rest → Safe (f a last rest))
    → Safe (p >>= f)
Safe-bind (ok a last rest) f e h = h a last rest e
Safe-bind (fail e') f e h = tt
Safe-bind overrun f e h = e
Safe-bind out_of_fuel f e h = tt

string_loop-Safe : (cs w : List ℕ) → IsClean cs → Safe (string_loop w false cs)
unfolding string_loop
string_loop-Safe [] w h = tt
string_loop-Safe (c ∷ cs) w h = elim (Bool-cases (c == b'"')) [
  | inl p ↦ rw p (IsClean-tail c cs h)
  | inr p ↦
      let e : (c == b'\\') ≡ false = ground (arith, h.0.0) in
      rw (p, e) (string_loop-Safe cs (w ++ c ∷ []) (IsClean-tail c cs h))
]

pub parse_as_string-Safe : (cs : List ℕ) → IsClean cs → Safe (parse_as_string cs)
unfolding parse_as_string
parse_as_string-Safe [] h = tt
parse_as_string-Safe (c ∷ cs) h = elim (Bool-cases (c == b'"')) [
  | inl p ↦ rw p (string_loop-Safe cs [] (IsClean-tail c cs h))
  | inr p ↦ rw p tt
]

pub parse_as_value-Safe : (cs : List ℕ) → IsClean cs → Safe (parse_as_value cs)
unfolding parse_as_value
parse_as_value-Safe cs h =
    Safe-bind (parse_as_string cs) _ (parse_as_string-Safe cs h) (λ s last rest c. c)

number_end-Safe : (s : NumberState) (cs : List ℕ) → IsClean cs → Safe (number_end s cs)
unfolding number_end
number_end-Safe s cs h =
    elim (Bool-cases (not (s.prev_char == b'0') && not (is_digit s.prev_char))) [
      | inl p ↦ rw p tt
      | inr p ↦ rw p h
    ]

number_byte-Safe :
    (o : ParseError ⊎ NumberState) (cs : List ℕ)
    → ((t : NumberState) → Safe (number_loop t cs))
    → Safe (elim o [ inl e ↦ fail e | inr t ↦ number_loop t cs ])
number_byte-Safe (inl e) cs h = tt
number_byte-Safe (inr t) cs h = h t

number_loop-Safe : (cs : List ℕ) (s : NumberState) → IsClean cs → Safe (number_loop s cs)
unfolding number_loop
number_loop-Safe [] s h = number_end-Safe s [] h
number_loop-Safe (c ∷ cs) s h = elim (Bool-cases (is_separator c)) [
  | inl p ↦ rw p (number_end-Safe s (c ∷ cs) h)
  | inr p ↦
      rw p
        (number_byte-Safe (number_byte s c) cs (λ t. number_loop-Safe cs t (IsClean-tail c cs h)))
]

-- The text behind a word, if there is one, is clean.
abbrev IsRest : Option (List ℕ) → Type 0
IsRest none = Unit
IsRest (some rest) = IsClean rest

after_bytes-IsRest : (w cs : List ℕ) → IsClean cs → IsRest (after_bytes w cs)
unfolding after_bytes
after_bytes-IsRest [] cs h = h
after_bytes-IsRest (p ∷ w) [] h = tt
after_bytes-IsRest (p ∷ w) (c ∷ cs) h = elim (Bool-cases (p == c)) [
  | inl e ↦ rw e (after_bytes-IsRest w cs (IsClean-tail c cs h))
  | inr e ↦ rw e tt
]

if-IsRest : (b : Bool) (o : Option (List ℕ)) → IsRest o → IsRest (if b then none else o)
if-IsRest true o h = tt
if-IsRest false o h = h

ends-IsRest :
    (o : Option (List ℕ))
    → IsRest o
    → IsRest (elim o [ none ↦ none | some rest ↦ if ends_word rest then some rest else none ])
ends-IsRest none h = tt
ends-IsRest (some rest) h = elim (Bool-cases (ends_word rest)) [ inl e ↦ rw e h | inr e ↦ rw e tt ]

after_word-IsRest : (w cs : List ℕ) → IsClean cs → IsRest (after_word w cs)
unfolding after_word after_prefix
after_word-IsRest w cs h = ends-IsRest (after_prefix w cs) (
    if-IsRest (ltb (int_rounds (length cs)) (length w)) (after_bytes w cs)
      (after_bytes-IsRest w cs h))

parse_as_word-Safe : (cs : List ℕ) → IsClean cs → Safe (parse_as_word cs)
unfolding parse_as_word
parse_as_word-Safe cs h = elim (Option-cases (after_word true_text cs)) [
  | inr (r, p) ↦ rw (parse_as_word, p) (subst IsRest p (after_word-IsRest true_text cs h))
  | inl p ↦ elim (Option-cases (after_word false_text cs)) [
    | inr (r, q) ↦ rw (parse_as_word, p, q) (subst IsRest q (after_word-IsRest false_text cs h))
    | inl q ↦ elim (Option-cases (after_word null_text cs)) [
      | inr (r, z) ↦ rw (parse_as_word, p, q, z) (subst IsRest z (after_word-IsRest null_text cs h))
      | inl z ↦ rw (parse_as_word, p, q, z) tt
    ]
  ]
]

pub parse_as_scalar-Safe : (cs : List ℕ) → IsClean cs → Safe (parse_as_scalar cs)
unfolding parse_as_scalar parse_as_number
parse_as_scalar-Safe cs h = elim (Bool-cases (starts_number cs)) [
  | inl p ↦ rw p (number_loop-Safe cs initial h)
  | inr p ↦ rw p (parse_as_word-Safe cs h)
]

-- The text behind a key, if there is one, is clean.
abbrev IsKey : Option (List ℕ × List ℕ) → Type 0
IsKey none = Unit
IsKey (some k) = IsClean k.1

-- The search for a key has come to an end.
abbrev pub IsSearched : Option (Option (List ℕ × List ℕ)) → Type 0
IsSearched none = ⊥
IsSearched (some o) = IsKey o

IsKey-cons :
    (c : ℕ) (o : Option (List ℕ × List ℕ))
    → IsKey o
    → IsKey (elim o [ none ↦ none | some r ↦ some (c ∷ r.0, r.1) ])
IsKey-cons c none h = tt
IsKey-cons c (some r) h = h

unquoted_key_rest-IsKey :
    (cs : List ℕ) (over : Bool) → IsClean cs → IsKey (unquoted_key_rest over cs)
unfolding unquoted_key_rest
unquoted_key_rest-IsKey [] over h = tt
unquoted_key_rest-IsKey (c ∷ cs) over h =
    let rest = unquoted_key_rest (over || is_whitespace c) cs in
    let k = unquoted_key_rest-IsKey cs (over || is_whitespace c) (IsClean-tail c cs h) in
    elim (Bool-cases (not over && (c == b'-' || is_word_byte c))) [
      | inl p ↦ rw p (IsKey-cons c rest k)
      | inr p ↦ elim (Bool-cases (is_whitespace c)) [
        | inl q ↦ rw (p, q) (unquoted_key_rest-IsKey cs (over || true) (IsClean-tail c cs h))
        | inr q ↦ elim (Bool-cases (c == b':')) [
          | inl z ↦ rw (p, q, z) (IsClean-tail c cs h)
          | inr z ↦ rw (p, q, z) tt
        ]
      ]
    ]

key_bytes-length : (cs : List ℕ) (over : Bool) → key_bytes over cs ≤ length cs
unfolding key_bytes
key_bytes-length [] over = omega arith
key_bytes-length (c ∷ cs) over = ground (arith, key_bytes-length cs (over || is_whitespace c))

pub unquoted_key_with_colon-IsSearched :
    (c : ℕ) (cs : List ℕ) → IsClean (c ∷ cs) → IsSearched (unquoted_key_with_colon (c ∷ cs))
unfolding unquoted_key_with_colon
unquoted_key_with_colon-IsSearched c cs h = elim (Bool-cases (is_word_byte c)) [
  | inl p ↦
      let q : ltb (key_bytes false cs + 1) (2 ^ 31) ≡ true =
        ground (arith, key_bytes-length cs false, h.1) in
      rw (p, q)
        (IsKey-cons c (unquoted_key_rest false cs)
          (unquoted_key_rest-IsKey cs false (IsClean-tail c cs h)))
  | inr p ↦ rw p tt
]
