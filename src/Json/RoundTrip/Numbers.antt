-- ===== src/Json/RoundTrip/Numbers.antt =====
-- A number in front of a separator, and what JsonParseAsNumber accepts.
use libntech.Prelude.{
  ℕ, ◌≡◌, ◌≢◌, refl, sym, ◌∙◌, Bool, true, false, ◌||◌, ◌⊎◌, inl, inr, List, [], ◌∷◌, ◌++◌, ◌==◌,
  arith, Bool-cases,
}
use libntech.Json.{Json, ParseError, Parsed, ok, fail, overrun, out_of_fuel}
use libntech.Json.Numbers.{
  is_separator, is_digit, NumberState, initial, number_byte, number_end, number_loop,
  parse_as_number,
}
use libntech.Json.Parser.{ends_word, starts_number}

-- The byte that a number ends with.
abbrev pub is_last : ℕ → Bool
is_last c = c == b'0' || is_digit c

abbrev rest_of {ℓ} : {A : Type ℓ} → Parsed A → List ℕ
rest_of (ok a last rest) = rest
rest_of (fail e) = []
rest_of overrun = []
rest_of out_of_fuel = []

number_end-ok :
    (s : NumberState) (rest : List ℕ) {j : Json} {last : ℕ}
    → number_end s [] ≡ ok j last []
    → (number_end s rest ≡ ok j last rest) × (is_last last ≡ true)
unfolding number_end
number_end-ok s rest h = ground arith

fail-ne-ok : {e : ParseError} {j : Json} {last : ℕ} {rest : List ℕ} → fail e ≢ ok j last rest
fail-ne-ok h = ground arith

number_end-rest :
    (s : NumberState) (c : ℕ) (cs : List ℕ) {j : Json} {last : ℕ}
    → number_end s (c ∷ cs) ≢ ok j last []
unfolding number_end
number_end-rest s c cs h = ground arith

step-cases :
    (o : ParseError ⊎ NumberState)
    → ((e : ParseError) × (o ≡ inl e)) ⊎ ((t : NumberState) × (o ≡ inr t))
step-cases (inl e) = inl (e, refl)
step-cases (inr t) = inr (t, refl)

module _ (s : NumberState) (c : ℕ) (cs : List ℕ) (p : is_separator c ≡ false) where
  number_loop-fail : (e : ParseError) → number_byte s c ≡ inl e → number_loop s (c ∷ cs) ≡ fail e
  unfolding number_loop
  number_loop-fail e b = rw p (rw b refl)

  pub number_loop-next :
      (t : NumberState) → number_byte s c ≡ inr t → number_loop s (c ∷ cs) ≡ number_loop t cs
  unfolding number_loop
  number_loop-next t b = rw p (rw b refl)

number_loop-append :
    (s : NumberState) (v rest : List ℕ) {j : Json} {last : ℕ}
    → number_loop s v ≡ ok j last []
    → ends_word rest ≡ true
    → (number_loop s (v ++ rest) ≡ ok j last rest) × (is_last last ≡ true)
unfolding number_loop ends_word
number_loop-append s [] [] h e = number_end-ok s [] h
number_loop-append s [] (c ∷ cs) h e = rw e (number_end-ok s (c ∷ cs) h)
number_loop-append s (c ∷ v) rest h e = elim (Bool-cases (is_separator c)) [
  | inl p ↦ absurd (number_end-rest s c v (sym (rw p refl) ∙ h))
  | inr p ↦ elim (step-cases (number_byte s c)) [
    | inl (x, b) ↦ absurd (fail-ne-ok (sym (number_loop-fail s c v p x b) ∙ h))
    | inr (t, b) ↦
        let (q, l) = number_loop-append t v rest (sym (number_loop-next s c v p t b) ∙ h) e in
        (number_loop-next s c (v ++ rest) p t b ∙ q, l)
  ]
]

initial-number_byte :
    (c : ℕ) → starts_number (c ∷ []) ≡ false → (e : ParseError) × (number_byte initial c ≡ inl e)
unfolding number_byte
initial-number_byte c h = elim (step-cases (number_byte initial c)) [
  | inl x ↦ x
  | inr (t, b) ↦ absurd (ground arith)
]

pub parse_as_number-starts :
    (c : ℕ) (cs : List ℕ) {j : Json} {last : ℕ} {rest : List ℕ}
    → parse_as_number (c ∷ cs) ≡ ok j last rest
    → starts_number (c ∷ cs) ≡ true
unfolding parse_as_number
parse_as_number-starts c cs h = elim (Bool-cases (starts_number (c ∷ []))) [
  | inl p ↦ p
  | inr p ↦ elim (Bool-cases (is_separator c)) [
    | inl q ↦ absurd (unfold number_loop number_end in ground arith)
    | inr q ↦
        let (e, b) = initial-number_byte c p in
        absurd (fail-ne-ok (sym (number_loop-fail initial c cs q e b) ∙ h))
  ]
]

-- A text that is read as a number whole is read alike in front of a separator.
pub parse_as_number-append :
    (v rest : List ℕ) {j : Json} {last : ℕ}
    → parse_as_number v ≡ ok j last []
    → ends_word rest ≡ true
    → (parse_as_number (v ++ rest) ≡ ok j last rest) × (is_last last ≡ true)
unfolding parse_as_number
parse_as_number-append v rest h e = number_loop-append initial v rest h e
