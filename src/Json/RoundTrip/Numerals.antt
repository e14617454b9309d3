-- ===== src/Json/RoundTrip/Numerals.antt =====
-- Decimal numbers as JsonIntegerCreate and JsonRealCreate write them, and what JsonParseAsNumber makes
-- of them.
use libntech.Prelude.{
  ℕ, ◌≡◌, refl, ap, sym, ◌∙◌, true, false, not, ◌&&◌, inr, List, [], ◌∷◌, ◌++◌, ◌==◌, append_assoc,
  append-nil, arith, All,
}
use libntech.Json.{primitive, integer_type, real_type, ok}
use libntech.Json.Numbers.{
  is_separator, is_digit, leading_zero, NumberState, initial, number_byte, number_end, number_loop,
  parse_as_number,
}
use libntech.Json.RoundTrip.Numbers.{is_last, number_loop-next}

-- A zero, or digits of which the first is none, or a minus sign with digits.
pub data IsInteger : List ℕ → Type 0 where
  zero_text : IsInteger (b'0' ∷ [])
  digits_text :
      (d : ℕ) (ds : List ℕ)
      → is_digit d ≡ true
      → All (λ c. is_last c ≡ true) ds
      → IsInteger (d ∷ ds)
  minus_text :
      (d : ℕ) (ds : List ℕ) → All (λ c. is_last c ≡ true) (d ∷ ds) → IsInteger (b'-' ∷ d ∷ ds)

-- An integer with a fraction.
pub data IsReal : List ℕ → Type 0 where
  with_fraction :
      (v : List ℕ) (d : ℕ) (ds : List ℕ)
      → IsInteger v
      → All (λ c. is_last c ≡ true) (d ∷ ds)
      → IsReal (v ++ b'.' ∷ d ∷ ds)

-- The loop has passed the bytes `v`, of which the last is a digit.
record Passed (s : NumberState) (v rest : List ℕ) (t : NumberState) : Type 0 where
  loop : number_loop s (v ++ rest) ≡ number_loop t rest
  written : t.written ≡ s.written ++ v
  dot : t.seen_dot ≡ s.seen_dot
  last : is_last t.prev_char ≡ true

abbrev with_byte : NumberState → ℕ → NumberState
with_byte s c = record s { prev_char = c; written = s.written ++ c ∷ [] }

digit-number_byte :
    (s : NumberState) (c : ℕ)
    → leading_zero s ≡ false
    → (s.prev_char == 0) ≡ false
    → is_last c ≡ true
    → number_byte s c ≡ inr (with_byte s c)
unfolding number_byte
digit-number_byte s c z p d = ground arith

last-is_separator : (c : ℕ) → is_last c ≡ true → is_separator c ≡ false
last-is_separator c d = ground arith

digits-Passed :
    (ds rest : List ℕ) (s : NumberState)
    → leading_zero s ≡ false
    → is_last s.prev_char ≡ true
    → All (λ c. is_last c ≡ true) ds
    → (t : NumberState) × Passed s ds rest t
digits-Passed [] rest s z l h =
    (s, record { loop = refl; written = sym (append-nil s.written); dot = refl; last = l })
digits-Passed (d ∷ ds) rest s z l h =
    let p : (s.prev_char == 0) ≡ false = ground (arith, l) in
    let (t, q) = digits-Passed ds rest (with_byte s d) z h.0 h.1 in
    (
      t,
      record {
        loop =
            number_loop-next s d (ds ++ rest) (last-is_separator d h.0) (with_byte s d)
              (digit-number_byte s d z p h.0)
            ∙ q.loop;
        written = q.written ∙ append_assoc s.written (d ∷ []) ds;
        dot = q.dot;
        last = q.last;
      },
    )

-- A first byte, and digits behind it.
first-Passed :
    (s : NumberState) (d : ℕ) (ds rest : List ℕ)
    → number_byte s d ≡ inr (with_byte s d)
    → leading_zero s ≡ false
    → All (λ c. is_last c ≡ true) (d ∷ ds)
    → (t : NumberState) × Passed s (d ∷ ds) rest t
first-Passed s d ds rest b z h =
    let (t, q) = digits-Passed ds rest (with_byte s d) z h.0 h.1 in
    (
      t,
      record {
        loop =
            number_loop-next s d (ds ++ rest) (last-is_separator d h.0) (with_byte s d) b ∙ q.loop;
        written = q.written ∙ append_assoc s.written (d ∷ []) ds;
        dot = q.dot;
        last = q.last;
      },
    )

initial-digit : (d : ℕ) → is_digit d ≡ true → number_byte initial d ≡ inr (with_byte initial d)
unfolding number_byte
initial-digit d h = ground arith

integer-Passed : (v rest : List ℕ) → IsInteger v → (t : NumberState) × Passed initial v rest t
integer-Passed _ rest zero_text = (
  record (with_byte initial b'0') { zero_started = true },
  record {
    loop = number_loop-next initial b'0' rest refl _ (unfold number_byte in refl);
    written = refl;
    dot = refl;
    last = refl;
  },
)
integer-Passed _ rest (digits_text d ds h hs) =
    first-Passed initial d ds rest (initial-digit d h) refl (ground arith, hs)
integer-Passed _ rest (minus_text d ds h) =
    let s = with_byte initial b'-' in
    let (t, q) = first-Passed s d ds rest (digit-number_byte s d refl refl h.0) refl h in
    (
      t,
      record {
        loop =
            number_loop-next initial b'-' (d ∷ (ds ++ rest)) refl s (unfold number_byte in refl)
            ∙ q.loop;
        written = q.written;
        dot = q.dot;
        last = q.last;
      },
    )

number_end-last :
    (s : NumberState) (v : List ℕ)
    → s.seen_dot ≡ false
    → s.written ≡ v
    → is_last s.prev_char ≡ true
    → number_end s [] ≡ ok (primitive integer_type v) s.prev_char []
unfolding number_end
number_end-last s v d w h =
    let p : (not (s.prev_char == b'0') && not (is_digit s.prev_char)) ≡ false = ground (arith, h) in
    rw (p, d, w)

pub integer-read :
    (v : List ℕ)
    → IsInteger v
    → (last : ℕ) × (parse_as_number v ≡ ok (primitive integer_type v) last [])
unfolding parse_as_number
integer-read v i =
    let (t, q) = integer-Passed v [] i in
    (
      t.prev_char,
      ap (number_loop initial) (sym (append-nil v))
          ∙ q.loop
          ∙ (unfold number_loop in number_end-last t v q.dot q.written q.last),
    )

number_end-real :
    (s : NumberState) (v : List ℕ)
    → s.seen_dot ≡ true
    → s.written ≡ v
    → is_last s.prev_char ≡ true
    → number_end s [] ≡ ok (primitive real_type v) s.prev_char []
unfolding number_end
number_end-real s v d w h =
    let p : (not (s.prev_char == b'0') && not (is_digit s.prev_char)) ≡ false = ground (arith, h) in
    rw (p, d, w)

dot-number_byte :
    (s : NumberState)
    → s.seen_dot ≡ false
    → is_last s.prev_char ≡ true
    → number_byte s b'.' ≡ inr (record (with_byte s b'.') { seen_dot = true })
unfolding number_byte
dot-number_byte s d l = ground arith

pub real-read :
    (v : List ℕ) → IsReal v → (last : ℕ) × (parse_as_number v ≡ ok (primitive real_type v) last [])
unfolding parse_as_number
real-read _ (with_fraction v d ds i h) =
    let (t, q) = integer-Passed v (b'.' ∷ d ∷ ds) i in
    let s = record (with_byte t b'.') { seen_dot = true } in
    let z : leading_zero s ≡ false = ground arith in
    let (u, r) = first-Passed s d ds [] (digit-number_byte s d z refl h.0) z h in
    (
      u.prev_char,
      q.loop
          ∙ number_loop-next t b'.' (d ∷ ds) refl s (dot-number_byte t q.dot q.last)
          ∙ ap (number_loop s) (sym (append-nil (d ∷ ds)))
          ∙ r.loop
          ∙ (unfold number_loop in
              number_end-real u (v ++ b'.' ∷ d ∷ ds) r.dot
                (r.written
                  ∙ append_assoc t.written (b'.' ∷ []) (d ∷ ds)
                  ∙ ap (λ w. w ++ b'.' ∷ d ∷ ds) q.written)
                r.last),
    )
