-- ===== src/Csv/RoundTrip/Faults.antt =====
-- Where the automaton reads its buffer without having ended the string in it, and where it forgets
-- an error.
use libntech.Prelude.{
  ℕ, ◌≤◌, ◌<◌, ◌≡◌, refl, ◌∙◌, true, false, none, some, List, [], ◌∷◌, ◌++◌, length, arith, All,
  All-append,
}
use libntech.Csv.Writer.{escaped_string}
use libntech.Csv.Parser.{fields, run, launch, parse, c_string, is_blank, internal_quote}
use libntech.Csv.RoundTrip.Bare.{holding, starting, IsText, IsOrdinary, c_string-append}
use libntech.Csv.RoundTrip.BareFields.{bare_quote}
use libntech.Csv.RoundTrip.Quoted.{quoted_run, separator_after}

launch-starting : (x : ℕ) (r str : List ℕ) → launch (x ∷ r) str ≡ run str (starting true (0 ∷ r) [])
unfolding launch
launch-starting x r str = ground arith

end_after_separator :
    (f left : List ℕ)
    → IsText f
    → run [] (starting false (f ++ 0 ∷ left) (f ∷ [])) ≡ some (fields (f ∷ f ∷ []))
unfolding run
end_after_separator f left w = ground (arith, c_string-append f left w)

-- A separator that ends the string after a quoted, non-empty field without NUL bytes makes a second
-- copy of the field, where an empty field is due, in a buffer longer than the field.
pub parse-trailing_separator :
    (junk : List ℕ) (c : ℕ) (s : List ℕ)
    → IsText (c ∷ s)
    → length (c ∷ s) < length junk
    → parse junk (escaped_string (c ∷ s) ++ b',' ∷ []) ≡ some (some ((c ∷ s) ∷ (c ∷ s) ∷ []))
unfolding parse
parse-trailing_separator [] c s w h = absurd (omega arith)
parse-trailing_separator (x ∷ r) c s w h =
    let f = c ∷ s in
    let (y, left, n, more, _) = quoted_run c s true (0 ∷ r) (b',' ∷ []) [] h in
    let whole : launch (x ∷ r) (escaped_string f ++ b',' ∷ []) ≡ some (fields (f ∷ f ∷ [])) =
      launch-starting x r (escaped_string f ++ b',' ∷ [])
      ∙ more
      ∙ separator_after f y left [] [] w
      ∙ end_after_separator f left w in
    rw (whole, parse)

c_string-unended : (s : List ℕ) → IsText s → c_string s ≡ none
c_string-unended [] w = refl
c_string-unended (c ∷ s) w = ground (arith, c_string-unended s w.1)

copy_unended :
    (f : List ℕ) (y : ℕ) (left rest : List ℕ)
    → IsText (f ++ y ∷ left)
    → run (b' ' ∷ b',' ∷ rest) (holding internal_quote f (y ∷ left) []) ≡ none
unfolding run
copy_unended f y left rest w = ground (arith, c_string-unended (f ++ y ∷ left) w)

-- A quoted, non-empty first field with one blank between it and the separator is copied from a
-- buffer in which it was not ended: where the bytes of the buffer, but the first, hold no NUL, the
-- copy runs past the buffer.
pub parse-blank_after_quote :
    (x : ℕ) (junk : List ℕ) (c : ℕ) (s rest : List ℕ)
    → IsText (c ∷ s)
    → IsText junk
    → length (c ∷ s) ≤ length junk
    → parse (x ∷ junk) (escaped_string (c ∷ s) ++ b' ' ∷ b',' ∷ rest) ≡ none
unfolding parse
parse-blank_after_quote x junk c s rest w j h =
    let f = c ∷ s in
    let str = escaped_string f ++ b' ' ∷ b',' ∷ rest in
    let (y, left, n, more, text) =
      quoted_run c s true (0 ∷ junk) (b' ' ∷ b',' ∷ rest) [] (omega arith) in
    let whole : launch (x ∷ junk) str ≡ none =
      launch-starting x junk str
      ∙ more
      ∙ copy_unended f y left rest (All-append (λ c. 0 < c) f (y ∷ left) w (text j)) in
    rw (whole, parse)

-- A quote in a first field that starts with no blank, quote or separator, and holds none of the
-- latter two before it, is an error, unless it is the last byte of the string: then the parser
-- succeeds, with an empty field in place of the field that was read.
pub parse-bare_quote :
    (junk : List ℕ) (c : ℕ) (s rest : List ℕ)
    → All IsOrdinary (c ∷ s)
    → is_blank c ≡ false
    → length (c ∷ s) < length junk
    → parse junk (c ∷ (s ++ b'"' ∷ rest))
      ≡ elim rest [ [] ↦ some (some ([] ∷ [])) | d ∷ ds ↦ some none ]
unfolding parse
parse-bare_quote [] c s rest o k h = absurd (omega arith)
parse-bare_quote (x ∷ r) c s [] o k h =
    rw (launch-starting x r (c ∷ (s ++ b'"' ∷ [])) ∙ bare_quote c s true (0 ∷ r) [] [] o k h, parse)
parse-bare_quote (x ∷ r) c s (d ∷ ds) o k h = rw (
  launch-starting x r (c ∷ (s ++ b'"' ∷ d ∷ ds)) ∙ bare_quote c s true (0 ∷ r) (d ∷ ds) [] o k h,
  parse,
)
