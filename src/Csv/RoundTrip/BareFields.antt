-- ===== src/Csv/RoundTrip/BareFields.antt =====
-- Whole fields that are not quoted.
use libntech.Prelude.{
  int_rounds, ◌^◌, ◌≤◌, ℕ, suc, ◌+◌, ◌-◌, ◌<◌, ◌≡◌, refl, ap, sym, ◌∙◌, Bool, true, false, none,
  some, List, [], ◌∷◌, ◌++◌, append-nil, length, get_or, take, arith, length-append, All,
  All-append,
}
use libntech.Csv.Parser.{
  CsvState, new_line, pre_start_space, no_quote_mode, separator, leading_quote, internal_quote,
  with_quote_mode, space_after_quote, error, closed, Outcome, fields, failed, malformed, is_blank,
  is_bare, run, trim_crlf, leaves,
}
use libntech.Csv.RoundTrip.Bare.{
  holding, starting, IsText, IsOrdinary, c_string-append, store-holding, run-step, start_step,
  bare_run, bare_separator,
}

-- The end of the string ends it too, and the trim takes a CRLF off.
pub bare_finish :
    (st : CsvState) (cur : List ℕ) (x : ℕ) (r : List ℕ) (fs : List (List ℕ))
    → is_bare st ≡ true
    → IsText cur
    → run [] (holding st cur (x ∷ r) fs) ≡ some (fields (fs ++ trim_crlf cur ∷ []))
unfolding run
bare_finish no_quote_mode cur x r fs h w =
    ground (arith, store-holding 0 no_quote_mode cur x r fs, c_string-append cur r w)
bare_finish pre_start_space cur x r fs h w =
    ground (arith, store-holding 0 pre_start_space cur x r fs, c_string-append cur r w)
bare_finish new_line cur x r fs h w = absurd (cc)
bare_finish separator cur x r fs h w = absurd (cc)
bare_finish leading_quote cur x r fs h w = absurd (cc)
bare_finish internal_quote cur x r fs h w = absurd (cc)
bare_finish with_quote_mode cur x r fs h w = absurd (cc)
bare_finish space_after_quote cur x r fs h w = absurd (cc)
bare_finish error cur x r fs h w = absurd (cc)
bare_finish closed cur x r fs h w = absurd (cc)

leaves-starting :
    (f : Bool) (b : List ℕ) (fs : List (List ℕ)) → leaves (starting f b fs).current_state ≡ none
leaves-starting true b fs = refl
leaves-starting false b fs = refl

-- A separator at the start of a field is an empty field.
empty_separator :
    (first : Bool) (x : ℕ) (r rest : List ℕ) (fs : List (List ℕ))
    → run (b',' ∷ rest) (starting first (x ∷ r) fs)
      ≡ run rest (starting false (0 ∷ r) (fs ++ [] ∷ []))
unfolding run
empty_separator true x r rest fs = ground arith
empty_separator false x r rest fs = ground arith

-- A whole field and the separator after it.
pub bare_field :
    (s : List ℕ) (first : Bool) (b rest : List ℕ) (fs : List (List ℕ))
    → All IsOrdinary s
    → IsText s
    → length s < length b
    → (b' : List ℕ) × (length b' ≡ length b)
      × (run (s ++ b',' ∷ rest) (starting first b fs) ≡ run rest (starting false b' (fs ++ s ∷ [])))
bare_field s first [] rest fs o w h = absurd (omega arith)
bare_field [] first (x ∷ r) rest fs o w h = (0 ∷ r, refl, empty_separator first x r rest fs)
bare_field (c ∷ s) first (x ∷ r) rest fs o w h =
    let (t, bt, e, k) = start_step first c x r fs o.0 in
    let (u, y, left, bu, n, more, l) =
      bare_run s t (c ∷ []) r (b',' ∷ rest) fs bt o.1 (omega arith) in
    let (b', m, last) = bare_separator u (c ∷ s) y left rest fs bu w in
    (
      b',
      omega (arith, m, n),
      run-step c (s ++ b',' ∷ rest) (starting first (x ∷ r) fs) (leaves-starting first (x ∷ r) fs) e
          ∙ more
          ∙ last,
    )

abbrev crlf : List ℕ
crlf = 13 ∷ 10 ∷ []

get-crlf :
    (s : List ℕ)
    → (get_or (s ++ crlf) (length s) 0 ≡ 13)
      × (get_or (s ++ crlf) (suc (length s)) 0 ≡ 10)
      × (take (length s) (s ++ crlf) ≡ s)
get-crlf [] = (refl, refl, refl)
get-crlf (c ∷ s) = let (x, y, t) = get-crlf s in (x, y, ap (λ l. c ∷ l) t)

trim_crlf-append : (s : List ℕ) → length s + 2 < 2 ^ 31 → trim_crlf (s ++ crlf) ≡ s
trim_crlf-append s h =
    let n : length (s ++ crlf) ≡ suc (suc (length s)) = omega (arith, length-append {0} s crlf) in
    let w : int_rounds (suc (suc (length s))) ≡ suc (suc (length s)) = ground arith in
    let i : suc (suc (length s)) - 2 ≡ length s = omega arith in
    let j : suc (suc (length s)) - 1 ≡ suc (length s) = omega arith in
    let (x, y, t) = get-crlf s in rw (n, w, i, j, x, y, t) (ground arith)

crlf-IsOrdinary : All IsOrdinary crlf
crlf-IsOrdinary = ((refl, refl), ((refl, refl), tt))

-- The rest of the string, without a separator or a quote, is the last field.
bare_end :
    (c : ℕ) (s : List ℕ) (first : Bool) (b : List ℕ) (fs : List (List ℕ))
    → All IsOrdinary (c ∷ s)
    → IsText (c ∷ s)
    → length (c ∷ s) < length b
    → run (c ∷ s) (starting first b fs) ≡ some (fields (fs ++ trim_crlf (c ∷ s) ∷ []))
bare_end c s first [] fs o w h = absurd (omega arith)
bare_end c s first (x ∷ r) fs o w h =
    let (t, bt, e, k) = start_step first c x r fs o.0 in
    let (u, y, left, bu, n, more, l) = bare_run s t (c ∷ []) r [] fs bt o.1 (omega arith) in
    run-step c s (starting first (x ∷ r) fs) (leaves-starting first (x ∷ r) fs) e
    ∙ ap (λ l. run l (holding t (c ∷ []) r fs)) (sym (append-nil s))
    ∙ more
    ∙ bare_finish u (c ∷ s) y left fs bu w

-- A whole field and the CRLF that ends the record.
pub bare_last :
    (s : List ℕ) (first : Bool) (b : List ℕ) (fs : List (List ℕ))
    → All IsOrdinary s
    → IsText s
    → length s + 2 < length b
    → length b ≤ 2 ^ 31
    → run (s ++ 13 ∷ 10 ∷ []) (starting first b fs) ≡ some (fields (fs ++ s ∷ []))
bare_last [] first b fs o w h z =
    bare_end 13 (10 ∷ []) first b fs crlf-IsOrdinary (omega arith) (omega arith)
bare_last (c ∷ s) first b fs o w h z =
    bare_end c (s ++ crlf) first b fs (All-append IsOrdinary (c ∷ s) crlf o crlf-IsOrdinary)
      (All-append (λ x. 0 < x) (c ∷ s) crlf w (omega arith))
      (omega (arith, length-append {0} s crlf))
    ∙ ap (λ (l : List ℕ). some (fields (fs ++ l ∷ [])))
        (trim_crlf-append (c ∷ s) (omega (arith, h, z)))

-- How the loop ends after a quote in a field that is not quoted.
abbrev pub quote_outcome : List ℕ → List (List ℕ) → Outcome
quote_outcome [] fs = fields (fs ++ [] ∷ [])
quote_outcome (c ∷ rest) fs = failed malformed

quote_stop :
    (cur : List ℕ) (x : ℕ) (r rest : List ℕ) (fs : List (List ℕ))
    → run (b'"' ∷ rest) (holding no_quote_mode cur (x ∷ r) fs) ≡ some (quote_outcome rest fs)
unfolding run
quote_stop [] x r [] fs = ground arith
quote_stop [] x r (c ∷ rest) fs = ground arith
quote_stop (d ∷ cur) x r [] fs = ground arith
quote_stop (d ∷ cur) x r (c ∷ rest) fs = ground arith

-- A field that starts with neither a blank nor a quote, and a quote after it.
pub bare_quote :
    (c : ℕ) (s : List ℕ) (first : Bool) (b rest : List ℕ) (fs : List (List ℕ))
    → All IsOrdinary (c ∷ s)
    → is_blank c ≡ false
    → length (c ∷ s) < length b
    → run (c ∷ (s ++ b'"' ∷ rest)) (starting first b fs) ≡ some (quote_outcome rest fs)
bare_quote c s first [] rest fs o k h = absurd (omega arith)
bare_quote c s first (x ∷ r) rest fs o k h =
    let (t, bt, e, q) = start_step first c x r fs o.0 in
    let (u, y, left, bu, n, more, l) =
      bare_run s t (c ∷ []) r (b'"' ∷ rest) fs bt o.1 (omega arith) in
    run-step c (s ++ b'"' ∷ rest) (starting first (x ∷ r) fs) (leaves-starting first (x ∷ r) fs) e
    ∙ more
    ∙ rw (l (q k)) (quote_stop (c ∷ s) y left rest fs)
