-- ===== src/Csv/RoundTrip/Quoted.antt =====
-- The automaton on fields that are quoted.
use libntech.Prelude.{
  ℕ, suc, ◌+◌, ◌<◌, ◌≡◌, refl, ap, ◌∙◌, Bool, true, false, none, some, List, [], ◌∷◌, ◌++◌,
  append_assoc, append-nil, ◌==◌, length, drop, arith, length-append, inl, inr, Bool-cases, ==_iff,
}
use libntech.Csv.Writer.{escape, escaped_string}
use libntech.Csv.Parser.{
  leading_quote, internal_quote, with_quote_mode, space_after_quote, fields, is_quote, run,
}
use libntech.Csv.RoundTrip.Bare.{
  holding, starting, IsText, c_string-append, store-holding, put-holding,
}

quote_pair :
    (cur : List ℕ) (x : ℕ) (r rest : List ℕ) (fs : List (List ℕ))
    → run (b'"' ∷ b'"' ∷ rest) (holding with_quote_mode cur (x ∷ r) fs)
      ≡ run rest (holding with_quote_mode (cur ++ b'"' ∷ []) r fs)
unfolding run
quote_pair cur x r rest fs = ground (arith, put-holding b'"' internal_quote cur x r fs)

plain_byte :
    (c : ℕ) (cur : List ℕ) (x : ℕ) (r rest : List ℕ) (fs : List (List ℕ))
    → is_quote c ≡ false
    → run (c ∷ rest) (holding with_quote_mode cur (x ∷ r) fs)
      ≡ run rest (holding with_quote_mode (cur ++ c ∷ []) r fs)
unfolding run
plain_byte c cur x r rest fs q = ground (arith, put-holding c with_quote_mode cur x r fs)

closing :
    (cur : List ℕ) (x : ℕ) (r rest : List ℕ) (fs : List (List ℕ))
    → run (b'"' ∷ rest) (holding with_quote_mode cur (x ∷ r) fs)
      ≡ run rest (holding internal_quote cur (x ∷ r) fs)
unfolding run
closing cur x r rest fs = refl

first_quote :
    (first : Bool) (x : ℕ) (r rest : List ℕ) (fs : List (List ℕ))
    → run (b'"' ∷ rest) (starting first (x ∷ r) fs)
      ≡ run rest
          (record { current_state = leading_quote; snatched = 0 ∷ r; sn = none; newlist = fs })
unfolding run
first_quote true x r rest fs = ground arith
first_quote false x r rest fs = ground arith

-- Inside the quotes the escaped bytes are collected with each pair of quotes as one.
run-escape :
    (s cur r rest : List ℕ) (fs : List (List ℕ))
    → length s < length r
    → (x : ℕ) × (left : List ℕ) × (length s + suc (length left) ≡ length r)
      × (run (escape s ++ rest) (holding with_quote_mode cur r fs)
          ≡ run rest (holding with_quote_mode (cur ++ s) (x ∷ left) fs))
      × (IsText r → IsText (x ∷ left))
unfolding escape
run-escape s cur [] rest fs h = absurd (omega arith)
run-escape [] cur (x ∷ r) rest fs h = (x, r, omega arith, rw append-nil, λ t. t)
run-escape (c ∷ s) cur (x ∷ r) rest fs h =
    let (y, left, n, more, text) = run-escape s (cur ++ c ∷ []) r rest fs (omega arith) in
    (
      y,
      left,
      omega (arith, n),
      one
          ∙ more
          ∙ ap (λ l. run rest (holding with_quote_mode l (y ∷ left) fs))
              (append_assoc cur (c ∷ []) s),
      λ t. text t.1,
    )
  where
    one :
        run (escape (c ∷ s) ++ rest) (holding with_quote_mode cur (x ∷ r) fs)
        ≡ run (escape s ++ rest) (holding with_quote_mode (cur ++ c ∷ []) r fs)
    one = elim (Bool-cases (c == b'"')) [
      | inl e ↦
          let q : c ≡ b'"' = (==_iff c b'"').0 e in
          rw e (rw q (quote_pair cur x r (escape s ++ rest) fs))
      | inr e ↦ rw e (plain_byte c cur x r (escape s ++ rest) fs e)
    ]

leading_pair :
    (x : ℕ) (r rest : List ℕ) (fs : List (List ℕ))
    → run
        (b'"' ∷ b'"' ∷ rest)
        (record { current_state = leading_quote; snatched = x ∷ r; sn = none; newlist = fs })
      ≡ run rest (holding with_quote_mode (b'"' ∷ []) r fs)
unfolding run
leading_pair x r rest fs = ground arith

leading_plain :
    (c x : ℕ) (r rest : List ℕ) (fs : List (List ℕ))
    → is_quote c ≡ false
    → run
        (c ∷ rest)
        (record { current_state = leading_quote; snatched = x ∷ r; sn = none; newlist = fs })
      ≡ run rest (holding with_quote_mode (c ∷ []) r fs)
unfolding run
leading_plain c x r rest fs e = ground arith

-- The first byte of a quoted field.
opening :
    (c x : ℕ) (r s rest : List ℕ) (fs : List (List ℕ))
    → run
        (escape (c ∷ s) ++ rest)
        (record { current_state = leading_quote; snatched = x ∷ r; sn = none; newlist = fs })
      ≡ run (escape s ++ rest) (holding with_quote_mode (c ∷ []) r fs)
unfolding escape
opening c x r s rest fs = elim (Bool-cases (c == b'"')) [
  | inl e ↦
      let q : c ≡ b'"' = (==_iff c b'"').0 e in rw e (rw q (leading_pair x r (escape s ++ rest) fs))
  | inr e ↦ rw e (leading_plain c x r (escape s ++ rest) fs e)
]

-- A field up to its closing quote.
pub quoted_run :
    (c : ℕ) (s : List ℕ) (first : Bool) (b rest : List ℕ) (fs : List (List ℕ))
    → length (c ∷ s) < length b
    → (x : ℕ) × (left : List ℕ) × (length (c ∷ s) + suc (length left) ≡ length b)
      × (run (escaped_string (c ∷ s) ++ rest) (starting first b fs)
          ≡ run rest (holding internal_quote (c ∷ s) (x ∷ left) fs))
      × (IsText (drop 1 b) → IsText (x ∷ left))
unfolding escaped_string
quoted_run c s first [] rest fs h = absurd (omega arith)
quoted_run c s first (x ∷ r) rest fs h =
    let (y, left, n, more, text) = run-escape s (c ∷ []) r (b'"' ∷ rest) fs (omega arith) in
    (
      y,
      left,
      omega (arith, n),
      ap (λ l. run (b'"' ∷ l) (starting first (x ∷ r) fs))
            (append_assoc (escape (c ∷ s)) (b'"' ∷ []) rest)
          ∙ first_quote first x r (escape (c ∷ s) ++ b'"' ∷ rest) fs
          ∙ opening c 0 r s (b'"' ∷ rest) fs
          ∙ more
          ∙ closing (c ∷ s) y left rest fs,
      text,
    )

pub separator_after :
    (cur : List ℕ) (x : ℕ) (r rest : List ℕ) (fs : List (List ℕ))
    → IsText cur
    → run (b',' ∷ rest) (holding internal_quote cur (x ∷ r) fs)
      ≡ run rest (starting false (cur ++ 0 ∷ r) (fs ++ cur ∷ []))
unfolding run
separator_after cur x r rest fs w =
    ground (arith, store-holding 0 internal_quote cur x r fs, c_string-append cur r w)

crlf_after :
    (cur : List ℕ) (x : ℕ) (r : List ℕ) (fs : List (List ℕ))
    → IsText cur
    → run (13 ∷ 10 ∷ []) (holding internal_quote cur (x ∷ r) fs) ≡ some (fields (fs ++ cur ∷ []))
unfolding run
crlf_after cur x r fs w =
    ground (arith, store-holding 0 space_after_quote cur x r fs, c_string-append cur r w)

-- A whole quoted field and the separator after it.
pub quoted_field :
    (c : ℕ) (s : List ℕ) (first : Bool) (b rest : List ℕ) (fs : List (List ℕ))
    → IsText (c ∷ s)
    → length (c ∷ s) < length b
    → (b' : List ℕ) × (length b' ≡ length b)
      × (run (escaped_string (c ∷ s) ++ b',' ∷ rest) (starting first b fs)
          ≡ run rest (starting false b' (fs ++ (c ∷ s) ∷ [])))
quoted_field c s first b rest fs w h =
    let (x, left, n, more, _) = quoted_run c s first b (b',' ∷ rest) fs h in
    (
      (c ∷ s) ++ 0 ∷ left,
      omega (arith, length-append {0} (c ∷ s) (0 ∷ left), n),
      more ∙ separator_after (c ∷ s) x left rest fs w,
    )

-- A whole quoted field and the CRLF that ends the record.
pub quoted_last :
    (c : ℕ) (s : List ℕ) (first : Bool) (b : List ℕ) (fs : List (List ℕ))
    → IsText (c ∷ s)
    → length (c ∷ s) < length b
    → run (escaped_string (c ∷ s) ++ 13 ∷ 10 ∷ []) (starting first b fs)
      ≡ some (fields (fs ++ (c ∷ s) ∷ []))
quoted_last c s first b fs w h =
    let (x, left, n, more, _) = quoted_run c s first b (13 ∷ 10 ∷ []) fs h in
    more ∙ crlf_after (c ∷ s) x left fs w
