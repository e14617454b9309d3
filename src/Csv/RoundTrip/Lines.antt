-- ===== src/Csv/RoundTrip/Lines.antt =====
-- GetCsvLineNext on a file that the CSV writer has written.
use libntech.Prelude.{
  ◌^◌, ◌<◌, ℕ, ◌+◌, ◌≡◌, ◌≢◌, refl, ap, ◌∙◌, Bool, true, false, some, List, [], ◌∷◌, ◌++◌,
  append_assoc, ◌==◌, length, arith, All, inl, inr, Bool-cases, not, ==_iff,
}
use libntech.Csv.Writer
use libntech.Csv.Writer.{
  open_writer, new_record, field_text, needs_escape, escape, escaped_string, is_special, crlf,
}
use libntech.Csv.Parser.{line_loop, get_csv_line_next, parse}
use libntech.Csv.RoundTrip.Bare.{IsText}
use libntech.Csv.RoundTrip.Records.{record_text, written-record, parse-written}

abbrev prepend : List ℕ → List ℕ × List ℕ → List ℕ × List ℕ
prepend s p = (s ++ p.0, p.1)

-- Before a byte that is not a line feed the byte before does not matter.
line_loop-prev :
    (c p q : ℕ) (t : List ℕ) (in_quotes : Bool)
    → c ≢ 10
    → line_loop (c ∷ t) p in_quotes ≡ line_loop (c ∷ t) q in_quotes
unfolding line_loop
line_loop-prev c p q t in_quotes h = ground arith

line_loop-ordinary :
    (c p : ℕ) (t : List ℕ)
    → is_special c ≡ false
    → line_loop (c ∷ t) p false ≡ prepend (c ∷ []) (line_loop t c false)
unfolding line_loop
line_loop-ordinary c p t n = ground arith

line_loop-inside :
    (c p : ℕ) (t : List ℕ)
    → (c == b'"') ≡ false
    → line_loop (c ∷ t) p true ≡ prepend (c ∷ []) (line_loop t c true)
unfolding line_loop
line_loop-inside c p t n = ground arith

line_loop-quote :
    (p : ℕ) (t : List ℕ) (in_quotes : Bool)
    → line_loop (b'"' ∷ t) p in_quotes ≡ prepend (b'"' ∷ []) (line_loop t b'"' (not in_quotes))
unfolding line_loop
line_loop-quote p t in_quotes = refl

line_loop-bare :
    (s : List ℕ) (c p : ℕ) (t : List ℕ)
    → needs_escape s ≡ false
    → c ≢ 10
    → line_loop (s ++ c ∷ t) p false ≡ prepend s (line_loop (c ∷ t) 0 false)
unfolding needs_escape
line_loop-bare [] c p t n h = line_loop-prev c p 0 t false h
line_loop-bare (x ∷ s) c p t n h =
    line_loop-ordinary x p (s ++ c ∷ t) (ground arith)
    ∙ ap (prepend (x ∷ [])) (line_loop-bare s c x t (ground arith) h)

-- The quoted part of a field: its line feeds do not end the line.
line_loop-quoted :
    (s : List ℕ) (p : ℕ) (t : List ℕ)
    → line_loop (escape s ++ b'"' ∷ t) p true
      ≡ prepend (escape s ++ b'"' ∷ []) (line_loop t b'"' false)
unfolding escape
line_loop-quoted [] p t = line_loop-quote p t true
line_loop-quoted (c ∷ s) p t = elim (Bool-cases (c == b'"')) [
  | inl e ↦
      let q : c ≡ b'"' = (==_iff c b'"').0 e in
      rw e (
        rw q (
          line_loop-quote p (b'"' ∷ (escape s ++ b'"' ∷ t)) true
          ∙ ap (prepend (b'"' ∷ [])) (
              line_loop-quote b'"' (escape s ++ b'"' ∷ t) false
              ∙ ap (prepend (b'"' ∷ [])) (line_loop-quoted s b'"' t))))
  | inr e ↦ rw e (
      line_loop-inside c p (escape s ++ b'"' ∷ t) e
      ∙ ap (prepend (c ∷ [])) (line_loop-quoted s c t))
]

line_loop-field :
    (s : List ℕ) (c p : ℕ) (t : List ℕ)
    → c ≢ 10
    → line_loop (field_text s ++ c ∷ t) p false ≡ prepend (field_text s) (line_loop (c ∷ t) 0 false)
unfolding field_text escaped_string
line_loop-field s c p t h = elim (Bool-cases (needs_escape s)) [
  | inl e ↦ rw e (
      ap (λ l. line_loop (b'"' ∷ l) p false) (append_assoc (escape s) (b'"' ∷ []) (c ∷ t))
      ∙ line_loop-quote p (escape s ++ b'"' ∷ c ∷ t) false
      ∙ ap (prepend (b'"' ∷ [])) (
          line_loop-quoted s b'"' (c ∷ t)
          ∙ ap (prepend (escape s ++ b'"' ∷ [])) (line_loop-prev c b'"' 0 t false h)))
  | inr e ↦ rw e (line_loop-bare s c p t e h)
]

line_loop-separator :
    (p : ℕ) (t : List ℕ)
    → line_loop (b',' ∷ t) p false ≡ prepend (b',' ∷ []) (line_loop t b',' false)
unfolding line_loop
line_loop-separator p t = refl

line_loop-crlf : (p : ℕ) (rest : List ℕ) → line_loop (13 ∷ 10 ∷ rest) p false ≡ (13 ∷ 10 ∷ [], rest)
unfolding line_loop
line_loop-crlf p rest = ground arith

line_loop-record :
    (s : List ℕ) (ss : List (List ℕ)) (p : ℕ) (rest : List ℕ)
    → line_loop (record_text s ss ++ rest) p false ≡ (record_text s ss, rest)
line_loop-record s [] p rest =
    ap (λ l. line_loop l p false) (append_assoc (field_text s) crlf rest)
    ∙ line_loop-field s 13 p (10 ∷ rest) (omega arith)
    ∙ ap (prepend (field_text s)) (line_loop-crlf 0 rest)
line_loop-record s (u ∷ ss) p rest =
    ap (λ l. line_loop l p false) (append_assoc (field_text s) (b',' ∷ record_text u ss) rest)
    ∙ line_loop-field s b',' p (record_text u ss ++ rest) (omega arith)
    ∙ ap (prepend (field_text s)) (
        line_loop-separator 0 (record_text u ss ++ rest)
        ∙ ap (prepend (b',' ∷ [])) (line_loop-record u ss b',' rest))

append-cons : (xs : List ℕ) (y : ℕ) (ys : List ℕ) → (c : ℕ) × (l : List ℕ) × (xs ++ y ∷ ys ≡ c ∷ l)
append-cons [] y ys = (y, ys, refl)
append-cons (x ∷ xs) y ys = (x, xs ++ y ∷ ys, refl)

record_text-cons :
    (s : List ℕ) (ss : List (List ℕ)) → (c : ℕ) × (l : List ℕ) × (record_text s ss ≡ c ∷ l)
record_text-cons s [] = append-cons (field_text s) 13 (10 ∷ [])
record_text-cons s (u ∷ ss) = append-cons (field_text s) b',' (record_text u ss)

line-record :
    (s : List ℕ) (ss : List (List ℕ)) (rest : List ℕ)
    → get_csv_line_next (record_text s ss ++ rest) ≡ (some (record_text s ss), rest)
unfolding get_csv_line_next
line-record s ss rest =
    let (c, l, e) = record_text-cons s ss in ground (arith, line_loop-record s ss 0 rest, e)

-- GetCsvLineNext on a file that goes on with a written record of at least one field, without NUL
-- bytes and of fewer than 2 ^ 31 bytes, returns that record's text whole, with its line breaks inside
-- quotes, and leaves what follows; the text parses to the fields, in a buffer of its length and one
-- byte.
pub get_csv_line_next-written :
    (junk : List ℕ) (t : Bool) (s : List ℕ) (ss : List (List ℕ)) (rest : List ℕ)
    → All IsText (s ∷ ss)
    → length junk ≡ length ((new_record (Writer.fields (open_writer [] t) (s ∷ ss))).written) + 1
    → length ((new_record (Writer.fields (open_writer [] t) (s ∷ ss))).written) < 2 ^ 31
    → (get_csv_line_next ((new_record (Writer.fields (open_writer [] t) (s ∷ ss))).written ++ rest)
        ≡ (some ((new_record (Writer.fields (open_writer [] t) (s ∷ ss))).written), rest))
      × (parse junk ((new_record (Writer.fields (open_writer [] t) (s ∷ ss))).written)
          ≡ some (some (s ∷ ss)))
get_csv_line_next-written junk t s ss rest w h z =
    (rw (written-record [] t s ss) (line-record s ss rest), parse-written junk t s ss w h z)
