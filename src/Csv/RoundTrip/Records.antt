-- ===== src/Csv/RoundTrip/Records.antt =====
-- Whole records: what CsvWriterField and CsvWriterNewRecord write, SeqParseCsvString reads back.
use libntech.Prelude.{
  ◌^◌, ℕ, ◌+◌, ◌≤◌, ◌<◌, ◌≡◌, refl, ap, ◌∙◌, Bool, true, false, some, List, [], ◌∷◌, ◌++◌,
  append_assoc, length, arith, length-append, All, inl, inr, Bool-cases,
}
use libntech.Csv.Writer
use libntech.Csv.Writer.{
  CsvWriter, open_writer, new_record, field_text, needs_escape, escape, escaped_string, is_special,
  crlf,
}
use libntech.Csv.Parser.{fields, run, launch, parse}
use libntech.Csv.RoundTrip.Bare.{starting, IsText, IsOrdinary}
use libntech.Csv.RoundTrip.BareFields.{bare_field, bare_last}
use libntech.Csv.RoundTrip.Quoted.{quoted_field, quoted_last}

-- The text of a record whose fields are `s` and `ss`.
abbrev pub record_text : List ℕ → List (List ℕ) → List ℕ
record_text s [] = field_text s ++ crlf
record_text s (t ∷ ss) = field_text s ++ b',' ∷ record_text t ss

needs_escape-IsOrdinary : (s : List ℕ) → needs_escape s ≡ false → All IsOrdinary s
unfolding needs_escape
needs_escape-IsOrdinary [] h = tt
needs_escape-IsOrdinary (c ∷ s) h = (ground arith, needs_escape-IsOrdinary s (ground arith))

length-escape : (s : List ℕ) → length s ≤ length (escape s)
unfolding escape
length-escape [] = omega arith
length-escape (c ∷ s) = ground (arith, length-escape s)

-- The text of a field is not shorter than the field.
length-field_text : (s : List ℕ) → length s ≤ length (field_text s)
unfolding field_text escaped_string
length-field_text s = ground (arith, length-escape s, length-append {0} (escape s) (b'"' ∷ []))

-- A field and the separator after it are consumed, and the field is collected.
field_read :
    (s : List ℕ) (first : Bool) (b rest : List ℕ) (fs : List (List ℕ))
    → IsText s
    → length s < length b
    → (b' : List ℕ) × (length b' ≡ length b)
      × (run (field_text s ++ b',' ∷ rest) (starting first b fs)
          ≡ run rest (starting false b' (fs ++ s ∷ [])))
unfolding field_text
field_read [] first b rest fs w h = bare_field [] first b rest fs tt tt h
field_read (c ∷ s) first b rest fs w h = elim (Bool-cases (needs_escape (c ∷ s))) [
  | inl e ↦ rw e (quoted_field c s first b rest fs w h)
  | inr e ↦ rw e (bare_field (c ∷ s) first b rest fs (needs_escape-IsOrdinary (c ∷ s) e) w h)
]

last_read :
    (s : List ℕ) (first : Bool) (b : List ℕ) (fs : List (List ℕ))
    → IsText s
    → length s + 2 < length b
    → length b ≤ 2 ^ 31
    → run (field_text s ++ crlf) (starting first b fs) ≡ some (fields (fs ++ s ∷ []))
unfolding field_text
last_read [] first b fs w h z = bare_last [] first b fs tt tt h z
last_read (c ∷ s) first b fs w h z = elim (Bool-cases (needs_escape (c ∷ s))) [
  | inl e ↦ rw e (quoted_last c s first b fs w (omega arith))
  | inr e ↦ rw e (bare_last (c ∷ s) first b fs (needs_escape-IsOrdinary (c ∷ s) e) w h z)
]

-- The whole text of a record is read as its fields, whatever the buffer holds.
record_read :
    (s : List ℕ) (ss : List (List ℕ)) (first : Bool) (b : List ℕ) (fs : List (List ℕ))
    → All IsText (s ∷ ss)
    → length (record_text s ss) < length b
    → length b ≤ 2 ^ 31
    → run (record_text s ss) (starting first b fs) ≡ some (fields (fs ++ s ∷ ss))
record_read s [] first b fs w h z =
    last_read s first b fs w.0
      (omega (arith, length-field_text s, length-append {0} (field_text s) crlf)) z
record_read s (t ∷ ss) first b fs w h z =
    let n = length-append {0} (field_text s) (b',' ∷ record_text t ss) in
    let (b', m, e) =
      field_read s first b (record_text t ss) fs w.0 (omega (arith, length-field_text s, n)) in
    e
    ∙ record_read t ss false b' (fs ++ s ∷ []) w.1 (omega (arith, m, n)) (omega (arith, m, z))
    ∙ ap (λ (l : List (List ℕ)). some (fields l)) (append_assoc fs (s ∷ []) (t ∷ ss))

written-fields :
    (ss : List (List ℕ)) (s : List ℕ) (w : CsvWriter)
    → w.beginning_of_line ≡ false
    → (new_record (Writer.fields w (s ∷ ss))).written ≡ w.written ++ b',' ∷ record_text s ss
unfolding Writer.fields new_record
written-fields [] s w h = rw h (append_assoc w.written (b',' ∷ field_text s) crlf)
written-fields (t ∷ ss) s w h =
    written-fields ss t (Writer.field w s) (unfold Writer.field in refl)
    ∙ rw h (append_assoc w.written (b',' ∷ field_text s) (b',' ∷ record_text t ss))

-- CsvWriterField for each field and CsvWriterNewRecord write the text of the record.
pub written-record :
    (out : List ℕ) (t : Bool) (s : List ℕ) (ss : List (List ℕ))
    → (new_record (Writer.fields (open_writer out t) (s ∷ ss))).written ≡ out ++ record_text s ss
unfolding Writer.fields new_record open_writer
written-record out t s [] = append_assoc out (field_text s) crlf
written-record out t s (u ∷ ss) =
    written-fields ss u (Writer.field (open_writer out t) s) (unfold Writer.field in refl)
    ∙ append_assoc out (field_text s) (b',' ∷ record_text u ss)

parse-record_text :
    (junk s : List ℕ) (ss : List (List ℕ))
    → All IsText (s ∷ ss)
    → length (record_text s ss) < length junk
    → length junk ≤ 2 ^ 31
    → parse junk (record_text s ss) ≡ some (some (s ∷ ss))
unfolding parse launch
parse-record_text [] s ss w h z = absurd (omega arith)
parse-record_text (x ∷ r) s ss w h z =
    let e : run (record_text s ss) (starting true (0 ∷ r) []) ≡ some (fields (s ∷ ss)) =
      record_read s ss true (0 ∷ r) [] w h z in
    ground (arith, e)

-- SeqParseCsvString reads a record of at least one field that the CSV writer has written, and its
-- CRLF, in a text of fewer than 2 ^ 31 bytes, as the very fields, whatever bytes but NUL they hold
-- and whatever the buffer, of the text's length and one byte, held before.
pub parse-written :
    (junk : List ℕ) (t : Bool) (s : List ℕ) (ss : List (List ℕ))
    → All IsText (s ∷ ss)
    → length junk ≡ length ((new_record (Writer.fields (open_writer [] t) (s ∷ ss))).written) + 1
    → length ((new_record (Writer.fields (open_writer [] t) (s ∷ ss))).written) < 2 ^ 31
    → parse junk ((new_record (Writer.fields (open_writer [] t) (s ∷ ss))).written)
      ≡ some (some (s ∷ ss))
parse-written junk t s ss w h z = rw (written-record [] t s ss) (
    parse-record_text junk s ss w (omega (arith, h, ap (length {A = ℕ}) (written-record [] t s ss)))
      (omega (arith, h, z)))
