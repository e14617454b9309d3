-- ===== src/Csv/Tests.antt =====
-- The theorems on the CSV reader and writer, at small records.
use libntech.Prelude.{
  ℕ, ◌+◌, ◌≡◌, refl, true, some, none, List, [], ◌∷◌, ◌++◌, length, replicate, arith,
}
use libntech.Csv.Writer
use libntech.Csv.Writer.{open_writer, new_record, escaped_string}
use libntech.Csv.Parser.{parse, get_csv_line_next}
use libntech.Csv.RoundTrip.Records.{parse-written}
use libntech.Csv.RoundTrip.Lines.{get_csv_line_next-written}
use libntech.Csv.RoundTrip.Faults.{
  parse-trailing_separator, parse-blank_after_quote, parse-bare_quote,
}

abbrev plain : List ℕ
plain = b'a' ∷ []

-- b"c
abbrev with_quote : List ℕ
with_quote = b'b' ∷ b'"' ∷ b'c' ∷ []

abbrev junk : List ℕ
junk = replicate 11 7

-- a,"b""c"
abbrev written : List ℕ
written = (new_record (Writer.fields (open_writer [] true) (plain ∷ with_quote ∷ []))).written

written-run : written ≡ b'a' ∷ b',' ∷ b'"' ∷ b'b' ∷ b'"' ∷ b'"' ∷ b'c' ∷ b'"' ∷ 13 ∷ 10 ∷ []
unfolding new_record Writer.fields open_writer
written-run = refl

written-length : length junk ≡ length written + 1
unfolding new_record Writer.fields open_writer
written-length = refl

-- abc,"x" , : the bytes of abc show again behind x.
stale :
    parse (replicate 10 1) (b'a' ∷ b'b' ∷ b'c' ∷ b',' ∷ b'"' ∷ b'x' ∷ b'"' ∷ b' ' ∷ b',' ∷ [])
    ≡ some (
        some
          ((b'a' ∷ b'b' ∷ b'c' ∷ []) ∷ (b'x' ∷ b'b' ∷ b'c' ∷ []) ∷ (b'x' ∷ b'b' ∷ b'c' ∷ []) ∷ []))
unfolding parse
stale = refl

parse-written_example : parse junk written ≡ some (some (plain ∷ with_quote ∷ []))
unfolding new_record Writer.fields open_writer
parse-written_example =
    parse-written junk true plain (with_quote ∷ []) (omega arith) written-length (omega arith)

get_csv_line_next-written_example :
    (get_csv_line_next (written ++ plain) ≡ (some written, plain))
    × (parse junk written ≡ some (some (plain ∷ with_quote ∷ [])))
unfolding new_record Writer.fields open_writer
get_csv_line_next-written_example =
    get_csv_line_next-written junk true plain (with_quote ∷ []) plain (omega arith) written-length
      (omega arith)

parse-trailing_separator_example :
    parse junk (escaped_string with_quote ++ b',' ∷ []) ≡ some (some (with_quote ∷ with_quote ∷ []))
parse-trailing_separator_example =
    parse-trailing_separator junk b'b' (b'"' ∷ b'c' ∷ []) (omega arith) (omega arith)

parse-blank_after_quote_example : parse junk (escaped_string with_quote ++ b' ' ∷ b',' ∷ []) ≡ none
parse-blank_after_quote_example =
    parse-blank_after_quote 7 (replicate 10 7) b'b' (b'"' ∷ b'c' ∷ []) [] (omega arith)
      (omega arith) (omega arith)

parse-bare_quote_example : parse junk (b'a' ∷ b'b' ∷ b'"' ∷ []) ≡ some (some ([] ∷ []))
parse-bare_quote_example =
    parse-bare_quote junk b'a' (b'b' ∷ []) [] ((refl, refl), ((refl, refl), tt)) refl (omega arith)
