-- ===== src/Csv/Writer.antt =====
-- libutils/csv_writer.c. The underlying Writer is the list of the bytes written to it; a C string
-- is the list of its bytes, with no NUL in it.
use libntech.Prelude.{
  ℕ, Bool, true, false, ◌&&◌, ◌||◌, not, List, [], ◌∷◌, ◌++◌, if◌then◌else◌, ◌==◌,
}

-- `struct CsvWriter_`
pub record CsvWriter : Type 0 where
  pub written : List ℕ
  pub beginning_of_line : Bool
  pub terminate_last_line : Bool

-- CsvWriterOpenSpecifyTerminate on a writer that has `out` already.
unfoldable pub open_writer : List ℕ → Bool → CsvWriter
open_writer out terminate = record {
  written = out;
  beginning_of_line = true;
  terminate_last_line = terminate;
}

-- The bytes that need escaping: `strpbrk(str, "\",\r\n")`.
abbrev pub is_special : ℕ → Bool
is_special c = c == b'"' || c == b',' || c == 13 || c == 10

unfoldable pub needs_escape : List ℕ → Bool
needs_escape [] = false
needs_escape (c ∷ cs) = is_special c || needs_escape cs

-- The loop of WriteCsvEscapedString: each quote is written twice.
unfoldable pub escape : List ℕ → List ℕ
escape [] = []
escape (c ∷ cs) = if c == b'"' then b'"' ∷ c ∷ escape cs else c ∷ escape cs

-- WriteCsvEscapedString: what it writes.
unfoldable pub escaped_string : List ℕ → List ℕ
unfolding escape
escaped_string s = b'"' ∷ (escape s ++ b'"' ∷ [])

-- How CsvWriterField writes the field itself.
unfoldable pub field_text : List ℕ → List ℕ
unfolding needs_escape escaped_string
field_text s = if needs_escape s then escaped_string s else s

unfoldable pub field : CsvWriter → List ℕ → CsvWriter
unfolding field_text
field w s =
    let separator : List ℕ = if w.beginning_of_line then [] else b',' ∷ [] in
    record w { written = w.written ++ (separator ++ field_text s); beginning_of_line = false }

abbrev pub crlf : List ℕ
crlf = 13 ∷ 10 ∷ []

unfoldable pub new_record : CsvWriter → CsvWriter
new_record w = record w { written = w.written ++ crlf; beginning_of_line = true }

-- CsvWriterClose: all that has been written.
unfoldable pub close : CsvWriter → List ℕ
close w = if not w.beginning_of_line && w.terminate_last_line then w.written ++ crlf else w.written

-- A client's calls for one record.
unfoldable pub fields : CsvWriter → List (List ℕ) → CsvWriter
unfolding field
fields w [] = w
fields w (s ∷ ss) = fields (field w s) ss
