-- ===== src/Csv/Parser.antt =====
-- libutils/csv_parser.c: the automaton of LaunchCsvAutomata with its byte buffer, and the reader
-- of one line. A step that would write through a NULL pointer, outside the buffer, or copy a string
-- that is not terminated inside the buffer is a fault, `none`.
use libntech.Prelude.{
  int_rounds, ℕ, ◌+◌, ◌-◌, Bool, true, false, ◌&&◌, ◌||◌, not, Option, none, some, List, [], ◌∷◌,
  ◌++◌, if◌then◌else◌, ◌==◌, ltb, length, set, get_or, take,
}

infixl 5 ◌>>=◌
abbrev pub ◌>>=◌ {ℓ κ} : {A : Type ℓ} {B : Type κ} → Option A → (A → Option B) → Option B
none >>= f = none
some a >>= f = f a

-- `csv_state`; CSV_ST_CLOSED is never entered.
pub data CsvState : Type 0 where
  new_line pre_start_space no_quote_mode separator leading_quote : CsvState
  internal_quote with_quote_mode space_after_quote error closed : CsvState

-- `csv_parser_error`
pub data CsvError : Type 0 where
  malformed unknown_state unexpected_end : CsvError

-- How LaunchCsvAutomata ends.
pub data Outcome : Type 0 where
  fields : List (List ℕ) → Outcome
  failed : CsvError → Outcome

abbrev pub is_blank : ℕ → Bool
is_blank c = c == b' ' || c == 9 || c == 10 || c == 13

abbrev pub is_quote : ℕ → Bool
is_quote c = c == b'"'

abbrev pub is_sep : ℕ → Bool
is_sep c = c == b','

-- The variables of the loop: `sn` is an index into `snatched`, or `none` for NULL.
pub record Automaton : Type 0 where
  pub current_state : CsvState
  pub snatched : List ℕ
  pub sn : Option ℕ
  pub newlist : List (List ℕ)

-- `snatched` from its start to the first NUL.
abbrev pub c_string : List ℕ → Option (List ℕ)
c_string [] = none
c_string (c ∷ cs) =
    let later = c_string cs in
    if c == 0 then some [] else elim later [ none ↦ none | some s ↦ some (c ∷ s) ]

-- `*sn = c`
abbrev pub store : ℕ → Automaton → Option Automaton
store c a = elim a.sn [
  | none ↦ none
  | some k ↦
      if ltb k (length a.snatched) then some (record a { snatched = set a.snatched k c }) else none
]

-- `sn++`
abbrev pub advance : Automaton → Automaton
advance a = record a { sn = elim a.sn [ none ↦ none | some k ↦ some (k + 1) ] }

-- `*sn = c; sn++`
abbrev pub put : ℕ → Automaton → Option Automaton
put c a = store c a >>= λ b. some (advance b)

-- `snatched[0] = '\0'`
abbrev pub blank_out : Automaton → Option Automaton
blank_out a =
    if ltb 0 (length a.snatched) then some (record a { snatched = set a.snatched 0 0 }) else none

-- `SeqAppend(*newlist, xstrdup(snatched))`
abbrev pub append_copy : Automaton → Option Automaton
append_copy a = c_string a.snatched >>= λ s. some (record a { newlist = a.newlist ++ s ∷ [] })

abbrev pub to_null : Automaton → Automaton
to_null a = record a { sn = none }

abbrev pub to_start : Automaton → Automaton
to_start a = record a { sn = some 0 }

abbrev pub go : CsvState → Automaton → Option Automaton
go s a = some (record a { current_state = s })

-- The cases of the switch for one byte, state by state.
unfoldable pub on_new_line : ℕ → Automaton → Option Automaton
on_new_line c a =
    if is_sep c
    then (store 0 a >>= λ b.
        some (record b { sn = none; newlist = b.newlist ++ [] ∷ []; current_state = separator }))
    else (if is_blank c
        then (put c a >>= go pre_start_space)
        else (if is_quote c
            then (blank_out a >>= λ b. go leading_quote (to_null b))
            else (put c a >>= go no_quote_mode)))

unfoldable pub on_pre_start_space : ℕ → Automaton → Option Automaton
on_pre_start_space c a =
    if is_sep c
    then (store 0 a >>= λ b. append_copy (to_null b) >>= blank_out >>= go separator)
    else (if is_blank c
        then (put c a >>= go pre_start_space)
        else (if is_quote c
            then (blank_out a >>= λ b. go leading_quote (to_null b))
            else (put c a >>= go no_quote_mode)))

unfoldable pub on_no_quote_mode : ℕ → Automaton → Option Automaton
on_no_quote_mode c a =
    if is_sep c
    then (store 0 a >>= λ b. append_copy (to_null b) >>= blank_out >>= go separator)
    else (if is_quote c
        then (blank_out a >>= λ b. go error (to_null b))
        else (put c a >>= go no_quote_mode))

unfoldable pub on_separator : ℕ → Automaton → Option Automaton
on_separator c a =
    if is_sep c
    then (blank_out a >>= λ b. append_copy (to_null b) >>= go separator)
    else (if is_blank c
        then (put c (to_start a) >>= go pre_start_space)
        else (if is_quote c
            then (blank_out a >>= λ b. go leading_quote (to_null b))
            else (put c (to_start a) >>= go no_quote_mode)))

unfoldable pub on_leading_quote : ℕ → Automaton → Option Automaton
on_leading_quote c a =
    if is_quote c
    then go internal_quote (to_start a)
    else (put c (to_start a) >>= go with_quote_mode)

unfoldable pub on_internal_quote : ℕ → Automaton → Option Automaton
on_internal_quote c a =
    if is_sep c
    then (store 0 a >>= λ b. append_copy (to_null b) >>= go separator)
    else (if is_blank c
        then go space_after_quote a
        else (if is_quote c
            then (put c a >>= go with_quote_mode)
            else (blank_out a >>= λ b. go error (advance b))))

unfoldable pub on_with_quote_mode : ℕ → Automaton → Option Automaton
on_with_quote_mode c a =
    if is_quote c then go internal_quote a else (put c a >>= go with_quote_mode)

-- `if (sn != NULL) *sn = '\0'`
abbrev pub store_if : Automaton → Option Automaton
store_if a = elim a.sn [ none ↦ some a | some k ↦ store 0 a ]

unfoldable pub on_space_after_quote : ℕ → Automaton → Option Automaton
on_space_after_quote c a =
    if is_sep c
    then (append_copy (to_null a) >>= go separator)
    else (if is_blank c
        then (store_if a >>= λ b. go space_after_quote (to_null b))
        else (blank_out a >>= λ b. go error (to_null b)))

-- One round of the loop that does not leave it.
unfoldable pub step : CsvState → ℕ → Automaton → Option Automaton
unfolding on_new_line on_pre_start_space on_no_quote_mode on_separator on_leading_quote
    on_internal_quote on_with_quote_mode on_space_after_quote
step new_line = on_new_line
step pre_start_space = on_pre_start_space
step no_quote_mode = on_no_quote_mode
step separator = on_separator
step leading_quote = on_leading_quote
step internal_quote = on_internal_quote
step with_quote_mode = on_with_quote_mode
step space_after_quote = on_space_after_quote
step error = λ c a. some a
step closed = λ c a. some a

-- The rounds that leave it.
abbrev pub leaves : CsvState → Option CsvError
leaves error = some malformed
leaves closed = some unknown_state
leaves _ = none

-- `len > 1 && snatched[len - 2] == '\r' && snatched[len - 1] == '\n'`, on the string, whose length
-- is stored in an int.
abbrev pub trim_crlf : List ℕ → List ℕ
trim_crlf s =
    let len = int_rounds (length s) in
    if ltb 1 len && get_or s (len - 2) 0 == 13 && get_or s (len - 1) 0 == 10
    then take (len - 2) s
    else s

abbrev pub is_bare : CsvState → Bool
is_bare no_quote_mode = true
is_bare pre_start_space = true
is_bare _ = false

abbrev pub is_unclosed : CsvState → Bool
is_unclosed leading_quote = true
is_unclosed with_quote_mode = true
is_unclosed _ = false

-- What follows the loop. The trim shortens `snatched` in place, and only its copy is used.
unfoldable pub finish : Automaton → Option Outcome
finish a =
    if is_unclosed a.current_state
    then some (failed unexpected_end)
    else (store_if a >>= λ b. c_string b.snatched >>= λ s.
        some (fields (b.newlist ++ (if is_bare b.current_state then trim_crlf s else s) ∷ [])))

-- The loop over the bytes of the string, and the rest of the function.
unfoldable pub run : List ℕ → Automaton → Option Outcome
unfolding step finish
run [] a = finish a
run (c ∷ cs) a = elim (leaves a.current_state) [
  | some e ↦ some (failed e)
  | none ↦ step a.current_state c a >>= run cs
]

-- LaunchCsvAutomata. `junk` is what the allocated buffer of `strlen(str) + 1` bytes holds at first.
unfoldable pub launch : List ℕ → List ℕ → Option Outcome
unfolding run
launch junk str =
    blank_out (record { current_state = new_line; snatched = junk; sn = some 0; newlist = [] })
    >>= run str

-- SeqParseCsvString: `some none` is NULL.
unfoldable pub parse : List ℕ → List ℕ → Option (Option (List (List ℕ)))
unfolding launch
parse junk str = elim (launch junk str) [
  | none ↦ none
  | some (fields fs) ↦ some (some fs)
  | some (failed e) ↦ some none
]

-- The loop of GetCsvLineNext over the bytes that are left in the file: the line, and what is left.
unfoldable pub line_loop : List ℕ → ℕ → Bool → List ℕ × List ℕ
line_loop [] prev in_quotes = ([], [])
line_loop (c ∷ cs) prev in_quotes =
    let more = line_loop cs c (if c == b'"' then not in_quotes else in_quotes) in
    if not (c == b'"') && not in_quotes && c == 10 && prev == 13
    then (c ∷ [], cs)
    else (c ∷ more.0, more.1)

-- GetCsvLineNext on a file that is open; `none` is NULL.
unfoldable pub get_csv_line_next : List ℕ → Option (List ℕ) × List ℕ
unfolding line_loop
get_csv_line_next file =
    let (line, left) = line_loop file 0 false in
    elim line [ [] ↦ (none, left) | c ∷ cs ↦ (some (c ∷ cs), left) ]
