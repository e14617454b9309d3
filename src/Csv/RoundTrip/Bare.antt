-- ===== src/Csv/RoundTrip/Bare.antt =====
-- The automaton on fields that are not quoted.
use libntech.Prelude.{
  ℕ, suc, ◌+◌, ◌<◌, ◌≡◌, refl, ◌∙◌, Bool, true, false, none, some, List, [], ◌∷◌, ◌++◌,
  append_assoc, append-nil, if◌then◌else◌, length, set, arith, length-append, length-set,
  set-append, All,
}
use libntech.Csv.Parser.{
  CsvState, new_line, pre_start_space, no_quote_mode, separator, leading_quote, internal_quote,
  with_quote_mode, space_after_quote, error, closed, Automaton, is_blank, is_quote, is_sep, is_bare,
  c_string, store, put, step, run, leaves,
}

-- The buffer holds `cur` so far, and `r` past `sn`.
abbrev pub holding : CsvState → List ℕ → List ℕ → List (List ℕ) → Automaton
holding st cur r fs = record {
  current_state = st;
  snatched = cur ++ r;
  sn = some (length cur);
  newlist = fs;
}

-- The start of a field: of the first one, or just past a separator.
abbrev pub starting : Bool → List ℕ → List (List ℕ) → Automaton
starting true b fs = record { current_state = new_line; snatched = b; sn = some 0; newlist = fs }
starting false b fs = record { current_state = separator; snatched = b; sn = none; newlist = fs }

abbrev pub IsText : List ℕ → Type 0
IsText = All (λ c. 0 < c)

-- A byte that neither separates nor quotes.
abbrev pub IsOrdinary : ℕ → Type 0
IsOrdinary c = (is_sep c ≡ false) × (is_quote c ≡ false)

pub c_string-append : (s r : List ℕ) → IsText s → c_string (s ++ 0 ∷ r) ≡ some s
c_string-append [] r h = refl
c_string-append (c ∷ s) r h = ground (arith, c_string-append s r h.1)

pub store-holding :
    (c : ℕ) (st : CsvState) (cur : List ℕ) (x : ℕ) (r : List ℕ) (fs : List (List ℕ))
    → store c (holding st cur (x ∷ r) fs)
      ≡ some (record {
        current_state = st;
        snatched = cur ++ c ∷ r;
        sn = some (length cur);
        newlist = fs;
      })
store-holding c st cur x r fs =
    ground (arith, length-append {0} cur (x ∷ r), set-append {0} cur x c r)

pub put-holding :
    (c : ℕ) (st : CsvState) (cur : List ℕ) (x : ℕ) (r : List ℕ) (fs : List (List ℕ))
    → put c (holding st cur (x ∷ r) fs) ≡ some (holding st (cur ++ c ∷ []) r fs)
put-holding c st cur x r fs =
    rw (store-holding c st cur x r fs, append_assoc cur (c ∷ []) r, length-append cur (c ∷ []))

-- One byte of a field that is under way.
pub bare_step :
    (st : CsvState) (c : ℕ) (cur : List ℕ) (x : ℕ) (r : List ℕ) (fs : List (List ℕ))
    → is_bare st ≡ true
    → IsOrdinary c
    → (t : CsvState) × (is_bare t ≡ true)
      × (step st c (holding st cur (x ∷ r) fs) ≡ some (holding t (cur ++ c ∷ []) r fs))
      × (st ≡ no_quote_mode → t ≡ no_quote_mode)
unfolding step
bare_step no_quote_mode c cur x r fs b o =
    (no_quote_mode, refl, ground (arith, o, put-holding c no_quote_mode cur x r fs), λ e. e)
bare_step pre_start_space c cur x r fs b o = (
  (if is_blank c then pre_start_space else no_quote_mode),
  ground arith,
  ground (arith, o, put-holding c pre_start_space cur x r fs),
  λ e. cc,
)
bare_step new_line c cur x r fs b o = absurd (cc)
bare_step separator c cur x r fs b o = absurd (cc)
bare_step leading_quote c cur x r fs b o = absurd (cc)
bare_step internal_quote c cur x r fs b o = absurd (cc)
bare_step with_quote_mode c cur x r fs b o = absurd (cc)
bare_step space_after_quote c cur x r fs b o = absurd (cc)
bare_step error c cur x r fs b o = absurd (cc)
bare_step closed c cur x r fs b o = absurd (cc)

-- The first byte of a field.
pub start_step :
    (first : Bool) (c x : ℕ) (r : List ℕ) (fs : List (List ℕ))
    → IsOrdinary c
    → (t : CsvState) × (is_bare t ≡ true)
      × (step (starting first (x ∷ r) fs).current_state c (starting first (x ∷ r) fs)
          ≡ some (holding t (c ∷ []) r fs))
      × (is_blank c ≡ false → t ≡ no_quote_mode)
unfolding step
start_step true c x r fs o = (
  (if is_blank c then pre_start_space else no_quote_mode),
  ground arith,
  ground (arith, o, put-holding c new_line [] x r fs),
  λ e. ground arith,
)
start_step false c x r fs o = (
  (if is_blank c then pre_start_space else no_quote_mode),
  ground arith,
  ground (arith, o, put-holding c new_line [] x r fs),
  λ e. ground arith,
)

pub leaves-bare : (st : CsvState) → is_bare st ≡ true → leaves st ≡ none
leaves-bare st h = ground arith

-- A round of the loop.
pub run-step :
    (c : ℕ) (cs : List ℕ) (a : Automaton) {b : Automaton}
    → leaves a.current_state ≡ none
    → step a.current_state c a ≡ some b
    → run (c ∷ cs) a ≡ run cs b
unfolding run
run-step c cs a l e = ground (arith, l, e)

-- The bytes of a field that is under way are collected.
pub bare_run :
    (s : List ℕ) (st : CsvState) (cur r rest : List ℕ) (fs : List (List ℕ))
    → is_bare st ≡ true
    → All IsOrdinary s
    → length s < length r
    → (t : CsvState) × (x : ℕ) × (left : List ℕ) × (is_bare t ≡ true)
      × (length s + suc (length left) ≡ length r)
      × (run (s ++ rest) (holding st cur r fs) ≡ run rest (holding t (cur ++ s) (x ∷ left) fs))
      × (st ≡ no_quote_mode → t ≡ no_quote_mode)
bare_run s st cur [] rest fs b o h = absurd (omega arith)
bare_run [] st cur (x ∷ r) rest fs b o h = (st, x, r, b, omega arith, rw append-nil, λ e. e)
bare_run (c ∷ s) st cur (x ∷ r) rest fs b o h =
    let (t, bt, e, k) = bare_step st c cur x r fs b o.0 in
    let (u, y, left, bu, n, run, l) = bare_run s t (cur ++ c ∷ []) r rest fs bt o.1 (omega arith) in
    (
      u,
      y,
      left,
      bu,
      omega (arith, n),
      run-step c (s ++ rest) (holding st cur (x ∷ r) fs) (leaves-bare st b) e
          ∙ run
          ∙ rw (append_assoc cur (c ∷ []) s) refl,
      λ q. l (k q),
    )

-- A separator ends a field that is under way.
pub bare_separator :
    (st : CsvState) (cur : List ℕ) (x : ℕ) (r rest : List ℕ) (fs : List (List ℕ))
    → is_bare st ≡ true
    → IsText cur
    → (b : List ℕ) × (length b ≡ length cur + suc (length r))
      × (run (b',' ∷ rest) (holding st cur (x ∷ r) fs)
          ≡ run rest (starting false b (fs ++ cur ∷ [])))
unfolding step
bare_separator st cur x r rest fs h w =
    let m = cur ++ 0 ∷ r in
    let n : length m ≡ length cur + suc (length r) = length-append cur (0 ∷ r) in
    (
      set m 0 0,
      length-set m 0 0 ∙ n,
      run-step b',' rest (holding st cur (x ∷ r) fs) (leaves-bare st h) (stepped n st h),
    )
  where
    stepped :
        length (cur ++ 0 ∷ r) ≡ length cur + suc (length r)
        → (st : CsvState) → is_bare st ≡ true
        → step st b',' (holding st cur (x ∷ r) fs)
          ≡ some (starting false (set (cur ++ 0 ∷ r) 0 0) (fs ++ cur ∷ []))
    stepped n no_quote_mode h =
        ground (arith, n, store-holding 0 no_quote_mode cur x r fs, c_string-append cur r w)
    stepped n pre_start_space h =
        ground (arith, n, store-holding 0 pre_start_space cur x r fs, c_string-append cur r w)
    stepped n new_line h = absurd (cc)
    stepped n separator h = absurd (cc)
    stepped n leading_quote h = absurd (cc)
    stepped n internal_quote h = absurd (cc)
    stepped n with_quote_mode h = absurd (cc)
    stepped n space_after_quote h = absurd (cc)
    stepped n error h = absurd (cc)
    stepped n closed h = absurd (cc)
