-- ===== src/Version.antt =====
-- libutils/version_comparison.c: versions of one to three numbers, and the operators on them. A
-- string is the list of its bytes. `sscanf` is written out for the one format that is used. C leaves a
-- number that does not fit an int undefined; here it is read as glibc does, into a 64-bit long, the
-- nearest if there is none, of which the low 32 bits are stored.
pub mod Order
pub mod Written
mod Tests
use libntech.Prelude.{
  ℕ, zero, suc, ◌+◌, ◌-◌, ◌*◌, ◌%◌, ◌^◌, min, Bool, true, false, not, ◌&&◌, ◌||◌, Option, none,
  some, List, [], ◌∷◌, if◌then◌else◌, ◌==◌, ltb, leb, length,
}
use libntech.Json.Parser.{string_equal}

-- An int: `pos n` is n, `negsuc n` is -n - 1.
pub data ℤ : Type 0 where
  pos negsuc : ℕ → ℤ

pub data VersionComparison : Type 0 where
  version_smaller version_equal version_greater version_error : VersionComparison

pub data BooleanOrError : Type 0 where
  boolean_error boolean_false boolean_true : BooleanOrError

unfoldable pub less : ℤ → ℤ → Bool
less (pos m) (pos n) = ltb m n
less (pos m) (negsuc n) = false
less (negsuc m) (pos n) = true
less (negsuc m) (negsuc n) = ltb n m

-- isspace, in the locale "C"
abbrev pub is_space : ℕ → Bool
is_space c = c == 32 || (leb 9 c && leb c 13)

abbrev pub is_decimal : ℕ → Bool
is_decimal c = leb 48 c && leb c 57

unfoldable pub skip_space : List ℕ → List ℕ
skip_space [] = []
skip_space (c ∷ cs) = let rest = skip_space cs in if is_space c then rest else c ∷ cs

-- The value of the digits that a text starts with, after a value `n`, and what follows them.
unfoldable pub scan_digits : ℕ → List ℕ → ℕ × List ℕ
scan_digits n [] = (n, [])
scan_digits n (c ∷ cs) =
    let more = scan_digits (10 * n + (c - 48)) cs in if is_decimal c then more else (n, c ∷ cs)

unfoldable pub scan_unsigned : List ℕ → Option (ℕ × List ℕ)
unfolding scan_digits
scan_unsigned [] = none
scan_unsigned (c ∷ cs) = if is_decimal c then some (scan_digits 0 (c ∷ cs)) else none

-- An int from its 32 bits.
abbrev pub to_int : ℕ → ℤ
to_int k = if ltb k (2 ^ 31) then pos k else negsuc (2 ^ 32 - 1 - k)

-- What `%d` stores for the digits of a number, without and with a minus sign.
unfoldable pub plus : ℕ → ℤ
plus n = to_int (min n (2 ^ 63 - 1) % 2 ^ 32)

unfoldable pub minus : ℕ → ℤ
minus n = to_int ((2 ^ 32 - min n (2 ^ 63) % 2 ^ 32) % 2 ^ 32)

unfoldable pub signed : (ℕ → ℤ) → Option (ℕ × List ℕ) → Option (ℤ × List ℕ)
signed f none = none
signed f (some (n, rest)) = some (f n, rest)

-- The conversion `%d`.
unfoldable pub scan_int : List ℕ → Option (ℤ × List ℕ)
unfolding skip_space scan_unsigned plus minus signed
scan_int s = elim (skip_space s) [
  | [] ↦ none
  | c ∷ cs ↦
      if c == b'-'
      then signed minus (scan_unsigned cs)
      else if c == b'+'
      then signed plus (scan_unsigned cs)
      else signed plus (scan_unsigned (c ∷ cs))
]

unfoldable pub after_dot : List ℕ → Option (List ℕ)
after_dot [] = none
after_dot (c ∷ cs) = if c == b'.' then some cs else none

-- sscanf with `n` conversions `%d`, with dots between them: the numbers that were converted.
unfoldable pub scan_numbers : ℕ → List ℕ → List ℤ
unfolding scan_int after_dot
scan_numbers zero s = []
scan_numbers (suc n) s = elim (scan_int s) [
  | none ↦ []
  | some (x, rest) ↦ x ∷ elim (after_dot rest) [ none ↦ [] | some t ↦ scan_numbers n t ]
]

-- What the call of sscanf leaves in the variables, which were 0.
pub record Version : Type 0 where
  pub num : ℕ
  pub major : ℤ
  pub minor : ℤ
  pub patch : ℤ

unfoldable pub variable : ℕ → List ℤ → ℤ
variable i [] = pos 0
variable zero (x ∷ xs) = x
variable (suc i) (x ∷ xs) = variable i xs

unfoldable pub version_of : List ℤ → Version
unfolding variable
version_of xs = record {
  num = length xs;
  major = variable 0 xs;
  minor = variable 1 xs;
  patch = variable 2 xs;
}

-- CompareVersion, behind the two calls.
unfoldable pub compare_numbers : Version → Version → VersionComparison
unfolding less
compare_numbers a b =
    if ltb a.num 1 || ltb 3 a.num
    then version_error
    else if ltb b.num 1 || ltb 3 b.num
    then version_error
    else if less b.major a.major
    then version_greater
    else if less a.major b.major
    then version_smaller
    else if a.num == 1 || b.num == 1
    then version_equal
    else if less a.minor b.minor
    then version_smaller
    else if less b.minor a.minor
    then version_greater
    else if a.num == 2 || b.num == 2
    then version_equal
    else if less a.patch b.patch
    then version_smaller
    else if less b.patch a.patch
    then version_greater
    else version_equal

-- CompareVersion
unfoldable pub compare_version : List ℕ → List ℕ → VersionComparison
unfolding scan_numbers version_of compare_numbers
compare_version a b =
    compare_numbers (version_of (scan_numbers 3 a)) (version_of (scan_numbers 3 b))

abbrev pub of_bool : Bool → BooleanOrError
of_bool b = if b then boolean_true else boolean_false

-- `r == s` on VersionComparison
unfoldable pub same : VersionComparison → VersionComparison → Bool
same version_smaller version_smaller = true
same version_equal version_equal = true
same version_greater version_greater = true
same version_error version_error = true
same _ _ = false

-- CompareVersionExpression, behind the call of CompareVersion.
unfoldable pub answer : VersionComparison → List ℕ → BooleanOrError
unfolding same string_equal
answer r operator =
    if same r version_error
    then boolean_error
    else if string_equal operator (b'=' ∷ []) || string_equal operator (b'=' ∷ b'=' ∷ [])
    then of_bool (same r version_equal)
    else if string_equal operator (b'>' ∷ [])
    then of_bool (same r version_greater)
    else if string_equal operator (b'<' ∷ [])
    then of_bool (same r version_smaller)
    else if string_equal operator (b'>' ∷ b'=' ∷ [])
    then of_bool (same r version_greater || same r version_equal)
    else if string_equal operator (b'<' ∷ b'=' ∷ [])
    then of_bool (same r version_smaller || same r version_equal)
    else if string_equal operator (b'!' ∷ b'=' ∷ [])
    then of_bool (not (same r version_equal))
    else boolean_error

-- CompareVersionExpression
unfoldable pub compare_version_expression : List ℕ → List ℕ → List ℕ → BooleanOrError
unfolding compare_version answer
compare_version_expression a operator b = answer (compare_version a b) operator
