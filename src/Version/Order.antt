-- ===== src/Version/Order.antt =====
-- The order that CompareVersion decides, and the operators on it.
use libntech.Prelude.{
  ℕ, zero, suc, ◌≤◌, ◌<◌, ◌||◌, ◌≡◌, refl, ap, sym, ◌∙◌, true, false, inl, inr, List, [], ◌∷◌,
  if◌then◌else◌, ltb, length, arith, Bool-cases, Option-cases,
}
use libntech.Version.{
  same, of_bool, ℤ, pos, negsuc, less, VersionComparison, version_smaller, version_equal,
  version_greater, version_error, BooleanOrError, boolean_error, scan_int, after_dot, scan_numbers,
  version_of, compare_numbers, compare_version, answer, compare_version_expression,
}

-- The first numbers that differ decide; where one version has no more numbers, they are equal.
unfoldable pub lexicographic : List ℤ → List ℤ → VersionComparison
unfolding less
lexicographic [] ys = version_equal
lexicographic (x ∷ xs) [] = version_equal
lexicographic (x ∷ xs) (y ∷ ys) =
    let rest = lexicographic xs ys in
    if less x y then version_smaller else if less y x then version_greater else rest

-- The specification of CompareVersion, on the numbers that were read.
unfoldable pub order : List ℤ → List ℤ → VersionComparison
unfolding lexicographic
order [] ys = version_error
order (x ∷ xs) [] = version_error
order (x ∷ xs) (y ∷ ys) = lexicographic (x ∷ xs) (y ∷ ys)

unfoldable pub flip : VersionComparison → VersionComparison
flip version_smaller = version_greater
flip version_equal = version_equal
flip version_greater = version_smaller
flip version_error = version_error

less-asym : (x y : ℤ) → less x y ≡ true → less y x ≡ false
unfolding less
less-asym (pos m) (pos n) h = ground arith
less-asym (pos m) (negsuc n) h = absurd (ground arith)
less-asym (negsuc m) (pos n) h = refl
less-asym (negsuc m) (negsuc n) h = ground arith

less-connected : (x y : ℤ) → less x y ≡ false → less y x ≡ false → x ≡ y
unfolding less
less-connected (pos m) (pos n) h k = ap pos (ground arith)
less-connected (pos m) (negsuc n) h k = absurd (ground arith)
less-connected (negsuc m) (pos n) h k = absurd (ground arith)
less-connected (negsuc m) (negsuc n) h k = ap negsuc (ground arith)

-- The tests may come in either order.
tests-swap :
    (x y : ℤ) (r : VersionComparison)
    → (if less y x then version_greater else if less x y then version_smaller else r)
      ≡ (if less x y then version_smaller else if less y x then version_greater else r)
tests-swap x y r = elim (Bool-cases (less x y)) [
  | inl p ↦ let q = less-asym x y p in rw (p, q)
  | inr p ↦ rw p
]

pub lexicographic-flip : (xs ys : List ℤ) → flip (lexicographic xs ys) ≡ lexicographic ys xs
unfolding lexicographic flip
lexicographic-flip [] [] = refl
lexicographic-flip [] (y ∷ ys) = refl
lexicographic-flip (x ∷ xs) [] = refl
lexicographic-flip (x ∷ xs) (y ∷ ys) = elim (Bool-cases (less x y)) [
  | inl p ↦ let q = less-asym x y p in rw (p, q)
  | inr p ↦ elim (Bool-cases (less y x)) [
    | inl q ↦ rw (p, q)
    | inr q ↦ rw (p, q, lexicographic-flip xs ys)
  ]
]

order-flip : (xs ys : List ℤ) → flip (order xs ys) ≡ order ys xs
unfolding order flip
order-flip [] [] = refl
order-flip [] (y ∷ ys) = refl
order-flip (x ∷ xs) [] = refl
order-flip (x ∷ xs) (y ∷ ys) = lexicographic-flip (x ∷ xs) (y ∷ ys)

length-scan_numbers : (n : ℕ) (s : List ℕ) → length (scan_numbers n s) ≤ n
unfolding scan_numbers
length-scan_numbers zero s = omega arith
length-scan_numbers (suc n) s = elim (Option-cases (scan_int s)) [
  | inl e ↦ rw (length, e) (omega arith)
  | inr ((x, rest), e) ↦ elim (Option-cases (after_dot rest)) [
    | inl f ↦ rw (length, e, f) (omega arith)
    | inr (t, f) ↦ rw (length, e, f) (omega (arith, length-scan_numbers n t))
  ]
]

in_range : (n : ℕ) → n < 3 → (ltb (suc n) 1 || ltb 3 (suc n)) ≡ false
in_range n h = ground arith

compare_numbers-order :
    (xs ys : List ℤ)
    → length xs ≤ 3
    → length ys ≤ 3
    → compare_numbers (version_of xs) (version_of ys) ≡ order xs ys
unfolding compare_numbers version_of order lexicographic
compare_numbers-order [] ys h k = refl
compare_numbers-order (x ∷ xs) [] h k = rw (in_range (length xs) (omega (arith, h)))
compare_numbers-order (x ∷ []) (y ∷ []) h k = tests-swap x y (lexicographic [] [])
compare_numbers-order (x ∷ []) (y ∷ y' ∷ []) h k = tests-swap x y (lexicographic [] (y' ∷ []))
compare_numbers-order (x ∷ []) (y ∷ y' ∷ y'' ∷ []) h k =
    tests-swap x y (lexicographic [] (y' ∷ y'' ∷ []))
compare_numbers-order (x ∷ x' ∷ []) (y ∷ []) h k = tests-swap x y (lexicographic (x' ∷ []) [])
compare_numbers-order (x ∷ x' ∷ []) (y ∷ y' ∷ []) h k =
    tests-swap x y (lexicographic (x' ∷ []) (y' ∷ []))
compare_numbers-order (x ∷ x' ∷ []) (y ∷ y' ∷ y'' ∷ []) h k =
    tests-swap x y (lexicographic (x' ∷ []) (y' ∷ y'' ∷ []))
compare_numbers-order (x ∷ x' ∷ x'' ∷ []) (y ∷ []) h k =
    tests-swap x y (lexicographic (x' ∷ x'' ∷ []) [])
compare_numbers-order (x ∷ x' ∷ x'' ∷ []) (y ∷ y' ∷ []) h k =
    tests-swap x y (lexicographic (x' ∷ x'' ∷ []) (y' ∷ []))
compare_numbers-order (x ∷ x' ∷ x'' ∷ []) (y ∷ y' ∷ y'' ∷ []) h k =
    tests-swap x y (lexicographic (x' ∷ x'' ∷ []) (y' ∷ y'' ∷ []))
compare_numbers-order (x ∷ x' ∷ x'' ∷ z ∷ xs) (y ∷ ys) h k = absurd (omega (arith, h))
compare_numbers-order (x ∷ xs) (y ∷ y' ∷ y'' ∷ z ∷ ys) h k = absurd (omega (arith, k))

-- CompareVersion decides by the first numbers that differ, takes versions of which one goes on as
-- equal, and fails where either text does not begin with a number.
pub compare_version-order :
    (a b : List ℕ) → compare_version a b ≡ order (scan_numbers 3 a) (scan_numbers 3 b)
unfolding compare_version
compare_version-order a b =
    compare_numbers-order (scan_numbers 3 a) (scan_numbers 3 b) (length-scan_numbers 3 a)
      (length-scan_numbers 3 b)

pub compare_version-flip : (a b : List ℕ) → flip (compare_version a b) ≡ compare_version b a
compare_version-flip a b =
    ap flip (compare_version-order a b)
    ∙ order-flip (scan_numbers 3 a) (scan_numbers 3 b)
    ∙ sym (compare_version-order b a)

-- The operators as byte strings.
abbrev pub equals : List ℕ
equals = b'=' ∷ b'=' ∷ []

abbrev pub differs : List ℕ
differs = b'!' ∷ b'=' ∷ []

abbrev pub greater : List ℕ
greater = b'>' ∷ []

abbrev pub smaller : List ℕ
smaller = b'<' ∷ []

abbrev pub at_least : List ℕ
at_least = b'>' ∷ b'=' ∷ []

abbrev pub at_most : List ℕ
at_most = b'<' ∷ b'=' ∷ []

abbrev pub equal : List ℕ
equal = b'=' ∷ []

-- What an operator should say: whether the order is one of the two it allows, or an error.
abbrev pub verdict : VersionComparison → VersionComparison → VersionComparison → BooleanOrError
verdict version_error p q = boolean_error
verdict r p q = of_bool (same r p || same r q)

-- The answers to each operator, for an order of the versions.
pub record Answers (f : List ℕ → List ℕ → BooleanOrError) (b : List ℕ) (r : VersionComparison)
    : Type 0 where
  pub says_equal : f equal b ≡ verdict r version_equal version_equal
  pub says_equals : f equals b ≡ verdict r version_equal version_equal
  pub says_differs : f differs b ≡ verdict r version_smaller version_greater
  pub says_greater : f greater b ≡ verdict r version_greater version_greater
  pub says_smaller : f smaller b ≡ verdict r version_smaller version_smaller
  pub says_at_least : f at_least b ≡ verdict r version_greater version_equal
  pub says_at_most : f at_most b ≡ verdict r version_smaller version_equal

answer-Answers : (r : VersionComparison) (b : List ℕ) → Answers (λ o s. answer r o) b r
unfolding answer same
answer-Answers version_smaller b = record {
  says_equal = refl;
  says_equals = refl;
  says_differs = refl;
  says_greater = refl;
  says_smaller = refl;
  says_at_least = refl;
  says_at_most = refl;
}
answer-Answers version_equal b = record {
  says_equal = refl;
  says_equals = refl;
  says_differs = refl;
  says_greater = refl;
  says_smaller = refl;
  says_at_least = refl;
  says_at_most = refl;
}
answer-Answers version_greater b = record {
  says_equal = refl;
  says_equals = refl;
  says_differs = refl;
  says_greater = refl;
  says_smaller = refl;
  says_at_least = refl;
  says_at_most = refl;
}
answer-Answers version_error b = record {
  says_equal = refl;
  says_equals = refl;
  says_differs = refl;
  says_greater = refl;
  says_smaller = refl;
  says_at_least = refl;
  says_at_most = refl;
}

answers-flip :
    (r : VersionComparison)
    → (answer (flip r) greater ≡ answer r smaller)
      × (answer (flip r) at_least ≡ answer r at_most)
      × (answer (flip r) equals ≡ answer r equals)
unfolding answer flip
answers-flip version_smaller = (refl, refl, refl)
answers-flip version_equal = (refl, refl, refl)
answers-flip version_greater = (refl, refl, refl)
answers-flip version_error = (refl, refl, refl)

-- On any two texts, CompareVersionExpression answers each of its operators as the order that
-- CompareVersion returns says, and with an error for each of them where that is an error; `>` and
-- `>=` are `<` and `<=` with the versions exchanged, and `==` does not mind their order.
pub compare_version_expression-Answers :
    (a b : List ℕ)
    → Answers (compare_version_expression a) b (compare_version a b)
      × (compare_version_expression b greater a ≡ compare_version_expression a smaller b)
      × (compare_version_expression b at_least a ≡ compare_version_expression a at_most b)
      × (compare_version_expression b equals a ≡ compare_version_expression a equals b)
unfolding compare_version_expression
compare_version_expression-Answers a b =
    let (g, l, e) = answers-flip (compare_version a b) in
    let f = compare_version-flip a b in
    let all = answer-Answers (compare_version a b) b in
    (
      record {
        says_equal = all.says_equal;
        says_equals = all.says_equals;
        says_differs = all.says_differs;
        says_greater = all.says_greater;
        says_smaller = all.says_smaller;
        says_at_least = all.says_at_least;
        says_at_most = all.says_at_most;
      },
      ap (λ r. answer r greater) (sym f) ∙ g,
      ap (λ r. answer r at_least) (sym f) ∙ l,
      ap (λ r. answer r equals) (sym f) ∙ e,
    )
