-- ===== src/Version/Tests.antt =====
-- The comparison of versions at the texts of the unit test.
use libntech.Prelude.{ℕ, List, ◌≡◌, refl, [], ◌∷◌, arith, inl, inr}
use libntech.Version.{
  version_smaller, version_equal, version_greater, version_error, boolean_error, compare_version,
  compare_version_expression, after_dot,
}
use libntech.Version.Order.{
  equals, greater, smaller, at_least, at_most, lexicographic, Answers,
  compare_version_expression-Answers,
}
use libntech.Version.Written.{digits, dotted, value_from, no_digit, compare_version-written}

-- 3.15.0-2
abbrev patched : List ℕ
patched = b'3' ∷ b'.' ∷ b'1' ∷ b'5' ∷ b'.' ∷ b'0' ∷ b'-' ∷ b'2' ∷ []

-- 3.9
abbrev minor : List ℕ
minor = b'3' ∷ b'.' ∷ b'9' ∷ []

-- 3.
abbrev dot : List ℕ
dot = b'3' ∷ b'.' ∷ []

patched-minor : compare_version patched minor ≡ version_greater
unfolding compare_version
patched-minor = refl

dot-patched : compare_version dot patched ≡ version_equal
unfolding compare_version
dot-patched = refl

empty-dot : compare_version [] dot ≡ version_error
unfolding compare_version
empty-dot = refl

no_operator : compare_version_expression patched (b'~' ∷ []) minor ≡ boolean_error
unfolding compare_version_expression
no_operator = refl

compare_version-written_example : compare_version minor patched ≡ version_smaller
unfolding dotted lexicographic value_from no_digit after_dot
compare_version-written_example =
    compare_version-written ((b'3' ∷ []) ∷ (b'9' ∷ []) ∷ [])
      ((b'3' ∷ []) ∷ (b'1' ∷ b'5' ∷ []) ∷ (b'0' ∷ []) ∷ []) [] (b'-' ∷ b'2' ∷ [])
      record {
        numbers = (
          digits b'3' [] (refl, tt) (omega arith),
          (digits b'9' [] (refl, tt) (omega arith), tt),
        );
        some_number = omega arith;
        at_most = omega arith;
        ended = refl;
        stopped = inr refl;
      }
      record {
        numbers = (
          digits b'3' [] (refl, tt) (omega arith),
          (
            digits b'1' (b'5' ∷ []) (refl, (refl, tt)) (omega arith),
            (digits b'0' [] (refl, tt) (omega arith), tt),
          ),
        );
        some_number = omega arith;
        at_most = omega arith;
        ended = refl;
        stopped = inl refl;
      }

-- 4294967299 is read as 3.
wrapped :
    compare_version (b'4' ∷ b'2' ∷ b'9' ∷ b'4' ∷ b'9' ∷ b'6' ∷ b'7' ∷ b'2' ∷ b'9' ∷ b'9' ∷ []) dot
    ≡ version_equal
unfolding compare_version
wrapped = refl

compare_version_expression-Answers_example :
    Answers (compare_version_expression patched) minor version_greater
    × (compare_version_expression minor greater patched
        ≡ compare_version_expression patched smaller minor)
    × (compare_version_expression minor at_least patched
        ≡ compare_version_expression patched at_most minor)
    × (compare_version_expression minor equals patched
        ≡ compare_version_expression patched equals minor)
unfolding compare_version
compare_version_expression-Answers_example = compare_version_expression-Answers patched minor
