-- ===== src/Version/Written.antt =====
-- Versions as they are written: digits with dots between them, and whatever follows.
use libntech.Prelude.{
  ◌%◌, ◌^◌, min, ℕ, zero, suc, ◌+◌, ◌-◌, ◌*◌, ◌≤◌, ◌<◌, ◌≡◌, refl, ap, ap₂, sym, subst, ◌∙◌, Bool,
  true, false, ◌⊎◌, inl, inr, none, some, List, [], ◌∷◌, ◌++◌, map, if◌then◌else◌, ◌==◌,
  append_assoc, length, arith, All, Option-cases,
}
use libntech.Version.{
  plus, to_int, ℤ, pos, is_space, is_decimal, skip_space, scan_digits, scan_unsigned, signed,
  scan_int, after_dot, scan_numbers, compare_version,
}
use libntech.Version.Order.{order, lexicographic, compare_version-order}

-- The value of digits, the highest first, after a value.
unfoldable pub value_from : ℕ → List ℕ → ℕ
value_from n [] = n
value_from n (c ∷ cs) = value_from (10 * n + (c - 48)) cs

abbrev pub value : List ℕ → ℤ
value ds = pos (value_from 0 ds)

plus-pos : (n : ℕ) → n < 2 ^ 31 → plus n ≡ pos n
unfolding plus
plus-pos n h = let k : min n (2 ^ 63 - 1) % 2 ^ 32 ≡ n = omega arith in ap to_int k ∙ ground arith

-- The digits of one number that fits an int.
pub data IsNumber : List ℕ → Type 0 where
  digits :
      (c : ℕ) (cs : List ℕ)
      → All (λ d. is_decimal d ≡ true) (c ∷ cs)
      → value_from 0 (c ∷ cs) < 2 ^ 31
      → IsNumber (c ∷ cs)

-- What may follow the last number: nothing that goes on with it.
unfoldable pub no_digit : List ℕ → Bool
no_digit [] = true
no_digit (c ∷ cs) = if is_decimal c then false else true

-- Numbers with dots between them.
unfoldable pub dotted : List (List ℕ) → List ℕ
dotted [] = []
dotted (ds ∷ []) = ds
dotted (ds ∷ es ∷ dss) = ds ++ b'.' ∷ dotted (es ∷ dss)

scan_digits-written :
    (ds rest : List ℕ) (n : ℕ)
    → All (λ d. is_decimal d ≡ true) ds
    → no_digit rest ≡ true
    → scan_digits n (ds ++ rest) ≡ (value_from n ds, rest)
unfolding scan_digits value_from no_digit
scan_digits-written [] [] n h k = refl
scan_digits-written [] (c ∷ rest) n h k = let t : is_decimal c ≡ false = ground arith in rw t
scan_digits-written (d ∷ ds) rest n (h, hs) k =
    rw (h, scan_digits-written ds rest (10 * n + (d - 48)) hs k)

scan_unsigned-written :
    (c : ℕ) (cs rest : List ℕ)
    → All (λ d. is_decimal d ≡ true) (c ∷ cs)
    → no_digit rest ≡ true
    → scan_unsigned (c ∷ (cs ++ rest)) ≡ some (value_from 0 (c ∷ cs), rest)
unfolding scan_unsigned
scan_unsigned-written c cs rest (h, hs) k =
    subst
      (λ b.
        (if b then some (scan_digits 0 (c ∷ (cs ++ rest))) else none)
        ≡ some (value_from 0 (c ∷ cs), rest))
      (sym h) (ap some (scan_digits-written (c ∷ cs) rest 0 (h, hs) k))

scan_int-written :
    (ds rest : List ℕ)
    → IsNumber ds
    → no_digit rest ≡ true
    → scan_int (ds ++ rest) ≡ some (value ds, rest)
unfolding scan_int signed skip_space
scan_int-written _ rest (digits c cs (h, hs) small) k =
    let s : is_space c ≡ false = ground arith in
    let m : (c == b'-') ≡ false = ground arith in
    let p : (c == b'+') ≡ false = ground arith in
    rw (scan_int, skip_space, s, m, p, scan_unsigned-written c cs rest (h, hs) k, plus-pos _ small)

scan_numbers-written :
    (n : ℕ) (ds : List ℕ) (dss : List (List ℕ)) (rest : List ℕ)
    → All IsNumber (ds ∷ dss)
    → length (ds ∷ dss) ≤ n
    → no_digit rest ≡ true
    → (length (ds ∷ dss) ≡ n) ⊎ (after_dot rest ≡ none)
    → scan_numbers n (dotted (ds ∷ dss) ++ rest) ≡ map value (ds ∷ dss)
unfolding scan_numbers dotted no_digit
scan_numbers-written zero ds dss rest h k d e = absurd (omega (arith, k))
scan_numbers-written (suc n) ds [] rest (h, hs) k d (inl e) =
    let z : n ≡ 0 = omega (arith, e) in
    elim (Option-cases (after_dot rest)) [
      | inl f ↦ rw (scan_numbers, scan_int-written ds rest h d, f)
      | inr (t, f) ↦ rw (scan_numbers, scan_int-written ds rest h d, f, z, scan_numbers)
    ]
scan_numbers-written (suc n) ds [] rest (h, hs) k d (inr e) =
    rw (scan_numbers, scan_int-written ds rest h d, e)
scan_numbers-written (suc n) ds (es ∷ dss) rest (h, hs) k d e =
    let more = dotted (es ∷ dss) ++ rest in
    let apart : dotted (ds ∷ es ∷ dss) ++ rest ≡ ds ++ b'.' ∷ more =
      append_assoc ds (b'.' ∷ dotted (es ∷ dss)) rest in
    rw (
      apart,
      scan_numbers,
      scan_int-written ds (b'.' ∷ more) h refl,
      after_dot,
      scan_numbers-written n es dss rest hs (omega (arith, k)) d (ground (arith, e)),
    )

-- A text that begins with a version of one to three numbers, which what follows does not continue.
pub record IsVersion (dss : List (List ℕ)) (rest : List ℕ) : Type 0 where
  pub numbers : All IsNumber dss
  pub some_number : 0 < length dss
  pub at_most : length dss ≤ 3
  pub ended : no_digit rest ≡ true
  pub stopped : (length dss ≡ 3) ⊎ (after_dot rest ≡ none)

scan_numbers-IsVersion :
    (dss : List (List ℕ)) (rest : List ℕ)
    → IsVersion dss rest
    → scan_numbers 3 (dotted dss ++ rest) ≡ map value dss
scan_numbers-IsVersion [] rest v = absurd (omega (arith, v.some_number))
scan_numbers-IsVersion (ds ∷ dss) rest v =
    scan_numbers-written 3 ds dss rest v.numbers v.at_most v.ended v.stopped

order-map :
    (xs ys : List (List ℕ))
    → 0 < length xs
    → 0 < length ys
    → order (map value xs) (map value ys) ≡ lexicographic (map value xs) (map value ys)
unfolding order
order-map [] ys h k = absurd (omega (arith, h))
order-map (x ∷ xs) [] h k = absurd (omega (arith, k))
order-map (x ∷ xs) (y ∷ ys) h k = refl

-- CompareVersion of two texts that begin with one to three numbers in digits, each below 2 ^ 31, with
-- dots between them, decides by the first numbers that differ, whatever follows them if it is no digit and, after
-- fewer than three numbers, no dot; versions of which one only goes on are equal.
pub compare_version-written :
    (xs ys : List (List ℕ)) (r s : List ℕ)
    → IsVersion xs r
    → IsVersion ys s
    → compare_version (dotted xs ++ r) (dotted ys ++ s)
      ≡ lexicographic (map value xs) (map value ys)
compare_version-written xs ys r s v w =
    compare_version-order (dotted xs ++ r) (dotted ys ++ s)
    ∙ ap₂ order (scan_numbers-IsVersion xs r v) (scan_numbers-IsVersion ys s w)
    ∙ order-map xs ys v.some_number w.some_number
