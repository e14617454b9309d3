-- ===== src/Json/Sort/Keys.antt =====
-- The order of keys, and the keys of an object before and after sorting.
use Prim.Native.Nat.{Ordering}
use libntech.Prelude.{
  ℕ, ◌≤◌, ◌≡◌, ◌≢◌, refl, ap, ◌∙◌, Bool, true, false, inl, inr, List, [], ◌∷◌, ◌==◌, arith,
  Bool-cases, All, subst, subst,
}
use libntech.Json.{Json}
use libntech.Json.Parser.{string_equal}
use libntech.Json.Sort.{strcmp, property_compare}
use libntech.Sequence.Sort.Exchange.{count, IsRearranged}
use libntech.Sequence.Sort.Sorted.{IsPreorder}

strcmp_self : (s : List ℕ) → strcmp s s ≡ Ordering.eq
unfolding strcmp
strcmp_self [] = refl
strcmp_self (a ∷ s) = ground (arith, strcmp_self s)

strcmp_flip : (s t : List ℕ) → strcmp s t ≢ Ordering.lt → strcmp t s ≢ Ordering.gt
unfolding strcmp
strcmp_flip [] [] h e = ground arith
strcmp_flip [] (b ∷ t) h e = ground arith
strcmp_flip (a ∷ s) [] h e = ground arith
strcmp_flip (a ∷ s) (b ∷ t) h e = elim (Bool-cases (a == b)) [
  | inl p ↦ strcmp_flip s t (λ q. ground arith) (ground arith)
  | inr p ↦ ground arith
]

strcmp_trans :
    (s t u : List ℕ)
    → strcmp s t ≢ Ordering.gt
    → strcmp t u ≢ Ordering.gt
    → strcmp s u ≢ Ordering.gt
unfolding strcmp
strcmp_trans [] t [] h k e = ground arith
strcmp_trans [] t (c ∷ u) h k e = ground arith
strcmp_trans (a ∷ s) [] u h k e = ground arith
strcmp_trans (a ∷ s) (b ∷ t) [] h k e = ground arith
strcmp_trans (a ∷ s) (b ∷ t) (c ∷ u) h k e = elim (Bool-cases (a == b)) [
  | inr p ↦ ground arith
  | inl p ↦ elim (Bool-cases (b == c)) [
    | inr q ↦ ground arith
    | inl q ↦ strcmp_trans s t u (λ z. ground arith) (λ z. ground arith) (ground arith)
  ]
]

-- strcmp orders the keys.
pub property_compare-IsPreorder : IsPreorder property_compare
property_compare-IsPreorder = record {
  self = λ p. strcmp_self p.0;
  flip = λ p q. strcmp_flip p.0 q.0;
  trans = λ p q r. strcmp_trans p.0 q.0 r.0;
}

pub string_equal_iff : (s t : List ℕ) → string_equal s t ≡ true → s ≡ t
unfolding string_equal
string_equal_iff [] [] h = refl
string_equal_iff [] (b ∷ t) h = ground arith
string_equal_iff (a ∷ s) [] h = ground arith
string_equal_iff (a ∷ s) (b ∷ t) h =
    let rest : string_equal s t ≡ true = ground arith in
    let first : a ≡ b = ground arith in
    ap (λ l. a ∷ l) (string_equal_iff s t rest) ∙ ap (λ x. x ∷ t) first

pub string_equal_self : (s : List ℕ) → string_equal s s ≡ true
unfolding string_equal
string_equal_self [] = refl
string_equal_self (a ∷ s) = ground (arith, string_equal_self s)

-- Which items have a key.
abbrev pub has_key : List ℕ → List ℕ × Json → Bool
has_key k p = string_equal p.0 k

abbrev pub IsDistinct : List (List ℕ × Json) → Type 0
IsDistinct l = (k : List ℕ) → count (has_key k) l ≤ 1

-- Each item has another key than those behind it.
abbrev pub IsPairwise : List (List ℕ × Json) → Type 0
IsPairwise [] = Unit
IsPairwise (p ∷ l) = All (λ q. has_key p.0 q ≡ false) l × IsPairwise l

count-absent :
    (k : List ℕ) (l : List (List ℕ × Json))
    → All (λ q. has_key k q ≡ false) l
    → count (has_key k) l ≡ 0
unfolding count
count-absent k [] h = refl
count-absent k (p ∷ l) h = rw (h.0) (omega (arith, count-absent k l h.1))

absent-count :
    (k : List ℕ) (l : List (List ℕ × Json))
    → count (has_key k) l ≡ 0
    → All (λ q. has_key k q ≡ false) l
unfolding count
absent-count k [] h = tt
absent-count k (p ∷ l) h = elim (Bool-cases (has_key k p)) [
  | inl e ↦ absurd (ground arith)
  | inr e ↦ (e, absent-count k l (ground arith))
]

IsPairwise-count : (l : List (List ℕ × Json)) → IsPairwise l → IsDistinct l
unfolding count
IsPairwise-count [] h k = omega arith
IsPairwise-count (p ∷ l) h k = elim (Bool-cases (has_key k p)) [
  | inl e ↦
      let same : p.0 ≡ k = string_equal_iff p.0 k e in
      let none_left : count (has_key k) l ≡ 0 =
        count-absent k l (subst (λ m. All (λ q. has_key m q ≡ false) l) same h.0) in
      rw e (omega (arith, none_left))
  | inr e ↦ rw e (omega (arith, IsPairwise-count l h.1 k))
]

count-IsPairwise : (l : List (List ℕ × Json)) → IsDistinct l → IsPairwise l
unfolding count
count-IsPairwise [] h = tt
count-IsPairwise (p ∷ l) h = (
  absent-count p.0 l (ground (arith, string_equal_self p.0, h p.0)),
  count-IsPairwise l (λ k. omega (arith, h k)),
)

pub IsPairwise-IsRearranged :
    (d e : List (List ℕ × Json)) → IsRearranged e d → IsPairwise d → IsPairwise e
IsPairwise-IsRearranged d e r h =
    count-IsPairwise e (λ k. omega (arith, r (has_key k), IsPairwise-count d h k))
