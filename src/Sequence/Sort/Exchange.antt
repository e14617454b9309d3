-- ===== src/Sequence/Sort/Exchange.antt =====
-- Items that are counted, and two items that change places.
use libntech.Prelude.{
  ℕ, zero, suc, ◌+◌, ◌<◌, ◌≡◌, ◌≢◌, refl, ap, sym, ◌∙◌, Bool, inl, inr, some, List, [], ◌∷◌,
  if◌then◌else◌, ◌==◌, length, get_elem?, set, arith, get_elem?-set_self, get_elem?-set_ne,
  Bool-cases,
}
use libntech.Sequence.Sort.{swap}

-- How many items pass a test.
unfoldable pub count : {A : Type 0} → (A → Bool) → List A → ℕ
count f [] = 0
count f (x ∷ xs) = (if f x then 1 else 0) + count f xs

-- The same items, each as often.
abbrev pub IsRearranged : {A : Type 0} → List A → List A → Type 0
IsRearranged {A = A} d e = (f : A → Bool) → count f d ≡ count f e

pub get_elem?-some :
    {A : Type 0} → (d : List A) (i : ℕ) → i < length d → (x : A) × (get_elem? d i ≡ some x)
get_elem?-some [] i h = absurd (omega arith)
get_elem?-some (x ∷ d) zero h = (x, refl)
get_elem?-some (x ∷ d) (suc i) h = get_elem?-some d i (omega (arith, h))

pub get_elem?-length :
    {A : Type 0} → (d : List A) (i : ℕ) {x : A} → get_elem? d i ≡ some x → i < length d
get_elem?-length [] i h = absurd (ground arith)
get_elem?-length (x ∷ d) zero h = omega arith
get_elem?-length (x ∷ d) (suc i) h = omega (arith, get_elem?-length d i h)

count-set :
    {A : Type 0}
    → (f : A → Bool) (d : List A) (i : ℕ) (x y : A) → get_elem? d i ≡ some x
    → count f (set d i y) + (if f x then 1 else 0) ≡ count f d + (if f y then 1 else 0)
unfolding count
count-set f [] i x y h = absurd (ground arith)
count-set f (z ∷ d) zero x y h = let e : z ≡ x = ground arith in rw e (omega arith)
count-set f (z ∷ d) (suc i) x y h = omega (arith, count-set f d i x y h)

-- Two items that have been exchanged.
module _ {A : Type 0} (d : List A) (i j : ℕ) {x y : A} (at_i : get_elem? d i ≡ some x)
    (at_j : get_elem? d j ≡ some y) where
  swap-some : swap d i j ≡ some (set (set d i y) j x)
  unfolding swap
  swap-some = rw at_i (rw at_j refl)

  between : get_elem? (set d i y) j ≡ some y
  between = elim (Bool-cases (i == j)) [
    | inl e ↦
        let same : i ≡ j = ground arith in
        rw (sym same) (get_elem?-set_self d i y (get_elem?-length d i at_i))
    | inr e ↦ get_elem?-set_ne d y (ground arith) ∙ at_j
  ]

  pub swap-IsRearranged : IsRearranged (set (set d i y) j x) d
  swap-IsRearranged f =
      omega (arith, count-set f d i x y at_i, count-set f (set d i y) j y x between)

  pub swapped_j : get_elem? (set (set d i y) j x) j ≡ some x
  swapped_j = get_elem?-set_self (set d i y) j x (get_elem?-length (set d i y) j between)

  pub swapped_i : get_elem? (set (set d i y) j x) i ≡ some y
  swapped_i = elim (Bool-cases (i == j)) [
    | inl e ↦
        let same : i ≡ j = ground arith in
        let equal : some x ≡ some y = sym at_i ∙ ap (get_elem? d) same ∙ at_j in
        ap (get_elem? (set (set d i y) j x)) same ∙ swapped_j ∙ equal
    | inr e ↦
        get_elem?-set_ne (set d i y) x (ground arith)
        ∙ get_elem?-set_self d i y (get_elem?-length d i at_i)
  ]

  pub swapped_else : (k : ℕ) → i ≢ k → j ≢ k → get_elem? (set (set d i y) j x) k ≡ get_elem? d k
  swapped_else k p q = get_elem?-set_ne (set d i y) x q ∙ get_elem?-set_ne d y p
