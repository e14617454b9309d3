-- ===== src/Sequence/Sort/Cut.antt =====
-- Parts of a list that has been partitioned: what holds of them, and how they count.
use libntech.Prelude.{
  ℕ, zero, suc, ◌+◌, ◌≤◌, ◌<◌, ◌≡◌, refl, ◌∙◌, Bool, true, false, inl, inr, some, List, [], ◌∷◌,
  ◌++◌, length, get_elem?, take, drop, arith, Bool-cases, All,
}
use libntech.Sequence.Sort.Exchange.{count, IsRearranged}

pub count-append :
    {A : Type 0} → (f : A → Bool) (xs ys : List A) → count f (xs ++ ys) ≡ count f xs + count f ys
unfolding count
count-append f [] ys = omega arith
count-append f (x ∷ xs) ys = omega (arith, count-append f xs ys)

pub count-length : {A : Type 0} → (xs : List A) → count (λ x. true) xs ≡ length xs
unfolding count
count-length [] = refl
count-length (x ∷ xs) = omega (arith, count-length xs)

-- Two cuts of a list.
pub count-cut :
    {A : Type 0}
    → (f : A → Bool) (r l : ℕ) (d : List A) → r ≤ l
    → count f (take r d) + (count f (drop r (take l d)) + count f (drop l d)) ≡ count f d
unfolding count
count-cut f zero zero d h = omega arith
count-cut f zero (suc l) [] h = refl
count-cut f zero (suc l) (x ∷ d) h = omega (arith, count-cut f zero l d (omega arith))
count-cut f (suc r) zero d h = absurd (omega arith)
count-cut f (suc r) (suc l) [] h = refl
count-cut f (suc r) (suc l) (x ∷ d) h = omega (arith, count-cut f r l d (omega (arith, h)))

module _ {A : Type 0} (P : A → Type 0) where
  pub slice-All :
      (d : List A) (r l : ℕ)
      → ((i : ℕ) (x : A) → r ≤ i → i < l → get_elem? d i ≡ some x → P x)
      → All P (drop r (take l d))
  slice-All d zero zero h = tt
  slice-All [] zero (suc l) h = tt
  slice-All (x ∷ d) zero (suc l) h = (
    h 0 x (omega arith) (omega arith) refl,
    slice-All d zero l (λ i y a b g. h (suc i) y (omega arith) (omega (arith, b)) g),
  )
  slice-All d (suc r) zero h = tt
  slice-All [] (suc r) (suc l) h = tt
  slice-All (x ∷ d) (suc r) (suc l) h =
      slice-All d r l (λ i y a b g. h (suc i) y (omega (arith, a)) (omega (arith, b)) g)

  pub drop-All :
      (d : List A) (l : ℕ)
      → ((i : ℕ) (x : A) → l ≤ i → get_elem? d i ≡ some x → P x)
      → All P (drop l d)
  drop-All [] zero h = tt
  drop-All (x ∷ d) zero h =
      (h 0 x (omega arith) refl, drop-All d zero (λ i y a g. h (suc i) y (omega arith) g))
  drop-All [] (suc l) h = tt
  drop-All (x ∷ d) (suc l) h = drop-All d l (λ i y a g. h (suc i) y (omega (arith, a)) g)

  module _ (f : A → Bool) (refuses : (x : A) → P x → f x ≡ false)
      (holds : (x : A) → f x ≡ false → P x) where
    count-All : (xs : List A) → All P xs → count f xs ≡ 0
    unfolding count
    count-All [] h = refl
    count-All (x ∷ xs) h = rw (refuses x h.0) (omega (arith, count-All xs h.1))

    All-count : (xs : List A) → count f xs ≡ 0 → All P xs
    unfolding count
    All-count [] h = tt
    All-count (x ∷ xs) h = elim (Bool-cases (f x)) [
      | inl p ↦ absurd (ground arith)
      | inr p ↦ (holds x p, All-count xs (ground arith))
    ]

    pub All-IsRearranged : (d e : List A) → IsRearranged e d → All P d → All P e
    All-IsRearranged d e r h = All-count e (r f ∙ count-All d h)
