-- ===== src/Json/Sort/Kept.antt =====
-- What holds of all items holds of all items that QuickSortRecursive returns.
use Prim.Native.Nat.{Ordering}
use libntech.Prelude.{
  ℕ, zero, suc, ◌-◌, ◌/◌, inl, inr, Option, none, some, List, [], ◌∷◌, ◌++◌, ltb, length, get_elem?,
  set, take, drop, Bool-cases, All, All-append,
}
use libntech.Sequence.Sort.{◌>>=◌, scan_up, scan_down, swap, exchange, partition, quick_sort}

-- A result that has been computed satisfies `Q`.
abbrev pub Gives : {B : Type 0} → (B → Type 0) → Option B → Type 0
Gives Q none = Unit
Gives Q (some b) = Q b

Gives-any : {B : Type 0} → (o : Option B) → Gives (λ b. Unit) o
Gives-any none = tt
Gives-any (some b) = tt

Gives-bind :
    {B C : Type 0}
    → (Q : B → Type 0) (R : C → Type 0) (o : Option B) (f : B → Option C) → Gives Q o
    → ((b : B) → Q b → Gives R (f b))
    → Gives R (o >>= f)
Gives-bind Q R none f h k = tt
Gives-bind Q R (some b) f h k = k b h

module _ {A : Type 0} (P : A → Type 0) where
  All-set : (d : List A) (i : ℕ) (y : A) → All P d → P y → All P (set d i y)
  All-set [] i y h p = tt
  All-set (x ∷ d) zero y h p = (p, h.1)
  All-set (x ∷ d) (suc i) y h p = (h.0, All-set d i y h.1 p)

  All-get : (d : List A) (i : ℕ) → All P d → Gives P (get_elem? d i)
  All-get [] i h = tt
  All-get (x ∷ d) zero h = h.0
  All-get (x ∷ d) (suc i) h = All-get d i h.1

  pub All-take : (n : ℕ) (d : List A) → All P d → All P (take n d)
  All-take zero d h = tt
  All-take (suc n) [] h = tt
  All-take (suc n) (x ∷ d) h = (h.0, All-take n d h.1)

  pub All-drop : (n : ℕ) (d : List A) → All P d → All P (drop n d)
  All-drop zero d h = h
  All-drop (suc n) [] h = tt
  All-drop (suc n) (x ∷ d) h = All-drop n d h.1

  swap-Gives : (d : List A) (i j : ℕ) → All P d → Gives (All P) (swap d i j)
  unfolding swap
  swap-Gives d i j h = Gives-bind P (All P) (get_elem? d i) _ (All-get d i h) (λ x p.
      Gives-bind P (All P) (get_elem? d j) _ (All-get d j h)
        (λ y q. All-set (set d i y) j x (All-set d i y h q) p))

  exchange-Gives :
      (d : List A) (l r : ℕ) → All P d → Gives (λ (s : List A × ℕ × ℕ). All P s.0) (exchange d l r)
  unfolding exchange
  exchange-Gives d l r h = elim (Bool-cases (ltb l r)) [
    | inl p ↦ rw p (Gives-bind (All P) _ (swap d l (r - 1)) _ (swap-Gives d l (r - 1) h) (λ e q. q))
    | inr p ↦ rw p h
  ]

  module _ (cmp : A → A → Ordering) where
    partition-Gives :
        (n : ℕ) (d : List A) (pivot : A) (l r : ℕ)
        → All P d
        → Gives (λ (s : List A × ℕ × ℕ). All P s.0) (partition cmp n d pivot l r)
    unfolding partition
    partition-Gives zero d pivot l r h = tt
    partition-Gives (suc n) d pivot l r h = elim (Bool-cases (ltb l r)) [
      | inr p ↦ rw (partition, p) h
      | inl p ↦
          rw (partition, p)
            (Gives-bind (λ i. Unit) _ (scan_up cmp (suc (length d)) d pivot l) _
              (Gives-any (scan_up cmp (suc (length d)) d pivot l))
              (λ i _.
                Gives-bind (λ j. Unit) _ (scan_down cmp d pivot r) _
                  (Gives-any (scan_down cmp d pivot r))
                  (λ j _.
                    Gives-bind (λ (s : List A × ℕ × ℕ). All P s.0) _ (exchange d i j) _
                      (exchange-Gives d i j h) (λ s q. partition-Gives n s.0 pivot s.1 s.2 q))))
    ]

    pub quick_sort-Gives : (n : ℕ) (d : List A) → All P d → Gives (All P) (quick_sort cmp n d)
    unfolding quick_sort
    quick_sort-Gives zero d h = tt
    quick_sort-Gives (suc n) d h = elim (Bool-cases (ltb (length d) 2)) [
      | inl p ↦ rw (quick_sort, p) h
      | inr p ↦
          rw (quick_sort, p)
            (Gives-bind (λ x. Unit) _ (get_elem? d (length d / 2)) _ (Gives-any _)
              (λ pivot _.
                Gives-bind (λ (s : List A × ℕ × ℕ). All P s.0) _
                  (partition cmp (suc (length d)) d pivot 0 (length d)) _
                  (partition-Gives (suc (length d)) d pivot 0 (length d) h)
                  (λ s q.
                    Gives-bind (All P) _ (quick_sort cmp n (take s.2 s.0)) _
                      (quick_sort-Gives n (take s.2 s.0) (All-take s.2 s.0 q))
                      (λ first a.
                        Gives-bind (All P) _ (quick_sort cmp n (drop s.1 s.0)) _
                          (quick_sort-Gives n (drop s.1 s.0) (All-drop s.1 s.0 q))
                          (λ last b. All-append P first (drop s.2 (take s.1 s.0) ++ last) a (
                            All-append P (drop s.2 (take s.1 s.0)) last
                              (All-drop s.2 (take s.1 s.0) (All-take s.1 s.0 q)) b))))))
    ]
