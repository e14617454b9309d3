-- ===== src/Sequence/Sort/Scan.antt =====
-- The two scans of QuickSortRecursive, given an item at which each stops.
use Prim.Native.Nat.{Ordering}
use libntech.Prelude.{
  ℕ, zero, suc, ◌+◌, ◌-◌, ◌≤◌, ◌<◌, ◌≡◌, ◌≢◌, refl, ap, sym, ◌∙◌, ◌⊎◌, inl, inr, some, List, ◌==◌,
  length, get_elem?, arith, Bool-cases,
}
use libntech.Sequence.Sort.{scan_up, scan_down}
use libntech.Sequence.Sort.Exchange.{get_elem?-some, get_elem?-length}

Ordering-cases : (o : Ordering) → (o ≡ Ordering.eq) ⊎ ((o ≡ Ordering.gt) ⊎ (o ≡ Ordering.lt))
Ordering-cases Ordering.eq = inl refl
Ordering-cases Ordering.gt = inr (inl refl)
Ordering-cases Ordering.lt = inr (inr refl)

lt-ne-gt : Ordering.lt ≢ Ordering.gt
lt-ne-gt h = ground arith

some-equal : {A : Type 0} → {x y : A} → some x ≡ some y → x ≡ y
some-equal h = ground arith

-- At one index there is one item.
pub get_elem?-equal :
    {A : Type 0}
    → (d : List A) (i k : ℕ) {x y : A} → i ≡ k
    → get_elem? d i ≡ some x
    → get_elem? d k ≡ some y
    → x ≡ y
get_elem?-equal d i k e g h = some-equal (sym g ∙ ap (get_elem? d) e ∙ h)

module _ {A : Type 0} (cmp : A → A → Ordering) (pivot : A) where
  abbrev pub IsLower : A → Type 0
  IsLower x = cmp x pivot ≢ Ordering.gt

  abbrev pub IsUpper : A → Type 0
  IsUpper x = cmp x pivot ≢ Ordering.lt

  -- The items before `l` are not greater than the pivot, those from `r` on are not less.
  pub record IsSplit (d : List A) (l r : ℕ) : Type 0 where
    pub below : (i : ℕ) (x : A) → i < l → get_elem? d i ≡ some x → IsLower x
    pub above : (i : ℕ) (x : A) → r ≤ i → get_elem? d i ≡ some x → IsUpper x

  -- An item at which a scan stops bounds it.
  pub scan_up-stops :
      (n : ℕ) (d : List A) (l k : ℕ) (y : A)
      → get_elem? d k ≡ some y
      → IsUpper y
      → l ≤ k
      → k - l < n
      → (i : ℕ) × (x : A) × (scan_up cmp n d pivot l ≡ some i)
        × (l ≤ i)
        × (i ≤ k)
        × (get_elem? d i ≡ some x)
        × IsUpper x
        × ((m : ℕ) (z : A) → l ≤ m → m < i → get_elem? d m ≡ some z → IsLower z)
  unfolding scan_up
  scan_up-stops zero d l k y g u h b = absurd (omega arith)
  scan_up-stops (suc n) d l k y g u h b =
      let (x, at_l) = get_elem?-some d l (omega (arith, h, get_elem?-length d k g)) in
      elim (Ordering-cases (cmp x pivot)) [
        | inl o ↦ (
          l,
          x,
          rw (scan_up, at_l, o) refl,
          omega arith,
          h,
          at_l,
          (λ e. ground arith),
          (λ m z a c q p. omega arith),
        )
        | inr (inl o) ↦ (
          l,
          x,
          rw (scan_up, at_l, o) refl,
          omega arith,
          h,
          at_l,
          (λ e. ground arith),
          (λ m z a c q p. omega arith),
        )
        | inr (inr o) ↦
            let apart : l ≢ k =
              λ e. u (ap (λ t. cmp t pivot) (sym (get_elem?-equal d l k e at_l g)) ∙ o) in
            let (i, t, q, a, c, at_i, up, low) =
              scan_up-stops n d (l + 1) k y g u (omega (arith, h, apart))
                (omega (arith, b, h, apart)) in
            (
              i,
              t,
              rw (scan_up, at_l, o) q,
              omega (arith, a),
              c,
              at_i,
              up,
              λ m z a c q. elim (Bool-cases (m == l)) [
                | inl e ↦ λ p. lt-ne-gt (
                    sym o ∙ ap (λ t. cmp t pivot) (get_elem?-equal d l m (ground arith) at_l q) ∙ p)
                | inr e ↦ low m z (ground arith) c q
              ],
            )
      ]

  pub scan_down-stops :
      (d : List A) (r k : ℕ) (y : A)
      → get_elem? d k ≡ some y
      → IsLower y
      → k < r
      → r ≤ length d
      → (j : ℕ) × (x : A) × (scan_down cmp d pivot r ≡ some (suc j))
        × (k ≤ j)
        × (j < r)
        × (get_elem? d j ≡ some x)
        × IsLower x
        × ((m : ℕ) (z : A) → j < m → m < r → get_elem? d m ≡ some z → IsUpper z)
  unfolding scan_down
  scan_down-stops d zero k y g u h b = absurd (omega arith)
  scan_down-stops d (suc r) k y g u h b =
      let (x, at_r) = get_elem?-some d r (omega (arith, b)) in
      elim (Ordering-cases (cmp x pivot)) [
        | inl o ↦ (
          r,
          x,
          rw (scan_down, at_r, o) refl,
          omega arith,
          omega arith,
          at_r,
          (λ e. ground arith),
          (λ m z a c q p. omega arith),
        )
        | inr (inr o) ↦ (
          r,
          x,
          rw (scan_down, at_r, o) refl,
          omega arith,
          omega arith,
          at_r,
          (λ e. ground arith),
          (λ m z a c q p. omega arith),
        )
        | inr (inl o) ↦
            let apart : r ≢ k =
              λ e. u (ap (λ t. cmp t pivot) (sym (get_elem?-equal d r k e at_r g)) ∙ o) in
            let (j, t, q, a, c, at_j, lower, up) =
              scan_down-stops d r k y g u (omega (arith, h, apart)) (omega (arith, b)) in
            (
              j,
              t,
              rw (scan_down, at_r, o) q,
              a,
              omega (arith, c),
              at_j,
              lower,
              λ m z a c q. elim (Bool-cases (m == r)) [
                | inl e ↦ λ p. lt-ne-gt (
                    sym p ∙ ap (λ t. cmp t pivot) (get_elem?-equal d m r (ground arith) q at_r) ∙ o)
                | inr e ↦ up m z a (ground arith) q
              ],
            )
      ]
