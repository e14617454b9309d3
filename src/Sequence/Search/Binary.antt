-- ===== src/Sequence/Search/Binary.antt =====
-- SeqBinaryIndexOf: it ends, and answers rightly on an ordered sequence.
use Prim.Native.Nat.{Ordering}
use libntech.Prelude.{
  ℕ, zero, suc, ◌+◌, ◌/◌, ◌≤◌, ◌<◌, ◌≡◌, ◌≢◌, refl, ◌⊎◌, inl, inr, Option, none, some, List, arith,
  Ptr, read, add_size, sub_size, size_mod,
}
use native.Mathlib.Decide.{dec_lt}
use libntech.Sequence.{Seq}
use libntech.Sequence.Search.{Comparator, search_loop, binary_index_of}

Ordering-cases : (o : Ordering) → (o ≡ Ordering.eq) ⊎ ((o ≡ Ordering.gt) ⊎ (o ≡ Ordering.lt))
Ordering-cases Ordering.eq = inl refl
Ordering-cases Ordering.gt = inr (inl refl)
Ordering-cases Ordering.lt = inr (inr refl)

-- What a search must answer about the first `n` items of an array.
abbrev pub Answers : Comparator → Ptr → List Ptr → ℕ → Option ℕ → Type 0
Answers cmp key d n none = (i : ℕ) → i < n → cmp key (read d i) ≢ Ordering.eq
Answers cmp key d n (some i) = (i < n) × (cmp key (read d i) ≡ Ordering.eq)

-- The key is greater than the items of a first part, and less than those of a last part.
pub record IsOrdered (cmp : Comparator) (key : Ptr) (d : List Ptr) (n : ℕ) : Type 0 where
  pub rises :
      (i j : ℕ)
      → i ≤ j
      → j < n
      → cmp key (read d i) ≡ Ordering.lt
      → cmp key (read d j) ≡ Ordering.lt
  pub falls :
      (i j : ℕ)
      → i ≤ j
      → j < n
      → cmp key (read d j) ≡ Ordering.gt
      → cmp key (read d i) ≡ Ordering.gt

module _ (cmp : Comparator) (key : Ptr) (d : List Ptr) (n : ℕ) (o : IsOrdered cmp key d n)
    (small : n < size_mod) where
  -- The loop ends, and answers for the whole array, if the key is elsewhere outside its bounds.
  search_loop_lem :
      (fuel low high : ℕ)
      → low ≤ high
      → high ≤ n
      → high < low + fuel
      → ((i : ℕ) → i < low → cmp key (read d i) ≡ Ordering.gt)
      → ((i : ℕ) → high ≤ i → i < n → cmp key (read d i) ≡ Ordering.lt)
      → (r : Option ℕ) × (search_loop cmp key d fuel low high ≡ some r) × Answers cmp key d n r
  unfolding search_loop
  search_loop_lem zero low high p q f below above = absurd (omega arith)
  search_loop_lem (suc fuel) low high p q f below above = elim (dec_lt low high) [
    | no h ↦ (
      none,
      ground arith,
      λ i l e. elim (dec_lt i low) [ yes u ↦ cc (below i u) | no u ↦ cc (above i (omega arith) l) ],
    )
    | yes h ↦
        let m = add_size low (sub_size high low / 2) in
        let b : (low ≤ m) × (m < high) × (add_size m 1 ≡ suc m) = omega arith in
        elim (Ordering-cases (cmp key (read d m))) [
          | inl e ↦ (some m, ground (arith, e), (omega (arith, b), e))
          | inr (inl e) ↦
              let (r, run, ans) =
                search_loop_lem fuel (add_size m 1) high (omega (arith, b)) q (omega (arith, b))
                  (λ i l. o.falls i m (omega (arith, b)) (omega (arith, b)) e) above in
              (r, ground (arith, run, e), ans)
          | inr (inr e) ↦
              let (r, run, ans) =
                search_loop_lem fuel low m (omega (arith, b)) (omega (arith, b)) (omega (arith, b))
                  below (λ i k l. o.rises m i k l e) in
              (r, ground (arith, run, e), ans)
        ]
  ]

-- SeqBinaryIndexOf on a sequence of fewer than 2 ^ 64 items that is ordered for the key ends, and
-- answers with an index of an equal item, or with -1 if there is none.
pub binary_index_of_lem :
    (cmp : Comparator) (key : Ptr) (s : Seq)
    → s.length < size_mod
    → IsOrdered cmp key s.items s.length
    → (r : Option ℕ) × (binary_index_of cmp key s ≡ some r) × Answers cmp key s.items s.length r
unfolding binary_index_of
binary_index_of_lem cmp key s h o = elim (dec_lt 0 s.length) [
  | no p ↦ (none, ground arith, λ i l e. absurd (omega arith))
  | yes p ↦
      let (r, run, ans) =
        search_loop_lem cmp key s.items s.length o h (s.length + 1) 0 s.length (omega arith)
          (omega arith) (omega arith) (λ i l. absurd (omega arith))
          (λ i l k. absurd (omega arith)) in
      (r, ground (arith, run), ans)
]
