-- ===== src/Sequence/Sort/Sorted.antt =====
-- QuickSortRecursive and SeqSort: they end, and leave the same items in order.
use Prim.Native.Nat.{Ordering}
use libntech.Prelude.{
  ℕ, zero, suc, ◌+◌, ◌-◌, ◌/◌, ◌≤◌, ◌<◌, ◌≡◌, ◌≢◌, refl, ap, ◌∙◌, Bool, true, false, inl, inr, some,
  List, [], ◌∷◌, ◌++◌, ◌==◌, ltb, length, get_elem?, take, drop, arith, Bool-cases, All, All-append,
  ◌^◌, int_rounds, Ptr, take-append_le, take-all, length-take, length-drop, length-append,
}
use libntech.Sequence.{Seq, new}
use libntech.Sequence.Ranges.{get_range-some}
use libntech.Sequence.Growth.{contents, IsValid, length-contents, new-IsValid}
use libntech.Sequence.Search.{Comparator}
use libntech.Sequence.Sort.{◌>>=◌, quick_sort, partition, sort, soft_sort}
use libntech.Sequence.Sort.Exchange.{count, IsRearranged, get_elem?-some}
use libntech.Sequence.Sort.Scan.{IsLower, IsUpper, IsSplit}
use libntech.Sequence.Sort.Partition.{partition-Partitioned}
use libntech.Sequence.Sort.Cut.{
  count-append, count-length, count-cut, slice-All, drop-All, All-IsRearranged,
}

module _ {A : Type 0} (cmp : A → A → Ordering) where
  -- The comparison orders the items, if not strictly.
  pub record IsPreorder : Type 0 where
    pub self : (x : A) → cmp x x ≡ Ordering.eq
    pub flip : (x y : A) → cmp x y ≢ Ordering.lt → cmp y x ≢ Ordering.gt
    pub trans : (x y z : A) → cmp x y ≢ Ordering.gt → cmp y z ≢ Ordering.gt → cmp x z ≢ Ordering.gt

  -- No item is greater than one behind it.
  abbrev pub IsSorted : List A → Type 0
  IsSorted [] = Unit
  IsSorted (x ∷ xs) = All (λ y. cmp x y ≢ Ordering.gt) xs × IsSorted xs

  module _ (order : IsPreorder) (pivot : A) where
    lower-below :
        (x : A) (ys : List A)
        → IsLower cmp pivot x
        → All (IsUpper cmp pivot) ys
        → All (λ y. cmp x y ≢ Ordering.gt) ys
    lower-below x [] a h = tt
    lower-below x (y ∷ ys) a h =
        (order.trans x pivot y a (order.flip y pivot h.0), lower-below x ys a h.1)

    IsSorted-append :
        (xs ys : List A)
        → IsSorted xs
        → IsSorted ys
        → All (IsLower cmp pivot) xs
        → All (IsUpper cmp pivot) ys
        → IsSorted (xs ++ ys)
    IsSorted-append [] ys a b l u = b
    IsSorted-append (x ∷ xs) ys a b l u =
        (All-append _ xs ys a.0 (lower-below x ys l.0 u), IsSorted-append xs ys a.1 b l.1 u)

    -- Items that are equal to the pivot are in order.
    IsSorted-equal :
        (xs : List A) → All (IsLower cmp pivot) xs → All (IsUpper cmp pivot) xs → IsSorted xs
    IsSorted-equal [] l u = tt
    IsSorted-equal (x ∷ xs) l u = (lower-below x xs l.0 u.1, IsSorted-equal xs l.1 u.1)

  is_greater : A → A → Bool
  is_greater pivot x = elim (cmp x pivot) [
    | Ordering.gt ↦ true
    | Ordering.eq ↦ false
    | Ordering.lt ↦ false
  ]

  is_less : A → A → Bool
  is_less pivot x = elim (cmp x pivot) [
    | Ordering.lt ↦ true
    | Ordering.eq ↦ false
    | Ordering.gt ↦ false
  ]

  IsLower-kept :
      (pivot : A) (d e : List A)
      → IsRearranged e d
      → All (IsLower cmp pivot) d
      → All (IsLower cmp pivot) e
  unfolding is_greater
  IsLower-kept pivot =
      All-IsRearranged (IsLower cmp pivot) (is_greater pivot) (λ x h. ground arith)
        (λ x h. ground arith)

  IsUpper-kept :
      (pivot : A) (d e : List A)
      → IsRearranged e d
      → All (IsUpper cmp pivot) d
      → All (IsUpper cmp pivot) e
  unfolding is_less
  IsUpper-kept pivot =
      All-IsRearranged (IsUpper cmp pivot) (is_less pivot) (λ x h. ground arith)
        (λ x h. ground arith)

  short-IsSorted : (d : List A) → length d < 2 → IsSorted d
  short-IsSorted [] h = tt
  short-IsSorted (x ∷ []) h = (tt, tt)
  short-IsSorted (x ∷ y ∷ d) h = absurd (omega arith)

  quick_sort_short :
      (n : ℕ) (d : List A) → ltb (length d) 2 ≡ true → quick_sort cmp (suc n) d ≡ some d
  unfolding quick_sort
  quick_sort_short n d p = rw (quick_sort, p) refl

  quick_sort_long :
      (n : ℕ) (d : List A) (pivot : A) (e first last : List A) (l r : ℕ)
      → ltb (length d) 2 ≡ false
      → get_elem? d (length d / 2) ≡ some pivot
      → partition cmp (suc (length d)) d pivot 0 (length d) ≡ some (e, l, r)
      → quick_sort cmp n (take r e) ≡ some first
      → quick_sort cmp n (drop l e) ≡ some last
      → quick_sort cmp (suc n) d ≡ some (first ++ (drop r (take l e) ++ last))
  unfolding quick_sort
  quick_sort_long n d pivot e first last l r p g ends a b = rw (quick_sort, p, g, ends, a, b) refl

  -- The sorted parts put together.
  joined-IsSorted :
      (order : IsPreorder) (pivot : A) (e first last : List A) (l r : ℕ)
      → IsSplit cmp pivot e l r
      → r ≤ l
      → IsSorted first
      → IsRearranged first (take r e)
      → IsSorted last
      → IsRearranged last (drop l e)
      → IsSorted (first ++ (drop r (take l e) ++ last))
  joined-IsSorted order pivot e first last l r s h a b c d =
      let middle = drop r (take l e) in
      let lower = slice-All (IsLower cmp pivot) e r l (λ i x u v. s.below i x v) in
      let upper = slice-All (IsUpper cmp pivot) e r l (λ i x u v. s.above i x u) in
      let first_lower =
        IsLower-kept pivot (take r e) first b
          (slice-All (IsLower cmp pivot) e 0 r (λ i x u v. s.below i x (omega (arith, v, h)))) in
      let last_upper =
        IsUpper-kept pivot (drop l e) last d
          (drop-All (IsUpper cmp pivot) e l (λ i x u. s.above i x (omega (arith, u, h)))) in
      IsSorted-append order pivot first (middle ++ last) a
        (IsSorted-append order pivot middle last (IsSorted-equal order pivot middle lower upper) c
          lower last_upper)
        first_lower (All-append (IsUpper cmp pivot) middle last upper last_upper)

  -- QuickSortRecursive with fuel for the items ends, reads nothing outside the array, and leaves
  -- the same items in order.
  pub quick_sort-IsSorted :
      (order : IsPreorder) (n : ℕ) (d : List A)
      → length d < n
      → (e : List A) × (quick_sort cmp n d ≡ some e) × IsSorted e × IsRearranged e d
  quick_sort-IsSorted order zero d h = absurd (omega arith)
  quick_sort-IsSorted order (suc n) d h = elim (Bool-cases (ltb (length d) 2)) [
    | inl p ↦ (d, quick_sort_short n d p, short-IsSorted d (ground arith), λ f. refl)
    | inr p ↦
        let (pivot, g) = get_elem?-some d (length d / 2) (ground arith) in
        let (e, l, r, ends, q) =
          partition-Partitioned cmp pivot d (length d / 2) g (order.self pivot) in
        let (first, first_ends, first_sorted, first_same) =
          quick_sort-IsSorted order n (take r e)
            (omega (arith, length-take r e, q.right, q.same_length, h)) in
        let (last, last_ends, last_sorted, last_same) =
          quick_sort-IsSorted order n (drop l e)
            (omega (arith, length-drop l e, q.left, q.same_length, h)) in
        (
          first ++ (drop r (take l e) ++ last),
          quick_sort_long n d pivot e first last l r p g ends first_ends last_ends,
          joined-IsSorted order pivot e first last l r q.split q.crossed first_sorted first_same
              last_sorted last_same,
          λ f. omega (
            arith,
            count-append f first (drop r (take l e) ++ last),
            count-append f (drop r (take l e)) last,
            first_same f,
            last_same f,
            count-cut f r l e q.crossed,
            q.rearranged f,
          ),
        )
  ]

sort-small :
    (cmp : Comparator) (s : Seq)
    → s.length < 2 ^ 31
    → sort cmp s ≡ (
        quick_sort cmp (suc s.length) (take s.length s.items) >>= λ d.
        some (record s { items = d ++ drop s.length s.items }))
unfolding sort
sort-small cmp s b =
    let whole : int_rounds s.length ≡ s.length = ground arith in
    ap
      (λ n. quick_sort cmp (suc n) (take n s.items) >>= λ d.
        some (record s { items = d ++ drop n s.items }))
      whole

-- SeqSort on a valid sequence of fewer than 2 ^ 31 items, with a comparison that is a total preorder,
-- ends, reads nothing outside the items, and leaves the same items in order; it keeps the invariant,
-- the length and the capacity.
pub sort-IsSorted :
    (cmp : Comparator) (s : Seq)
    → IsPreorder cmp
    → IsValid s
    → s.length < 2 ^ 31
    → (t : Seq) × (sort cmp s ≡ some t)
      × IsValid t
      × IsSorted cmp (contents t)
      × IsRearranged (contents t) (contents s)
      × (t.length ≡ s.length)
      × (t.capacity ≡ s.capacity)
sort-IsSorted cmp s order v b =
    let n = length-contents s v in
    let (d, ends, sorted, same) =
      quick_sort-IsSorted cmp order (suc s.length) (contents s) (omega (arith, n)) in
    let long : length d ≡ s.length =
      omega (arith, same (λ x. true), count-length d, count-length (contents s), n) in
    let held : take s.length (d ++ drop s.length s.items) ≡ d =
      take-append_le d (drop s.length s.items) s.length (omega (arith, long))
      ∙ take-all d s.length (omega (arith, long)) in
    (
      record s { items = d ++ drop s.length s.items },
      sort-small cmp s b ∙ rw ends refl,
      record {
        slots = omega (
          arith,
          length-append d (drop s.length s.items),
          length-drop s.length s.items,
          long,
          v.slots,
          v.within,
        );
        positive = v.positive;
        within = v.within;
      },
      rw held sorted,
      λ f. ap (count f) held ∙ same f,
      refl,
      refl,
    )

-- SeqSoftSort on a valid sequence of fewer than 2 ^ 31 items, with a comparison that is a total
-- preorder, ends and returns a valid sequence with the same items in order.
pub soft_sort-IsSorted :
    (cmp : Comparator) (s : Seq)
    → IsPreorder cmp
    → IsValid s
    → s.length < 2 ^ 31
    → (t : Seq) × (soft_sort cmp s ≡ some t)
      × IsValid t
      × IsSorted cmp (contents t)
      × IsRearranged (contents t) (contents s)
unfolding soft_sort
soft_sort-IsSorted cmp s order v h = elim (Bool-cases (s.length == 0)) [
  | inl p ↦
      let empty : s.length ≡ 0 = ground arith in
      let (valid, none_in) = new-IsValid 0 false in
      (new 0 false, rw p refl, valid, rw none_in tt, λ f. rw none_in (rw empty refl))
  | inr p ↦
      let (r, ends, valid, holds) =
        get_range-some s 0 (s.length - 1) v (omega (arith, h)) (omega arith) (ground arith) in
      let all : contents r ≡ contents s =
        holds
        ∙ take-all (contents s) (s.length - 1 + 1 - 0) (ground (arith, length-contents s v)) in
      let small : r.length < 2 ^ 31 =
        omega (arith, ap (length {A = Ptr}) all, length-contents r valid, length-contents s v, h) in
      let (t, sort_ends, t_valid, sorted, same, _, _) = sort-IsSorted cmp r order valid small in
      (t, rw p (rw ends sort_ends), t_valid, sorted, λ f. same f ∙ ap (count f) all)
]
