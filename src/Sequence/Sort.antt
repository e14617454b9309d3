-- ===== src/Sequence/Sort.antt =====
-- SeqSort and SeqSoftSort of libutils/sequence.c: QuickSortRecursive on the items, with the pointers
-- `l` and `r` as the index of `l` and the number of items up to and with `r`. A read outside the
-- array is `none`, as is a loop that has run out of fuel. The list is the `n` items that `int n` counts:
-- SeqSort narrows the length to an int, and a part is not longer than the whole.

pub mod Exchange
pub mod Scan
pub mod Partition
pub mod Cut
pub mod Sorted
use Prim.Native.Nat.{Ordering}
use libntech.Prelude.{
  ℕ, zero, suc, ◌+◌, ◌-◌, ◌/◌, Bool, true, false, Option, none, some, List, [], ◌∷◌, ◌++◌,
  if◌then◌else◌, ◌==◌, ltb, length, get_elem?, set, take, drop, int_rounds,
}
use libntech.Sequence.{Seq, get_range, new}
use libntech.Sequence.Search.{Comparator}

infixl 5 ◌>>=◌
abbrev pub ◌>>=◌ {ℓ κ} : {A : Type ℓ} {B : Type κ} → Option A → (A → Option B) → Option B
none >>= f = none
some a >>= f = f a

module _ {A : Type 0} where
  -- Swap
  unfoldable pub swap : List A → ℕ → ℕ → Option (List A)
  swap d i j = get_elem? d i >>= λ x. get_elem? d j >>= λ y. some (set (set d i y) j x)

  -- The turn of the outer loop behind the two scans.
  unfoldable pub exchange : List A → ℕ → ℕ → Option (List A × ℕ × ℕ)
  unfolding swap
  exchange d l r =
      if ltb l r then (swap d l (r - 1) >>= λ e. some (e, l + 1, r - 1)) else some (d, l, r)

module _ {A : Type 0} (cmp : A → A → Ordering) where
  -- `while (Compare(*l, pivot, user_data) < 0) ++l`
  unfoldable pub scan_up : ℕ → List A → A → ℕ → Option ℕ
  scan_up zero d pivot l = none
  scan_up (suc n) d pivot l = elim (get_elem? d l) [
    | none ↦ none
    | some x ↦ elim (cmp x pivot) [
      | Ordering.lt ↦ scan_up n d pivot (l + 1)
      | Ordering.eq ↦ some l
      | Ordering.gt ↦ some l
    ]
  ]

  -- `while (Compare(*r, pivot, user_data) > 0) --r`
  unfoldable pub scan_down : List A → A → ℕ → Option ℕ
  scan_down d pivot zero = none
  scan_down d pivot (suc r) = elim (get_elem? d r) [
    | none ↦ none
    | some x ↦ elim (cmp x pivot) [
      | Ordering.gt ↦ scan_down d pivot r
      | Ordering.eq ↦ some (suc r)
      | Ordering.lt ↦ some (suc r)
    ]
  ]

  -- `while (l <= r)`
  unfoldable pub partition : ℕ → List A → A → ℕ → ℕ → Option (List A × ℕ × ℕ)
  partition zero d pivot l r = none
  partition (suc n) d pivot l r = elim (ltb l r) [
    | false ↦ some (d, l, r)
    | true ↦ scan_up (suc (length d)) d pivot l >>= λ i.
        scan_down d pivot r >>= λ j. exchange d i j >>= λ s. partition n s.0 pivot s.1 s.2
  ]

  unfoldable pub quick_sort : ℕ → List A → Option (List A)
  quick_sort zero d = none
  quick_sort (suc n) d = elim (ltb (length d) 2) [
    | true ↦ some d
    | false ↦ get_elem? d (length d / 2) >>= λ pivot.
        partition (suc (length d)) d pivot 0 (length d) >>= λ s.
        quick_sort n (take s.2 s.0) >>= λ first.
        quick_sort n (drop s.1 s.0) >>= λ last. some (first ++ (drop s.2 (take s.1 s.0) ++ last))
  ]

-- SeqSort: the length is stored in an int, and a negative number is below 2.
unfoldable pub sort : Comparator → Seq → Option Seq
unfolding quick_sort
sort cmp s =
    let n = int_rounds s.length in
    quick_sort cmp (suc n) (take n s.items) >>= λ d. some (record s { items = d ++ drop n s.items })

-- SeqSoftSort
unfoldable pub soft_sort : Comparator → Seq → Option Seq
unfolding sort
soft_sort cmp s =
    if s.length == 0 then some (new 0 false) else (get_range s 0 (s.length - 1) >>= λ r. sort cmp r)
