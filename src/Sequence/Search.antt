-- ===== src/Sequence/Search.antt =====
-- The searches of libutils/sequence.c: SeqLookup, SeqIndexOf, SeqBinaryIndexOf, SeqBinaryLookup,
-- SeqAppendOnce. A comparator's int is seen by its sign only, so it returns an `Ordering`.
pub mod Binary
pub mod Linear
use Prim.Native.Nat.{Ordering}
use libntech.Prelude.{
  ◌↔◌, ℕ, zero, suc, ◌+◌, ◌-◌, ◌/◌, ◌≤◌, ◌<◌, ◌≡◌, ◌≢◌, refl, ap, sym, ◌∙◌, ◌⊎◌, inl, inr, Bool,
  true, false, Option, none, some, List, [], ◌∷◌, ◌++◌, if◌then◌else◌, ◌==◌, ltb, arith, Ptr, null,
  read, add_size, sub_size, size_mod, length, drop, drop-get, take, Bool-cases,
}
use native.Mathlib.Decide.{dec_lt}
use libntech.Sequence.{Seq, append, expand_if_necessary}
use libntech.Sequence.Growth.{contents, IsValid, Fits, Appended, append-Appended}

abbrev pub Comparator : Type 0
Comparator = Ptr → Ptr → Ordering

abbrev pub is_equal : Ordering → Bool
is_equal Ordering.eq = true
is_equal Ordering.lt = false
is_equal Ordering.gt = false

module _ (cmp : Comparator) (key : Ptr) where
  -- The loop of SeqIndexOf over `n` items from index `i` on; `none` is -1.
  index_from : List Ptr → ℕ → ℕ → Option ℕ
  index_from d i zero = none
  index_from d i (suc n) =
      let later = index_from d (i + 1) n in if is_equal (cmp key (read d i)) then some i else later

  pub index_of : Seq → Option ℕ
  unfolding index_from
  index_of s = index_from s.items 0 s.length

  -- The loop of SeqLookup.
  lookup_from : List Ptr → ℕ → ℕ → Ptr
  lookup_from d i zero = null
  lookup_from d i (suc n) =
      let later = lookup_from d (i + 1) n in
      if is_equal (cmp key (read d i)) then read d i else later

  pub lookup : Seq → Ptr
  unfolding lookup_from
  lookup s = lookup_from s.items 0 s.length

  -- The loop of SeqBinaryIndexOf; `none` is a loop that has run out of fuel, `some none` is -1.
  search_loop : List Ptr → ℕ → ℕ → ℕ → Option (Option ℕ)
  search_loop d zero low high = none
  search_loop d (suc fuel) low high =
      let middle = add_size low (sub_size high low / 2) in
      elim (ltb low high) [
        | false ↦ some none
        | true ↦ elim (cmp key (read d middle)) [
          | Ordering.eq ↦ some (some middle)
          | Ordering.gt ↦ search_loop d fuel (add_size middle 1) high
          | Ordering.lt ↦ search_loop d fuel low middle
        ]
      ]

  pub binary_index_of : Seq → Option (Option ℕ)
  unfolding search_loop
  binary_index_of s =
      if s.length == 0 then some none else search_loop s.items (s.length + 1) 0 s.length

  -- SeqBinaryLookup on the index that SeqBinaryIndexOf returned.
  pub binary_lookup : Seq → Option Ptr
  unfolding binary_index_of
  binary_lookup s = elim (binary_index_of s) [
    | none ↦ none
    | some none ↦ some null
    | some (some index) ↦ some (read s.items index)
  ]

pub append_once : Comparator → Seq → Ptr → Seq × List Ptr
unfolding lookup append
append_once cmp s item =
    if lookup cmp item s == null
    then (append s item, [])
    else (s, (if s.has_destroy then item ∷ [] else []))
