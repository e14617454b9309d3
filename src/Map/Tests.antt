-- ===== src/Map/Tests.antt =====
-- The theorems on maps of numbers, at an array map of two entries and one that is full.
use libntech.Prelude.{
  ℕ, ◌+◌, ◌<◌, ◌≡◌, ◌≤◌, refl, none, List, [], ◌∷◌, arith, replicate, ◌==◌, Ptr, ◌%◌, ap, zero, suc,
  Bool-cases, inl, inr,
}
use mathlib.Core.List.{Perm}
use libntech.MapCommon.{MapKeyValue, KeyFns, KeyLaws}
use libntech.MapCommon.Entries.{matches}
use libntech.ArrayMap.{ArrayMap, blank}
use libntech.Map.{small, insert, remove, clear, get_raw, size}
use libntech.Map.State.{IsValid}
use libntech.Map.Insert.{Inserted, insert_refines}
use libntech.Map.Remove.{Removed, remove_refines, clear_empties}

-- Keys are equal where they are the same pointer, and hash to their last two bits.
abbrev numbers : KeyFns
numbers = record { hash_fn = λ k. k % 4; equal_fn = λ a b. a == b }

numbers-KeyLaws : KeyLaws numbers
numbers-KeyLaws = record {
  equal_refl = λ a. ground arith;
  equal_sym = λ a b h. ground arith;
  equal_trans = λ a b c h k. ground arith;
  equal_hash = λ a b h. let e : a ≡ b = ground arith in ap (λ k. k % 4) e;
}

abbrev entry : Ptr → MapKeyValue
entry k = record { key = k; value = k + 100 }

abbrev two : ArrayMap
two = record { values = entry 5 ∷ entry 9 ∷ replicate 12 blank; size = 2 }

two-IsValid : IsValid numbers (small two)
unfolding matches
two-IsValid = record { slots = refl; within = omega arith; once = λ a. ground arith }

-- The entries of `n` keys from `k` on.
abbrev ascending : ℕ → ℕ → List MapKeyValue
ascending zero k = []
ascending (suc n) k = entry k ∷ ascending n (k + 1)

ascending-once :
    (n k a : ℕ)
    → (matches numbers a (ascending n k) ≤ 1) × (a < k → matches numbers a (ascending n k) ≡ 0)
unfolding matches
ascending-once zero k a = (omega arith, λ h. refl)
ascending-once (suc n) k a =
    let (o, z) = ascending-once n (k + 1) a in
    elim (Bool-cases (k == a)) [
      | inl p ↦ (
        rw p (let w : a < k + 1 = ground arith in omega (arith, z w)),
        λ h. absurd (ground arith),
      )
      | inr p ↦ (rw p (omega (arith, o)), λ h. rw p (omega (arith, z (omega arith))))
    ]

abbrev full : ArrayMap
full = record { values = ascending 14 1; size = 14 }

full-IsValid : IsValid numbers (small full)
full-IsValid = record { slots = refl; within = omega arith; once = λ a. (ascending-once 14 1 a).0 }

insert_refines_example : Inserted numbers (small full) 15 115 (insert numbers (small full) 15 115)
unfolding size
insert_refines_example =
    insert_refines numbers (small full) 15 115 numbers-KeyLaws full-IsValid (omega arith)

remove_refines_example : Removed numbers (small two) 9 (remove numbers (small two) 9)
unfolding size
remove_refines_example =
    remove_refines numbers (small two) 9 numbers-KeyLaws two-IsValid (omega arith)

clear_empties_example :
    IsValid numbers (clear (small two)).0
    × ((a : Ptr) → get_raw numbers (clear (small two)).0 a ≡ none)
    × (size (clear (small two)).0 ≡ 0)
    × Perm (clear (small two)).1 (5 ∷ 105 ∷ 9 ∷ 109 ∷ [])
unfolding size
clear_empties_example = clear_empties numbers (small two) two-IsValid (omega arith)
