-- ===== src/Sequence/Tests.antt =====
-- The theorems on sequences, at a sequence of three items in four slots.
use Prim.Native.Nat.{Ordering, compare}
use libntech.Prelude.{
  ℕ, zero, suc, ◌≤◌, ◌<◌, ◌≡◌, refl, Bool, true, false, Option, none, some, [], ◌∷◌, ltb, arith,
  Ptr, read,
}
use libntech.Sequence.{Seq, split}
use libntech.Sequence.Growth.{contents, IsValid}
use libntech.Sequence.Ranges.{split_lem}
use libntech.Sequence.Search.{binary_index_of}
use libntech.Sequence.Search.Binary.{Answers, IsOrdered, binary_index_of_lem}
use libntech.Sequence.Sort.{
  sort, soft_sort, quick_sort, partition, scan_up, scan_down, exchange, swap,
}
use libntech.Sequence.Sort.Exchange.{IsRearranged}
use libntech.Sequence.Sort.Sorted.{IsPreorder, IsSorted, sort-IsSorted, soft_sort-IsSorted}
use libntech.Sequence.Filter.{filter, filter_lem, filter_faults}

abbrev three : Seq
three = record { items = 3 ∷ 5 ∷ 9 ∷ 0 ∷ []; length = 3; capacity = 4; has_destroy = true }

abbrev plain : Seq
plain = record { items = 3 ∷ 5 ∷ 9 ∷ 0 ∷ []; length = 3; capacity = 4; has_destroy = false }

abbrev is_small : Ptr → Bool
is_small x = ltb x 4

three-IsValid : IsValid three
three-IsValid = record { slots = refl; positive = omega arith; within = omega arith }

plain-IsValid : IsValid plain
plain-IsValid = record { slots = refl; positive = omega arith; within = omega arith }

rises :
    (i j : ℕ)
    → i ≤ j
    → j < 3
    → compare 5 (read three.items i) ≡ Ordering.lt
    → compare 5 (read three.items j) ≡ Ordering.lt
rises zero j p q e = cc
rises (suc zero) j p q e = cc
rises (suc (suc zero)) zero p q e = absurd (omega arith)
rises (suc (suc zero)) (suc zero) p q e = absurd (omega arith)
rises (suc (suc zero)) (suc (suc zero)) p q e = refl
rises (suc (suc zero)) (suc (suc (suc j))) p q e = absurd (omega arith)
rises (suc (suc (suc i))) j p q e = absurd (omega arith)

falls :
    (i j : ℕ)
    → i ≤ j
    → j < 3
    → compare 5 (read three.items j) ≡ Ordering.gt
    → compare 5 (read three.items i) ≡ Ordering.gt
falls zero zero p q e = refl
falls (suc i) zero p q e = absurd (omega arith)
falls i (suc zero) p q e = cc
falls i (suc (suc zero)) p q e = cc
falls i (suc (suc (suc j))) p q e = absurd (omega arith)

three-IsOrdered : IsOrdered compare 5 three.items 3
three-IsOrdered = record { rises = rises; falls = falls }

split_lem_example :
    (t : Seq) × ((split three 1).1 ≡ some t)
    × IsValid t
    × IsValid (split three 1).0
    × (contents (split three 1).0 ≡ 3 ∷ [])
    × (contents t ≡ 5 ∷ 9 ∷ [])
split_lem_example = split_lem three 1 three-IsValid (omega arith) (omega arith)

binary_index_of_lem_example :
    (r : Option ℕ) × (binary_index_of compare 5 three ≡ some r)
    × Answers compare 5 (3 ∷ 5 ∷ 9 ∷ 0 ∷ []) 3 r
binary_index_of_lem_example = binary_index_of_lem compare 5 three (omega arith) three-IsOrdered

filter_lem_example :
    (t : Seq) × (filter three is_small ≡ some (t, 3 ∷ [])) × (contents t ≡ 5 ∷ 9 ∷ []) × IsValid t
filter_lem_example = filter_lem three is_small three-IsValid (omega arith) refl

filter_faults_example : filter plain is_small ≡ none
filter_faults_example =
    filter_faults plain is_small plain-IsValid (omega arith) refl (λ (e : 3 ∷ [] ≡ []). cc)

abbrev mixed : Seq
mixed = record { items = 9 ∷ 5 ∷ 3 ∷ 5 ∷ 0 ∷ []; length = 4; capacity = 5; has_destroy = true }

mixed-IsValid : IsValid mixed
mixed-IsValid = record { slots = refl; positive = omega arith; within = omega arith }

mixed-sorted : sort compare mixed ≡ some (record mixed { items = 3 ∷ 5 ∷ 5 ∷ 9 ∷ 0 ∷ [] })
unfolding sort quick_sort partition scan_up scan_down exchange swap
mixed-sorted = refl

compare-IsPreorder : IsPreorder compare
compare-IsPreorder = record {
  self = λ x. ground arith;
  flip = λ x y h e. ground arith;
  trans = λ x y z h k e. ground arith;
}

sort-IsSorted_example :
    (t : Seq) × (sort compare mixed ≡ some t)
    × IsValid t
    × IsSorted compare (contents t)
    × IsRearranged (contents t) (contents mixed)
    × (t.length ≡ 4)
    × (t.capacity ≡ 5)
sort-IsSorted_example = sort-IsSorted compare mixed compare-IsPreorder mixed-IsValid (omega arith)

soft_sort-IsSorted_example :
    (t : Seq) × (soft_sort compare mixed ≡ some t)
    × IsValid t
    × IsSorted compare (contents t)
    × IsRearranged (contents t) (contents mixed)
soft_sort-IsSorted_example =
    soft_sort-IsSorted compare mixed compare-IsPreorder mixed-IsValid (omega arith)
