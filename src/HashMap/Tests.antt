-- ===== src/HashMap/Tests.antt =====
-- The theorems on hash maps of numbers, at a new map of 32 buckets and at one with an entry.
use libntech.Prelude.{◌<◌, ◌≡◌, ◌^◌, ap, true, false, none, arith, ◌==◌, Ptr, ◌%◌, size_mod}
use mathlib.Core.List.{Perm}
use libntech.MapCommon.{KeyFns, KeyLaws}
use libntech.HashMap.{HashMap, new, get, insert, remove, clear}
use libntech.HashMap.State.{IsValid}
use libntech.HashMap.Insert.{Inserted, insert-Inserted}
use libntech.HashMap.Remove.{Removed, remove-Removed}
use libntech.HashMap.Clear.{new-IsValid, clear-destroyed_all, destroyed_all, entries}

-- Keys are equal where they are the same pointer, and hash to themselves.
abbrev numbers : KeyFns
numbers = record { hash_fn = λ k. k % 2 ^ 32; equal_fn = λ a b. a == b }

numbers-KeyLaws : KeyLaws numbers
numbers-KeyLaws = record {
  equal_refl = λ a. ground arith;
  equal_sym = λ a b h. ground arith;
  equal_trans = λ a b c h k. ground arith;
  equal_hash = λ a b h. let e : a ≡ b = ground arith in ap (λ k. k % 2 ^ 32) e;
}

abbrev fresh : HashMap
fresh = new true false 32

fresh-IsValid : IsValid numbers fresh
fresh-IsValid = (new-IsValid numbers true false 5 (omega arith) (omega arith)).0

fresh-load : fresh.load ≡ 0
fresh-load = (new-IsValid numbers true false 5 (omega arith) (omega arith)).2

-- After the insertion of 70 with the value 7.
abbrev one : HashMap
one = (insert numbers fresh 70 7).0

insert-Inserted_example : Inserted numbers fresh 70 7 (insert numbers fresh 70 7)
insert-Inserted_example =
    insert-Inserted numbers fresh 70 7 numbers-KeyLaws fresh-IsValid (omega (arith, fresh-load))

one-Inserted : Inserted numbers fresh 70 7 (insert numbers fresh 70 7)
one-Inserted =
    insert-Inserted numbers fresh 70 7 numbers-KeyLaws fresh-IsValid (omega (arith, fresh-load))

one-load : one.load < size_mod
one-load = ground (arith, one-Inserted.count, fresh-load)

remove-Removed_example : Removed numbers one 70 (remove numbers one 70)
remove-Removed_example = remove-Removed numbers one 70 numbers-KeyLaws one-Inserted.valid one-load

clear-destroyed_all_example :
    IsValid numbers (clear one).0
    × ((a : Ptr) → get numbers (clear one).0 a ≡ none)
    × ((clear one).0.load ≡ 0)
    × Perm
        (clear one).1
        (destroyed_all one.has_destroy_key one.has_destroy_value (entries one.buckets))
    × ((clear one).0.has_destroy_key ≡ one.has_destroy_key)
    × ((clear one).0.has_destroy_value ≡ one.has_destroy_value)
clear-destroyed_all_example = clear-destroyed_all numbers one one-Inserted.valid one-load
