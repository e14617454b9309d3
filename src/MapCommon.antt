-- ===== src/MapCommon.antt =====
-- libutils/map_common.h: entries of maps, and the functions on keys that a map is made with.
pub mod Entries
use libntech.Prelude.{ℕ, ◌≡◌, Bool, true, List, [], ◌∷◌, ◌++◌, if◌then◌else◌, Ptr}

-- `MapKeyValue`
pub record MapKeyValue : Type 0 where
  pub key : Ptr
  pub value : Ptr

-- `MapHashFn` at seed 0, and `MapKeyEqualFn`. Keys do not change while a map holds them, so both
-- are functions of the pointer.
pub record KeyFns : Type 0 where
  pub hash_fn : Ptr → ℕ
  pub equal_fn : Ptr → Ptr → Bool

-- What a map relies on: an equivalence, and equal hashes for equal keys.
pub record KeyLaws (f : KeyFns) : Type 0 where
  pub equal_refl : (a : Ptr) → f.equal_fn a a ≡ true
  pub equal_sym : (a b : Ptr) → f.equal_fn a b ≡ true → f.equal_fn b a ≡ true
  pub equal_trans :
      (a b c : Ptr) → f.equal_fn a b ≡ true → f.equal_fn b c ≡ true → f.equal_fn a c ≡ true
  pub equal_hash : (a b : Ptr) → f.equal_fn a b ≡ true → f.hash_fn a ≡ f.hash_fn b

-- What the two destroy functions are called with for an entry, each if it is there.
abbrev pub destroyed : Bool → Bool → MapKeyValue → List Ptr
destroyed has_key has_value e =
    (if has_key then e.key ∷ [] else []) ++ (if has_value then e.value ∷ [] else [])
