-- ===== src/HashMap.antt =====
-- libutils/hash_map.c: a hash table of chains. A chain of BucketListItems, which only its bucket
-- points to, is the list of its entries. An operation that may call a destroy function returns what
-- it destroys, in order.
pub mod State
pub mod Last
pub mod Rehash
pub mod Chain
pub mod Insert
pub mod Remove
pub mod Clear
mod Tests
use libntech.Prelude.{
  ℕ, zero, suc, ◌+◌, ◌-◌, ◌*◌, ◌/◌, ◌%◌, ◌^◌, min, max, Bool, true, false, ◌&&◌, not, Option, none,
  some, List, [], ◌∷◌, ◌++◌, if◌then◌else◌, ◌==◌, ltb, leb, set, get_or, replicate, length, Ptr,
  add_size, sub_size, mul_size, and_bits, or_bits,
}
use libntech.MapCommon.{MapKeyValue, KeyFns, destroyed}
use libntech.MapCommon.Entries.{find}

-- UpperPowerOfTwo (libutils/misc_lib.c).
pub upper_power_of_two : ℕ → ℕ
upper_power_of_two n =
    let v0 = sub_size n 1 in
    let v1 = or_bits 64 v0 (v0 / 2) in
    let v2 = or_bits 64 v1 (v1 / 2 ^ 2) in
    let v3 = or_bits 64 v2 (v2 / 2 ^ 4) in
    let v4 = or_bits 64 v3 (v3 / 2 ^ 8) in let v5 = or_bits 64 v4 (v4 / 2 ^ 16) in add_size v5 1

-- `ISPOW2` (libutils/misc_lib.h).
pub is_pow2 : ℕ → Bool
is_pow2 n = ltb 0 n && and_bits 64 n (n - 1) == 0

abbrev pub max_buckets : ℕ
max_buckets = 2 ^ 30

abbrev pub min_buckets : ℕ
min_buckets = 2 ^ 5

-- `HashMap`, less its functions.
pub record HashMap : Type 0 where
  pub buckets : List (List MapKeyValue)
  pub size : ℕ
  pub init_size : ℕ
  pub load : ℕ
  pub max_threshold : ℕ
  pub min_threshold : ℕ
  pub has_destroy_key : Bool
  pub has_destroy_value : Bool

-- `(size_t) size * MAX_LOAD_FACTOR`, exact for a multiple of 4.
abbrev pub max_load : ℕ → ℕ
max_load size = size * 3 / 4

-- `(size_t) size * MIN_LOAD_FACTOR`, exact for a power of two: the nearest double is below 0.35 by
-- less than 2 ^ -54, and no such size has a whole product.
abbrev pub min_load : ℕ → ℕ
min_load size = size * 7 / 20

pub new : Bool → Bool → ℕ → HashMap
unfolding is_pow2 upper_power_of_two
new destroy_key destroy_value init =
    let n = min (max init min_buckets) max_buckets in
    let size = (if is_pow2 n then n else upper_power_of_two n) in
    record {
      buckets = replicate size [];
      size = size;
      init_size = size;
      load = 0;
      max_threshold = max_load size;
      min_threshold = min_load size;
      has_destroy_key = destroy_key;
      has_destroy_value = destroy_value;
    }

module _ (f : KeyFns) where
  -- HashMapGetBucket
  pub get_bucket : ℕ → Ptr → ℕ
  get_bucket size key = and_bits 64 (f.hash_fn key) (size - 1)

  -- The inner loop of HashMapResize, over one old chain.
  pub rehash_chain : ℕ → List MapKeyValue → List (List MapKeyValue) → List (List MapKeyValue)
  unfolding get_bucket
  rehash_chain size [] bs = bs
  rehash_chain size (e ∷ es) bs =
      let b = get_bucket size e.key in rehash_chain size es (set bs b (e ∷ get_or bs b []))

  -- The outer loop, over the old buckets.
  pub rehash : ℕ → List (List MapKeyValue) → List (List MapKeyValue) → List (List MapKeyValue)
  unfolding rehash_chain
  rehash size [] bs = bs
  rehash size (c ∷ cs) bs = rehash size cs (rehash_chain size c bs)

  -- HashMapResize
  pub resize : HashMap → ℕ → HashMap
  unfolding rehash
  resize m new_size = record m {
    size = new_size;
    max_threshold = max_load new_size;
    min_threshold = min_load new_size;
    buckets = rehash new_size m.buckets (replicate new_size []);
  }

  -- The loop of HashMapInsert: the chain with the entry of an equal key replaced, and that entry.
  unfoldable pub replace : List MapKeyValue → Ptr → Ptr → Option (List MapKeyValue × MapKeyValue)
  replace [] key value = none
  replace (e ∷ es) key value =
      let rest = replace es key value in
      if f.equal_fn e.key key
      then some (record { key = key; value = value } ∷ es, e)
      else elim rest [ none ↦ none | some (es', old) ↦ some (e ∷ es', old) ]

  -- What HashMapInsert does where no key is equal, from the new item on.
  pub add_entry : HashMap → Ptr → Ptr → HashMap
  unfolding get_bucket resize
  add_entry m key value =
      let b = get_bucket m.size key in
      let e : MapKeyValue = record { key = key; value = value } in
      let r = record m {
        buckets = set m.buckets b (e ∷ get_or m.buckets b []);
        load = add_size m.load 1;
      } in
      if ltb r.max_threshold r.load && ltb r.size max_buckets
      then resize r (mul_size r.size 2)
      else r

  -- HashMapInsert: the map, if a value was replaced, and what is destroyed.
  pub insert : HashMap → Ptr → Ptr → HashMap × Bool × List Ptr
  unfolding get_bucket replace add_entry
  insert m key value =
      let b = get_bucket m.size key in
      elim (replace (get_or m.buckets b []) key value) [
        | none ↦ (add_entry m key value, false, [])
        | some (c, old) ↦ (
          record m { buckets = set m.buckets b c },
          true,
          destroyed m.has_destroy_key m.has_destroy_value old,
        )
      ]

  -- The loop of HashMapRemove: the chain without the entry of an equal key, and that entry.
  unfoldable pub unlink : List MapKeyValue → Ptr → Option (List MapKeyValue × MapKeyValue)
  unlink [] key = none
  unlink (e ∷ es) key =
      let rest = unlink es key in
      if f.equal_fn e.key key
      then some (es, e)
      else elim rest [ none ↦ none | some (es', old) ↦ some (e ∷ es', old) ]

  -- HashMapRemove: the map, if the key was there, and what is destroyed.
  pub remove : HashMap → Ptr → HashMap × Bool × List Ptr
  unfolding get_bucket unlink resize
  remove m key =
      let b = get_bucket m.size key in
      elim (unlink (get_or m.buckets b []) key) [
        | none ↦ (m, false, [])
        | some (c, old) ↦
            (let r = record m { buckets = set m.buckets b c; load = sub_size m.load 1 } in
              (
                if ltb r.load r.min_threshold && ltb r.init_size r.size
                    then resize r (r.size / 2)
                    else r,
                true,
                destroyed m.has_destroy_key m.has_destroy_value old,
              ))
      ]

  -- HashMapGet; `none` is NULL.
  pub get : HashMap → Ptr → Option MapKeyValue
  unfolding get_bucket find
  get m key = find f (get_or m.buckets (get_bucket m.size key) []) key

-- FreeBucketListItem: the end of the chain first; what is destroyed, and the load.
pub free_chain : Bool → Bool → List MapKeyValue → ℕ → List Ptr × ℕ
free_chain dk dv [] load = ([], load)
free_chain dk dv (e ∷ es) load =
    let (gone, left) = free_chain dk dv es load in (gone ++ destroyed dk dv e, sub_size left 1)

-- The loop of HashMapClear; an empty bucket is NULL and is passed over.
pub free_buckets : Bool → Bool → List (List MapKeyValue) → ℕ → List Ptr × ℕ
unfolding free_chain
free_buckets dk dv [] load = ([], load)
free_buckets dk dv (c ∷ cs) load =
    let (gone, left) = free_chain dk dv c load in
    let (more, rest) = free_buckets dk dv cs left in (gone ++ more, rest)

-- HashMapClear, with its assertion left out.
pub clear : HashMap → HashMap × List Ptr
unfolding free_buckets
clear m =
    let (gone, left) = free_buckets m.has_destroy_key m.has_destroy_value m.buckets m.load in
    (record m { buckets = replicate (length m.buckets) []; load = left }, gone)

-- HashMapSoftDestroy: what it destroys. `none` is a call of a destroy function that is NULL.
pub soft_destroy : HashMap → Option (List Ptr)
unfolding free_buckets
soft_destroy m =
    let gone = (free_buckets true false m.buckets m.load).0 in
    elim gone [ [] ↦ some [] | k ∷ ks ↦ if m.has_destroy_key then some (k ∷ ks) else none ]

-- `HashMapIterator`
pub record Iterator : Type 0 where
  pub map : HashMap
  pub cur : List MapKeyValue
  pub bucket : ℕ

pub iterator : HashMap → Iterator
iterator m = record { map = m; cur = get_or m.buckets 0 []; bucket = 0 }

-- HashMapIteratorNext, with fuel for its loop: the next entry, `none` for NULL. An outer `none` is a
-- loop that has run out of fuel.
pub iterator_next : ℕ → Iterator → Option (Option MapKeyValue × Iterator)
iterator_next zero i = none
iterator_next (suc n) i =
    let b = add_size i.bucket 1 in
    let more = iterator_next n (record i { bucket = b; cur = get_or i.map.buckets b [] }) in
    elim i.cur [
      | e ∷ es ↦ some (some e, record i { cur = es })
      | [] ↦ if leb i.map.size b then some (none, record i { bucket = b }) else more
    ]
