-- ===== src/Map.antt =====
-- libutils/map.c: a map that starts as an array map and turns into a hash map of 128 buckets when an
-- insertion finds the array full. MapNew puts functions in place of NULL, so both destroy functions
-- are there.
pub mod State
pub mod Insert
pub mod Remove
mod Tests
use libntech.Prelude.{
  ℕ, zero, suc, ◌+◌, Bool, true, false, Option, none, some, List, [], ◌∷◌, ◌++◌, if◌then◌else◌,
  ◌==◌, take, Ptr, null,
}
use libntech.MapCommon.{MapKeyValue, KeyFns}
use libntech.ArrayMap
use libntech.ArrayMap.{ArrayMap}
use libntech.HashMap
use libntech.HashMap.{HashMap}

-- `Map`: the union, and which member it holds, which the code tells by `hash_fn`.
pub data Map : Type 0 where
  small : ArrayMap → Map
  large : HashMap → Map

pub new : Map
new = small ArrayMap.new

pub size : Map → ℕ
size (small a) = a.size
size (large h) = h.load

-- MapClear: the map, and what is destroyed.
pub clear : Map → Map × List Ptr
clear (small a) = let (b, gone) = ArrayMap.clear a in (small b, gone)
clear (large h) = let (b, gone) = HashMap.clear h in (large b, gone)

-- MapDestroy: what is destroyed.
pub destroy : Map → List Ptr
destroy (small a) = ArrayMap.destroy a
destroy (large h) = (HashMap.clear h).1

-- MapSoftDestroy: what is destroyed. `none` is a call through NULL.
pub soft_destroy : Map → Option (List Ptr)
soft_destroy (small a) = some (ArrayMap.soft_destroy a)
soft_destroy (large h) = HashMap.soft_destroy h

module _ (f : KeyFns) where
  -- The loop of ConvertToHashMap: the hash map, and what its insertions destroy.
  pub insert_all : List MapKeyValue → HashMap → HashMap × List Ptr
  insert_all [] h = (h, [])
  insert_all (e ∷ es) h =
      let (r, replaced, gone) = HashMap.insert f h e.key e.value in
      let (s, more) = insert_all es r in (s, gone ++ more)

  -- ConvertToHashMap
  pub convert : ArrayMap → HashMap × List Ptr
  unfolding insert_all
  convert a = insert_all (take a.size a.values) (HashMap.new true true 128)

  -- MapInsert: the map, if a value was replaced, and what is destroyed.
  pub insert : Map → Ptr → Ptr → Map × Bool × List Ptr
  unfolding convert
  insert (small a) key value =
      let (b, ret, gone) = ArrayMap.insert f a key value in
      let (h, lost) = convert a in
      let (r, replaced, more) = HashMap.insert f h key value in
      if ret == 0 then (large r, replaced, lost ++ more) else (small b, ret == 1, gone)
  insert (large h) key value =
      let (r, replaced, gone) = HashMap.insert f h key value in (large r, replaced, gone)

  -- MapGetRaw
  pub get_raw : Map → Ptr → Option MapKeyValue
  get_raw (small a) key = ArrayMap.get f a key
  get_raw (large h) key = HashMap.get f h key

  pub has_key : Map → Ptr → Bool
  unfolding get_raw
  has_key m key = elim (get_raw m key) [ none ↦ false | some e ↦ true ]

  -- MapGet
  pub get : Map → Ptr → Ptr
  unfolding get_raw
  get m key = elim (get_raw m key) [ none ↦ null | some e ↦ e.value ]

  -- MapRemove: the map, if the key was there, and what is destroyed.
  pub remove : Map → Ptr → Map × Bool × List Ptr
  remove (small a) key =
      let (b, removed, gone) = ArrayMap.remove f a key in (small b, removed, gone)
  remove (large h) key = let (r, removed, gone) = HashMap.remove f h key in (large r, removed, gone)
