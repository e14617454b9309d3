-- ===== src/ArrayMap.antt =====
-- libutils/array_map.c: a map in an array of 14 entries, searched from the front. Its destroy
-- functions are always there. An operation that calls them returns what it destroys, in order.
pub mod Contents
pub mod Insert
pub mod Remove
use libntech.Prelude.{
  ℕ, zero, suc, ◌+◌, ◌-◌, Bool, true, false, Option, none, some, List, [], ◌∷◌, ◌++◌, if◌then◌else◌,
  ◌==◌, ltb, leb, set, get_or, replicate, take, drop, Ptr, null,
}
use libntech.MapCommon.{MapKeyValue, KeyFns, destroyed}

abbrev pub tiny_limit : ℕ
tiny_limit = 14

-- An entry that xcalloc made.
abbrev pub blank : MapKeyValue
blank = record { key = null; value = null }

-- `ArrayMap`, less its functions.
pub record ArrayMap : Type 0 where
  pub values : List MapKeyValue
  pub size : ℕ

pub new : ArrayMap
new = record { values = replicate tiny_limit blank; size = 0 }

-- memmove within the array, of `n` entries.
pub move : List MapKeyValue → ℕ → ℕ → ℕ → List MapKeyValue
move d to from n = take to d ++ (take n (drop from d) ++ drop (to + n) d)

module _ (f : KeyFns) where
  -- The loops over `i < map->size`: the index of the first entry with an equal key, from `i` on, for
  -- `n` rounds.
  pub index_from : ℕ → ℕ → List MapKeyValue → Ptr → Option ℕ
  index_from zero i d key = none
  index_from (suc n) i d key =
      let later = index_from n (i + 1) d key in
      if f.equal_fn (get_or d i blank).key key then some i else later

  -- ArrayMapInsert: the map, its result 0, 1 or 2, and what is destroyed.
  pub insert : ArrayMap → Ptr → Ptr → ArrayMap × ℕ × List Ptr
  unfolding index_from
  insert m key value =
      let e : MapKeyValue = record { key = key; value = value } in
      if m.size == tiny_limit then (m, 0, []) else elim (index_from m.size 0 m.values key) [
        | some i ↦ (
          record m { values = set m.values i e },
          1,
          destroyed true true (get_or m.values i blank),
        )
        | none ↦ (record m { values = set m.values m.size e; size = m.size + 1 }, 2, [])
      ]

  -- ArrayMapRemove: the map, if the key was there, and what is destroyed.
  pub remove : ArrayMap → Ptr → ArrayMap × Bool × List Ptr
  unfolding index_from move
  remove m key = elim (index_from m.size 0 m.values key) [
    | some i ↦ (
      record m { values = move m.values i (i + 1) (m.size - i - 1); size = m.size - 1 },
      true,
      destroyed true true (get_or m.values i blank),
    )
    | none ↦ (m, false, [])
  ]

  -- ArrayMapGet; `none` is NULL.
  pub get : ArrayMap → Ptr → Option MapKeyValue
  unfolding index_from
  get m key = elim (index_from m.size 0 m.values key) [
    | some i ↦ some (get_or m.values i blank)
    | none ↦ none
  ]

-- The loops of ArrayMapClear and ArrayMapSoftDestroy, for `n` rounds.
pub destroy_from : Bool → ℕ → ℕ → List MapKeyValue → List Ptr
destroy_from values zero i d = []
destroy_from values (suc n) i d =
    destroyed true values (get_or d i blank) ++ destroy_from values n (i + 1) d

pub clear : ArrayMap → ArrayMap × List Ptr
unfolding destroy_from
clear m = (record m { size = 0 }, destroy_from true m.size 0 m.values)

-- ArrayMapSoftDestroy: what it destroys.
pub soft_destroy : ArrayMap → List Ptr
unfolding destroy_from
soft_destroy m = destroy_from false m.size 0 m.values

-- ArrayMapDestroy: what it destroys.
pub destroy : ArrayMap → List Ptr
unfolding clear
destroy m = (clear m).1

-- `ArrayMapIterator`
pub record Iterator : Type 0 where
  pub map : ArrayMap
  pub pos : ℕ

pub iterator : ArrayMap → Iterator
iterator m = record { map = m; pos = 0 }

-- ArrayMapIteratorNext; `none` is NULL.
pub iterator_next : Iterator → Option MapKeyValue × Iterator
iterator_next i =
    if leb i.map.size i.pos
    then (none, i)
    else (some (get_or i.map.values i.pos blank), record i { pos = i.pos + 1 })
