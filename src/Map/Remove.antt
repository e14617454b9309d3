-- ===== src/Map/Remove.antt =====
-- MapRemove and MapClear against a finite map, and what the readers answer.
use libntech.Prelude.{
  ◌+◌, ◌-◌, ◌<◌, ◌≡◌, ap₂, subst, ◌∙◌, Bool, true, none, List, if◌then◌else◌, arith, Ptr, size_mod,
}
use mathlib.Core.List.{Perm}
use mathlib.Core.List.Perm
use libntech.MapCommon.{MapKeyValue, KeyFns, KeyLaws}
use libntech.HashMap
use libntech.HashMap.{HashMap}
use libntech.HashMap.Insert.{is_some, destroyed_of}
use libntech.HashMap.Remove.{without_entry}
use libntech.HashMap.Remove as HashRemove
use libntech.HashMap.Clear.{entries, destroyed_all}
use libntech.HashMap.Clear
use libntech.ArrayMap.Remove as ArrayRemove
use libntech.ArrayMap.Contents.{contents}
use libntech.Map.{Map, new, small, large, insert, remove, clear, get_raw, get, size}
use libntech.Map.State.{IsValid}
use libntech.Map.Insert.{insert_refines}

pub record Removed (f : KeyFns) (m : Map) (key : Ptr) (p : Map × Bool × List Ptr) : Type 0 where
  pub valid : IsValid f p.0
  pub finds : (a : Ptr) → get_raw f p.0 a ≡ without_entry f (get_raw f m) key a
  pub removed : p.1 ≡ is_some (get_raw f m key)
  pub gone : p.2 ≡ destroyed_of true true (get_raw f m key)
  pub count : size p.0 ≡ (if is_some (get_raw f m key) then size m - 1 else size m)

-- On a valid map, with key functions that are an equivalence with equal hashes for equal keys, and
-- with fewer than 2 ^ 64 entries, MapRemove acts as a removal from a finite map, says if the key
-- was there, destroys the key and value of the entry that it removes and nothing else, counts the
-- entries and keeps the invariant.
pub remove_refines :
    (f : KeyFns) (m : Map) (key : Ptr)
    → KeyLaws f
    → IsValid f m
    → size m < size_mod
    → Removed f m key (remove f m key)
unfolding remove get_raw size
remove_refines f (small a) key l v b =
    let r = ArrayRemove.remove-Removed f a key l v in
    record { valid = r.valid; finds = r.finds; removed = r.removed; gone = r.gone; count = r.count }
remove_refines f (large h) key l (v, dk, dv) b =
    let r = HashRemove.remove-Removed f h key l v b in
    record {
      valid = (r.valid, r.flags.0 ∙ dk, r.flags.1 ∙ dv);
      finds = r.finds;
      removed = r.removed;
      gone = r.gone ∙ ap₂ (λ x y. destroyed_of x y (HashMap.get f h key)) dk dv;
      count = r.count;
    }

-- All entries of a map.
abbrev pub all_entries : Map → List MapKeyValue
all_entries (small a) = contents a
all_entries (large h) = entries h.buckets

-- MapClear on a valid map with fewer than 2 ^ 64 entries leaves a valid map with no entry, and
-- destroys the key and the value of every entry, each once.
pub clear_empties :
    (f : KeyFns) (m : Map)
    → IsValid f m
    → size m < size_mod
    → IsValid f (clear m).0
      × ((a : Ptr) → get_raw f (clear m).0 a ≡ none)
      × (size (clear m).0 ≡ 0)
      × Perm (clear m).1 (destroyed_all true true (all_entries m))
unfolding clear get_raw size
clear_empties f (small a) v b =
    let (w, n, g, z) = ArrayRemove.clear-gone f a v in
    (w, n, z, rw g (Perm.refl (destroyed_all true true (contents a))))
clear_empties f (large h) (v, dk, dv) b =
    let (w, n, z, g, fk, fv) = Clear.clear-destroyed_all f h v b in
    (
      (w, fk ∙ dk, fv ∙ dv),
      n,
      z,
      subst (λ x. Perm (HashMap.clear h).1 (destroyed_all true x (entries h.buckets))) dv
          (subst
            (λ x.
              Perm (HashMap.clear h).1 (destroyed_all x h.has_destroy_value (entries h.buckets)))
            dk g),
    )

-- MapNew makes a valid map with no entry.
pub new-IsValid :
    (f : KeyFns) → IsValid f new × ((a : Ptr) → get_raw f new a ≡ none) × (size new ≡ 0)
unfolding new get_raw size
new-IsValid f = let (w, n, z) = ArrayRemove.new-IsValid f in (w, n, z)

-- On a valid map, with key functions that are an equivalence with equal hashes for equal keys, and
-- with fewer than 2 ^ 64 - 1 entries, MapGet after MapInsert returns the value for an equal key,
-- and for any other key what it returned before.
pub get-insert :
    (f : KeyFns) (m : Map) (key value a : Ptr)
    → KeyLaws f
    → IsValid f m
    → size m + 1 < size_mod
    → get f (insert f m key value).0 a ≡ (if f.equal_fn key a then value else get f m a)
unfolding get
get-insert f m key value a l v b =
    rw (get, (insert_refines f m key value l v b).finds a) (ground arith)
