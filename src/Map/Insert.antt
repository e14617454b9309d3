-- ===== src/Map/Insert.antt =====
-- MapInsert against a finite map.
use libntech.Prelude.{
  ◌+◌, ◌≤◌, ◌<◌, ◌≡◌, refl, ap, ap₂, sym, ◌∙◌, Bool, true, false, Option, none, some, List, [], ◌∷◌,
  if◌then◌else◌, length, arith, Ptr, ◌==◌, size_mod, length-take,
}
use native.Mathlib.Decide.{dec_lt}
use libntech.MapCommon.{MapKeyValue, KeyFns, KeyLaws}
use libntech.MapCommon.Entries.{matches}
use libntech.HashMap
use libntech.HashMap.{HashMap}
use libntech.HashMap.Last.{last_of, last_of-once}
use libntech.HashMap.Insert.{with_entry, is_some, destroyed_of}
use libntech.HashMap.Insert
use libntech.HashMap.Clear
use libntech.ArrayMap
use libntech.ArrayMap.Insert as ArrayInsert
use libntech.ArrayMap.{ArrayMap, tiny_limit}
use libntech.ArrayMap.Contents.{contents, get-find}
use libntech.Map.{Map, small, large, insert, insert_all, convert, get_raw, size}
use libntech.Map.State.{IsValid}

pub record Inserted (f : KeyFns) (m : Map) (key value : Ptr) (p : Map × Bool × List Ptr)
    : Type 0 where
  pub valid : IsValid f p.0
  pub finds : (a : Ptr) → get_raw f p.0 a ≡ with_entry f (get_raw f m) key value a
  pub replaced : p.1 ≡ is_some (get_raw f m key)
  pub gone : p.2 ≡ destroyed_of true true (get_raw f m key)
  pub count : size p.0 ≡ (if is_some (get_raw f m key) then size m else size m + 1)

absent : (o : Option MapKeyValue) → is_some o ≡ false → o ≡ none
absent none h = refl
absent (some e) h = absurd (ground (arith, h))

module _ (f : KeyFns) (l : KeyLaws f) where
  -- What the loop of ConvertToHashMap leaves, where no key is there twice.
  record Converted (es : List MapKeyValue) (h : HashMap) (p : HashMap × List Ptr) : Type 0 where
    valid : IsValid f (large p.0)
    finds : (a : Ptr) → HashMap.get f p.0 a ≡ last_of f a (HashMap.get f h a) es
    kept : p.1 ≡ []
    count : p.0.load ≡ h.load + length es

  insert_all-Converted :
      (es : List MapKeyValue) (h : HashMap)
      → IsValid f (large h)
      → ((a : Ptr) → matches f a es + (if is_some (HashMap.get f h a) then 1 else 0) ≤ 1)
      → h.load + length es < size_mod
      → Converted es h (insert_all f es h)
  unfolding insert_all last_of matches
  insert_all-Converted [] h v o b = record {
    valid = v;
    finds = λ a. refl;
    kept = refl;
    count = omega arith;
  }
  insert_all-Converted (e ∷ es) h (v, dk, dv) o b =
      let i = Insert.insert-Inserted f h e.key e.value l v (omega arith) in
      let h' = (HashMap.insert f h e.key e.value).0 in
      let fresh : HashMap.get f h e.key ≡ none =
        absent (HashMap.get f h e.key) (ground (arith, o e.key, l.equal_refl e.key)) in
      let c : h'.load ≡ h.load + 1 = i.count ∙ rw fresh in
      let g : (HashMap.insert f h e.key e.value).2 ≡ [] = i.gone ∙ rw fresh in
      let r =
        insert_all-Converted es h' (i.valid, i.flags.0 ∙ dk, i.flags.1 ∙ dv)
          (λ a. rw (i.finds a) (ground (arith, o a))) (omega (arith, c)) in
      record {
        valid = r.valid;
        finds = λ a. r.finds a ∙ ap (λ x. last_of f a x es) (i.finds a);
        kept = rw g r.kept;
        count = omega (arith, r.count, c);
      }

  -- The array's entries, in the hash map.
  convert-Converted :
      (a : ArrayMap)
      → IsValid f (small a)
      → Converted (contents a) (HashMap.new true true 128) (convert f a)
        × ((k : Ptr) → HashMap.get f (convert f a).0 k ≡ ArrayMap.get f a k)
        × ((convert f a).0.load ≡ a.size)
  unfolding convert
  convert-Converted a v =
      let h : a.size ≤ length a.values = omega (arith, v.slots, v.within) in
      let (w, e, n, fk, fv) = Clear.new-IsValid f true true 7 (omega arith) (omega arith) in
      let c =
        insert_all-Converted (contents a) (HashMap.new true true 128) (w, fk, fv)
          (λ k. rw (e k) (omega (arith, v.once k)))
          (omega (arith, n, length-take a.size a.values, v.within)) in
      (
        c,
        λ k.
            c.finds k
            ∙ rw (e k) (last_of-once f k (contents a) (v.once k))
            ∙ sym (get-find f a k h),
        omega (arith, c.count, n, length-take a.size a.values, h),
      )

result_test : (b : Bool) → ((if b then 1 else 2) == 1) ≡ b
result_test true = refl
result_test false = refl

result_nonzero : (b : Bool) → ((if b then 1 else 2) == 0) ≡ false
result_nonzero true = refl
result_nonzero false = refl

module _ (f : KeyFns) (l : KeyLaws f) (key value : Ptr) where
  insert-small :
      (a : ArrayMap)
      → IsValid f (small a)
      → a.size < tiny_limit
      → Inserted f (small a) key value (insert f (small a) key value)
  unfolding insert get_raw size
  insert-small a v room =
      let i = ArrayInsert.insert-Inserted f a key value l v room in
      let z : ((ArrayMap.insert f a key value).1 == 0) ≡ false =
        ap (λ n. n == 0) i.result ∙ result_nonzero (is_some (ArrayMap.get f a key)) in
      rw (insert, z)
        (record {
          valid = i.valid;
          finds = i.finds;
          replaced = ap (λ n. n == 1) i.result ∙ result_test (is_some (ArrayMap.get f a key));
          gone = i.gone;
          count = i.count;
        })

  insert-large :
      (h : HashMap)
      → IsValid f (large h)
      → h.load + 1 < size_mod
      → Inserted f (large h) key value (insert f (large h) key value)
  unfolding insert get_raw size
  insert-large h (v, dk, dv) b =
      let i = Insert.insert-Inserted f h key value l v b in
      record {
        valid = (i.valid, i.flags.0 ∙ dk, i.flags.1 ∙ dv);
        finds = i.finds;
        replaced = i.replaced;
        gone = i.gone ∙ ap₂ (λ x y. destroyed_of x y (HashMap.get f h key)) dk dv;
        count = i.count;
      }

  -- The conversion, and the insertion into the new hash map.
  insert-full :
      (a : ArrayMap)
      → IsValid f (small a)
      → a.size ≡ tiny_limit
      → Inserted f (small a) key value (insert f (small a) key value)
  unfolding insert get_raw size
  insert-full a v full =
      let (c, g, n) = convert-Converted f l a v in
      let i = insert-large (convert f a).0 c.valid (omega (arith, n, full)) in
      rw (insert, ArrayInsert.insert-full f a key value full)
        (record {
          valid = i.valid;
          finds = λ k. rw (sym (g k)) (i.finds k);
          replaced = rw (sym (g key)) i.replaced;
          gone = rw (c.kept, sym (g key)) i.gone;
          count = i.count ∙ ap₂ (λ o x. if is_some o then x else x + 1) (g key) n;
        })

-- On a valid map, with key functions that are an equivalence with equal hashes for equal keys, and
-- with fewer than 2 ^ 64 - 1 entries, MapInsert acts as an insertion into a finite map, tells a
-- replacement from an addition, destroys the key and value that it replaces and nothing else,
-- counts the entries and keeps the invariant: in the array, in the hash map, and where it turns the
-- one into the other.
pub insert_refines :
    (f : KeyFns) (m : Map) (key value : Ptr)
    → KeyLaws f
    → IsValid f m
    → size m + 1 < size_mod
    → Inserted f m key value (insert f m key value)
unfolding size
insert_refines f (large h) key value l v b = insert-large f l key value h v b
insert_refines f (small a) key value l v b = elim (dec_lt a.size tiny_limit) [
  | yes p ↦ insert-small f l key value a v p
  | no p ↦ insert-full f l key value a v (omega (arith, v.within))
]
