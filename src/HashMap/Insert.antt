-- ===== src/HashMap/Insert.antt =====
-- HashMapInsert against a finite map.
use libntech.Prelude.{
  ℕ, suc, ◌+◌, ◌^◌, ◌<◌, ◌≡◌, refl, ap, subst, sym, ◌∙◌, Bool, true, false, Option, inl, inr, none,
  some, List, [], ◌∷◌, if◌then◌else◌, length, set, get_or, arith, Ptr, length-set, ◌&&◌, ltb,
  Bool-cases, size_mod, add_size, mul_size,
}
use native.Mathlib.Nat.{pow-succ', pow-le-pow_right}
use native.Mathlib.Decide.{dec_lt}
use libntech.MapCommon.{MapKeyValue, KeyFns, KeyLaws, destroyed}
use libntech.MapCommon.Entries.{find, matches, absent-find, matches-eq}
use libntech.HashMap.{HashMap, get_bucket, get, insert, add_entry, resize, max_buckets}
use libntech.HashMap.State.{
  total, total-set, IsTable, IsValid, updated-IsValid, get_bucket-lt, get_bucket-eq, total-matches,
  placed-set, find-set,
}
use libntech.HashMap.Rehash.{resize-Resized, resize-IsValid}
use libntech.HashMap.Chain.{Replaced, replace_cases}

-- Entries after the insertion of a key and a value.
abbrev pub with_entry : KeyFns → (Ptr → Option MapKeyValue) → Ptr → Ptr → Ptr → Option MapKeyValue
with_entry f g key value a =
    if f.equal_fn key a then some (record { key = key; value = value }) else g a

-- A key has an entry.
abbrev pub is_some : Option MapKeyValue → Bool
is_some none = false
is_some (some e) = true

-- What is destroyed where an entry, if there is one, goes.
abbrev pub destroyed_of : Bool → Bool → Option MapKeyValue → List Ptr
destroyed_of dk dv none = []
destroyed_of dk dv (some e) = destroyed dk dv e

pub record Inserted (f : KeyFns) (m : HashMap) (key value : Ptr) (p : HashMap × Bool × List Ptr)
    : Type 0 where
  pub valid : IsValid f p.0
  pub finds : (a : Ptr) → get f p.0 a ≡ with_entry f (get f m) key value a
  pub replaced : p.1 ≡ is_some (get f m key)
  pub gone : p.2 ≡ destroyed_of m.has_destroy_key m.has_destroy_value (get f m key)
  pub flags :
      (p.0.has_destroy_key ≡ m.has_destroy_key) × (p.0.has_destroy_value ≡ m.has_destroy_value)
  pub count : p.0.load ≡ (if is_some (get f m key) then m.load else m.load + 1)

-- A power of two below 2 ^ 30.
bits-lt : (k : ℕ) → 2 ^ k < 2 ^ 30 → k < 30
bits-lt k h = elim (dec_lt k 30) [
  | yes p ↦ p
  | no p ↦
      absurd (omega (arith, pow-le-pow_right {n = 2} (omega arith) {i = 30} {j = k} (omega arith)))
]

module _ (f : KeyFns) (l : KeyLaws f) (m : HashMap) (v : IsValid f m) (key value : Ptr) where
  k : ℕ
  k = v.bits

  -- The bucket of the key, and its chain.
  abbrev home : ℕ
  home = get_bucket f m.size key

  abbrev chain : List MapKeyValue
  chain = get_or m.buckets home []

  home-lt : home < length m.buckets
  home-lt = rw (v.sized, v.table.slots) (get_bucket-lt f v.bits key (omega (arith, v.bits_le)))

  set-IsTable :
      (c : List MapKeyValue) (old : MapKeyValue)
      → Replaced f key value chain c old
      → IsTable f v.bits (set m.buckets home c)
  set-IsTable c old r = record {
    slots = length-set m.buckets home c ∙ v.table.slots;
    placed = placed-set f (2 ^ v.bits) m.buckets home c home-lt v.table.placed (
        r.kept (2 ^ v.bits) home (ap (λ n. get_bucket f n key) (sym v.sized))
          (v.table.placed home));
    once = λ a.
        omega
          (arith, total-set (matches f a) m.buckets home c home-lt, r.same_count a, v.table.once a);
  }

  replace-Inserted :
      (c : List MapKeyValue) (old : MapKeyValue)
      → Replaced f key value chain c old
      → Inserted f m key value (
        record m { buckets = set m.buckets home c },
        true,
        destroyed m.has_destroy_key m.has_destroy_value old,
      )
  unfolding get
  replace-Inserted c old r = record {
    valid =
        updated-IsValid f m v (set m.buckets home c) m.load (set-IsTable c old r)
          (omega (arith, v.counted, total-set length m.buckets home c home-lt, r.same_length));
    finds = λ a.
        find-set f l m.size m.buckets key a c (some (record { key = key; value = value })) home-lt
          (r.finds a);
    replaced = rw r.found;
    gone = rw r.found;
    flags = (refl, refl);
    count = rw r.found;
  }

  abbrev item : MapKeyValue
  item = record { key = key; value = value }

  -- No entry has a key that is equal to one with no entry.
  absent-total :
      find f chain key ≡ none
      → (a : Ptr) → f.equal_fn key a ≡ true
      → total (matches f a) m.buckets ≡ 0
  absent-total n a h =
      total-matches f l v.bits m.buckets a v.table
      ∙ rw (sym v.sized, sym (get_bucket-eq f l m.size key a h))
          (sym (matches-eq f l key a chain h) ∙ absent-find f key chain n)

  added-IsTable : find f chain key ≡ none → IsTable f v.bits (set m.buckets home (item ∷ chain))
  unfolding matches
  added-IsTable n = record {
    slots = length-set m.buckets home (item ∷ chain) ∙ v.table.slots;
    placed =
        placed-set f (2 ^ v.bits) m.buckets home (item ∷ chain) home-lt v.table.placed
          (ap (λ n. get_bucket f n key) (sym v.sized), v.table.placed home);
    once = λ a.
        let s = total-set (matches f a) m.buckets home (item ∷ chain) home-lt in
        elim (Bool-cases (f.equal_fn key a)) [
          | inl p ↦ ground (arith, s, absent-total n a p)
          | inr p ↦ ground (arith, s, v.table.once a)
        ];
  }

  -- The map before it is resized.
  abbrev added : HashMap
  added = record m { buckets = set m.buckets home (item ∷ chain); load = add_size m.load 1 }

  added-IsValid : find f chain key ≡ none → m.load + 1 < size_mod → IsValid f added
  added-IsValid n h =
      updated-IsValid f m v (set m.buckets home (item ∷ chain)) (add_size m.load 1)
        (added-IsTable n)
        (omega (arith, v.counted, total-set length m.buckets home (item ∷ chain) home-lt))

  added-get : (a : Ptr) → get f added a ≡ with_entry f (get f m) key value a
  unfolding get find
  added-get a = find-set f l m.size m.buckets key a (item ∷ chain) (some item) home-lt refl

  add_entry-Inserted :
      find f chain key ≡ none
      → m.load + 1 < size_mod
      → Inserted f m key value (add_entry f m key value, false, [])
  unfolding add_entry get resize
  add_entry-Inserted n h =
      elim (Bool-cases (ltb m.max_threshold (add_size m.load 1) && ltb m.size max_buckets)) [
        | inl p ↦
            let q : m.size < 2 ^ 30 = ground arith in
            let small : v.bits < 30 = bits-lt v.bits (subst (λ z. z < 2 ^ 30) v.sized q) in
            let d : mul_size m.size 2 ≡ 2 ^ suc v.bits =
              omega (arith, q, v.sized, pow-succ' 2 v.bits) in
            let w = added-IsValid n h in
            let r =
              resize-Resized f added v.bits (suc v.bits) l (added-IsTable n) v.sized
                (omega arith) in
            rw (p, d)
              (record {
                valid =
                    resize-IsValid f added v.bits v.init_bits (suc v.bits) l (added-IsTable n)
                      v.sized w.counted v.init_sized (omega (arith, v.init_le)) (omega arith);
                finds = λ a. r.same a ∙ added-get a;
                replaced = rw n;
                gone = rw n;
                flags = (refl, refl);
                count = rw n (omega arith);
              })
        | inr p ↦ rw p (record {
          valid = added-IsValid n h;
          finds = added-get;
          replaced = rw n;
          gone = rw n;
          flags = (refl, refl);
          count = rw n (omega arith);
        })
      ]

-- On a valid map, with key functions that are an equivalence with equal hashes for equal keys, and
-- with a load below 2 ^ 64 - 1, HashMapInsert acts on the entries as an insertion into a finite
-- map, says if it replaced an entry, destroys the key and value of the replaced entry, as far as
-- there are destroy functions, and nothing else, counts the entries and keeps the invariant, also
-- where it resizes.
pub insert-Inserted :
    (f : KeyFns) (m : HashMap) (key value : Ptr)
    → KeyLaws f
    → IsValid f m
    → m.load + 1 < size_mod
    → Inserted f m key value (insert f m key value)
unfolding insert
insert-Inserted f m key value l v h =
    elim (replace_cases f l key value (get_or m.buckets (get_bucket f m.size key) [])) [
      | inl (e, n) ↦ rw (insert, e) (add_entry-Inserted f l m v key value n h)
      | inr (c, old, e, r) ↦ rw (insert, e) (replace-Inserted f l m v key value c old r)
    ]
