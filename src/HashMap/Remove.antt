-- ===== src/HashMap/Remove.antt =====
-- HashMapRemove and HashMapClear against a finite map.
use libntech.Prelude.{
  ℕ, zero, suc, ◌-◌, ◌/◌, ◌^◌, ◌≤◌, ◌<◌, ◌≡◌, refl, ap, sym, ◌∙◌, Bool, true, false, Option, inl,
  inr, none, List, [], if◌then◌else◌, length, set, get_or, arith, Ptr, length-set, ◌&&◌, ltb,
  Bool-cases, size_mod, sub_size,
}
use native.Mathlib.Nat.{pow-succ', pow-le-pow_right}
use native.Mathlib.Decide.{dec_lt}
use libntech.MapCommon.{MapKeyValue, KeyFns, KeyLaws, destroyed}
use libntech.MapCommon.Entries.{find, matches, find-eq}
use libntech.HashMap.{HashMap, get_bucket, get, remove, resize}
use libntech.HashMap.State.{
  total-set, get_or-le-total, IsTable, IsValid, get_bucket-lt, get_bucket-eq, placed-set,
  updated-IsValid, find-set,
}
use libntech.HashMap.Rehash.{resize-Resized, resize-IsValid}
use libntech.HashMap.Chain.{Unlinked, unlink_cases}
use libntech.HashMap.Insert.{is_some, destroyed_of}

-- Entries after the removal of a key.
abbrev pub without_entry : KeyFns → (Ptr → Option MapKeyValue) → Ptr → Ptr → Option MapKeyValue
without_entry f g key a = if f.equal_fn key a then none else g a

pub record Removed (f : KeyFns) (m : HashMap) (key : Ptr) (p : HashMap × Bool × List Ptr)
    : Type 0 where
  pub valid : IsValid f p.0
  pub finds : (a : Ptr) → get f p.0 a ≡ without_entry f (get f m) key a
  pub removed : p.1 ≡ is_some (get f m key)
  pub gone : p.2 ≡ destroyed_of m.has_destroy_key m.has_destroy_value (get f m key)
  pub flags :
      (p.0.has_destroy_key ≡ m.has_destroy_key) × (p.0.has_destroy_value ≡ m.has_destroy_value)
  pub count : p.0.load ≡ (if is_some (get f m key) then m.load - 1 else m.load)

-- Half of a power of two that is above another.
half_bits : (i k : ℕ) → 2 ^ i < 2 ^ k → (j : ℕ) × (suc j ≡ k) × (i ≤ j)
half_bits i zero h =
    absurd (omega (arith, pow-le-pow_right {n = 2} (omega arith) {i = 0} {j = i} (omega arith)))
half_bits i (suc k) h = elim (dec_lt k i) [
  | yes p ↦
      absurd
        (omega (arith, pow-le-pow_right {n = 2} (omega arith) {i = suc k} {j = i} (omega arith)))
  | no p ↦ (k, refl, omega arith)
]

module _ (f : KeyFns) (l : KeyLaws f) (m : HashMap) (v : IsValid f m) (key : Ptr) where
  abbrev home : ℕ
  home = get_bucket f m.size key

  abbrev chain : List MapKeyValue
  chain = get_or m.buckets home []

  home-lt : home < length m.buckets
  home-lt = rw (v.sized, v.table.slots) (get_bucket-lt f v.bits key (omega (arith, v.bits_le)))

  set-IsTable :
      (c : List MapKeyValue) (old : MapKeyValue)
      → Unlinked f key chain c old
      → IsTable f v.bits (set m.buckets home c)
  set-IsTable c old r = record {
    slots = length-set m.buckets home c ∙ v.table.slots;
    placed =
        placed-set f (2 ^ v.bits) m.buckets home c home-lt v.table.placed
          (r.kept (2 ^ v.bits) home (v.table.placed home));
    once = λ a.
        omega
          (arith, total-set (matches f a) m.buckets home c home-lt, r.less_count a, v.table.once a);
  }

  -- The map before it is resized.
  abbrev cut : List MapKeyValue → HashMap
  cut c = record m { buckets = set m.buckets home c; load = sub_size m.load 1 }

  cut-IsValid :
      (c : List MapKeyValue) (old : MapKeyValue)
      → Unlinked f key chain c old
      → m.load < size_mod
      → IsValid f (cut c)
  cut-IsValid c old r h =
      updated-IsValid f m v (set m.buckets home c) (sub_size m.load 1) (set-IsTable c old r)
        (omega (arith, v.counted, total-set length m.buckets home c home-lt, r.less_length))

  cut-get :
      (c : List MapKeyValue) (old : MapKeyValue)
      → Unlinked f key chain c old
      → (a : Ptr) → get f (cut c) a ≡ without_entry f (get f m) key a
  unfolding get matches
  cut-get c old r a =
      find-set f l m.size m.buckets key a c none home-lt (
        r.finds a
          (omega (arith, v.table.once a, get_or-le-total (matches f a) m.buckets home refl)))

  load-pos :
      (c : List MapKeyValue) (old : MapKeyValue)
      → Unlinked f key chain c old
      → m.load < size_mod
      → sub_size m.load 1 ≡ m.load - 1
  load-pos c old r h =
      omega (arith, v.counted, get_or-le-total length m.buckets home refl, r.less_length)

  unlink-Removed :
      (c : List MapKeyValue) (old : MapKeyValue)
      → Unlinked f key chain c old
      → m.load < size_mod
      → Removed f m key (
        if ltb (sub_size m.load 1) m.min_threshold && ltb m.init_size m.size
            then resize f (cut c) (m.size / 2)
            else cut c,
        true,
        destroyed m.has_destroy_key m.has_destroy_value old,
      )
  unfolding get resize
  unlink-Removed c old r h =
      elim (Bool-cases (ltb (sub_size m.load 1) m.min_threshold && ltb m.init_size m.size)) [
        | inl p ↦
            let q : m.init_size < m.size = ground arith in
            let (j, e, i) =
              half_bits v.init_bits v.bits (omega (arith, q, v.sized, v.init_sized)) in
            let d : m.size / 2 ≡ 2 ^ j = omega (arith, v.sized, pow-succ' 2 j, ap (λ k. 2 ^ k) e) in
            let w = cut-IsValid c old r h in
            let t = set-IsTable c old r in
            let s = resize-Resized f (cut c) v.bits j l t v.sized (omega (arith, e, v.bits_le)) in
            rw (p, d)
              (record {
                valid =
                    resize-IsValid f (cut c) v.bits v.init_bits j l t v.sized w.counted v.init_sized
                      i (omega (arith, e, v.bits_le));
                finds = λ a. s.same a ∙ cut-get c old r a;
                removed = rw r.found;
                gone = rw r.found;
                flags = (refl, refl);
                count = rw r.found (load-pos c old r h);
              })
        | inr p ↦ rw p (record {
          valid = cut-IsValid c old r h;
          finds = cut-get c old r;
          removed = rw r.found;
          gone = rw r.found;
          flags = (refl, refl);
          count = rw r.found (load-pos c old r h);
        })
      ]

  absent-Removed : find f chain key ≡ none → Removed f m key (m, false, [])
  unfolding get
  absent-Removed n = record {
    valid = v;
    finds = λ a. elim (Bool-cases (f.equal_fn key a)) [
      | inl p ↦ rw (p, sym (get_bucket-eq f l m.size key a p), sym (find-eq f l key a chain p)) n
      | inr p ↦ rw p
    ];
    removed = rw n;
    gone = rw n;
    flags = (refl, refl);
    count = rw n;
  }

-- On a valid map, with key functions that are an equivalence with equal hashes for equal keys, and
-- with a load below 2 ^ 64, HashMapRemove acts on the entries as a removal from a finite map, says
-- if the key was there, destroys the key and value of the entry that it removes, as far as there
-- are destroy functions, and nothing else, counts the entries and keeps the invariant, also where
-- it resizes.
pub remove-Removed :
    (f : KeyFns) (m : HashMap) (key : Ptr)
    → KeyLaws f
    → IsValid f m
    → m.load < size_mod
    → Removed f m key (remove f m key)
unfolding remove
remove-Removed f m key l v h =
    elim (unlink_cases f l key (get_or m.buckets (get_bucket f m.size key) [])) [
      | inl (e, n) ↦ rw (remove, e) (absent-Removed f l m v key n)
      | inr (c, old, e, r) ↦ rw (remove, e) (unlink-Removed f l m v key c old r h)
    ]
