-- ===== src/ArrayMap/Insert.antt =====
-- ArrayMapInsert against a finite map.
use libntech.Prelude.{
  ℕ, ◌+◌, ◌≤◌, ◌<◌, ◌≡◌, refl, ap, subst, sym, ◌∙◌, true, false, inl, inr, none, some, List, [],
  ◌∷◌, ◌++◌, if◌then◌else◌, length, set, get_or, take, arith, Ptr, length-set, ◌==◌, Bool-cases,
  Option-cases, take-set_next,
}
use native.Mathlib.Numerals.{add-one}
use libntech.MapCommon.{MapKeyValue, KeyFns, KeyLaws, destroyed}
use libntech.MapCommon.Entries.{find, matches, absent-find, matches-eq, find-eq, matches-append}
use libntech.HashMap.{replace}
use libntech.HashMap.Chain.{Replaced, replace_cases}
use libntech.HashMap.Insert.{with_entry, is_some, destroyed_of}
use libntech.ArrayMap.{ArrayMap, tiny_limit, blank, insert, get}
use libntech.ArrayMap.Contents.{
  contents, IsValid, first_index, find-index, replace-index, get_or-take, take-set,
  index_from-first, index-lt, get-find,
}

-- An insertion that has room acts on the entries as one into a finite map. The result is 1 where
-- the key was there, and 2 else.
pub record Inserted (f : KeyFns) (m : ArrayMap) (key value : Ptr) (p : ArrayMap × ℕ × List Ptr)
    : Type 0 where
  pub valid : IsValid f p.0
  pub finds : (a : Ptr) → get f p.0 a ≡ with_entry f (get f m) key value a
  pub result : p.1 ≡ (if is_some (get f m key) then 1 else 2)
  pub gone : p.2 ≡ destroyed_of true true (get f m key)
  pub count : p.0.size ≡ (if is_some (get f m key) then m.size else m.size + 1)

pub some-inj : {A : Type 0} (a b : A) → some a ≡ some b → a ≡ b
some-inj a b e = ap (λ o. elim o [ none ↦ a | some x ↦ x ]) e

-- What the loop of a replacement gives at a known result.
replace-Replaced :
    (f : KeyFns) (l : KeyLaws f) (key value : Ptr) (es c : List MapKeyValue) (old : MapKeyValue)
    → replace f es key value ≡ some (c, old)
    → Replaced f key value es c old
replace-Replaced f l key value es c old h = elim (replace_cases f l key value es) [
  | inl (e, n) ↦ absurd (ground (arith, e, h))
  | inr (c', old', e, r) ↦
      subst (λ p. Replaced f key value es p.0 p.1) (some-inj (c', old') (c, old) (sym e ∙ h)) r
]

find-append_one :
    (f : KeyFns) (xs : List MapKeyValue) (e : MapKeyValue) (a : Ptr)
    → find f xs a ≡ none
    → find f (xs ++ e ∷ []) a ≡ (if f.equal_fn e.key a then some e else none)
unfolding find
find-append_one f [] e a h = refl
find-append_one f (x ∷ xs) e a h = elim (Bool-cases (f.equal_fn x.key a)) [
  | inl p ↦ absurd (ground arith)
  | inr p ↦ rw p (find-append_one f xs e a (ground arith))
]

find-append_other :
    (f : KeyFns) (xs : List MapKeyValue) (e : MapKeyValue) (a : Ptr)
    → f.equal_fn e.key a ≡ false
    → find f (xs ++ e ∷ []) a ≡ find f xs a
unfolding find
find-append_other f [] e a h = rw h
find-append_other f (x ∷ xs) e a h = rw (find-append_other f xs e a h)

module _ (f : KeyFns) (l : KeyLaws f) (m : ArrayMap) (v : IsValid f m) (key : Ptr) where
  replace-Inserted :
      (value : Ptr) (j : ℕ)
      → first_index f key (contents m) ≡ some j
      → Inserted f m key value (
        record m { values = set m.values j (record { key = key; value = value }) },
        1,
        destroyed true true (get_or m.values j blank),
      )
  replace-Inserted value j q =
      let e : MapKeyValue = record { key = key; value = value } in
      let h : m.size ≤ length m.values = omega (arith, v.slots, v.within) in
      let n : m.size ≤ length (set m.values j e) = omega (arith, h, length-set m.values j e) in
      let old = get_or (contents m) j blank in
      let s = take-set m.values j m.size e in
      let o = get_or-take m.values j m.size blank (index-lt f m key j q) in
      let r =
        replace-Replaced f l key value (contents m) (set (contents m) j e) old
          (replace-index f key value (contents m) ∙ rw q) in
      let g : get f m key ≡ some old = get-find f m key h ∙ r.found in
      record {
        valid = record {
          slots = length-set m.values j e ∙ v.slots;
          within = v.within;
          once = λ a. rw s (omega (arith, r.same_count a, v.once a));
        };
        finds = λ a.
            rw (get-find f (record m { values = set m.values j e }) a n, get-find f m a h, s)
              (r.finds a);
        result = rw g;
        gone = rw (g, o);
        count = rw g;
      }

  added-Inserted :
      (value : Ptr)
      → m.size < tiny_limit
      → first_index f key (contents m) ≡ none
      → Inserted f m key value (
        record m {
          values = set m.values m.size (record { key = key; value = value });
          size = m.size + 1;
        },
        2,
        [],
      )
  unfolding matches
  added-Inserted value room q =
      let e : MapKeyValue = record { key = key; value = value } in
      let h : m.size ≤ length m.values = omega (arith, v.slots, v.within) in
      let r : ArrayMap = record m { values = set m.values m.size e; size = m.size + 1 } in
      let n : r.size ≤ length r.values = omega (arith, length-set m.values m.size e, v.slots) in
      let s : contents r ≡ contents m ++ e ∷ [] =
        ap (λ k. take k r.values) (add-one m.size)
        ∙ take-set_next m.values m.size e (omega (arith, v.slots)) in
      let none_yet : find f (contents m) key ≡ none = find-index f key (contents m) ∙ rw q in
      let g : get f m key ≡ none = get-find f m key h ∙ none_yet in
      record {
        valid = record {
          slots = length-set m.values m.size e ∙ v.slots;
          within = omega arith;
          once = λ a.
              rw (s, matches-append f a (contents m) (e ∷ []))
                (elim (Bool-cases (f.equal_fn key a)) [
                  | inl p ↦ rw p (
                      omega (
                        arith,
                        matches-eq f l key a (contents m) p,
                        absent-find f key (contents m) none_yet,
                      ))
                  | inr p ↦ rw p (omega (arith, v.once a))
                ]);
        };
        finds = λ a.
            rw (get-find f r a n, get-find f m a h, s)
              (elim (Bool-cases (f.equal_fn key a)) [
                | inl p ↦
                    find-append_one f (contents m) e a
                      (sym (find-eq f l key a (contents m) p) ∙ none_yet)
                    ∙ rw p
                | inr p ↦ rw p (find-append_other f (contents m) e a p)
              ]);
        result = rw g;
        gone = rw g;
        count = rw g;
      }

-- ArrayMapInsert with room acts on the entries as an insertion into a finite map, tells a
-- replacement from an addition, destroys the key and value that it replaces and nothing else, and
-- keeps the invariant.
pub insert-Inserted :
    (f : KeyFns) (m : ArrayMap) (key value : Ptr)
    → KeyLaws f
    → IsValid f m
    → m.size < tiny_limit
    → Inserted f m key value (insert f m key value)
unfolding insert
insert-Inserted f m key value l v room =
    let h : m.size ≤ length m.values = omega (arith, v.slots, v.within) in
    let z : (m.size == tiny_limit) ≡ false = ground arith in
    elim (Option-cases (first_index f key (contents m))) [
      | inl q ↦
          rw (insert, z, index_from-first f m key h, q) (added-Inserted f l m v key value room q)
      | inr (j, q) ↦
          rw (insert, z, index_from-first f m key h, q) (replace-Inserted f l m v key value j q)
    ]

-- A full array is left as it is.
pub insert-full :
    (f : KeyFns) (m : ArrayMap) (key value : Ptr)
    → m.size ≡ tiny_limit
    → insert f m key value ≡ (m, 0, [])
unfolding insert
insert-full f m key value h = let z : (m.size == tiny_limit) ≡ true = ground arith in rw (insert, z)
