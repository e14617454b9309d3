-- ===== src/ArrayMap/Remove.antt =====
-- ArrayMapRemove and ArrayMapClear against a finite map.
use libntech.Prelude.{
  ℕ, zero, suc, ◌+◌, ◌-◌, ◌≤◌, ◌<◌, ◌≡◌, refl, ap, subst, sym, ◌∙◌, Bool, true, false, inl, inr,
  none, some, List, [], ◌++◌, if◌then◌else◌, length, get_or, take, drop, arith, Ptr, Bool-cases,
  Option-cases, length-replicate, drop-get, length-take, length-drop, length-append, take-append_le,
  take-all, take-take, drop-take, take-append_ge,
}
use native.Mathlib.Numerals.{add-one}
use libntech.MapCommon.{MapKeyValue, KeyFns, KeyLaws, destroyed}
use libntech.MapCommon.Entries.{find, matches, find-eq}
use libntech.HashMap.{unlink}
use libntech.HashMap.Chain.{Unlinked, unlink_cases}
use libntech.HashMap.Insert.{is_some, destroyed_of}
use libntech.HashMap.Remove.{without_entry}
use libntech.HashMap.Clear.{destroyed_all}
use libntech.ArrayMap.{ArrayMap, new, tiny_limit, blank, move, remove, get, clear, destroy_from}
use libntech.ArrayMap.Contents.{
  contents, IsValid, first_index, find-index, unlink-index, get_or-take, index_from-first, index-lt,
  get-find,
}
use libntech.ArrayMap.Insert.{some-inj}

-- A removal acts on the entries as one from a finite map.
pub record Removed (f : KeyFns) (m : ArrayMap) (key : Ptr) (p : ArrayMap × Bool × List Ptr)
    : Type 0 where
  pub valid : IsValid f p.0
  pub finds : (a : Ptr) → get f p.0 a ≡ without_entry f (get f m) key a
  pub removed : p.1 ≡ is_some (get f m key)
  pub gone : p.2 ≡ destroyed_of true true (get f m key)
  pub count : p.0.size ≡ (if is_some (get f m key) then m.size - 1 else m.size)

unlink-Unlinked :
    (f : KeyFns) (l : KeyLaws f) (key : Ptr) (es c : List MapKeyValue) (old : MapKeyValue)
    → unlink f es key ≡ some (c, old)
    → Unlinked f key es c old
unlink-Unlinked f l key es c old h = elim (unlink_cases f l key es) [
  | inl (e, n) ↦ absurd (ground (arith, e, h))
  | inr (c', old', e, r) ↦
      subst (λ p. Unlinked f key es p.0 p.1) (some-inj (c', old') (c, old) (sym e ∙ h)) r
]

length-move :
    (d : List MapKeyValue) (j n : ℕ) → j + 1 + n ≤ length d → length (move d j (j + 1) n) ≡ length d
unfolding move
length-move d j n h =
    let e : length (move d j (j + 1) n)
        ≡ length (take j d ++ (take n (drop (j + 1) d) ++ drop (j + n) d)) =
      refl in
    omega (
      arith,
      e,
      length-append (take j d) (take n (drop (j + 1) d) ++ drop (j + n) d),
      length-append (take n (drop (j + 1) d)) (drop (j + n) d),
      length-take j d,
      length-take n (drop (j + 1) d),
      length-drop (j + 1) d,
      length-drop (j + n) d,
    )

-- What is left in front after the entries behind one are moved over it.
take-move :
    (d : List MapKeyValue) (j n : ℕ)
    → j < n
    → n ≤ length d
    → take (n - 1) (move d j (j + 1) (n - j - 1)) ≡ take j (take n d) ++ drop (suc j) (take n d)
unfolding move
take-move d j n h b =
    let w = n - j - 1 in
    let a = take j d in
    let c = take w (drop (j + 1) d) in
    let r = drop (j + w) d in
    let k : n - (j + 1) ≡ w = omega arith in
    let len : length c ≡ w = omega (arith, length-take w (drop (j + 1) d), length-drop (j + 1) d) in
    rw (take-take d j n (omega arith), drop-take d (suc j) n, sym (add-one j), k)
      (take-append_ge a (c ++ r) (n - 1) w (omega (arith, length-take j d))
        ∙ ap (λ l. a ++ l)
            (take-append_le c r w (omega (arith, len)) ∙ take-all c w (omega (arith, len))))

module _ (f : KeyFns) (l : KeyLaws f) (m : ArrayMap) (v : IsValid f m) (key : Ptr) where
  unlink-Removed :
      (j : ℕ)
      → first_index f key (contents m) ≡ some j
      → Removed f m key (
        record m { values = move m.values j (j + 1) (m.size - j - 1); size = m.size - 1 },
        true,
        destroyed true true (get_or m.values j blank),
      )
  unlink-Removed j q =
      let h : m.size ≤ length m.values = omega (arith, v.slots, v.within) in
      let lt = index-lt f m key j q in
      let r : ArrayMap = record m {
        values = move m.values j (j + 1) (m.size - j - 1);
        size = m.size - 1;
      } in
      let len = length-move m.values j (m.size - j - 1) (omega arith) in
      let s : contents r ≡ take j (contents m) ++ drop (suc j) (contents m) =
        take-move m.values j m.size lt h in
      let u =
        unlink-Unlinked f l key (contents m) (take j (contents m) ++ drop (suc j) (contents m))
          (get_or (contents m) j blank) (unlink-index f key (contents m) ∙ rw q) in
      let o = get_or-take m.values j m.size blank lt in
      let g : get f m key ≡ some (get_or (contents m) j blank) = get-find f m key h ∙ u.found in
      record {
        valid = record {
          slots = len ∙ v.slots;
          within = omega (arith, v.within);
          once = λ a. rw s (omega (arith, u.less_count a, v.once a));
        };
        finds = λ a.
            rw (get-find f r a (omega (arith, len, h)), get-find f m a h, s) (u.finds a (v.once a));
        removed = rw g;
        gone = rw (g, o);
        count = rw g;
      }

  absent-Removed : first_index f key (contents m) ≡ none → Removed f m key (m, false, [])
  absent-Removed q =
      let h : m.size ≤ length m.values = omega (arith, v.slots, v.within) in
      let none_yet : find f (contents m) key ≡ none = find-index f key (contents m) ∙ rw q in
      let g : get f m key ≡ none = get-find f m key h ∙ none_yet in
      record {
        valid = v;
        finds = λ a. elim (Bool-cases (f.equal_fn key a)) [
          | inl p ↦ rw p (get-find f m a h ∙ sym (find-eq f l key a (contents m) p) ∙ none_yet)
          | inr p ↦ rw p
        ];
        removed = rw g;
        gone = rw g;
        count = rw g;
      }

-- ArrayMapRemove acts on the entries as a removal from a finite map, says if the key was there,
-- destroys the key and value of the entry that it removes and nothing else, and keeps the invariant.
pub remove-Removed :
    (f : KeyFns) (m : ArrayMap) (key : Ptr)
    → KeyLaws f
    → IsValid f m
    → Removed f m key (remove f m key)
unfolding remove
remove-Removed f m key l v =
    let h : m.size ≤ length m.values = omega (arith, v.slots, v.within) in
    elim (Option-cases (first_index f key (contents m))) [
      | inl q ↦ rw (remove, index_from-first f m key h, q) (absent-Removed f l m v key q)
      | inr (j, q) ↦ rw (remove, index_from-first f m key h, q) (unlink-Removed f l m v key j q)
    ]

destroy_from-eq :
    (d : List MapKeyValue) (n i : ℕ)
    → i + n ≤ length d
    → destroy_from true n i d ≡ destroyed_all true true (take n (drop i d))
unfolding destroy_from
destroy_from-eq d zero i h = refl
destroy_from-eq d (suc n) i h =
    rw (drop-get d i blank (omega arith), destroy_from-eq d n (i + 1) (omega arith), add-one i)

-- ArrayMapClear leaves a valid map with no entry, and destroys the keys and the values of the
-- entries, in order.
pub clear-gone :
    (f : KeyFns) (m : ArrayMap)
    → IsValid f m
    → IsValid f (clear m).0
      × ((a : Ptr) → get f (clear m).0 a ≡ none)
      × ((clear m).1 ≡ destroyed_all true true (contents m))
      × ((clear m).0.size ≡ 0)
unfolding clear find matches
clear-gone f m v = (
  record { slots = v.slots; within = omega arith; once = λ a. omega arith },
  λ a. get-find f (record m { size = 0 }) a (omega arith),
  destroy_from-eq m.values m.size 0 (omega (arith, v.slots, v.within)),
  refl,
)

pub new-IsValid : (f : KeyFns) → IsValid f new × ((a : Ptr) → get f new a ≡ none) × (new.size ≡ 0)
unfolding new find matches
new-IsValid f = (
  record {
    slots = length-replicate tiny_limit blank;
    within = omega arith;
    once = λ a. omega arith;
  },
  λ a. get-find f new a (omega arith),
  refl,
)
