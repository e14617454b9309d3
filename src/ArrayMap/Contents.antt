-- ===== src/ArrayMap/Contents.antt =====
-- The array map against a finite map.
use libntech.Prelude.{
  ℕ, zero, suc, ◌+◌, ◌≤◌, ◌<◌, ◌≡◌, refl, ap, sym, Option, inl, inr, none, some, List, [], ◌∷◌,
  ◌++◌, if◌then◌else◌, length, set, get_or, take, drop, arith, Ptr, Bool-cases, Option-cases,
  drop-get, length-take,
}
use mathlib.Core.Option
use native.Mathlib.Numerals.{add-one}
use libntech.MapCommon.{MapKeyValue, KeyFns}
use libntech.MapCommon.Entries.{find, matches}
use libntech.HashMap.{replace, unlink}
use libntech.ArrayMap.{ArrayMap, tiny_limit, blank, index_from, get}

-- The entries.
abbrev pub contents : ArrayMap → List MapKeyValue
contents m = take m.size m.values

pub record IsValid (f : KeyFns) (m : ArrayMap) : Type 0 where
  pub slots : length m.values ≡ tiny_limit
  pub within : m.size ≤ tiny_limit
  pub once : (a : Ptr) → matches f a (contents m) ≤ 1

module _ (f : KeyFns) (key : Ptr) where
  -- The index of the first entry with an equal key.
  pub first_index : List MapKeyValue → Option ℕ
  first_index [] = none
  first_index (e ∷ es) = if f.equal_fn e.key key then some 0 else Option.map suc (first_index es)

  index_from-eq :
      (n i : ℕ) (d : List MapKeyValue)
      → i + n ≤ length d
      → index_from f n i d key ≡ Option.map (λ j. i + j) (first_index (take n (drop i d)))
  unfolding index_from first_index
  index_from-eq zero i d h = refl
  index_from-eq (suc n) i d h =
      let e = get_or d i blank in
      rw (drop-get d i blank (omega arith), index_from-eq n (i + 1) d (omega arith), add-one i)
        (elim (Bool-cases (f.equal_fn e.key key)) [
          | inl p ↦ rw p (ap some (omega arith))
          | inr p ↦ elim (Option-cases (first_index (take n (drop (suc i) d)))) [
            | inl q ↦ rw (p, q)
            | inr (j, q) ↦ rw (p, q) (ap some (omega arith))
          ]
        ])

  pub find-index :
      (xs : List MapKeyValue) → find f xs key ≡ Option.map (λ j. get_or xs j blank) (first_index xs)
  unfolding find first_index
  find-index [] = refl
  find-index (e ∷ es) = elim (Bool-cases (f.equal_fn e.key key)) [
    | inl p ↦ rw p
    | inr p ↦ elim (Option-cases (first_index es)) [
      | inl q ↦ rw (p, find-index es, q)
      | inr (j, q) ↦ rw (p, find-index es, q)
    ]
  ]

  pub replace-index :
      (value : Ptr) (xs : List MapKeyValue)
      → replace f xs key value
        ≡ Option.map
            (λ j. (set xs j (record { key = key; value = value }), get_or xs j blank))
            (first_index xs)
  unfolding replace first_index
  replace-index value [] = refl
  replace-index value (e ∷ es) = elim (Bool-cases (f.equal_fn e.key key)) [
    | inl p ↦ rw p
    | inr p ↦ elim (Option-cases (first_index es)) [
      | inl q ↦ rw (p, replace-index value es, q)
      | inr (j, q) ↦ rw (p, replace-index value es, q)
    ]
  ]

  pub unlink-index :
      (xs : List MapKeyValue)
      → unlink f xs key
        ≡ Option.map (λ j. (take j xs ++ drop (suc j) xs, get_or xs j blank)) (first_index xs)
  unfolding unlink first_index
  unlink-index [] = refl
  unlink-index (e ∷ es) = elim (Bool-cases (f.equal_fn e.key key)) [
    | inl p ↦ rw p
    | inr p ↦ elim (Option-cases (first_index es)) [
      | inl q ↦ rw (p, unlink-index es, q)
      | inr (j, q) ↦ rw (p, unlink-index es, q)
    ]
  ]

  first_index-lt : (xs : List MapKeyValue) (j : ℕ) → first_index xs ≡ some j → j < length xs
  unfolding first_index
  first_index-lt [] j h = absurd (ground (arith, h))
  first_index-lt (e ∷ es) j h = elim (Bool-cases (f.equal_fn e.key key)) [
    | inl p ↦ ground arith
    | inr p ↦ elim (Option-cases (first_index es)) [
      | inl q ↦ absurd (ground arith)
      | inr (i, q) ↦ ground (arith, first_index-lt es i q)
    ]
  ]

pub get_or-take :
    (d : List MapKeyValue) (j n : ℕ) (b : MapKeyValue)
    → j < n
    → get_or (take n d) j b ≡ get_or d j b
get_or-take d j zero b h = absurd (omega arith)
get_or-take [] j (suc n) b h = refl
get_or-take (x ∷ xs) zero (suc n) b h = refl
get_or-take (x ∷ xs) (suc j) (suc n) b h = get_or-take xs j n b (omega arith)

pub take-set :
    (d : List MapKeyValue) (j n : ℕ) (e : MapKeyValue) → take n (set d j e) ≡ set (take n d) j e
take-set d j zero e = refl
take-set [] j (suc n) e = refl
take-set (x ∷ xs) zero (suc n) e = refl
take-set (x ∷ xs) (suc j) (suc n) e = ap (λ l. x ∷ l) (take-set xs j n e)

pub index_from-first :
    (f : KeyFns) (m : ArrayMap) (key : Ptr)
    → m.size ≤ length m.values
    → index_from f m.size 0 m.values key ≡ first_index f key (contents m)
index_from-first f m key h = elim (Option-cases (first_index f key (contents m))) [
  | inl q ↦ rw (index_from-eq f key m.size 0 m.values (omega arith), q)
  | inr (j, q) ↦ rw (index_from-eq f key m.size 0 m.values (omega arith), q) (ap some (omega arith))
]

-- The index is in the part of the array that is used.
pub index-lt :
    (f : KeyFns) (m : ArrayMap) (key : Ptr) (j : ℕ)
    → first_index f key (contents m) ≡ some j
    → j < m.size
index-lt f m key j q =
    omega (arith, first_index-lt f key (contents m) j q, length-take m.size m.values)

-- The search of the array is the search of its entries.
pub get-find :
    (f : KeyFns) (m : ArrayMap) (key : Ptr)
    → m.size ≤ length m.values
    → get f m key ≡ find f (contents m) key
unfolding get
get-find f m key h = elim (Option-cases (first_index f key (contents m))) [
  | inl q ↦ rw (get, index_from-first f m key h, find-index f key (contents m), q)
  | inr (j, q) ↦
      rw (get, index_from-first f m key h, find-index f key (contents m), q)
        (ap some (sym (get_or-take m.values j m.size blank (index-lt f m key j q))))
]
