-- ===== src/HashMap/Last.antt =====
-- The last entry of a key in a run of entries, which is what rehashing them in turn leaves to find.
use libntech.Prelude.{
  ℕ, zero, suc, ◌≤◌, ◌≡◌, refl, ◌∙◌, Option, inl, inr, none, some, List, [], ◌∷◌, if◌then◌else◌,
  get_or, arith, Ptr, Bool-cases,
}
use libntech.MapCommon.{MapKeyValue, KeyFns}
use libntech.MapCommon.Entries.{find, matches}
use libntech.HashMap.State.{total, get_or-le-total}

-- The entry of a key after a run of entries, the last one that has it.
unfoldable pub last_of : KeyFns → Ptr → Option MapKeyValue → List MapKeyValue → Option MapKeyValue
last_of f a acc [] = acc
last_of f a acc (e ∷ es) = last_of f a (if f.equal_fn e.key a then some e else acc) es

unfoldable pub last_of_all :
    KeyFns → Ptr → Option MapKeyValue → List (List MapKeyValue) → Option MapKeyValue
unfolding last_of
last_of_all f a acc [] = acc
last_of_all f a acc (c ∷ cs) = last_of_all f a (last_of f a acc c) cs

module _ (f : KeyFns) where
  pub last_of-absent :
      (a : Ptr) (acc : Option MapKeyValue) (es : List MapKeyValue)
      → matches f a es ≡ 0
      → last_of f a acc es ≡ acc
  unfolding last_of matches
  last_of-absent a acc [] h = refl
  last_of-absent a acc (e ∷ es) h = elim (Bool-cases (f.equal_fn e.key a)) [
    | inl p ↦ absurd (ground arith)
    | inr p ↦ rw p (last_of-absent a acc es (ground arith))
  ]

  pub last_of-once :
      (a : Ptr) (es : List MapKeyValue) → matches f a es ≤ 1 → last_of f a none es ≡ find f es a
  unfolding last_of matches find
  last_of-once a [] h = refl
  last_of-once a (e ∷ es) h = elim (Bool-cases (f.equal_fn e.key a)) [
    | inl p ↦ rw p (last_of-absent a (some e) es (ground arith))
    | inr p ↦ rw p (last_of-once a es (ground arith))
  ]

  last_of_all-absent :
      (a : Ptr) (acc : Option MapKeyValue) (bs : List (List MapKeyValue))
      → total (matches f a) bs ≡ 0
      → last_of_all f a acc bs ≡ acc
  unfolding last_of_all
  last_of_all-absent a acc [] h = refl
  last_of_all-absent a acc (c ∷ cs) h =
      last_of_all-absent a (last_of f a acc c) cs (omega arith)
      ∙ last_of-absent a acc c (omega arith)

  -- Where a key is there at most once, the bucket that it is in has the last entry with it.
  pub last_of_all-once :
      (a : Ptr) (bs : List (List MapKeyValue)) (j : ℕ)
      → total (matches f a) bs ≤ 1
      → total (matches f a) bs ≡ matches f a (get_or bs j [])
      → last_of_all f a none bs ≡ find f (get_or bs j []) a
  unfolding last_of_all matches find
  last_of_all-once a [] j h e = refl
  last_of_all-once a (c ∷ cs) zero h e =
      last_of_all-absent a (last_of f a none c) cs (omega arith) ∙ last_of-once a c (omega arith)
  last_of_all-once a (c ∷ cs) (suc j) h e =
      let b = get_or-le-total (matches f a) cs j refl in
      rw (last_of-absent a none c (omega (arith, b)))
        (last_of_all-once a cs j (omega arith) (omega (arith, b)))
