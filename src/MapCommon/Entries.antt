-- ===== src/MapCommon/Entries.antt =====
-- The search of a list of entries, and the number of its entries with a key.
use libntech.Prelude.{
  ℕ, ◌+◌, ◌≡◌, refl, sym, ◌∙◌, inl, inr, true, Option, none, some, List, [], ◌∷◌, ◌++◌,
  if◌then◌else◌, arith, Ptr, Bool-cases,
}
use libntech.MapCommon.{MapKeyValue, KeyFns, KeyLaws}

module _ (f : KeyFns) where
  -- The first entry with an equal key.
  unfoldable pub find : List MapKeyValue → Ptr → Option MapKeyValue
  find [] k = none
  find (e ∷ es) k = if f.equal_fn e.key k then some e else find es k

  -- The number of entries with an equal key.
  unfoldable pub matches : Ptr → List MapKeyValue → ℕ
  matches k [] = 0
  matches k (e ∷ es) = (if f.equal_fn e.key k then 1 else 0) + matches k es

  pub matches-append :
      (k : Ptr) (xs ys : List MapKeyValue) → matches k (xs ++ ys) ≡ matches k xs + matches k ys
  unfolding matches
  matches-append k [] ys = omega arith
  matches-append k (x ∷ xs) ys = omega (arith, matches-append k xs ys)

  pub find-absent : (k : Ptr) (es : List MapKeyValue) → matches k es ≡ 0 → find es k ≡ none
  unfolding find matches
  find-absent k [] h = refl
  find-absent k (e ∷ es) h = ground (arith, find-absent k es)

  pub absent-find : (k : Ptr) (es : List MapKeyValue) → find es k ≡ none → matches k es ≡ 0
  unfolding find matches
  absent-find k [] h = refl
  absent-find k (e ∷ es) h = ground (arith, absent-find k es)

module _ (f : KeyFns) (l : KeyLaws f) where
  -- Equal keys are equal to the same keys.
  pub equal_fn-eq : (a b c : Ptr) → f.equal_fn a b ≡ true → f.equal_fn c a ≡ f.equal_fn c b
  equal_fn-eq a b c h = elim (Bool-cases (f.equal_fn c a)) [
    | inl p ↦ p ∙ sym (l.equal_trans c a b p h)
    | inr p ↦ elim (Bool-cases (f.equal_fn c b)) [
      | inl q ↦ absurd (ground (arith, l.equal_trans c b a q (l.equal_sym a b h)))
      | inr q ↦ p ∙ sym q
    ]
  ]

  pub matches-eq :
      (a b : Ptr) (es : List MapKeyValue) → f.equal_fn a b ≡ true → matches f a es ≡ matches f b es
  unfolding matches
  matches-eq a b [] h = refl
  matches-eq a b (e ∷ es) h = rw (equal_fn-eq a b e.key h, matches-eq a b es h)

  pub find-eq :
      (a b : Ptr) (es : List MapKeyValue) → f.equal_fn a b ≡ true → find f es a ≡ find f es b
  unfolding find
  find-eq a b [] h = refl
  find-eq a b (e ∷ es) h = rw (equal_fn-eq a b e.key h, find-eq a b es h)
