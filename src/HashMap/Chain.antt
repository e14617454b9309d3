-- ===== src/HashMap/Chain.antt =====
-- The loops of HashMapInsert and HashMapRemove over one chain.
use libntech.Prelude.{
  ℕ, suc, ◌+◌, ◌≤◌, ◌≡◌, refl, ap, sym, ◌∙◌, ◌⊎◌, inl, inr, true, false, none, some, List, [], ◌∷◌,
  if◌then◌else◌, length, All, arith, Ptr, Bool-cases,
}
use libntech.MapCommon.{MapKeyValue, KeyFns, KeyLaws}
use libntech.MapCommon.Entries.{find, matches, find-absent, equal_fn-eq}
use libntech.HashMap.{get_bucket, replace, unlink}

module _ (f : KeyFns) (key : Ptr) where
  -- An entry was replaced: `c` has the new one in its place.
  pub record Replaced (value : Ptr) (es c : List MapKeyValue) (old : MapKeyValue) : Type 0 where
    pub found : find f es key ≡ some old
    pub same_count : (a : Ptr) → matches f a c ≡ matches f a es
    pub same_length : length c ≡ length es
    pub kept :
        (n i : ℕ)
        → get_bucket f n key ≡ i
        → All (λ e. get_bucket f n e.key ≡ i) es
        → All (λ e. get_bucket f n e.key ≡ i) c
    pub finds :
        (a : Ptr)
        → find f c a
          ≡ (if f.equal_fn key a then some (record { key = key; value = value }) else find f es a)

  -- An entry was unlinked.
  pub record Unlinked (es c : List MapKeyValue) (old : MapKeyValue) : Type 0 where
    pub found : find f es key ≡ some old
    pub less_count :
        (a : Ptr) → matches f a c + (if f.equal_fn key a then 1 else 0) ≡ matches f a es
    pub less_length : length c + 1 ≡ length es
    pub kept :
        (n i : ℕ) → All (λ e. get_bucket f n e.key ≡ i) es → All (λ e. get_bucket f n e.key ≡ i) c
    pub finds :
        (a : Ptr)
        → matches f a es ≤ 1
        → find f c a ≡ (if f.equal_fn key a then none else find f es a)

module _ (f : KeyFns) (l : KeyLaws f) (key : Ptr) where
  -- An entry with an equal key is equal to the same keys.
  equal_fn-eq_left : (a b : Ptr) → f.equal_fn a key ≡ true → f.equal_fn a b ≡ f.equal_fn key b
  equal_fn-eq_left a b h = elim (Bool-cases (f.equal_fn a b)) [
    | inl p ↦ p ∙ sym (l.equal_trans key a b (l.equal_sym a key h) p)
    | inr p ↦ elim (Bool-cases (f.equal_fn key b)) [
      | inl q ↦ absurd (ground (arith, l.equal_trans a key b h q))
      | inr q ↦ p ∙ sym q
    ]
  ]

  equal_fn-apart :
      (a b : Ptr) → f.equal_fn a key ≡ false → f.equal_fn key b ≡ true → f.equal_fn a b ≡ false
  equal_fn-apart a b h k = sym (equal_fn-eq f l key b a k) ∙ h

  pub replace_cases :
      (value : Ptr) (es : List MapKeyValue)
      → ((replace f es key value ≡ none) × (find f es key ≡ none))
        ⊎ ((c : List MapKeyValue) × (old : MapKeyValue) × (replace f es key value ≡ some (c, old))
            × Replaced f key value es c old)
  unfolding replace find matches
  replace_cases value [] = inl (refl, refl)
  replace_cases value (e ∷ es) = elim (Bool-cases (f.equal_fn e.key key)) [
    | inl p ↦ inr (
      record { key = key; value = value } ∷ es,
      e,
      rw p,
      record {
        found = rw p;
        same_count = λ a. rw (equal_fn-eq_left e.key a p);
        same_length = refl;
        kept = λ n i h hs. (h, hs.1);
        finds = λ a. rw (equal_fn-eq_left e.key a p) (ground arith);
      },
    )
    | inr p ↦ elim (replace_cases value es) [
      | inl (n, g) ↦ inl (rw (p, n), rw (p, g))
      | inr (c, old, n, r) ↦ inr (
        e ∷ c,
        old,
        rw (p, n),
        record {
          found = rw (p, r.found);
          same_count = λ a. rw (r.same_count a);
          same_length = ap suc r.same_length;
          kept = λ n i h hs. (hs.0, r.kept n i h hs.1);
          finds = λ a. rw (r.finds a) (ground (arith, equal_fn-apart e.key a p));
        },
      )
    ]
  ]

  pub unlink_cases :
      (es : List MapKeyValue)
      → ((unlink f es key ≡ none) × (find f es key ≡ none))
        ⊎ ((c : List MapKeyValue) × (old : MapKeyValue) × (unlink f es key ≡ some (c, old))
            × Unlinked f key es c old)
  unfolding unlink find matches
  unlink_cases [] = inl (refl, refl)
  unlink_cases (e ∷ es) = elim (Bool-cases (f.equal_fn e.key key)) [
    | inl p ↦ inr (
      es,
      e,
      rw p,
      record {
        found = rw p;
        less_count = λ a. ground (arith, equal_fn-eq_left e.key a p);
        less_length = omega arith;
        kept = λ n i hs. hs.1;
        finds = λ a h. ground (arith, equal_fn-eq_left e.key a p, find-absent f a es);
      },
    )
    | inr p ↦ elim (unlink_cases es) [
      | inl (n, g) ↦ inl (rw (p, n), rw (p, g))
      | inr (c, old, n, r) ↦ inr (
        e ∷ c,
        old,
        rw (p, n),
        record {
          found = rw (p, r.found);
          less_count = λ a. omega (arith, r.less_count a);
          less_length = omega (arith, r.less_length);
          kept = λ n i hs. (hs.0, r.kept n i hs.1);
          finds = λ a h. rw (r.finds a (omega arith)) (ground (arith, equal_fn-apart e.key a p));
        },
      )
    ]
  ]
