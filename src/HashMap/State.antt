-- ===== src/HashMap/State.antt =====
-- The invariant of a hash map, and sums over its buckets.
use libntech.Prelude.{
  ℕ, zero, suc, ◌+◌, ◌-◌, ◌^◌, ◌≤◌, ◌<◌, ◌≡◌, ◌≢◌, refl, ap, subst, sym, ◌∙◌, true, false, Option,
  List, [], ◌∷◌, if◌then◌else◌, length, set, get_or, All, arith, Ptr, and_bits, and_bits-mask,
  pow_pos, get_or-set_self, get_or-set_ne, replicate, ◌==◌, Bool-cases, inl, inr,
}
use native.Mathlib.Nat.{mod-lt}
use libntech.MapCommon.{MapKeyValue, KeyFns, KeyLaws}
use libntech.MapCommon.Entries.{find, matches}
use libntech.HashMap.{HashMap, get_bucket, max_load, min_load}

-- The sum of a measure over the chains.
abbrev pub total : (List MapKeyValue → ℕ) → List (List MapKeyValue) → ℕ
total g [] = 0
total g (c ∷ cs) = g c + total g cs

pub total-set :
    (g : List MapKeyValue → ℕ) (bs : List (List MapKeyValue)) (b : ℕ) (c : List MapKeyValue)
    → b < length bs
    → total g (set bs b c) + g (get_or bs b []) ≡ total g bs + g c
total-set g [] b c h = absurd (omega arith)
total-set g (x ∷ xs) zero c h = omega arith
total-set g (x ∷ xs) (suc b) c h = omega (arith, total-set g xs b c (omega arith))

pub get_or-le-total :
    (g : List MapKeyValue → ℕ) (bs : List (List MapKeyValue)) (j : ℕ)
    → g [] ≡ 0
    → g (get_or bs j []) ≤ total g bs
get_or-le-total g [] j h = omega (arith, h)
get_or-le-total g (c ∷ cs) zero h = omega arith
get_or-le-total g (c ∷ cs) (suc j) h = omega (arith, get_or-le-total g cs j h)

pub total-replicate : (g : List MapKeyValue → ℕ) (n : ℕ) → g [] ≡ 0 → total g (replicate n []) ≡ 0
total-replicate g zero h = refl
total-replicate g (suc n) h = omega (arith, h, total-replicate g n h)

pub get_or-replicate : (n i : ℕ) → get_or {A = List MapKeyValue} (replicate n []) i [] ≡ []
get_or-replicate zero i = refl
get_or-replicate (suc n) zero = refl
get_or-replicate (suc n) (suc i) = get_or-replicate n i

module _ (f : KeyFns) where
  -- Buckets of which each holds entries that hash to it, and no key twice.
  pub record IsTable (k : ℕ) (bs : List (List MapKeyValue)) : Type 0 where
    pub slots : length bs ≡ 2 ^ k
    pub placed : (i : ℕ) → All (λ e. get_bucket f (2 ^ k) e.key ≡ i) (get_or bs i [])
    pub once : (a : Ptr) → total (matches f a) bs ≤ 1

  pub record IsValid (m : HashMap) : Type 0 where
    pub bits : ℕ
    pub sized : m.size ≡ 2 ^ bits
    pub bits_le : bits ≤ 30
    pub init_bits : ℕ
    pub init_sized : m.init_size ≡ 2 ^ init_bits
    pub init_le : init_bits ≤ bits
    pub table : IsTable bits m.buckets
    pub counted : m.load ≡ total length m.buckets
    pub upper : m.max_threshold ≡ max_load m.size
    pub lower : m.min_threshold ≡ min_load m.size

  pub get_bucket-lt : (k : ℕ) (a : Ptr) → k ≤ 64 → get_bucket f (2 ^ k) a < 2 ^ k
  unfolding get_bucket
  get_bucket-lt k a h =
      rw (and_bits-mask 64 k (f.hash_fn a) h) (mod-lt (f.hash_fn a) {m = 2 ^ k} (pow_pos k))

  -- A bucket may be replaced by entries that hash to it.
  pub placed-set :
      (n : ℕ) (bs : List (List MapKeyValue)) (b : ℕ) (c : List MapKeyValue)
      → b < length bs
      → ((i : ℕ) → All (λ e. get_bucket f n e.key ≡ i) (get_or bs i []))
      → All (λ e. get_bucket f n e.key ≡ b) c
      → (i : ℕ) → All (λ e. get_bucket f n e.key ≡ i) (get_or (set bs b c) i [])
  placed-set n bs b c h p q i = elim (Bool-cases (b == i)) [
    | inl e ↦
        let d : b ≡ i = ground arith in
        subst (λ j. All (λ e. get_bucket f n e.key ≡ j) (get_or (set bs b c) j [])) d
          (rw (get_or-set_self bs b c [] h) q)
    | inr e ↦ rw (get_or-set_ne bs b i c [] (ground arith)) (p i)
  ]

  -- New buckets and a new load.
  pub updated-IsValid :
      (m : HashMap) (v : IsValid m) (bs : List (List MapKeyValue)) (n : ℕ)
      → IsTable v.bits bs
      → n ≡ total length bs
      → IsValid (record m { buckets = bs; load = n })
  updated-IsValid m v bs n t e = record {
    bits = v.bits;
    sized = v.sized;
    bits_le = v.bits_le;
    init_bits = v.init_bits;
    init_sized = v.init_sized;
    init_le = v.init_le;
    table = t;
    counted = e;
    upper = v.upper;
    lower = v.lower;
  }

module _ (f : KeyFns) (l : KeyLaws f) where
  pub get_bucket-eq :
      (n : ℕ) (a b : Ptr) → f.equal_fn a b ≡ true → get_bucket f n a ≡ get_bucket f n b
  unfolding get_bucket
  get_bucket-eq n a b h = ap (λ x. and_bits 64 x (n - 1)) (l.equal_hash a b h)

  -- What the search finds when the chain of one key is replaced.
  pub find-set :
      (n : ℕ) (bs : List (List MapKeyValue)) (key a : Ptr) (c : List MapKeyValue)
      → (x : Option MapKeyValue) → get_bucket f n key < length bs
      → find f c a ≡ (if f.equal_fn key a then x else find f (get_or bs (get_bucket f n key) []) a)
      → find f (get_or (set bs (get_bucket f n key) c) (get_bucket f n a) []) a
        ≡ (if f.equal_fn key a then x else find f (get_or bs (get_bucket f n a) []) a)
  find-set n bs key a c x h e =
      let b = get_bucket f n key in
      let d = get_bucket f n a in
      elim (Bool-cases (b == d)) [
        | inl p ↦
            let q : b ≡ d = ground arith in
            subst
              (λ j.
                find f (get_or (set bs b c) j []) a
                ≡ (if f.equal_fn key a then x else find f (get_or bs j []) a))
              q (rw (get_or-set_self bs b c [] h) e)
        | inr p ↦
            let n : f.equal_fn key a ≡ false = elim (Bool-cases (f.equal_fn key a)) [
              | inl t ↦ absurd (ground (arith, get_bucket-eq n key a t))
              | inr t ↦ t
            ] in
            rw (n, get_or-set_ne bs b d c [] (ground arith))
      ]

  -- Where no entry hashes to the bucket of a key, none has the key.
  foreign :
      (n i : ℕ) (a : Ptr) (es : List MapKeyValue)
      → All (λ e. get_bucket f n e.key ≡ i) es
      → get_bucket f n a ≢ i
      → matches f a es ≡ 0
  unfolding matches
  foreign n i a [] h d = refl
  foreign n i a (e ∷ es) (h, hs) d = ground (arith, foreign n i a es hs d, get_bucket-eq n e.key a)

  total-foreign :
      (n a : ℕ) (bs : List (List MapKeyValue)) (g : ℕ → ℕ)
      → ((j : ℕ) → All (λ e. get_bucket f n e.key ≡ g j) (get_or bs j []))
      → ((j : ℕ) → get_bucket f n a ≢ g j)
      → total (matches f a) bs ≡ 0
  total-foreign n a [] g h d = refl
  total-foreign n a (c ∷ cs) g h d = omega (
    arith,
    foreign n (g 0) a c (h 0) (d 0),
    total-foreign n a cs (λ j. g (suc j)) (λ j. h (suc j)) (λ j. d (suc j)),
  )

  total-own :
      (n a : ℕ) (bs : List (List MapKeyValue)) (g : ℕ → ℕ)
      → ((j : ℕ) → All (λ e. get_bucket f n e.key ≡ g j) (get_or bs j []))
      → ((i j : ℕ) → g i ≡ g j → i ≡ j)
      → (j : ℕ) → get_bucket f n a ≡ g j
      → total (matches f a) bs ≡ matches f a (get_or bs j [])
  unfolding matches
  total-own n a [] g h inj j e = refl
  total-own n a (c ∷ cs) g h inj zero e = omega (
    arith,
    total-foreign n a cs (λ j. g (suc j)) (λ j. h (suc j))
        (λ j d. absurd (omega (arith, inj 0 (suc j) (sym e ∙ d)))),
  )
  total-own n a (c ∷ cs) g h inj (suc j) e = omega (
    arith,
    foreign n (g 0) a c (h 0) (λ d. absurd (omega (arith, inj 0 (suc j) (sym d ∙ e)))),
    total-own n a cs (λ j. g (suc j)) (λ j. h (suc j))
        (λ i j d. omega (arith, inj (suc i) (suc j) d)) j e,
  )

  -- All entries with a key are in its bucket.
  pub total-matches :
      (k : ℕ) (bs : List (List MapKeyValue)) (a : Ptr)
      → IsTable f k bs
      → total (matches f a) bs ≡ matches f a (get_or bs (get_bucket f (2 ^ k) a) [])
  total-matches k bs a t =
      total-own (2 ^ k) a bs (λ j. j) t.placed (λ i j e. e) (get_bucket f (2 ^ k) a) refl
