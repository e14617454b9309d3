-- ===== src/HashMap/Rehash.antt =====
-- HashMapResize keeps the entries.
use libntech.Prelude.{
  ℕ, ◌+◌, ◌^◌, ◌≤◌, ◌≡◌, refl, ap, sym, ◌∙◌, some, List, [], ◌∷◌, length, set, get_or, All, arith,
  Ptr, length-set, replicate, length-replicate,
}
use libntech.MapCommon.{MapKeyValue, KeyFns, KeyLaws}
use libntech.MapCommon.Entries.{find, matches}
use libntech.HashMap.{HashMap, get_bucket, get, rehash_chain, rehash, resize}
use libntech.HashMap.Last.{last_of, last_of_all, last_of_all-once}
use libntech.HashMap.State.{
  total, total-set, total-replicate, get_or-replicate, IsTable, IsValid, get_bucket-lt,
  total-matches, placed-set, find-set,
}

-- Measures that count entries one by one.
record IsCount (g : List MapKeyValue → ℕ) : Type 0 where
  empty : g [] ≡ 0
  next : (e : MapKeyValue) (es : List MapKeyValue) → g (e ∷ es) ≡ g (e ∷ []) + g es

module _ (f : KeyFns) (k : ℕ) (small : k ≤ 64) where
  rehash_chain-slots :
      (es : List MapKeyValue) (bs : List (List MapKeyValue))
      → length (rehash_chain f (2 ^ k) es bs) ≡ length bs
  unfolding rehash_chain
  rehash_chain-slots [] bs = refl
  rehash_chain-slots (e ∷ es) bs =
      let b = get_bucket f (2 ^ k) e.key in
      rehash_chain-slots es (set bs b (e ∷ get_or bs b [])) ∙ length-set bs b (e ∷ get_or bs b [])

  rehash_chain-total :
      (g : List MapKeyValue → ℕ)
      → IsCount g
      → (es : List MapKeyValue) (bs : List (List MapKeyValue)) → length bs ≡ 2 ^ k
      → total g (rehash_chain f (2 ^ k) es bs) ≡ total g bs + g es
  unfolding rehash_chain
  rehash_chain-total g n [] bs h = omega (arith, n.empty)
  rehash_chain-total g n (e ∷ es) bs h =
      let b = get_bucket f (2 ^ k) e.key in
      let old = get_or bs b [] in
      omega (
        arith,
        rehash_chain-total g n es (set bs b (e ∷ old)) (length-set bs b (e ∷ old) ∙ h),
        total-set g bs b (e ∷ old) (omega (arith, h, get_bucket-lt f k e.key small)),
        n.next e old,
        n.next e es,
      )

  rehash_chain-placed :
      (es : List MapKeyValue) (bs : List (List MapKeyValue))
      → length bs ≡ 2 ^ k
      → ((i : ℕ) → All (λ e. get_bucket f (2 ^ k) e.key ≡ i) (get_or bs i []))
      → (i : ℕ)
      → All (λ e. get_bucket f (2 ^ k) e.key ≡ i) (get_or (rehash_chain f (2 ^ k) es bs) i [])
  unfolding rehash_chain
  rehash_chain-placed [] bs h p i = p i
  rehash_chain-placed (e ∷ es) bs h p i =
      let b = get_bucket f (2 ^ k) e.key in
      let c = e ∷ get_or bs b [] in
      rehash_chain-placed es (set bs b c) (length-set bs b c ∙ h)
        (placed-set f (2 ^ k) bs b c (omega (arith, h, get_bucket-lt f k e.key small)) p
          (refl, p b))
        i

  -- Each entry goes to the front of its bucket, and hides those before it.
  rehash_chain-find :
      (a : Ptr) (es : List MapKeyValue) (bs : List (List MapKeyValue))
      → KeyLaws f
      → length bs ≡ 2 ^ k
      → find f (get_or (rehash_chain f (2 ^ k) es bs) (get_bucket f (2 ^ k) a) []) a
        ≡ last_of f a (find f (get_or bs (get_bucket f (2 ^ k) a) []) a) es
  unfolding rehash_chain last_of find
  rehash_chain-find a [] bs l h = refl
  rehash_chain-find a (e ∷ es) bs l h =
      let b = get_bucket f (2 ^ k) e.key in
      let c = e ∷ get_or bs b [] in
      rehash_chain-find a es (set bs b c) l (length-set bs b c ∙ h)
      ∙ ap (λ o. last_of f a o es)
          (find-set f l (2 ^ k) bs e.key a c (some e)
            (omega (arith, h, get_bucket-lt f k e.key small)) refl)

  rehash-slots : (cs bs : List (List MapKeyValue)) → length (rehash f (2 ^ k) cs bs) ≡ length bs
  unfolding rehash
  rehash-slots [] bs = refl
  rehash-slots (c ∷ cs) bs = rehash-slots cs (rehash_chain f (2 ^ k) c bs) ∙ rehash_chain-slots c bs

  rehash-total :
      (g : List MapKeyValue → ℕ)
      → IsCount g
      → (cs bs : List (List MapKeyValue)) → length bs ≡ 2 ^ k
      → total g (rehash f (2 ^ k) cs bs) ≡ total g bs + total g cs
  unfolding rehash
  rehash-total g n [] bs h = omega arith
  rehash-total g n (c ∷ cs) bs h = omega (
    arith,
    rehash-total g n cs (rehash_chain f (2 ^ k) c bs) (rehash_chain-slots c bs ∙ h),
    rehash_chain-total g n c bs h,
  )

  rehash-placed :
      (cs bs : List (List MapKeyValue))
      → length bs ≡ 2 ^ k
      → ((i : ℕ) → All (λ e. get_bucket f (2 ^ k) e.key ≡ i) (get_or bs i []))
      → (i : ℕ) → All (λ e. get_bucket f (2 ^ k) e.key ≡ i) (get_or (rehash f (2 ^ k) cs bs) i [])
  unfolding rehash
  rehash-placed [] bs h p = p
  rehash-placed (c ∷ cs) bs h p =
      rehash-placed cs (rehash_chain f (2 ^ k) c bs) (rehash_chain-slots c bs ∙ h)
        (rehash_chain-placed c bs h p)

  rehash-find :
      (a : Ptr) (cs bs : List (List MapKeyValue))
      → KeyLaws f
      → length bs ≡ 2 ^ k
      → find f (get_or (rehash f (2 ^ k) cs bs) (get_bucket f (2 ^ k) a) []) a
        ≡ last_of_all f a (find f (get_or bs (get_bucket f (2 ^ k) a) []) a) cs
  unfolding rehash last_of_all
  rehash-find a [] bs l h = refl
  rehash-find a (c ∷ cs) bs l h =
      rehash-find a cs (rehash_chain f (2 ^ k) c bs) l (rehash_chain-slots c bs ∙ h)
      ∙ ap (λ o. last_of_all f a o cs) (rehash_chain-find a c bs l h)

length-IsCount : IsCount length
length-IsCount = record { empty = refl; next = λ e es. omega arith }

matches-IsCount : (f : KeyFns) (a : Ptr) → IsCount (matches f a)
unfolding matches
matches-IsCount f a = record { empty = refl; next = λ e es. omega arith }

-- A hash map after HashMapResize.
pub record Resized (f : KeyFns) (m : HashMap) (k : ℕ) (r : HashMap) : Type 0 where
  pub table : IsTable f k r.buckets
  pub counted : total length r.buckets ≡ total length m.buckets
  pub same : (a : Ptr) → get f r a ≡ get f m a

-- HashMapResize to a power of two up to 2 ^ 64, of a map whose table is in order, with key
-- functions that are an equivalence with equal hashes for equal keys, keeps the entry of every key
-- and the number of entries, and leaves a table of that size with every entry in its bucket and no
-- key twice.
pub resize-Resized :
    (f : KeyFns) (m : HashMap) (j k : ℕ)
    → KeyLaws f
    → IsTable f j m.buckets
    → m.size ≡ 2 ^ j
    → k ≤ 64
    → Resized f m k (resize f m (2 ^ k))
unfolding resize get matches
resize-Resized f m j k l t s h =
    let fresh : List (List MapKeyValue) = replicate (2 ^ k) [] in
    let n = length-replicate (2 ^ k) [] in
    record {
      table = record {
        slots = rehash-slots f k h m.buckets fresh ∙ n;
        placed = rehash-placed f k h m.buckets fresh n (λ i. rw (get_or-replicate (2 ^ k) i) tt);
        once = λ a. omega (
          arith,
          rehash-total f k h (matches f a) (matches-IsCount f a) m.buckets fresh n,
          total-replicate (matches f a) (2 ^ k) refl,
          t.once a,
        );
      };
      counted = omega (
        arith,
        rehash-total f k h length length-IsCount m.buckets fresh n,
        total-replicate length (2 ^ k) refl,
      );
      same = λ a.
          rehash-find f k h a m.buckets fresh l n
          ∙ rw (get_or-replicate (2 ^ k) (get_bucket f (2 ^ k) a), s)
              (last_of_all-once f a m.buckets (get_bucket f (2 ^ j) a) (t.once a)
                (total-matches f l j m.buckets a t));
    }

-- HashMapResize keeps the invariant.
pub resize-IsValid :
    (f : KeyFns) (m : HashMap) (j i k : ℕ)
    → KeyLaws f
    → IsTable f j m.buckets
    → m.size ≡ 2 ^ j
    → m.load ≡ total length m.buckets
    → m.init_size ≡ 2 ^ i
    → i ≤ k
    → k ≤ 30
    → IsValid f (resize f m (2 ^ k))
unfolding resize
resize-IsValid f m j i k l t s n d h b =
    let r = resize-Resized f m j k l t s (omega arith) in
    record {
      bits = k;
      sized = refl;
      bits_le = b;
      init_bits = i;
      init_sized = d;
      init_le = h;
      table = r.table;
      counted = n ∙ sym r.counted;
      upper = refl;
      lower = refl;
    }
