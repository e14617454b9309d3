-- ===== src/HashMap/Clear.antt =====
-- HashMapNew and HashMapClear.
use libntech.Prelude.{
  ℕ, ◌-◌, ◌^◌, ◌≤◌, ◌<◌, ◌≡◌, refl, sym, ◌∙◌, Bool, true, none, List, [], ◌∷◌, ◌++◌, length, arith,
  Ptr, size_mod, replicate, length-replicate, and_bits-mask, min, max, append_assoc, pow_pos,
}
use native.Mathlib.Nat.{pow-le-pow_right, mod_self}
use mathlib.Core.List.{Perm, perm_append_comm}
use mathlib.Core.List.Perm
use libntech.MapCommon.{MapKeyValue, KeyFns, destroyed}
use libntech.MapCommon.Entries.{find, matches}
use libntech.HashMap.{
  HashMap, new, is_pow2, get_bucket, get, clear, free_chain, free_buckets, min_buckets, max_buckets,
}
use libntech.HashMap.State.{
  total, total-replicate, get_or-replicate, IsTable, IsValid, updated-IsValid,
}

-- All entries, bucket by bucket.
abbrev pub entries : List (List MapKeyValue) → List MapKeyValue
entries [] = []
entries (c ∷ cs) = c ++ entries cs

-- What the destroy functions are called with for all entries.
abbrev pub destroyed_all : Bool → Bool → List MapKeyValue → List Ptr
destroyed_all dk dv [] = []
destroyed_all dk dv (e ∷ es) = destroyed dk dv e ++ destroyed_all dk dv es

empty-IsTable : (f : KeyFns) (k : ℕ) → IsTable f k (replicate (2 ^ k) [])
unfolding matches
empty-IsTable f k = record {
  slots = length-replicate (2 ^ k) [];
  placed = λ i. rw (get_or-replicate (2 ^ k) i) tt;
  once = λ a. omega (arith, total-replicate (matches f a) (2 ^ k) refl);
}

is_pow2-pow : (k : ℕ) → k ≤ 64 → is_pow2 (2 ^ k) ≡ true
unfolding is_pow2
is_pow2-pow k h = ground (arith, pow_pos k, and_bits-mask 64 k (2 ^ k) h, mod_self (2 ^ k))

-- HashMapNew with a power of two in its bounds makes a valid map with no entry and that many
-- buckets.
pub new-IsValid :
    (f : KeyFns) (dk dv : Bool) (k : ℕ)
    → 5 ≤ k
    → k ≤ 30
    → IsValid f (new dk dv (2 ^ k))
      × ((a : Ptr) → get f (new dk dv (2 ^ k)) a ≡ none)
      × ((new dk dv (2 ^ k)).load ≡ 0)
      × ((new dk dv (2 ^ k)).has_destroy_key ≡ dk)
      × ((new dk dv (2 ^ k)).has_destroy_value ≡ dv)
unfolding new get find matches
new-IsValid f dk dv k h b =
    let low = pow-le-pow_right {n = 2} (omega arith) {i = 5} {j = k} h in
    let high = pow-le-pow_right {n = 2} (omega arith) {i = k} {j = 30} b in
    let n : min (max (2 ^ k) min_buckets) max_buckets ≡ 2 ^ k = omega (arith, low, high) in
    let p = is_pow2-pow k (omega arith) in
    rw (n, p)
      (
        record {
          bits = k;
          sized = refl;
          bits_le = b;
          init_bits = k;
          init_sized = refl;
          init_le = omega arith;
          table = empty-IsTable f k;
          counted = sym (total-replicate length (2 ^ k) refl);
          upper = refl;
          lower = refl;
        },
        λ a. rw (get_or-replicate (2 ^ k) (get_bucket f (2 ^ k) a)),
        refl,
        refl,
        refl,
      )

free_chain-load :
    (dk dv : Bool) (es : List MapKeyValue) (n : ℕ)
    → length es ≤ n
    → n < size_mod
    → (free_chain dk dv es n).1 ≡ n - length es
unfolding free_chain
free_chain-load dk dv [] n h s = omega arith
free_chain-load dk dv (e ∷ es) n h s = omega (arith, free_chain-load dk dv es n (omega arith) s)

free_buckets-load :
    (dk dv : Bool) (bs : List (List MapKeyValue)) (n : ℕ)
    → total length bs ≡ n
    → n < size_mod
    → (free_buckets dk dv bs n).1 ≡ 0
unfolding free_buckets
free_buckets-load dk dv [] n h s = omega arith
free_buckets-load dk dv (c ∷ cs) n h s =
    let e = free_chain-load dk dv c n (omega arith) s in
    free_buckets-load dk dv cs (free_chain dk dv c n).1 (omega (arith, e)) (omega (arith, e))

free_chain-gone :
    (dk dv : Bool) (es : List MapKeyValue) (n : ℕ)
    → Perm (free_chain dk dv es n).0 (destroyed_all dk dv es)
unfolding free_chain
free_chain-gone dk dv [] n = Perm.refl []
free_chain-gone dk dv (e ∷ es) n =
    Perm.trans (perm_append_comm (free_chain dk dv es n).0 (destroyed dk dv e))
      (Perm.append_left (destroyed dk dv e) (free_chain-gone dk dv es n))

destroyed_all-append :
    (dk dv : Bool) (xs ys : List MapKeyValue)
    → destroyed_all dk dv (xs ++ ys) ≡ destroyed_all dk dv xs ++ destroyed_all dk dv ys
destroyed_all-append dk dv [] ys = refl
destroyed_all-append dk dv (x ∷ xs) ys =
    rw (destroyed_all-append dk dv xs ys)
      (sym (append_assoc (destroyed dk dv x) (destroyed_all dk dv xs) (destroyed_all dk dv ys)))

free_buckets-gone :
    (dk dv : Bool) (bs : List (List MapKeyValue)) (n : ℕ)
    → Perm (free_buckets dk dv bs n).0 (destroyed_all dk dv (entries bs))
unfolding free_buckets
free_buckets-gone dk dv [] n = Perm.refl []
free_buckets-gone dk dv (c ∷ cs) n =
    rw (destroyed_all-append dk dv c (entries cs)) (
      Perm.append (free_chain-gone dk dv c n) (free_buckets-gone dk dv cs (free_chain dk dv c n).1))

-- HashMapClear on a valid map with a load below 2 ^ 64 leaves a valid map with no entry and the
-- same destroy functions, whose load is 0 as its assertion says, and destroys the keys and the
-- values of all entries, each once, as far as there are destroy functions.
pub clear-destroyed_all :
    (f : KeyFns) (m : HashMap)
    → IsValid f m
    → m.load < size_mod
    → IsValid f (clear m).0
      × ((a : Ptr) → get f (clear m).0 a ≡ none)
      × ((clear m).0.load ≡ 0)
      × Perm (clear m).1 (destroyed_all m.has_destroy_key m.has_destroy_value (entries m.buckets))
      × ((clear m).0.has_destroy_key ≡ m.has_destroy_key)
      × ((clear m).0.has_destroy_value ≡ m.has_destroy_value)
unfolding clear get find
clear-destroyed_all f m v h =
    let z =
      free_buckets-load m.has_destroy_key m.has_destroy_value m.buckets m.load (sym v.counted) h in
    rw (v.table.slots) (
      updated-IsValid f m v (replicate (2 ^ v.bits) [])
          (free_buckets m.has_destroy_key m.has_destroy_value m.buckets m.load).1
          (empty-IsTable f v.bits) (z ∙ sym (total-replicate length (2 ^ v.bits) refl)),
      λ a. rw (get_or-replicate (2 ^ v.bits) (get_bucket f m.size a)),
      z,
      free_buckets-gone m.has_destroy_key m.has_destroy_value m.buckets m.load,
      refl,
      refl,
    )
