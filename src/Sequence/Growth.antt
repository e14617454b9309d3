-- ===== src/Sequence/Growth.antt =====
-- What a sequence holds, and the operations that add, remove and copy ranges of items.
use libntech.Prelude.{
  ℕ, zero, suc, ◌+◌, ◌*◌, ◌≤◌, ◌<◌, ◌≡◌, refl, sym, ◌∙◌, Bool, List, [], ◌∷◌, ◌++◌, append_assoc,
  append-nil, length, take, drop, arith, Ptr, null, read, size_mod, max, subst, length-realloc,
  take-realloc, mul_size, add_size, length-set, length-take, length-replicate, take-set_next,
  drop-get,
}
use native.Mathlib.Numerals.{add-one}
use libntech.Sequence.{Seq, words, new, slice, expand_if_necessary, append, append_from, append_seq}

abbrev pub contents : Seq → List Ptr
contents s = take s.length s.items

pub record IsValid (s : Seq) : Type 0 where
  pub slots : length s.items ≡ s.capacity
  pub positive : 0 < s.capacity
  pub within : s.length ≤ s.capacity

-- A doubled array of pointers stays below the address space.
abbrev pub Fits : Seq → Type 0
Fits s = 16 * s.capacity < size_mod

pub length-contents : (s : Seq) → IsValid s → length (contents s) ≡ s.length
length-contents s v = omega (arith, length-take s.length s.items, v.slots, v.within)

pub new-IsValid : (n : ℕ) (d : Bool) → IsValid (new n d) × (contents (new n d) ≡ [])
unfolding new
new-IsValid n d = ground (arith, length-replicate n null, length-replicate 1 null)

words_double : (c : ℕ) → 16 * c < size_mod → words (mul_size c 2) ≡ c * 2
words_double c h = omega arith

-- The state of the sequence after ExpandIfNeccessary: there is room, and nothing else has changed.
record HasRoom (s t : Seq) : Type 0 where
  valid : IsValid t
  same : contents t ≡ contents s
  kept : t.length ≡ s.length
  room : t.length < t.capacity
  flag : t.has_destroy ≡ s.has_destroy
  bound : t.capacity ≤ max s.capacity (2 * s.length)

expand-HasRoom : (s : Seq) → IsValid s → Fits s → HasRoom s (expand_if_necessary s)
unfolding expand_if_necessary
expand-HasRoom s v f = ground (
  arith,
  words_double s.capacity f,
  length-realloc s.items (s.capacity * 2),
  take-realloc s.items s.length (s.capacity * 2),
)

-- `t` is `s` with the items `xs` after its own; its array is at most twice as large as needed.
pub record Appended (s : Seq) (xs : List Ptr) (t : Seq) : Type 0 where
  pub valid : IsValid t
  pub holds : contents t ≡ contents s ++ xs
  pub flag : t.has_destroy ≡ s.has_destroy
  pub bound : t.capacity ≤ max s.capacity (2 * t.length)
  pub count : t.length ≡ s.length + length xs

-- SeqAppend on a valid sequence whose array fits into the address space adds the item at the end
-- and keeps the invariant.
pub append-Appended : (s : Seq) (x : Ptr) → IsValid s → Fits s → Appended s (x ∷ []) (append s x)
unfolding append
append-Appended s x v f =
    let t = expand_if_necessary s in
    let r = expand-HasRoom s v f in
    let more : add_size t.length 1 ≡ suc t.length = omega (arith, r.kept, v.within, f) in
    record {
      valid = record {
        slots = length-set t.items t.length x ∙ r.valid.slots;
        positive = r.valid.positive;
        within = omega (arith, more, r.room);
      };
      holds =
          rw
            (more, take-set_next t.items t.length x (omega (arith, r.room, r.valid.slots)), r.same);
      flag = r.flag;
      bound = omega (arith, r.bound, r.kept, more);
      count = omega (arith, r.kept, more);
    }

pub append_from-Appended :
    (n i : ℕ) (s : Seq) (d : List Ptr)
    → IsValid s
    → Fits s
    → 32 * (s.length + n) < size_mod
    → Appended s (slice d i n) (append_from s d i n)
unfolding append_from slice
append_from-Appended zero i s d v f h = record {
  valid = v;
  holds = sym (append-nil (contents s));
  flag = refl;
  bound = omega arith;
  count = omega arith;
}
append_from-Appended (suc n) i s d v f h =
    let x = read d i in
    let a = append-Appended s x v f in
    let r =
      append_from-Appended n (i + 1) (append s x) d a.valid (omega (arith, a.bound, a.count))
        (omega (arith, a.count)) in
    record {
      valid = r.valid;
      holds = r.holds ∙ rw a.holds (append_assoc (contents s) (x ∷ []) (slice d (i + 1) n));
      flag = r.flag ∙ a.flag;
      bound = omega (arith, r.bound, a.bound, r.count);
      count = omega (arith, r.count, a.count);
    }

-- A slice within an array, as the list functions say it.
pub slice-eq : (n i : ℕ) (d : List Ptr) → i + n ≤ length d → slice d i n ≡ take n (drop i d)
unfolding slice
slice-eq zero i d h = refl
slice-eq (suc n) i d h =
    rw (drop-get d i null (omega arith), slice-eq n (i + 1) d (omega arith), add-one)

-- SeqAppendSeq on valid sequences adds the other sequence's items, in order, and keeps the
-- invariant, where the array fits into the address space and so would the items of both.
pub append_seq-Appended :
    (s t : Seq)
    → IsValid s
    → IsValid t
    → Fits s
    → 32 * (s.length + t.length) < size_mod
    → Appended s (contents t) (append_seq s t)
unfolding append_seq
append_seq-Appended s t v w f h =
    let e : slice t.items 0 t.length ≡ contents t =
      slice-eq t.length 0 t.items (omega (arith, w.slots, w.within)) in
    subst (λ xs. Appended s xs (append_seq s t)) e (append_from-Appended t.length 0 s t.items v f h)
