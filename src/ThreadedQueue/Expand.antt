-- ===== src/ThreadedQueue/Expand.antt =====
-- ExpandIfNecessary makes room and keeps the items.
use libntech.Prelude.{
  words_double, ℕ, ◌+◌, ◌*◌, ◌%◌, ◌≤◌, ◌<◌, ◌≡◌, refl, ap, ap₂, subst, sym, ◌∙◌, ◌⊎◌, inl, inr,
  true, false, ◌==◌, leb, length, max, take, drop, arith, realloc, copy_to, add_size,
  length-realloc, length-append, length-take, length-drop, length-copy_to, take-all, Bool-cases,
  take-realloc, rotation, rotation-unrolled, rotation-doubled,
}
use native.Mathlib.Decide.{dec_lt}
use native.Mathlib.Nat.{mod-eq_of_lt, mod_self}
use libntech.ThreadedQueue.{Queue, expand, expand_if_necessary}
use libntech.ThreadedQueue.State.{contents, IsValid, Fits}

-- What a push finds after ExpandIfNecessary: the same items, and a free slot at the tail.
pub record HasRoom (q r : Queue) : Type 0 where
  pub slots : length r.items ≡ r.capacity
  pub head_in : r.head < r.capacity
  pub tail_in : r.tail < r.capacity
  pub room : r.size < r.capacity
  pub next : (r.head + r.size ≡ r.tail) ⊎ (r.head + r.size ≡ r.tail + r.capacity)
  pub same : contents r ≡ contents q
  pub kept : r.size ≡ q.size
  pub bound : r.capacity ≤ max q.capacity (2 * q.size)
  pub flag : r.has_destroy ≡ q.has_destroy

module _ (q : Queue) (v : IsValid q) (f : Fits q) (full : q.size ≡ q.capacity) where
  expand-straight :
      q.head < q.tail
      → expand q ≡ record q { capacity = q.capacity * 2; items = realloc q.items (q.capacity * 2) }
  unfolding expand
  expand-straight lt = ground (arith, words_double q.capacity f)

  expand-round :
      q.tail ≤ q.head
      → expand q ≡ record q {
        capacity = q.capacity * 2;
        items = copy_to (realloc q.items (q.capacity * 2)) q.capacity (take q.tail q.items);
        tail = q.tail + q.capacity;
      }
  unfolding expand
  expand-round le =
      let w = words_double q.capacity f in
      let t : leb q.tail q.head ≡ true = ground arith in
      let n : add_size q.tail q.capacity ≡ q.tail + q.capacity = omega (arith, v.tail_in, f) in
      let s : take q.tail (realloc q.items (q.capacity * 2)) ≡ take q.tail q.items =
        take-realloc q.items q.tail (q.capacity * 2) (omega (arith, v.tail_in, v.slots))
          (omega (arith, v.tail_in)) in
      rw (w.1, w.0, n, t, s)

  whole : contents q ≡ rotation q.items q.head
  whole = take-all (rotation q.items q.head) q.size (
      omega (
        arith,
        full,
        length-append {0} (drop q.head q.items) (take q.head q.items),
        length-drop q.head q.items,
        length-take q.head q.items,
        v.slots,
        v.head_in,
      ))

  -- A full queue gets twice its slots, and holds the same.
  expand-HasRoom : HasRoom q (expand q)
  expand-HasRoom = elim (dec_lt q.head q.tail) [
    | yes p ↦
        let z : q.head ≡ 0 = omega (arith, v.placed, v.within, v.tail_in) in
        rw (expand-straight p) (record {
          slots = length-realloc q.items (q.capacity * 2);
          head_in = omega (arith, v.head_in);
          tail_in = omega (arith, v.tail_in, v.positive);
          room = omega (arith, v.positive);
          next = inl (omega (arith, v.placed, z, v.positive));
          same =
              ap₂ (λ n h. take n (rotation (realloc q.items (q.capacity * 2)) h)) full z
              ∙ rotation-doubled q.items q.capacity v.slots
              ∙ sym (whole ∙ ap (rotation q.items) z);
          kept = refl;
          bound = omega arith;
          flag = refl;
        })
    | no p ↦
        let t : q.tail ≡ q.head = omega (arith, v.placed, v.head_in, v.positive) in
        let d2 = realloc q.items (q.capacity * 2) in
        rw (expand-round (omega arith)) (record {
          slots =
              length-copy_to (take q.tail q.items) d2 q.capacity
              ∙ length-realloc q.items (q.capacity * 2);
          head_in = omega (arith, v.head_in);
          tail_in = omega (arith, t, v.head_in);
          room = omega (arith, v.positive);
          next = inl (omega (arith, t));
          same =
              ap₂ (λ n t. take n (rotation (copy_to d2 q.capacity (take t q.items)) q.head)) full t
              ∙ rotation-unrolled q.items q.capacity q.head v.slots v.head_in
              ∙ sym whole;
          kept = refl;
          bound = omega arith;
          flag = refl;
        })
  ]

expand_if_necessary-full :
    (q : Queue)
    → (q.size == q.capacity) ≡ true
    → (expand q).tail < (expand q).capacity
    → expand_if_necessary q ≡ expand q
unfolding expand_if_necessary
expand_if_necessary-full q e h = rw e (λ i. record (expand q) {
  tail = mod-eq_of_lt {n = (expand q).tail} {m = (expand q).capacity} h i;
})

expand_if_necessary-open :
    (q : Queue)
    → (q.size == q.capacity) ≡ false
    → expand_if_necessary q ≡ record q { tail = q.tail % q.capacity }
unfolding expand_if_necessary
expand_if_necessary-open q e = rw e

-- The tail of a queue that is not full, brought round the end.
tail_cases : (t c : ℕ) → t ≤ c → ((t % c ≡ t) × (t < c)) ⊎ ((t % c ≡ 0) × (t ≡ c))
tail_cases t c h = elim (dec_lt t c) [
  | yes p ↦ inl (mod-eq_of_lt {n = t} {m = c} p, p)
  | no p ↦ let e : t ≡ c = omega arith in inr (ap (λ k. k % c) e ∙ mod_self c, e)
]

pub expand_if_necessary-HasRoom :
    (q : Queue) → IsValid q → Fits q → HasRoom q (expand_if_necessary q)
expand_if_necessary-HasRoom q v f = elim (Bool-cases (q.size == q.capacity)) [
  | inl e ↦
      let r = expand-HasRoom q v f (ground arith) in
      subst (HasRoom q) (sym (expand_if_necessary-full q e r.tail_in)) r
  | inr e ↦
      let t = tail_cases q.tail q.capacity v.tail_in in
      rw (expand_if_necessary-open q e) (record {
        slots = v.slots;
        head_in = v.head_in;
        tail_in = ground (arith, t, v.positive);
        room = ground (arith, v.within);
        next = ground (arith, t, v.placed, v.head_in);
        same = refl;
        kept = refl;
        bound = omega arith;
        flag = refl;
      })
]
