-- ===== src/ThreadedQueue/Destroy.antt =====
-- DestroyRange ends, and destroys what the queue holds, each item once.
use libntech.Prelude.{
  ℕ, zero, suc, ◌+◌, ◌-◌, ◌%◌, ◌≤◌, ◌<◌, ◌≡◌, refl, ap, ap₂, sym, ◌∙◌, inl, inr, true, false, some,
  List, [], ◌∷◌, ◌++◌, if◌then◌else◌, ◌==◌, length, take, drop, arith, Ptr, null, read, size_mod,
  add_size, sub_size, length-drop, drop-get, take-append_le, take-take, take-append_ge, take-front,
  drop-all,
}
use native.Mathlib.Decide.{dec_lt}
use native.Mathlib.Nat.{mod-eq_of_lt, mod_self}
use libntech.ThreadedQueue.{Queue, destroy_loop, destroy_range, clear}
use libntech.ThreadedQueue.State.{contents, IsTail, IsValid, length-contents, contents-empty}

module _ (d : List Ptr) (cap : ℕ) (slots : length d ≡ cap) (small : cap < size_mod) where
  -- Up to an end that is not round the corner.
  destroy_loop-straight :
      (fuel n i end : ℕ)
      → i + n ≡ end
      → end ≤ cap
      → n < fuel
      → destroy_loop fuel i end cap d ≡ some (take n (drop i d))
  unfolding destroy_loop
  destroy_loop-straight zero n i end e h f = absurd (omega arith)
  destroy_loop-straight (suc fuel) zero i end e h f =
      let t : (i == end) ≡ true = ground arith in rw t
  destroy_loop-straight (suc fuel) (suc n) i end e h f =
      let t : (i == end) ≡ false = ground arith in
      let j : i % cap ≡ i = mod-eq_of_lt {n = i} {m = cap} (omega arith) in
      let k : add_size i 1 ≡ suc i = omega arith in
      rw (
        t,
        j,
        k,
        destroy_loop-straight fuel n (suc i) end (omega arith) h (omega arith),
        j,
        drop-get d i null (omega arith),
      )

  -- Round the end of the array, to an end before the start.
  destroy_loop-round :
      (fuel m i end : ℕ)
      → i + m ≡ cap
      → 0 < end
      → end < i
      → m + end < fuel
      → destroy_loop fuel i end cap d ≡ some (drop i d ++ take end d)
  unfolding destroy_loop
  destroy_loop-round zero m i end e p h f = absurd (omega arith)
  destroy_loop-round (suc fuel) zero i end e p h f =
      let t : (i == end) ≡ false = ground arith in
      let c : i ≡ cap = omega arith in
      let j : i % cap ≡ 0 = ap (λ k. k % cap) c ∙ mod_self cap in
      let k : add_size 0 1 ≡ 1 = omega arith in
      let w : take end d ≡ read d 0 ∷ take (end - 1) (drop 1 d) =
        ap (take end) (drop-get d 0 null (omega arith)) ∙ take-front end (read d 0) (drop 1 d) p in
      rw (
        t,
        j,
        k,
        destroy_loop-straight fuel (end - 1) 1 end (omega arith) (omega arith) (omega arith),
        j,
        drop-all d i (omega arith),
        w,
      )
  destroy_loop-round (suc fuel) (suc m) i end e p h f =
      let t : (i == end) ≡ false = ground arith in
      let j : i % cap ≡ i = mod-eq_of_lt {n = i} {m = cap} (omega arith) in
      let k : add_size i 1 ≡ suc i = omega arith in
      rw (
        t,
        j,
        k,
        destroy_loop-round fuel m (suc i) end (omega arith) p (omega arith) (omega arith),
        j,
        drop-get d i null (omega arith),
      )

-- The loop of DestroyRange over the items behind the head of a valid queue.
rest-destroyed :
    (fuel : ℕ) (q : Queue)
    → IsValid q
    → q.capacity < size_mod
    → 0 < q.size
    → q.size ≤ fuel
    → (xs : List Ptr) × (destroy_loop fuel (add_size q.head 1) q.tail q.capacity q.items ≡ some xs)
      × (read q.items q.head ∷ xs ≡ contents q)
rest-destroyed fuel q v s h f = go v.placed
  where
    d : List Ptr
    d = q.items

    k : add_size q.head 1 ≡ suc q.head
    k = omega (arith, v.head_in, s)

    go :
        IsTail q
        → (xs : List Ptr) × (destroy_loop fuel (add_size q.head 1) q.tail q.capacity q.items
            ≡ some xs)
          × (read q.items q.head ∷ xs ≡ contents q)
    go (inl e) = (
      take (q.size - 1) (drop (suc q.head) q.items),
      rw k (
          destroy_loop-straight q.items q.capacity v.slots s fuel (q.size - 1) (suc q.head) q.tail
            (omega arith) v.tail_in (omega arith)),
      sym (
          take-append_le (drop q.head q.items) (take q.head q.items) q.size
            (omega (arith, length-drop q.head q.items, v.slots, v.tail_in))
          ∙ ap (take q.size) (drop-get q.items q.head null (omega (arith, v.slots, v.head_in)))
          ∙ take-front q.size (read q.items q.head) (drop (suc q.head) q.items) h),
    )
    go (inr (inl (e, p))) = (
      drop (suc q.head) q.items ++ take q.tail q.items,
      rw k (
          destroy_loop-round q.items q.capacity v.slots s fuel (q.capacity - suc q.head)
            (suc q.head) q.tail (omega (arith, v.head_in)) p (omega (arith, v.within))
            (omega (arith, v.head_in, v.within))),
      sym (
          take-append_ge (drop q.head q.items) (take q.head q.items) q.size q.tail
            (omega (arith, length-drop q.head q.items, v.slots, v.head_in))
          ∙ ap₂ ◌++◌ (drop-get q.items q.head null (omega (arith, v.slots, v.head_in)))
              (take-take q.items q.tail q.head (omega (arith, v.within)))),
    )
    go (inr (inr (e, _, _))) = absurd (omega arith)

-- DestroyRange from the head to the tail ends, leaves no item, and destroys what the queue holds.
destroy_range-contents :
    (fuel : ℕ) (q : Queue)
    → IsValid q
    → q.capacity < size_mod
    → q.size ≤ fuel
    → destroy_range fuel q q.head q.tail
      ≡ some (record q { size = 0 }, (if q.has_destroy then contents q else []))
unfolding destroy_range
destroy_range-contents fuel q v s f = elim (dec_lt 0 q.size) [
  | yes h ↦
      let (xs, run, e) = rest-destroyed fuel q v s h f in
      let n : length xs + 1 ≡ q.size = omega (arith, ap length e, length-contents q v) in
      let z : sub_size q.size q.size ≡ 0 = omega (arith, v.within) in ground (arith, run, e, n, z)
  | no h ↦ ground (arith, contents-empty q)
]

-- ThreadedQueueClear on a valid queue, with a capacity below 2 ^ 64 and fuel for its items, ends,
-- leaves a valid empty queue of the same capacity and destroy function, and destroys what the queue
-- held, in order, if there is a destroy function.
pub clear-contents :
    (fuel : ℕ) (q : Queue)
    → IsValid q
    → q.capacity < size_mod
    → q.size ≤ fuel
    → (r : Queue) × (clear fuel q ≡ some (r, (if q.has_destroy then contents q else [])))
      × IsValid r
      × (contents r ≡ [])
      × (r.capacity ≡ q.capacity)
      × (r.has_destroy ≡ q.has_destroy)
      × (r.size ≡ 0)
unfolding clear
clear-contents fuel q v s f = (
  record q { size = 0; head = 0; tail = 0 },
  rw (destroy_range-contents fuel q v s f, clear),
  record {
    slots = v.slots;
    positive = v.positive;
    head_in = v.positive;
    tail_in = omega arith;
    within = omega arith;
    placed = inl (omega arith);
  },
  refl,
  refl,
  refl,
  refl,
)
