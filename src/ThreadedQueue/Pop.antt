-- ===== src/ThreadedQueue/Pop.antt =====
-- Taking items from a threaded queue.
use libntech.Prelude.{
  ℕ, zero, suc, ◌+◌, ◌-◌, ◌%◌, ◌≤◌, ◌<◌, ◌≡◌, refl, ap, ap₂, subst, subst, sym, ◌∙◌, Bool, true,
  false, List, [], ◌∷◌, ◌++◌, if◌then◌else◌, ltb, length, set, take, drop, arith, Ptr, null, read,
  add_size, sub_size, length-set, length-append, length-take, length-drop, drop-get,
  next_index_cases, take-append_le, take-front, take-all, rotation, rotation-next, rotation-set,
}
use native.Mathlib.Decide.{dec_lt}
use libntech.ThreadedQueue.{Queue, take_item, pop_now, take_items, pop_n_now}
use libntech.ThreadedQueue.State.{contents, IsValid, Fits, length-contents, contents-empty}

-- The first item, and the queue without it.
record Taken (q : Queue) (p : Ptr × Queue) : Type 0 where
  valid : IsValid p.1
  holds : contents q ≡ p.0 ∷ contents p.1
  count : p.1.size + 1 ≡ q.size
  same : p.1.capacity ≡ q.capacity
  flag : p.1.has_destroy ≡ q.has_destroy

take_item-Taken : (q : Queue) → IsValid q → Fits q → 0 < q.size → Taken q (take_item q)
unfolding take_item
take_item-Taken q v f h =
    let d = q.items in
    let e = q.head in
    let x = read d e in
    let d' = set d e null in
    let r1 = drop (suc e) d ++ take e d in
    let n : sub_size q.size 1 ≡ q.size - 1 = omega (arith, v.within) in
    let nx = next_index_cases e q.capacity v.head_in (omega arith) in
    let turned : rotation d' (add_size e 1 % q.capacity) ≡ r1 ++ null ∷ [] =
      rotation-next d' e q.capacity (length-set d e null ∙ v.slots) v.head_in (omega arith)
      ∙ rotation-set d e null (omega (arith, v.slots, v.head_in))
      ∙ rw (drop-get d e null (omega (arith, v.slots, v.head_in))) in
    let front : rotation d e ≡ x ∷ r1 =
      ap (λ l. l ++ take e d) (drop-get d e null (omega (arith, v.slots, v.head_in))) in
    let room : q.size - 1 ≤ length r1 = omega (
      arith,
      length-append {0} (drop (suc e) d) (take e d),
      length-drop (suc e) d,
      length-take e d,
      v.slots,
      v.head_in,
      v.within,
    ) in
    record {
      valid = record {
        slots = length-set d e null ∙ v.slots;
        positive = v.positive;
        head_in = ground (arith, nx, v.head_in, v.positive);
        tail_in = v.tail_in;
        within = omega (arith, n, v.within);
        placed = ground (arith, nx, n, v.placed, v.within, v.head_in);
      };
      holds =
          ap (take q.size) front
          ∙ take-front q.size x r1 h
          ∙ ap (λ l. x ∷ l)
              (sym (take-append_le r1 (null ∷ []) (q.size - 1) room) ∙ sym (ap₂ take n turned));
      count = omega (arith, n);
      same = refl;
      flag = refl;
    }

-- What a queue is left with after `xs` were taken from its front.
pub record TookAll (q : Queue) (xs : List Ptr) (r : Queue) : Type 0 where
  pub valid : IsValid r
  pub holds : contents q ≡ xs ++ contents r
  pub count : r.size + length xs ≡ q.size
  pub same : r.capacity ≡ q.capacity
  pub flag : r.has_destroy ≡ q.has_destroy

-- The specification of a pop that does not wait.
abbrev pub first : List Ptr → Bool × Ptr × List Ptr
first [] = (false, null, [])
first (x ∷ xs) = (true, x, xs)

-- The result of a pop that does not wait, and the queue after it.
pub record Popped (q : Queue) (p : Bool × Ptr × Queue) : Type 0 where
  pub done : p.0 ≡ (first (contents q)).0
  pub item : p.1 ≡ (first (contents q)).1
  pub valid : IsValid p.2
  pub holds : contents p.2 ≡ (first (contents q)).2
  pub count : p.2.size ≤ q.size
  pub same : p.2.capacity ≡ q.capacity
  pub flag : p.2.has_destroy ≡ q.has_destroy

-- ThreadedQueuePop without a wait, on a valid queue whose array fits into the address space,
-- returns and removes the first item, fails on an empty queue and leaves it empty, and keeps the
-- invariant, the capacity and the destroy function.
pub pop_now-Popped : (q : Queue) → IsValid q → Fits q → Popped q (pop_now q)
unfolding pop_now
pop_now-Popped q v f = elim (dec_lt 0 q.size) [
  | yes h ↦
      let t = take_item-Taken q v f h in
      let c = t.holds in
      let n = t.count in
      let e : ltb 0 q.size ≡ true = ground arith in
      rw e (record {
        done = rw c refl;
        item = rw c refl;
        valid = t.valid;
        holds = rw c refl;
        count = omega arith;
        same = t.same;
        flag = t.flag;
      })
  | no h ↦
      let e : ltb 0 q.size ≡ false = ground arith in
      let z = contents-empty q (omega arith) in
      rw e (record {
        done = rw z refl;
        item = rw z refl;
        valid = v;
        holds = rw z refl;
        count = omega arith;
        same = refl;
        flag = refl;
      })
]

take_items-TookAll :
    (n : ℕ) (q : Queue)
    → IsValid q
    → Fits q
    → n ≤ q.size
    → TookAll q (take_items n q).0 (take_items n q).1 × (length (take_items n q).0 ≡ n)
unfolding take_items
take_items-TookAll zero q v f h =
    (record { valid = v; holds = refl; count = omega arith; same = refl; flag = refl }, refl)
take_items-TookAll (suc n) q v f h =
    let t = take_item-Taken q v f (omega arith) in
    let r = (take_item q).1 in
    let (u, l) = take_items-TookAll n r t.valid (omega (arith, t.same)) (omega (arith, t.count)) in
    (
      record {
        valid = u.valid;
        holds = t.holds ∙ ap (λ c. (take_item q).0 ∷ c) u.holds;
        count = omega (arith, u.count, t.count);
        same = u.same ∙ t.same;
        flag = u.flag ∙ t.flag;
      },
      ap suc l,
    )

-- ThreadedQueuePopN, on a valid queue whose array fits into the address space, removes and returns
-- the first `num` items, or all if there are fewer, and keeps the invariant, the capacity and the
-- destroy function.
pub pop_n_now_refines :
    (q : Queue) (num : ℕ)
    → IsValid q
    → Fits q
    → ((pop_n_now q num).0 ≡ take num (contents q))
      × TookAll q (take num (contents q)) (pop_n_now q num).1
unfolding pop_n_now
pop_n_now_refines q num v f =
    let n = (if ltb num q.size then num else q.size) in
    let (t, l) = take_items-TookAll n q v f (ground arith) in
    let xs = (take_items n q).0 in
    let front : take n (contents q) ≡ xs =
      ap (take n) t.holds
      ∙ take-append_le xs (contents (take_items n q).1) n (omega (arith, l))
      ∙ take-all xs n (omega (arith, l)) in
    let e : xs ≡ take num (contents q) = sym front ∙ elim (dec_lt num q.size) [
      | yes p ↦ ground arith
      | no p ↦
          ground
            (arith, take-all (contents q) q.size, take-all (contents q) num, length-contents q v)
    ] in
    (e, subst (λ l. TookAll q l (take_items n q).1) e t)
