-- ===== src/ThreadedQueue/Push.antt =====
-- Adding items to a threaded queue.
use libntech.Prelude.{
  suc, ◌+◌, ◌*◌, ◌≤◌, ◌<◌, ◌≡◌, refl, ap, ap₂, sym, ◌∙◌, List, [], ◌∷◌, ◌++◌, append_assoc,
  append-nil, length, max, take, drop, arith, Ptr, size_mod, add_size, length-set, length-append,
  length-take, length-drop, take-set_next, rotation, rotation-set_at,
}
use libntech.ThreadedQueue.{Queue, expand_if_necessary, push_item, push, push_all, push_n}
use libntech.ThreadedQueue.State.{contents, IsValid, Fits, length-contents}
use libntech.ThreadedQueue.Expand.{expand_if_necessary-HasRoom}

-- `r` is `q` with the items `xs` after its own.
pub record Pushed (q : Queue) (xs : List Ptr) (r : Queue) : Type 0 where
  pub valid : IsValid r
  pub holds : contents r ≡ contents q ++ xs
  pub count : r.size ≡ q.size + length xs
  pub bound : r.capacity ≤ max q.capacity (2 * r.size)
  pub flag : r.has_destroy ≡ q.has_destroy

pub push_item-Pushed :
    (q : Queue) (x : Ptr) → IsValid q → Fits q → Pushed q (x ∷ []) (push_item q x)
unfolding push_item
push_item-Pushed q x v f =
    let r = expand_if_necessary q in
    let h = expand_if_necessary-HasRoom q v f in
    let small : r.capacity < size_mod = omega (arith, h.bound, v.within, f) in
    let t : add_size r.tail 1 ≡ suc r.tail = omega (arith, h.tail_in) in
    let n : add_size r.size 1 ≡ suc r.size = omega (arith, h.room) in
    let written =
      rotation-set_at r.items r.capacity r.head r.size r.tail x h.slots h.head_in h.room h.next
        h.tail_in in
    let long : r.size < length (rotation r.items r.head) = omega (
      arith,
      length-append {0} (drop r.head r.items) (take r.head r.items),
      length-drop r.head r.items,
      length-take r.head r.items,
      h.slots,
      h.head_in,
      h.room,
    ) in
    record {
      valid = record {
        slots = length-set r.items r.tail x ∙ h.slots;
        positive = omega (arith, h.room);
        head_in = h.head_in;
        tail_in = omega (arith, t, h.tail_in);
        within = omega (arith, n, h.room);
        placed = ground (arith, t, n, h.next);
      };
      holds =
          ap₂ take n written
          ∙ take-set_next (rotation r.items r.head) r.size x long
          ∙ ap (λ l. l ++ x ∷ []) h.same;
      count = omega (arith, n, h.kept);
      bound = omega (arith, n, h.kept, h.bound);
      flag = h.flag;
    }

-- ThreadedQueuePush on a valid queue whose array fits into the address space adds the item at the
-- end, keeps the invariant, and returns the new number of items.
pub push-Pushed :
    (q : Queue) (x : Ptr)
    → IsValid q
    → Fits q
    → Pushed q (x ∷ []) (push q x).0 × ((push q x).1 ≡ length (contents q) + 1)
unfolding push
push-Pushed q x v f =
    let p = push_item-Pushed q x v f in (p, omega (arith, p.count, length-contents q v))

push_all-Pushed :
    (xs : List Ptr) (q : Queue)
    → IsValid q
    → Fits q
    → 32 * (q.size + length xs) < size_mod
    → Pushed q xs (push_all q xs)
unfolding push_all
push_all-Pushed [] q v f h = record {
  valid = v;
  holds = sym (append-nil (contents q));
  count = omega arith;
  bound = omega arith;
  flag = refl;
}
push_all-Pushed (x ∷ xs) q v f h =
    let a = push_item-Pushed q x v f in
    let r =
      push_all-Pushed xs (push_item q x) a.valid (omega (arith, a.bound, a.count))
        (omega (arith, a.count)) in
    record {
      valid = r.valid;
      holds = r.holds ∙ rw a.holds (append_assoc (contents q) (x ∷ []) xs);
      count = omega (arith, r.count, a.count);
      bound = omega (arith, r.bound, a.bound, r.count);
      flag = r.flag ∙ a.flag;
    }

-- ThreadedQueuePushN on a valid queue adds the items at the end, in order, keeps the invariant, and
-- returns the new number of items, where the array fits into the address space and so would all
-- items.
pub push_n-Pushed :
    (q : Queue) (xs : List Ptr)
    → IsValid q
    → Fits q
    → 32 * (q.size + length xs) < size_mod
    → Pushed q xs (push_n q xs).0 × ((push_n q xs).1 ≡ length (contents q ++ xs))
unfolding push_n
push_n-Pushed q xs v f h =
    let p = push_all-Pushed xs q v f h in
    (p, omega (arith, p.count, length-append {0} (contents q) xs, length-contents q v))
