-- ===== src/ThreadedDeque/Run.antt =====
-- Any threads' calls on a deque, in the order in which they get the lock, against a list.
use mathlib.Core.List.{reverse, reverse-cons, reverse-append, reverse-reverse}
use libntech.Prelude.{
  ℕ, zero, suc, ◌+◌, ◌*◌, ◌≤◌, ◌<◌, ◌≡◌, refl, ap, ap₂, sym, ◌∙◌, Bool, true, false, List, [], ◌∷◌,
  ◌++◌, ltb, length, take, drop, min, arith, Ptr, null, size_mod, max, length-append, Bool-cases,
  rotation, inl, inr,
}
use libntech.ThreadedDeque.{
  Deque, push_left, push_right, take_right, pop_left_now, pop_right_now, pop_left_n_now,
  pop_right_n_now, count,
}
use libntech.ThreadedDeque.State.{contents, IsValid, Fits, length-contents}
use libntech.ThreadedDeque.Left.{push_left-PushedLeft, take_left-TakenLeft}
use libntech.ThreadedDeque.Right.{push_right-PushedRight, take_right-TakenRight}
use libntech.ThreadedDeque.Many.{pop_left_n_now-Reduced, pop_right_n_now-Reduced}

-- A call that does not wait.
pub data Op : Type 0 where
  left_push right_push : Ptr → Op
  left_pop right_pop ask_count : Op
  left_pops right_pops : ℕ → Op

-- What a call returns.
pub data Reply : Type 0 where
  counted : ℕ → Reply
  popped : Bool → Ptr → Reply
  took : List Ptr → Reply

unfoldable pub step : Op → Deque → Reply × Deque
unfolding push_left push_right pop_left_now pop_right_now pop_left_n_now pop_right_n_now count
step (left_push x) q = let (r, n) = push_left q x in (counted n, r)
step (right_push x) q = let (r, n) = push_right q x in (counted n, r)
step left_pop q = let (done, x, r) = pop_left_now q in (popped done x, r)
step right_pop q = let (done, x, r) = pop_right_now q in (popped done x, r)
step (left_pops n) q = let (xs, r) = pop_left_n_now q n in (took xs, r)
step (right_pops n) q = let (xs, r) = pop_right_n_now q n in (took xs, r)
step ask_count q = (counted (count q), q)

-- The calls, in the order in which they get the lock.
unfoldable pub run : List Op → Deque → List Reply × Deque
unfolding step
run [] q = ([], q)
run (op ∷ ops) q = let (a, r) = step op q in let (bs, s) = run ops r in (a ∷ bs, s)

-- The specification: a list with the left end first.
unfoldable pub list_step : Op → List Ptr → Reply × List Ptr
list_step (left_push x) l = (counted (length l + 1), x ∷ l)
list_step (right_push x) l = (counted (length l + 1), l ++ x ∷ [])
list_step left_pop [] = (popped false null, [])
list_step left_pop (x ∷ l) = (popped true x, l)
list_step right_pop l = elim (reverse l) [
  | [] ↦ (popped false null, [])
  | x ∷ m ↦ (popped true x, reverse m)
]
list_step (left_pops n) l = (took (take n l), drop n l)
list_step (right_pops n) l = (took (take n (reverse l)), reverse (drop n (reverse l)))
list_step ask_count l = (counted (length l), l)

unfoldable pub list_run : List Op → List Ptr → List Reply × List Ptr
unfolding list_step
list_run [] l = ([], l)
list_run (op ∷ ops) l = let (a, m) = list_step op l in let (bs, n) = list_run ops m in (a ∷ bs, n)

-- The number of items that a call adds.
unfoldable pub added : Op → ℕ
added (left_push x) = 1
added (right_push x) = 1
added _ = 0

unfoldable pub added_all : List Op → ℕ
unfolding added
added_all [] = 0
added_all (op ∷ ops) = added op + added_all ops

record Stepped (op : Op) (q : Deque) : Type 0 where
  reply : (step op q).0 ≡ (list_step op (contents q)).0
  holds : contents (step op q).1 ≡ (list_step op (contents q)).1
  valid : IsValid (step op q).1
  count : (step op q).1.size ≤ q.size + added op
  bound : (step op q).1.capacity ≤ max q.capacity (2 * (step op q).1.size)

-- The parts of a list that is cut at a number of items, or all of them.
cut_at :
    (xs ys : List Ptr) (n m : ℕ)
    → length xs ≡ min n m
    → length (xs ++ ys) ≡ m
    → (take n (xs ++ ys) ≡ xs) × (drop n (xs ++ ys) ≡ ys)
cut_at [] ys zero m h k = (refl, refl)
cut_at [] [] (suc n) m h k = (refl, refl)
cut_at [] (y ∷ ys) (suc n) m h k = absurd (omega (arith, h, k))
cut_at (x ∷ xs) ys zero m h k = absurd (omega (arith, h))
cut_at (x ∷ xs) ys (suc n) zero h k = absurd (omega (arith, k))
cut_at (x ∷ xs) ys (suc n) (suc m) h k =
    let (a, b) = cut_at xs ys n m (omega (arith, h)) (omega (arith, k)) in (ap (λ l. x ∷ l) a, b)

length-reverse : (l : List Ptr) → length (reverse l) ≡ length l
length-reverse [] = refl
length-reverse (x ∷ l) =
    ap length (reverse-cons x l)
    ∙ omega (arith, length-append (reverse l) (x ∷ []), length-reverse l)

reverse-twice : (xs ys : List Ptr) → reverse (ys ++ reverse xs) ≡ xs ++ reverse ys
reverse-twice xs ys =
    reverse-append ys (reverse xs) ∙ ap (λ l. l ++ reverse ys) (reverse-reverse xs)

left_pop-Stepped : (q : Deque) → IsValid q → Fits q → Stepped left_pop q
unfolding step list_step pop_left_now added
left_pop-Stepped q v f = elim (Bool-cases (ltb 0 q.size)) [
  | inl p ↦
      let t = take_left-TakenLeft q v f (ground arith) in
      record {
        reply = rw p (rw (t.holds) refl);
        holds = rw p (rw (t.holds) refl);
        valid = rw p (t.valid);
        count = rw p (omega (arith, t.count));
        bound = rw p (omega (arith, t.same));
      }
  | inr p ↦
      let none_in : q.size ≡ 0 = ground arith in
      let empty : contents q ≡ [] = ap (λ n. take n (rotation q.items q.left)) none_in in
      record {
        reply = rw p (rw empty refl);
        holds = rw p (rw empty refl);
        valid = rw p v;
        count = rw p (omega arith);
        bound = rw p (omega arith);
      }
]

list_step-right_pop :
    (l m : List Ptr) (x : Ptr)
    → reverse l ≡ x ∷ m
    → list_step right_pop l ≡ (popped true x, reverse m)
unfolding list_step
list_step-right_pop l m x h = rw (list_step, h) refl

right_pop-Stepped : (q : Deque) → IsValid q → Fits q → Stepped right_pop q
unfolding step pop_right_now added
right_pop-Stepped q v f = elim (Bool-cases (ltb 0 q.size)) [
  | inl p ↦
      let t = take_right-TakenRight q v f (ground arith) in
      let back : reverse (contents q) ≡ (take_right q).0 ∷ reverse (contents (take_right q).1) =
        ap reverse t.holds ∙ reverse-twice ((take_right q).0 ∷ []) (contents (take_right q).1) in
      let spec =
        list_step-right_pop (contents q) (reverse (contents (take_right q).1)) (take_right q).0
          back in
      record {
        reply = rw p (ap (λ r. r.0) (sym spec));
        holds = rw p (sym (reverse-reverse (contents (take_right q).1)) ∙ ap (λ r. r.1) (sym spec));
        valid = rw p (t.valid);
        count = rw p (omega (arith, t.count));
        bound = rw p (omega (arith, t.same));
      }
  | inr p ↦
      let none_in : q.size ≡ 0 = ground arith in
      let empty : contents q ≡ [] = ap (λ n. take n (rotation q.items q.left)) none_in in
      record {
        reply = rw p (rw empty (unfold list_step in refl));
        holds = rw p (rw empty (unfold list_step in refl));
        valid = rw p v;
        count = rw p (omega arith);
        bound = rw p (omega arith);
      }
]

step-Stepped : (op : Op) (q : Deque) → IsValid q → Fits q → Stepped op q
unfolding step list_step added count
step-Stepped (left_push x) q v f =
    let (p, n) = push_left-PushedLeft q x v f in
    record {
      reply = ap counted n;
      holds = p.holds;
      valid = p.valid;
      count = omega (arith, p.count);
      bound = p.bound;
    }
step-Stepped (right_push x) q v f =
    let (p, n) = push_right-PushedRight q x v f in
    record {
      reply = ap counted n;
      holds = p.holds;
      valid = p.valid;
      count = omega (arith, p.count);
      bound = p.bound;
    }
step-Stepped left_pop q v f = left_pop-Stepped q v f
step-Stepped right_pop q v f = right_pop-Stepped q v f
step-Stepped ask_count q v f = record {
  reply = ap counted (sym (length-contents q v));
  holds = refl;
  valid = v;
  count = omega arith;
  bound = omega arith;
}
step-Stepped (left_pops n) q v f =
    let (r, holds, long) = pop_left_n_now-Reduced q n v f in
    let (xs, t) = pop_left_n_now q n in
    let (a, b) =
      cut_at (pop_left_n_now q n).0 (contents (pop_left_n_now q n).1) n q.size long
        (ap length (sym holds) ∙ length-contents q v) in
    record {
      reply = ap took (sym (ap (take n) holds ∙ a));
      holds = sym (ap (drop n) holds ∙ b);
      valid = r.valid;
      count = omega (arith, r.count);
      bound = omega (arith, r.same);
    }
step-Stepped (right_pops n) q v f =
    let (r, holds, long) = pop_right_n_now-Reduced q n v f in
    let xs = (pop_right_n_now q n).0 in
    let c = contents (pop_right_n_now q n).1 in
    let back : reverse (contents q) ≡ xs ++ reverse c = ap reverse holds ∙ reverse-twice xs c in
    let (a, b) =
      cut_at xs (reverse c) n q.size long
        (ap length (sym back) ∙ length-reverse (contents q) ∙ length-contents q v) in
    record {
      reply = ap took (sym (ap (take n) back ∙ a));
      holds = sym (ap (λ l. reverse (drop n l)) back ∙ ap reverse b ∙ reverse-reverse c);
      valid = r.valid;
      count = omega (arith, r.count);
      bound = omega (arith, r.same);
    }

-- Calls that do not wait, of any threads on a valid deque and in any order, return what they do on
-- a list that has two ends, and leave a valid deque with that list's items, where the array fits
-- into the address space and so would all items that the calls add.
pub deque_refines :
    (ops : List Op) (q : Deque)
    → IsValid q
    → Fits q
    → 32 * (q.size + added_all ops) < size_mod
    → ((run ops q).0 ≡ (list_run ops (contents q)).0)
      × (contents (run ops q).1 ≡ (list_run ops (contents q)).1)
      × IsValid (run ops q).1
unfolding run list_run added_all
deque_refines [] q v f b = (refl, refl, v)
deque_refines (op ∷ ops) q v f b =
    let s = step-Stepped op q v f in
    let (replies, holds, valid) =
      deque_refines ops (step op q).1 s.valid (omega (arith, s.bound, s.count, f, b))
        (omega (arith, s.count, b)) in
    (
      ap₂ ◌∷◌ s.reply (replies ∙ ap (λ l. (list_run ops l).0) s.holds),
      holds ∙ ap (λ l. (list_run ops l).1) s.holds,
      valid,
    )
