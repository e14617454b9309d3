-- ===== src/ThreadedQueue/Run.antt =====
-- Any threads' calls, in the order in which they get the lock, against a first-in first-out list.
use libntech.Prelude.{
  ℕ, ◌+◌, ◌*◌, ◌≤◌, ◌<◌, ◌≡◌, refl, ap₂, sym, ◌∙◌, Bool, Option, none, some, List, [], ◌∷◌, ◌++◌,
  if◌then◌else◌, length, take, drop, arith, Ptr, size_mod, max, take-append-drop,
}
use mathlib.Core.List.{append_cancel_left}
use libntech.ThreadedQueue.{
  Queue, push_item, push_n, push, pop_now, pop_n_now, clear, clear_and_push, count,
}
use libntech.ThreadedQueue.State.{contents, IsValid, Fits, length-contents}
use libntech.ThreadedQueue.Push.{push_item-Pushed, push-Pushed, push_n-Pushed}
use libntech.ThreadedQueue.Pop.{first, pop_now-Popped, pop_n_now_refines}
use libntech.ThreadedQueue.Destroy.{clear-contents}

-- A call that does not wait.
pub data Op : Type 0 where
  push_one : Ptr → Op
  push_many : List Ptr → Op
  pop_one : Op
  pop_many : ℕ → Op
  clear_all : Op
  replace_all : Ptr → Op
  ask_count : Op

-- What a call returns, and the pointers that it destroys.
pub data Reply : Type 0 where
  counted : ℕ → Reply
  popped : Bool → Ptr → Reply
  took : List Ptr → Reply
  cleared : List Ptr → Reply
  replaced : List Ptr → ℕ → Reply

-- A call on the queue. The loop of DestroyRange has as many rounds as there are slots.
pub step : Op → Queue → Option (Reply × Queue)
unfolding push push_n pop_now pop_n_now clear clear_and_push count
step (push_one x) q = let (r, n) = push q x in some (counted n, r)
step (push_many xs) q = let (r, n) = push_n q xs in some (counted n, r)
step pop_one q = let (done, x, r) = pop_now q in some (popped done x, r)
step (pop_many n) q = let (xs, r) = pop_n_now q n in some (took xs, r)
step clear_all q = elim (clear q.capacity q) [
  | none ↦ none
  | some (r, gone) ↦ some (cleared gone, r)
]
step (replace_all x) q = elim (clear_and_push q.capacity q x) [
  | none ↦ none
  | some (r, gone, n) ↦ some (replaced gone n, r)
]
step ask_count q = some (counted (count q), q)

-- The calls, in the order in which they get the lock.
pub run : List Op → Queue → Option (List Reply × Queue)
unfolding step
run [] q = some ([], q)
run (op ∷ ops) q = elim (step op q) [
  | none ↦ none
  | some (a, r) ↦ elim (run ops r) [ none ↦ none | some (bs, s) ↦ some (a ∷ bs, s) ]
]

-- The specification of a call, on the list of the items; `d` says if there is a destroy function.
pub list_step : Bool → Op → List Ptr → Reply × List Ptr
list_step d (push_one x) l = (counted (length l + 1), l ++ x ∷ [])
list_step d (push_many xs) l = (counted (length (l ++ xs)), l ++ xs)
list_step d pop_one l = (popped (first l).0 (first l).1, (first l).2)
list_step d (pop_many n) l = (took (take n l), drop n l)
list_step d clear_all l = (cleared (if d then l else []), [])
list_step d (replace_all x) l = (replaced (if d then l else []) 1, x ∷ [])
list_step d ask_count l = (counted (length l), l)

unfoldable pub list_run : Bool → List Op → List Ptr → List Reply × List Ptr
unfolding list_step
list_run d [] l = ([], l)
list_run d (op ∷ ops) l =
    let (a, m) = list_step d op l in let (bs, n) = list_run d ops m in (a ∷ bs, n)

-- The number of items that a call adds.
pub added : Op → ℕ
added (push_one x) = 1
added (push_many xs) = length xs
added (replace_all x) = 1
added _ = 0

unfoldable pub added_all : List Op → ℕ
unfolding added
added_all [] = 0
added_all (op ∷ ops) = added op + added_all ops

-- A call leaves a valid queue whose items and whose reply are those of the list.
record Stepped (op : Op) (q : Queue) (r : Queue) : Type 0 where
  runs : step op q ≡ some ((list_step q.has_destroy op (contents q)).0, r)
  valid : IsValid r
  holds : contents r ≡ (list_step q.has_destroy op (contents q)).1
  count : r.size ≤ q.size + added op
  bound : r.capacity ≤ max q.capacity (2 * r.size)
  flag : r.has_destroy ≡ q.has_destroy

step-Stepped :
    (op : Op) (q : Queue)
    → IsValid q
    → Fits q
    → 32 * (q.size + added op) < size_mod
    → (r : Queue) × Stepped op q r
unfolding step list_step added
step-Stepped (push_one x) q v f b =
    let (p, n) = push-Pushed q x v f in
    (
      (push q x).0,
      record {
        runs = rw n refl;
        valid = p.valid;
        holds = p.holds;
        count = omega (arith, p.count);
        bound = p.bound;
        flag = p.flag;
      },
    )
step-Stepped (push_many xs) q v f b =
    let (p, n) = push_n-Pushed q xs v f b in
    (
      (push_n q xs).0,
      record {
        runs = rw n refl;
        valid = p.valid;
        holds = p.holds;
        count = omega (arith, p.count);
        bound = p.bound;
        flag = p.flag;
      },
    )
step-Stepped pop_one q v f b =
    let p = pop_now-Popped q v f in
    (
      (pop_now q).2,
      record {
        runs = rw (p.done, p.item) refl;
        valid = p.valid;
        holds = p.holds;
        count = omega (arith, p.count);
        bound = omega (arith, p.same);
        flag = p.flag;
      },
    )
step-Stepped (pop_many n) q v f b =
    let (e, p) = pop_n_now_refines q n v f in
    (
      (pop_n_now q n).1,
      record {
        runs = rw e refl;
        valid = p.valid;
        holds =
            append_cancel_left (take n (contents q)) (contents (pop_n_now q n).1)
              (drop n (contents q)) (sym p.holds ∙ sym (take-append-drop n (contents q)));
        count = omega (arith, p.count);
        bound = omega (arith, p.same);
        flag = p.flag;
      },
    )
step-Stepped clear_all q v f b =
    let (r, e, w, h, c, g, z) = clear-contents q.capacity q v (omega arith) v.within in
    (
      r,
      record {
        runs = rw (step, e) refl;
        valid = w;
        holds = h;
        count = omega (arith, z);
        bound = omega (arith, c);
        flag = g;
      },
    )
step-Stepped (replace_all x) q v f b =
    let (r, e, w, h, c, g, z) = clear-contents q.capacity q v (omega arith) v.within in
    let p = push_item-Pushed r x w (omega (arith, c)) in
    (
      push_item r x,
      record {
        runs = rw (step, clear_and_push, e, p.count, z) refl;
        valid = p.valid;
        holds = p.holds ∙ rw h refl;
        count = omega (arith, p.count, z);
        bound = omega (arith, p.bound, c);
        flag = p.flag ∙ g;
      },
    )
step-Stepped ask_count q v f b = (
  q,
  record {
    runs = rw (length-contents q v) refl;
    valid = v;
    holds = refl;
    count = omega arith;
    bound = omega arith;
    flag = refl;
  },
)

-- Calls that do not wait, of any threads on a valid queue and in any order, end, return what they
-- do on a first-in first-out list, and leave a valid queue with that list's items, where the array
-- fits into the address space and so would all items that the calls add.
pub run_refines :
    (ops : List Op) (q : Queue)
    → IsValid q
    → Fits q
    → 32 * (q.size + added_all ops) < size_mod
    → (r : Queue) × (run ops q ≡ some ((list_run q.has_destroy ops (contents q)).0, r))
      × IsValid r
      × (contents r ≡ (list_run q.has_destroy ops (contents q)).1)
unfolding run list_run added_all
run_refines [] q v f b = (q, refl, v, refl)
run_refines (op ∷ ops) q v f b =
    let (r, s) = step-Stepped op q v f (omega arith) in
    let (t, e, w, h) =
      run_refines ops r s.valid (omega (arith, s.bound, s.count)) (omega (arith, s.count)) in
    (
      t,
      rw (run, s.runs, e, s.flag, s.holds) refl,
      w,
      h ∙ ap₂ (λ d l. (list_run d ops l).1) s.flag s.holds,
    )
