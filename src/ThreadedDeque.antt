-- ===== src/ThreadedDeque.antt =====
-- libutils/threaded_deque.c: a growing circular array under one lock, with pushes and pops at both
-- ends. Each function holds the lock from its first to its last access, so it is one step. A pop here
-- starts at the test of the size, as with a timeout of 0; Wait puts the waits before it.
pub mod State
pub mod Left
pub mod Right
pub mod Many
pub mod Run
pub mod Wait
pub mod Destroy
mod Tests
use libntech.Prelude.{
  ℕ, zero, suc, ◌-◌, ◌/◌, ◌%◌, min, Bool, true, false, ◌&&◌, ◌||◌, not, Option, none, some, List,
  [], ◌∷◌, ◌++◌, if◌then◌else◌, ◌==◌, ltb, leb, set, take, Ptr, null, read, calloc, realloc,
  copy_to, add_size, sub_size, mul_size,
}

-- `struct ThreadedDeque_`, less its lock and conditions.
pub record Deque : Type 0 where
  pub items : List Ptr
  pub left : ℕ
  pub right : ℕ
  pub size : ℕ
  pub capacity : ℕ
  pub has_destroy : Bool

-- ThreadedDequeNew where the lock and the conditions can be made. malloc leaves the slots
-- indeterminate; they stand as NULL.
unfoldable pub new : ℕ → Bool → Deque
new initial destroy =
    let n = (if initial == 0 then 16 else initial) in
    record { items = calloc n; left = 0; right = 0; size = 0; capacity = n; has_destroy = destroy }

-- ExpandIfNecessary
unfoldable pub expand_if_necessary : Deque → Deque
expand_if_necessary q =
    let c = mul_size q.capacity 2 in
    let d = realloc q.items (mul_size 8 c / 8) in
    if q.size == q.capacity
    then (if leb q.right q.left
        then record q {
          capacity = c;
          items = copy_to d q.capacity (take q.right d);
          right = add_size q.right q.capacity;
        }
        else record q { capacity = c; items = d })
    else q

-- `i == 0 ? capacity - 1 : i - 1`
unfoldable pub before : ℕ → ℕ → ℕ
before i capacity = if i == 0 then sub_size capacity 1 else sub_size i 1

-- ThreadedDequePushLeft returns the new size.
unfoldable pub push_left : Deque → Ptr → Deque × ℕ
unfolding expand_if_necessary before
push_left q item =
    let r = expand_if_necessary q in
    let l = before r.left r.capacity in
    let n = add_size r.size 1 in (record r { left = l; items = set r.items l item; size = n }, n)

-- ThreadedDequePushRight returns the new size.
unfoldable pub push_right : Deque → Ptr → Deque × ℕ
unfolding expand_if_necessary
push_right q item =
    let r = expand_if_necessary q in
    let n = add_size r.size 1 in
    (
      record r {
        items = set r.items r.right item;
        right = add_size r.right 1 % r.capacity;
        size = n;
      },
      n,
    )

-- The leftmost item, and the deque with its slot set to NULL.
unfoldable pub take_left : Deque → Ptr × Deque
take_left q = (
  read q.items q.left,
  record q {
    items = set q.items q.left null;
    left = add_size q.left 1 % q.capacity;
    size = sub_size q.size 1;
  },
)

-- The rightmost item, and the deque with its slot set to NULL.
unfoldable pub take_right : Deque → Ptr × Deque
unfolding before
take_right q =
    let r = before q.right q.capacity in
    (read q.items r, record q { items = set q.items r null; right = r; size = sub_size q.size 1 })

-- ThreadedDequePopLeft: the result, what `*item` becomes, the deque.
unfoldable pub pop_left_now : Deque → Bool × Ptr × Deque
unfolding take_left
pop_left_now q =
    if ltb 0 q.size then (let (x, r) = take_left q in (true, x, r)) else (false, null, q)

-- ThreadedDequePopRight
unfoldable pub pop_right_now : Deque → Bool × Ptr × Deque
unfolding take_right
pop_right_now q =
    if ltb 0 q.size then (let (x, r) = take_right q in (true, x, r)) else (false, null, q)

-- The loops of ThreadedDequePopLeftN and ThreadedDequePopRightN.
unfoldable pub take_lefts : ℕ → Deque → List Ptr × Deque
unfolding take_left
take_lefts zero q = ([], q)
take_lefts (suc n) q = let (x, r) = take_left q in let (xs, s) = take_lefts n r in (x ∷ xs, s)

unfoldable pub take_rights : ℕ → Deque → List Ptr × Deque
unfolding take_right
take_rights zero q = ([], q)
take_rights (suc n) q = let (x, r) = take_right q in let (xs, s) = take_rights n r in (x ∷ xs, s)

-- ThreadedDequePopLeftN: the items taken, and the deque.
unfoldable pub pop_left_n_now : Deque → ℕ → List Ptr × Deque
unfolding take_lefts
pop_left_n_now q num = take_lefts (min num q.size) q

-- ThreadedDequePopRightN
unfoldable pub pop_right_n_now : Deque → ℕ → List Ptr × Deque
unfolding take_rights
pop_right_n_now q num = take_rights (min num q.size) q

-- ThreadedDequeCount, ThreadedDequeCapacity, ThreadedDequeIsEmpty
unfoldable pub count : Deque → ℕ
count q = q.size

unfoldable pub capacity_of : Deque → ℕ
capacity_of q = q.capacity

unfoldable pub is_empty : Deque → Bool
is_empty q = q.size == 0
