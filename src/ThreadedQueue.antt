-- ===== src/ThreadedQueue.antt =====
-- libutils/threaded_queue.c: a growing circular queue under one lock. Each function holds the lock
-- from its first to its last access, so it is one step; only a wait gives the lock away. An
-- operation that may call the destroy function returns the pointers it destroys, in order.
pub mod State
pub mod Pop
pub mod Expand
pub mod Push
pub mod Destroy
pub mod Run
pub mod Wait
mod Tests
use libntech.Prelude.{
  ℕ, zero, suc, ◌+◌, ◌-◌, ◌*◌, ◌/◌, ◌%◌, min, Bool, true, false, ◌&&◌, ◌||◌, not, Option, none,
  some, List, [], ◌∷◌, ◌++◌, if◌then◌else◌, ◌==◌, ltb, leb, set, take, Ptr, null, read, calloc,
  realloc, copy_to, add_size, sub_size, mul_size, length,
}

-- `struct ThreadedQueue_`, less its lock and conditions.
pub record Queue : Type 0 where
  pub items : List Ptr
  pub head : ℕ
  pub tail : ℕ
  pub size : ℕ
  pub capacity : ℕ
  pub has_destroy : Bool

-- ThreadedQueueNew where the lock and the conditions can be made. malloc leaves the slots
-- indeterminate; they stand as NULL.
pub new : ℕ → Bool → Queue
new initial destroy =
    let n = (if initial == 0 then 16 else initial) in
    record { items = calloc n; head = 0; tail = 0; size = 0; capacity = n; has_destroy = destroy }

-- The first half of ExpandIfNecessary, when the queue is full: a queue that goes round the end is
-- unrolled into the new slots.
pub expand : Queue → Queue
expand q =
    let c = mul_size q.capacity 2 in
    let d = realloc q.items (mul_size 8 c / 8) in
    if leb q.tail q.head
    then record q {
      capacity = c;
      items = copy_to d q.capacity (take q.tail d);
      tail = add_size q.tail q.capacity;
    }
    else record q { capacity = c; items = d }

pub expand_if_necessary : Queue → Queue
unfolding expand
expand_if_necessary q =
    let r = (if q.size == q.capacity then expand q else q) in
    record r { tail = r.tail % r.capacity }

-- What ThreadedQueuePush does to the queue under the lock.
pub push_item : Queue → Ptr → Queue
unfolding expand_if_necessary
push_item q item =
    let r = expand_if_necessary q in
    record r { items = set r.items r.tail item; tail = add_size r.tail 1; size = add_size r.size 1 }

-- ThreadedQueuePush returns the new size.
pub push : Queue → Ptr → Queue × ℕ
unfolding push_item
push q item = let r = push_item q item in (r, r.size)

push_all : Queue → List Ptr → Queue
unfolding push_item
push_all q [] = q
push_all q (x ∷ xs) = push_all (push_item q x) xs

pub push_n : Queue → List Ptr → Queue × ℕ
unfolding push_all
push_n q xs = let r = push_all q xs in (r, r.size)

-- One round of the loops that take items: the item, and the queue with its slot set to NULL.
pub take_item : Queue → Ptr × Queue
take_item q = (
  read q.items q.head,
  record q {
    items = set q.items q.head null;
    head = add_size q.head 1 % q.capacity;
    size = sub_size q.size 1;
  },
)

-- ThreadedQueuePop from the test of the size on: the result, what `*item` becomes, the queue.
pub pop_now : Queue → Bool × Ptr × Queue
unfolding take_item
pop_now q = if ltb 0 q.size then (let (x, r) = take_item q in (true, x, r)) else (false, null, q)

-- A wake from ThreadWait: the queue as the other threads have left it, and whether the wait
-- succeeded.
abbrev pub Wake : Type 0
Wake = Bool × Queue

-- The `do … while` loop of the blocking operations: the queue at which it stops, with `true` if it
-- was not left by a failed wait; `none` while it still waits.
pub wait_while : (Queue → Bool) → List Wake → Option (Bool × Queue)
wait_while blocked [] = none
wait_while blocked ((ok, q) ∷ wakes) =
    let more = wait_while blocked wakes in
    if ok then (if blocked q then more else some (true, q)) else some (false, q)

-- ThreadedQueuePop: the result, what `*item` becomes (`none` if it is not written), the queue.
pub pop : Queue → Bool → List Wake → Option (Bool × Option Ptr × Queue)
unfolding pop_now wait_while
pop q may_wait wakes =
    if q.size == 0 && may_wait
    then elim (wait_while (λ r. r.size == 0) wakes) [
      | none ↦ none
      | some (false, r) ↦ some (false, none, r)
      | some (true, r) ↦ (let (done, x, s) = pop_now r in some (done, some x, s))
    ]
    else (let (done, x, s) = pop_now q in some (done, some x, s))

-- The loop of ThreadedQueuePopN and ThreadedQueuePopNIntoArray.
take_items : ℕ → Queue → List Ptr × Queue
unfolding take_item
take_items zero q = ([], q)
take_items (suc n) q = let (x, r) = take_item q in let (xs, s) = take_items n r in (x ∷ xs, s)

-- ThreadedQueuePopN, and ThreadedQueuePopNIntoArray, from the computation of the size on.
pub pop_n_now : Queue → ℕ → List Ptr × Queue
unfolding take_items
pop_n_now q num = take_items (if ltb num q.size then num else q.size) q

pub count : Queue → ℕ
count q = q.size

pub capacity_of : Queue → ℕ
capacity_of q = q.capacity

pub is_empty : Queue → Bool
is_empty q = q.size == 0

-- ThreadedQueueWaitEmpty: the result, and the queue at which it returns; `none` while it still waits.
pub wait_empty : Queue → Bool → List Wake → Option (Bool × Queue)
unfolding wait_while
wait_empty q may_wait wakes =
    if not (q.size == 0)
    then (if may_wait
        then elim (wait_while (λ r. not (r.size == 0)) wakes) [
          | none ↦ none
          | some (false, r) ↦ some (false, r)
          | some (true, r) ↦ some (true, r)
        ]
        else some (false, q))
    else some (true, q)

-- The loop of DestroyRange from index `i` on: what it reads, in order. `none` is a loop that has
-- run out of fuel.
destroy_loop : ℕ → ℕ → ℕ → ℕ → List Ptr → Option (List Ptr)
destroy_loop zero i end cap d = none
destroy_loop (suc fuel) i end cap d =
    let j = i % cap in
    let more = destroy_loop fuel (add_size j 1) end cap d in
    if i == end then some [] else elim more [ none ↦ none | some xs ↦ some (read d j ∷ xs) ]

-- DestroyRange: the queue with its new size, and what is destroyed.
pub destroy_range : ℕ → Queue → ℕ → ℕ → Option (Queue × List Ptr)
unfolding destroy_loop
destroy_range fuel q start end =
    if ltb q.capacity start || ltb q.capacity end || not (ltb 0 q.size)
    then some (q, [])
    else elim (destroy_loop fuel (add_size start 1) end q.capacity q.items) [
      | none ↦ none
      | some xs ↦ some (
        record q { size = sub_size q.size (length xs + 1) },
        (if q.has_destroy then read q.items start ∷ xs else []),
      )
    ]

-- ThreadedQueueClear, with its assertion left out.
pub clear : ℕ → Queue → Option (Queue × List Ptr)
unfolding destroy_range
clear fuel q = elim (destroy_range fuel q q.head q.tail) [
  | none ↦ none
  | some (r, gone) ↦ some (record r { head = 0; tail = 0 }, gone)
]

pub clear_and_push : ℕ → Queue → Ptr → Option (Queue × List Ptr × ℕ)
unfolding clear push_item
clear_and_push fuel q item = elim (clear fuel q) [
  | none ↦ none
  | some (r, gone) ↦ (let s = push_item r item in some (s, gone, s.size))
]

-- ThreadedQueueDestroy: what it destroys.
pub destroy : ℕ → Queue → Option (List Ptr)
unfolding destroy_range
destroy fuel q = elim (destroy_range fuel q q.head q.tail) [
  | none ↦ none
  | some (r, gone) ↦ some gone
]
