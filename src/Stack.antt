-- ===== src/Stack.antt =====
-- libutils/stack_base.c and stack.c: a growing stack in an array. An operation that may call the
-- destroy function returns the pointers it destroys, in order.
pub mod Run
mod Tests
use libntech.Prelude.{
  ℕ, zero, suc, ◌+◌, ◌-◌, ◌/◌, Bool, true, false, ◌||◌, List, [], ◌∷◌, if◌then◌else◌, ◌==◌, ltb,
  set, take, Ptr, null, read, calloc, realloc, copy_to, add_size, mul_size,
}

-- `struct Stack_`
pub record Stack : Type 0 where
  pub items : List Ptr
  pub size : ℕ
  pub capacity : ℕ
  pub has_destroy : Bool

-- StackNew, with StackInit.
pub new : ℕ → Bool → Stack
new initial destroy =
    let n = (if initial == 0 then 16 else initial) in
    record { items = calloc n; size = 0; capacity = n; has_destroy = destroy }

-- The loop of DestroyRange, for `n` rounds from index `i` on.
destroy_from : List Ptr → ℕ → ℕ → List Ptr
destroy_from d i zero = []
destroy_from d i (suc n) = read d i ∷ destroy_from d (i + 1) n

-- DestroyRange
pub destroy_range : Stack → ℕ → ℕ → List Ptr
unfolding destroy_from
destroy_range s start end =
    if ltb s.capacity start || ltb s.capacity end
    then []
    else (if s.has_destroy then destroy_from s.items start (end - start) else [])

-- StackDestroy: what it destroys.
pub destroy : Stack → List Ptr
unfolding destroy_range
destroy s = destroy_range s 0 s.size

pub pop : Stack → Ptr × Stack
pop s =
    if ltb 0 s.size
    then (
      read s.items (s.size - 1),
      record s { items = set s.items (s.size - 1) null; size = s.size - 1 },
    )
    else (null, s)

pub top : Stack → Ptr
top s = if ltb 0 s.size then read s.items (s.size - 1) else null

pub expand_if_necessary : Stack → Stack
expand_if_necessary s =
    if s.size == s.capacity
    then (let c = mul_size s.capacity 2 in
        record s { capacity = c; items = realloc s.items (mul_size 8 c / 8) })
    else s

pub push : Stack → Ptr → Stack
unfolding expand_if_necessary
push s item =
    let r = expand_if_necessary s in
    record r { items = set r.items r.size item; size = add_size r.size 1 }

pub push_report_count : Stack → Ptr → Stack × ℕ
unfolding push
push_report_count s item = let r = push s item in (r, r.size)

pub count : Stack → ℕ
count s = s.size

pub capacity_of : Stack → ℕ
capacity_of s = s.capacity

pub is_empty : Stack → Bool
is_empty s = s.size == 0

-- StackCopy; the slots that malloc leaves indeterminate stand as NULL.
pub copy : Stack → Stack
copy s = record s { items = copy_to (calloc s.capacity) 0 (take s.size s.items) }
