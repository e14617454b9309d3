-- ===== src/ThreadedQueue/State.antt =====
-- What a threaded queue holds, and the invariant of its fields.
use libntech.Prelude.{
  ℕ, ◌+◌, ◌*◌, ◌≤◌, ◌<◌, ◌≡◌, ap, ◌⊎◌, Bool, List, [], length, take, drop, arith, Ptr, null,
  size_mod, length-append, length-take, length-drop, length-replicate, rotation,
}
use libntech.ThreadedQueue.{Queue, new}

-- The items, from the head on and round.
abbrev pub contents : Queue → List Ptr
contents q = take q.size (rotation q.items q.head)

-- Where the tail stands: past the last item; past it, round the end; or past the end of an empty
-- queue whose head has gone round.
abbrev pub IsTail : Queue → Type 0
IsTail q =
    (q.tail ≡ q.head + q.size)
    ⊎ (((q.tail + q.capacity ≡ q.head + q.size) × (0 < q.tail))
        ⊎ ((q.size ≡ 0) × (q.head ≡ 0) × (q.tail ≡ q.capacity)))

pub record IsValid (q : Queue) : Type 0 where
  pub slots : length q.items ≡ q.capacity
  pub positive : 0 < q.capacity
  pub head_in : q.head < q.capacity
  pub tail_in : q.tail ≤ q.capacity
  pub within : q.size ≤ q.capacity
  pub placed : IsTail q

-- A doubled array of pointers stays below the address space.
abbrev pub Fits : Queue → Type 0
Fits q = 16 * q.capacity < size_mod

pub length-contents : (q : Queue) → IsValid q → length (contents q) ≡ q.size
length-contents q v = omega (
  arith,
  length-take q.size (rotation q.items q.head),
  length-append (drop q.head q.items) (take q.head q.items),
  length-drop q.head q.items,
  length-take q.head q.items,
  v.slots,
  v.within,
  v.head_in,
)

pub new-IsValid : (n : ℕ) (d : Bool) → IsValid (new n d) × (contents (new n d) ≡ [])
unfolding new
new-IsValid n d = ground (arith, length-replicate n null, length-replicate 16 null)

pub contents-empty : (q : Queue) → q.size ≡ 0 → contents q ≡ []
contents-empty q e = ap (λ n. take n (rotation q.items q.head)) e
