-- ===== src/ThreadedQueue/Wait.antt =====
-- Pops that wait: other threads run between a wait and its wake, which may find nothing.
use libntech.Prelude.{
  ◌<◌, ◌≡◌, refl, Bool, true, false, none, some, List, [], ◌∷◌, ◌++◌, map, ◌==◌, arith, Ptr, All,
  not, ◌∙◌, ap, length,
}
use libntech.ThreadedQueue.{Queue, Wake, wait_while, pop, pop_now, wait_empty}
use libntech.ThreadedQueue.State.{contents, IsValid, Fits, length-contents}
use libntech.ThreadedQueue.Pop.{pop_now-Popped}

-- Wakes that find the condition of the loop unchanged.
abbrev pub idle_wakes : List Queue → List Wake
idle_wakes qs = map (λ q. (true, q)) qs

module _ (blocked : Queue → Bool) where
  wait_while-idle :
      (qs : List Queue)
      → All (λ q. blocked q ≡ true) qs
      → (wakes : List Wake) → wait_while blocked (idle_wakes qs ++ wakes) ≡ wait_while blocked wakes
  unfolding wait_while
  wait_while-idle [] h wakes = refl
  wait_while-idle (q ∷ qs) (h, hs) wakes = rw (h, wait_while-idle qs hs wakes)

All-is_empty : (qs : List Queue) → All (λ r. r.size ≡ 0) qs → All (λ r. (r.size == 0) ≡ true) qs
All-is_empty [] h = h
All-is_empty (q ∷ qs) (h, hs) = (ground arith, All-is_empty qs hs)

All-is_busy : (qs : List Queue) → All (λ r. 0 < r.size) qs → All (λ r. not (r.size == 0) ≡ true) qs
All-is_busy [] h = h
All-is_busy (q ∷ qs) (h, hs) = (ground arith, All-is_busy qs hs)

-- A pop that waits on an empty queue, and is woken to empty queues any number of times, takes the
-- first item of the first queue with an item that it is woken to, where that queue is valid and its
-- array fits, whatever comes later; it keeps the invariant.
pub pop-woken :
    (q : Queue) (idle : List Queue) (s : Queue) (x : Ptr) (l : List Ptr) (later : List Wake)
    → q.size ≡ 0
    → All (λ r. r.size ≡ 0) idle
    → IsValid s
    → Fits s
    → contents s ≡ x ∷ l
    → (r : Queue) × (pop q true (idle_wakes idle ++ (true, s) ∷ later) ≡ some (true, some x, r))
      × IsValid r
      × (contents r ≡ l)
unfolding pop
pop-woken q idle s x l later e es v f h =
    let none_yet =
      wait_while-idle (λ r. r.size == 0) idle (All-is_empty idle es) ((true, s) ∷ later) in
    let p = pop_now-Popped s v f in
    let some_size : (s.size == 0) ≡ false = ground (arith, length-contents s v, ap length h) in
    let z : (q.size == 0) ≡ true = ground arith in
    (
      (pop_now s).2,
      rw (z, none_yet, wait_while, some_size, p.done, p.item, h),
      p.valid,
      p.holds ∙ rw h,
    )

-- A pop that waits on an empty queue, and whose wait fails after wakes to empty queues, fails,
-- writes no item and leaves the queue as the others left it.
pub pop-timed_out :
    (q : Queue) (idle : List Queue) (s : Queue) (later : List Wake)
    → q.size ≡ 0
    → All (λ r. r.size ≡ 0) idle
    → pop q true (idle_wakes idle ++ (false, s) ∷ later) ≡ some (false, none, s)
unfolding pop
pop-timed_out q idle s later e es =
    let none_yet =
      wait_while-idle (λ r. r.size == 0) idle (All-is_empty idle es) ((false, s) ∷ later) in
    let z : (q.size == 0) ≡ true = ground arith in rw (z, none_yet, wait_while)

-- ThreadedQueueWaitEmpty on a queue with items waits until it is woken to an empty queue, and says
-- that it succeeded, at that queue, whatever busy queues it is woken to before.
pub wait_empty-woken :
    (q : Queue) (busy : List Queue) (s : Queue) (later : List Wake)
    → 0 < q.size
    → All (λ r. 0 < r.size) busy
    → s.size ≡ 0
    → wait_empty q true (idle_wakes busy ++ (true, s) ∷ later) ≡ some (true, s)
unfolding wait_empty
wait_empty-woken q busy s later h hs e =
    let none_yet =
      wait_while-idle (λ r. not (r.size == 0)) busy (All-is_busy busy hs) ((true, s) ∷ later) in
    let z : (q.size == 0) ≡ false = ground arith in
    let u : (s.size == 0) ≡ true = ground arith in rw (z, none_yet, wait_while, u)
