-- ===== src/ThreadedDeque/Wait.antt =====
-- The pops of threaded_deque.c that wait, and ThreadedDequeWaitEmpty: other threads run between a
-- wait and its wake, which may find nothing.
use libntech.Prelude.{
  ℕ, ◌<◌, ◌≡◌, refl, Bool, true, false, Option, none, some, List, [], ◌∷◌, ◌++◌, map, ◌==◌, ◌&&◌,
  not, if◌then◌else◌, ◌∙◌, arith, Ptr, All, ltb,
}
use libntech.ThreadedDeque.{
  Deque, pop_left_now, pop_right_now, pop_left_n_now, pop_right_n_now, take_left, take_right,
}
use libntech.ThreadedDeque.State.{contents, IsValid, Fits}
use libntech.ThreadedDeque.Left.{take_left-TakenLeft}
use libntech.ThreadedDeque.Right.{take_right-TakenRight}

-- A wake from ThreadWait: whether the wait succeeded, and the deque as the other threads left it.
abbrev pub Wake : Type 0
Wake = Bool × Deque

-- The `do … while` loop of the blocking operations: the deque at which it stops, with `true` if it
-- was not left by a failed wait; `none` while it still waits.
unfoldable pub wait_while : (Deque → Bool) → List Wake → Option (Bool × Deque)
wait_while blocked [] = none
wait_while blocked ((ok, q) ∷ wakes) =
    let more = wait_while blocked wakes in
    if ok then (if blocked q then more else some (true, q)) else some (false, q)

-- The wait that each pop begins with, before what it does if the wait fails and if not.
unfoldable pub after_wait :
    {A : Type 0} → (Deque → A) → (Deque → A) → Deque → Bool → List Wake → Option A
unfolding wait_while
after_wait failed go q may_wait wakes =
    if q.size == 0 && may_wait
    then elim (wait_while (λ r. r.size == 0) wakes) [
      | none ↦ none
      | some (false, r) ↦ some (failed r)
      | some (true, r) ↦ some (go r)
    ]
    else some (go q)

-- ThreadedDequePopLeft: the result, what `*item` becomes (`none` if it is not written), the deque.
unfoldable pub pop_left : Deque → Bool → List Wake → Option (Bool × Option Ptr × Deque)
unfolding after_wait pop_left_now
pop_left =
    after_wait (λ r. (false, none, r)) (λ r. let (done, x, s) = pop_left_now r in (done, some x, s))

-- ThreadedDequePopRight
unfoldable pub pop_right : Deque → Bool → List Wake → Option (Bool × Option Ptr × Deque)
unfolding after_wait pop_right_now
pop_right =
    after_wait (λ r. (false, none, r))
      (λ r. let (done, x, s) = pop_right_now r in (done, some x, s))

-- ThreadedDequePopLeftN and ThreadedDequePopRightN: the items, and the deque.
unfoldable pub pop_left_n : Deque → ℕ → Bool → List Wake → Option (List Ptr × Deque)
unfolding after_wait pop_left_n_now
pop_left_n q num = after_wait (λ r. ([], r)) (λ r. pop_left_n_now r num) q

unfoldable pub pop_right_n : Deque → ℕ → Bool → List Wake → Option (List Ptr × Deque)
unfolding after_wait pop_right_n_now
pop_right_n q num = after_wait (λ r. ([], r)) (λ r. pop_right_n_now r num) q

-- ThreadedDequeWaitEmpty: the result, and the deque at which it returns.
unfoldable pub wait_empty : Deque → Bool → List Wake → Option (Bool × Deque)
unfolding wait_while
wait_empty q may_wait wakes =
    if q.size == 0
    then some (true, q)
    else (if may_wait
        then elim (wait_while (λ r. not (r.size == 0)) wakes) [
          | none ↦ none
          | some (ok, r) ↦ some (ok, r)
        ]
        else some (false, q))

-- Wakes that find the condition of the loop unchanged.
abbrev pub idle_wakes : List Deque → List Wake
idle_wakes qs = map (λ q. (true, q)) qs

wait_while-idle :
    (qs : List Deque)
    → All (λ q. q.size ≡ 0) qs
    → (wakes : List Wake)
    → wait_while (λ r. r.size == 0) (idle_wakes qs ++ wakes) ≡ wait_while (λ r. r.size == 0) wakes
unfolding wait_while
wait_while-idle [] h wakes = refl
wait_while-idle (q ∷ qs) (h, hs) wakes =
    let t : (q.size == 0) ≡ true = ground arith in rw (t, wait_while-idle qs hs wakes)

after_wait-woken :
    {A : Type 0} (failed go : Deque → A) (q : Deque) (idle : List Deque) (s : Deque)
    (later : List Wake)
    → q.size ≡ 0
    → All (λ r. r.size ≡ 0) idle
    → 0 < s.size
    → after_wait failed go q true (idle_wakes idle ++ (true, s) ∷ later) ≡ some (go s)
unfolding after_wait
after_wait-woken failed go q idle s later e es h =
    let z : (q.size == 0) ≡ true = ground arith in
    let t : (s.size == 0) ≡ false = ground arith in
    rw (z, wait_while-idle idle es ((true, s) ∷ later), wait_while, t)

pop_left_now-some :
    (s : Deque) → 0 < s.size → pop_left_now s ≡ (true, (take_left s).0, (take_left s).1)
unfolding pop_left_now
pop_left_now-some s h = let t : ltb 0 s.size ≡ true = ground arith in rw t

pop_right_now-some :
    (s : Deque) → 0 < s.size → pop_right_now s ≡ (true, (take_right s).0, (take_right s).1)
unfolding pop_right_now
pop_right_now-some s h = let t : ltb 0 s.size ≡ true = ground arith in rw t

-- Pops from either end that wait on an empty deque, and are woken to empty deques any number of
-- times, take the outermost item of their end from the first deque with an item that they are woken
-- to, where that deque is valid and its array fits, whatever comes later; they keep the invariant.
pub pops-woken :
    (q : Deque) (idle : List Deque) (s : Deque) (later : List Wake)
    → q.size ≡ 0
    → All (λ r. r.size ≡ 0) idle
    → IsValid s
    → Fits s
    → 0 < s.size
    → ((x : Ptr) × (r : Deque) × (pop_left q true (idle_wakes idle ++ (true, s) ∷ later)
          ≡ some (true, some x, r))
        × IsValid r
        × (contents s ≡ x ∷ contents r))
      × ((x : Ptr) × (r : Deque) × (pop_right q true (idle_wakes idle ++ (true, s) ∷ later)
            ≡ some (true, some x, r))
          × IsValid r
          × (contents s ≡ contents r ++ x ∷ []))
unfolding pop_left pop_right
pops-woken q idle s later e es v f h =
    let a = take_left-TakenLeft s v f h in
    let b = take_right-TakenRight s v f h in
    (
      (
        (take_left s).0,
        (take_left s).1,
        after_wait-woken (λ r. (false, none, r))
              (λ r. let (done, x, t) = pop_left_now r in (done, some x, t)) q idle s later e es h
            ∙ rw (pop_left_now-some s h),
        a.valid,
        a.holds,
      ),
      (
        (take_right s).0,
        (take_right s).1,
        after_wait-woken (λ r. (false, none, r))
              (λ r. let (done, x, t) = pop_right_now r in (done, some x, t)) q idle s later e es h
            ∙ rw (pop_right_now-some s h),
        b.valid,
        b.holds,
      ),
    )
