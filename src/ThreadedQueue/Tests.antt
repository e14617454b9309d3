-- ===== src/ThreadedQueue/Tests.antt =====
-- The theorems on threaded queues, at a queue that goes round the end of its four slots.
use libntech.Prelude.{List, ◌≡◌, refl, true, false, some, none, [], ◌∷◌, arith, inl, inr}
use libntech.ThreadedQueue.{Queue, new, push_n, pop_n_now, clear, pop, wait_empty}
use libntech.ThreadedQueue.State.{contents, IsValid}
use libntech.ThreadedQueue.Destroy.{clear-contents}
use libntech.ThreadedQueue.Run.{
  Op, push_one, pop_one, pop_many, replace_all, ask_count, counted, popped, took, replaced, run,
  list_run, added_all, run_refines,
}
use libntech.ThreadedQueue.Wait.{pop-woken, pop-timed_out, wait_empty-woken}

-- The items 7, 8, 9: 5 and 6 were taken before 9 went round the end.
abbrev around : Queue
around = record {
  items = 9 ∷ 0 ∷ 7 ∷ 8 ∷ [];
  head = 2;
  tail = 1;
  size = 3;
  capacity = 4;
  has_destroy = true;
}

around-run :
    (push_n (pop_n_now (push_n (new 4 true) (5 ∷ 6 ∷ 7 ∷ 8 ∷ [])).0 2).1 (9 ∷ [])).0 ≡ around
unfolding new push_n pop_n_now
around-run = refl

around-IsValid : IsValid around
around-IsValid = record {
  slots = refl;
  positive = omega arith;
  head_in = omega arith;
  tail_in = omega arith;
  within = omega arith;
  placed = inr (inl (refl, omega arith));
}

around-contents : contents around ≡ 7 ∷ 8 ∷ 9 ∷ []
around-contents = refl

clear-contents_example :
    (r : Queue) × (clear 4 around ≡ some (r, 7 ∷ 8 ∷ 9 ∷ []))
    × IsValid r
    × (contents r ≡ [])
    × (r.capacity ≡ 4)
    × (r.has_destroy ≡ true)
    × (r.size ≡ 0)
clear-contents_example = clear-contents 4 around around-IsValid (omega arith) (omega arith)

abbrev calls : List Op
calls = push_one 4 ∷ push_one 3 ∷ pop_many 4 ∷ replace_all 2 ∷ pop_one ∷ pop_one ∷ ask_count ∷ []

run_refines_example :
    (r : Queue) × (run calls around
      ≡ some (
        counted 4
            ∷ counted 5
            ∷ took (7 ∷ 8 ∷ 9 ∷ 4 ∷ [])
            ∷ replaced (3 ∷ []) 1
            ∷ popped true 2
            ∷ popped false 0
            ∷ counted 0
            ∷ [],
        r,
      ))
    × IsValid r
    × (contents r ≡ [])
unfolding list_run added_all
run_refines_example = run_refines calls around around-IsValid (omega arith) (omega arith)

abbrev empty : Queue
empty = record around { head = 3; tail = 3; size = 0 }

pop-woken_example :
    (r : Queue) × (pop empty true ((true, empty) ∷ (true, around) ∷ (false, empty) ∷ [])
      ≡ some (true, some 7, r))
    × IsValid r
    × (contents r ≡ 8 ∷ 9 ∷ [])
pop-woken_example =
    pop-woken empty (empty ∷ []) around 7 (8 ∷ 9 ∷ []) ((false, empty) ∷ []) refl (refl, tt)
      around-IsValid (omega arith) refl

pop-timed_out_example :
    pop empty true ((true, empty) ∷ (false, empty) ∷ []) ≡ some (false, none, empty)
pop-timed_out_example = pop-timed_out empty (empty ∷ []) empty [] refl (refl, tt)

wait_empty-woken_example :
    wait_empty around true ((true, around) ∷ (true, empty) ∷ []) ≡ some (true, empty)
wait_empty-woken_example =
    wait_empty-woken around (around ∷ []) empty [] (omega arith) (omega arith, tt) refl
