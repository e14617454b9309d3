-- ===== src/ThreadedDeque/Tests.antt =====
-- The theorems on threaded deques, at a deque of three slots that goes round and then grows.
use libntech.Prelude.{List, ◌≡◌, refl, true, false, some, [], ◌∷◌, ◌++◌, Ptr, arith, inr}
use libntech.ThreadedDeque.{Deque, new, push_left, push_right}
use libntech.ThreadedDeque.State.{contents, IsValid}
use libntech.ThreadedDeque.Run.{
  Op, left_push, right_push, left_pop, right_pop, ask_count, left_pops, right_pops, counted, popped,
  took, run, list_run, added_all, deque_refines,
}
use libntech.ThreadedDeque.Wait.{pop_left, pop_right, pops-woken}
use libntech.ThreadedDeque.Destroy.{destroy, destroy-contents}

-- The items 7, 8, from the last slot round to the first.
abbrev around : Deque
around = record {
  items = 8 ∷ 0 ∷ 7 ∷ [];
  left = 2;
  right = 1;
  size = 2;
  capacity = 3;
  has_destroy = true;
}

around-made : (push_right (push_left (new 3 true) 7).0 8).0 ≡ around
unfolding new push_left push_right
around-made = refl

around-IsValid : IsValid around
around-IsValid = record {
  slots = refl;
  left_in = omega arith;
  right_in = omega arith;
  within = omega arith;
  placed = inr (omega arith);
}

abbrev calls : List Op
calls =
    left_push 6
    ∷ right_push 9
    ∷ ask_count
    ∷ right_pop
    ∷ left_pops 1
    ∷ left_push 5
    ∷ right_pops 2
    ∷ left_pop
    ∷ left_pop
    ∷ right_push 4
    ∷ []

deque_refines_example :
    ((run calls around).0
      ≡ counted 3
        ∷ counted 4
        ∷ counted 4
        ∷ popped true 9
        ∷ took (6 ∷ [])
        ∷ counted 3
        ∷ took (8 ∷ 7 ∷ [])
        ∷ popped true 5
        ∷ popped false 0
        ∷ counted 1
        ∷ [])
    × (contents (run calls around).1 ≡ 4 ∷ [])
    × IsValid (run calls around).1
unfolding list_run added_all
deque_refines_example = deque_refines calls around around-IsValid (omega arith) (omega arith)

abbrev empty : Deque
empty = record around { left = 1; right = 1; size = 0 }

pops-woken_example :
    ((x : Ptr) × (r : Deque) × (pop_left empty true
          ((true, empty) ∷ (true, around) ∷ (false, empty) ∷ [])
        ≡ some (true, some x, r))
      × IsValid r
      × (7 ∷ 8 ∷ [] ≡ x ∷ contents r))
    × ((x : Ptr) × (r : Deque) × (pop_right empty true
            ((true, empty) ∷ (true, around) ∷ (false, empty) ∷ [])
          ≡ some (true, some x, r))
        × IsValid r
        × (7 ∷ 8 ∷ [] ≡ contents r ++ x ∷ []))
pops-woken_example =
    pops-woken empty (empty ∷ []) around ((false, empty) ∷ []) refl (refl, tt) around-IsValid
      (omega arith) (omega arith)

destroy-contents_example : destroy 2 around ≡ some (7 ∷ 8 ∷ [])
destroy-contents_example = destroy-contents 2 around around-IsValid (omega arith) (omega arith)
