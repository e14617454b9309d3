-- ===== src/Stack/Tests.antt =====
-- The theorem on stacks, at a full stack of two slots.
use libntech.Prelude.{◌≡◌, refl, true, [], ◌∷◌, arith}
use libntech.Stack.{Stack, new, push}
use libntech.Stack.Run.{
  view, IsValid, push_counted, pop_one, read_top, ask_count, item, counted, run, list_run,
  stack_refines,
}

abbrev two : Stack
two = record { items = 5 ∷ 6 ∷ []; size = 2; capacity = 2; has_destroy = true }

two-run : push (push (new 2 true) 5) 6 ≡ two
unfolding new push
two-run = refl

two-IsValid : IsValid two
two-IsValid = record { slots = refl; positive = omega arith; within = omega arith }

stack_refines_example :
    ((run
        (push_counted 7 ∷ pop_one ∷ pop_one ∷ read_top ∷ pop_one ∷ pop_one ∷ ask_count ∷ [])
        two).0
      ≡ counted 3 ∷ item 7 ∷ item 6 ∷ item 5 ∷ item 5 ∷ item 0 ∷ counted 0 ∷ [])
    × IsValid
        (run
          (push_counted 7 ∷ pop_one ∷ pop_one ∷ read_top ∷ pop_one ∷ pop_one ∷ ask_count ∷ [])
          two).1
    × (view
          (run
            (push_counted 7 ∷ pop_one ∷ pop_one ∷ read_top ∷ pop_one ∷ pop_one ∷ ask_count ∷ [])
            two).1
        ≡ [])
unfolding list_run
stack_refines_example =
    stack_refines
      (push_counted 7 ∷ pop_one ∷ pop_one ∷ read_top ∷ pop_one ∷ pop_one ∷ ask_count ∷ []) two
      two-IsValid (omega arith) (omega arith)
