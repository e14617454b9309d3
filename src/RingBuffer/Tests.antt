-- ===== src/RingBuffer/Tests.antt =====
-- Runs of the ring buffer, and its theorems on a full buffer of two slots.
use libntech.Prelude.{◌≡◌, refl, true, none, [], ◌∷◌, arith}
use libntech.RingBuffer.{RingBuffer, new, append, iterator}
use libntech.RingBuffer.Contents.{contents, IsValid, append-IsValid, append_refines}
use libntech.RingBuffer.Iterate.{walk, walk-contents}

-- The items 6 and 7, after 5 was overwritten.
abbrev two_slots : RingBuffer
two_slots = record {
  copy = none;
  has_destroy = true;
  items = 7 ∷ 6 ∷ [];
  capacity = 2;
  end = 1;
  len = 2;
}

two_slots-run : (append (append (append (new 2 none true) 5).0 6).0 7) ≡ (two_slots, 5 ∷ [])
unfolding new append
two_slots-run = refl

two_slots-IsValid : IsValid two_slots
two_slots-IsValid = record {
  slots = refl;
  positive = omega arith;
  small = omega arith;
  within = omega arith;
  end_in = omega arith;
  filling = λ h. absurd (omega arith);
  unused = λ _ h. absurd (omega arith);
}

append-IsValid_example : IsValid (append two_slots 8).0
append-IsValid_example = append-IsValid two_slots 8 two_slots-IsValid

append_refines_example : contents (append two_slots 8).0 ≡ 7 ∷ 8 ∷ []
append_refines_example = append_refines two_slots 8 two_slots-IsValid

walk-contents_example : walk 2 (iterator two_slots) ≡ 6 ∷ 7 ∷ []
walk-contents_example = walk-contents two_slots two_slots-IsValid (omega arith)
