-- ===== src/RingBuffer/Contents.antt =====
-- What a ring buffer holds, oldest item first, and the invariant of its fields.
use libntech.Prelude.{
  take-all, drop-all, rotation, rotation-next, rotation-set, rotation-set_last, ℕ, zero, suc, ◌+◌,
  ◌-◌, ◌≤◌, ◌<◌, ◌≡◌, refl, ap, sym, ◌∙◌, Bool, true, Option, List, [], ◌∷◌, ◌++◌, append_assoc,
  append-nil, if◌then◌else◌, ◌==◌, ltb, length, set, take, drop, replicate, arith, Ptr, null, read,
  size_mod, length-set, length-append, length-take, length-drop, length-replicate, take-set_next,
  drop-set_lt, drop-get, get_or-append_ge, Bool-cases, drop-drop_next, drop-replicate_one, inl, inr,
  next_index, get_or-drop_zero, live, set-get_or, get_or-take, live-append, live-replicate,
  take-append-drop, ◌&&◌,
}
use mathlib.Core.List.{Perm, perm_append_comm}
use mathlib.Core.List.Perm
use native.Mathlib.Numerals.{add-one}
use native.Mathlib.Decide.{dec_lt}
use libntech.RingBuffer.{RingBuffer, new, stored, append, clear_slots, clear, head, buffer_length}

-- The items, oldest first: round from `end` when full, and from the start otherwise.
abbrev pub contents : RingBuffer → List Ptr
contents b = if b.len == b.capacity then rotation b.items b.end else take b.len b.items

-- The array has `capacity` slots, the indices are in range, a buffer that is not full was filled
-- from the start, and with a destroy function its unused slots are NULL.
pub record IsValid (b : RingBuffer) : Type 0 where
  pub slots : length b.items ≡ b.capacity
  pub positive : 0 < b.capacity
  pub small : b.capacity < size_mod
  pub within : b.len ≤ b.capacity
  pub end_in : b.end < b.capacity
  pub filling : b.len < b.capacity → b.end ≡ b.len
  pub unused :
      b.has_destroy ≡ true
      → b.len < b.capacity
      → drop b.len b.items ≡ replicate (b.capacity - b.len) null

-- The specification of an append: a full buffer forgets its oldest item.
abbrev pub remember : ℕ → List Ptr → Ptr → List Ptr
remember capacity q x = (if ltb (length q) capacity then q else drop 1 q) ++ x ∷ []

pub length-contents : (b : RingBuffer) → IsValid b → length (contents b) ≡ b.len
length-contents b v = ground (
  arith,
  length-append (drop b.end b.items) (take b.end b.items),
  length-take b.end b.items,
  length-drop b.end b.items,
  length-take b.len b.items,
)

head-replicate : (n : ℕ) → 0 < n → read (replicate n null) 0 ≡ null
head-replicate zero h = refl
head-replicate (suc n) h = refl

unused-read : (d : List Ptr) (c n : ℕ) → drop n d ≡ replicate (c - n) null → n < c → read d n ≡ null
unused-read d c n e h =
    let r : read (drop n d) 0 ≡ null = rw e (head-replicate (c - n) (omega arith)) in
    sym (get_or-drop_zero d n null) ∙ r

-- A new buffer is valid and empty.
pub new-IsValid :
    (n : ℕ) (c : Option (Ptr → Ptr)) (d : Bool)
    → 0 < n
    → n < size_mod
    → IsValid (new n c d) × (contents (new n c d) ≡ [])
unfolding new
new-IsValid n c d h k = ground (arith, length-replicate n null)

-- The slots past a write at `n` are unused still.
unused-set :
    (d : List Ptr) (c n : ℕ) (x : Ptr)
    → drop n d ≡ replicate (c - n) null
    → drop (suc n) (set d n x) ≡ replicate (c - suc n) null
unused-set d c n x h =
    drop-set_lt d (suc n) n x (omega arith)
    ∙ drop-drop_next d n
    ∙ ap (drop 1) h
    ∙ drop-replicate_one (c - n) null
    ∙ ap (λ k. replicate k null) (omega arith)

module _ (b : RingBuffer) (x : Ptr) (v : IsValid b) where
  -- RingBufferAppend on a valid buffer keeps the invariant.
  pub append-IsValid : IsValid (append b x).0
  unfolding append
  append-IsValid = record {
    slots = length-set b.items b.end (stored b x) ∙ v.slots;
    positive = v.positive;
    small = v.small;
    within = ground arith;
    end_in = grind arith;
    filling = ground (arith, next_index b.end b.capacity);
    unused = λ d h. ground (
      arith,
      v.unused,
      unused-set b.items b.capacity b.len (stored b x),
      next_index b.end b.capacity,
    );
  }

  -- RingBufferAppend on a valid buffer adds what is stored for the item at the end of the contents,
  -- and first forgets the oldest item if the buffer is full.
  pub append_refines : contents (append b x).0 ≡ remember b.capacity (contents b) (stored b x)
  unfolding append
  append_refines = ground (
    arith,
    length-contents b v,
    length-set b.items b.end (stored b x),
    rotation-next (set b.items b.end (stored b x)) b.end b.capacity,
    rotation-set b.items b.end (stored b x),
    rotation-set_last b.items b.end b.capacity (stored b x),
    take-set_next b.items b.end (stored b x),
  )

-- The loop of RingBufferClear empties the slots from `i` on and destroys what they held.
clear_slots_lem :
    (n i : ℕ) (d : List Ptr)
    → i + n ≡ length d
    → (clear_slots n i d).0 ≡ take i d ++ replicate n null
unfolding clear_slots
clear_slots_lem zero i d h = rw (take-all d i (omega arith), append-nil)
clear_slots_lem (suc n) i d h =
    let x = read d i in
    let d' = set d i null in
    let same : (if x == null then d else d') ≡ d' = ground (arith, set-get_or d i null) in
    rw same (
      clear_slots_lem n (i + 1) d' (omega (arith, length-set d i null))
      ∙ ap (λ k. take k d' ++ replicate n null) (add-one i)
      ∙ rw (take-set_next d i null (omega arith))
          (append_assoc (take i d) (null ∷ []) (replicate n null)))

clear_slots-gone :
    (n i : ℕ) (d : List Ptr) → i + n ≡ length d → (clear_slots n i d).1 ≡ live (drop i d)
unfolding clear_slots
clear_slots-gone zero i d h = rw (drop-all d i (omega arith))
clear_slots-gone (suc n) i d h =
    let x = read d i in
    let d' = set d i null in
    let same : (if x == null then d else d') ≡ d' = ground (arith, set-get_or d i null) in
    let step : (clear_slots n (i + 1) d').1 ≡ live (drop (suc i) d) =
      clear_slots-gone n (i + 1) d' (omega (arith, length-set d i null))
      ∙ ap (λ k. live (drop k d')) (add-one i)
      ∙ ap live (drop-set_lt d (suc i) i null (omega arith)) in
    rw (same, step, drop-get d i null (omega arith))

-- RingBufferAppend on a valid buffer destroys the oldest item of a full buffer, if there is a
-- destroy function and the item is not NULL, and nothing else.
pub append-gone :
    (b : RingBuffer) (x : Ptr)
    → IsValid b
    → (append b x).1
      ≡ (if b.has_destroy && (b.len == b.capacity) then live (take 1 (contents b)) else [])
unfolding append
append-gone b x v =
    ground (
      arith,
      v.unused,
      v.filling,
      unused-read b.items b.capacity b.len,
      drop-get b.items b.end null,
    )

module _ (b : RingBuffer) (v : IsValid b) where
  -- RingBufferClear leaves a valid, empty buffer.
  pub clear-IsValid : IsValid (clear b).0 × (contents (clear b).0 ≡ [])
  unfolding clear
  clear-IsValid =
      ground
        (arith, clear_slots_lem b.capacity 0 b.items, length-replicate b.capacity null, v.slots)

  gone-full : b.len ≡ b.capacity → Perm (live b.items) (live (contents b))
  gone-full e =
      let d = b.items in
      let whole : live d ≡ live (take b.end d) ++ live (drop b.end d) =
        ap live (sym (take-append-drop b.end d)) ∙ live-append (take b.end d) (drop b.end d) in
      let seen : live (contents b) ≡ live (drop b.end d) ++ live (take b.end d) =
        ground (arith, live-append (drop b.end d) (take b.end d)) in
      rw (whole, seen) (perm_append_comm (live (take b.end d)) (live (drop b.end d)))

  gone-filling : b.has_destroy ≡ true → b.len < b.capacity → live b.items ≡ live (contents b)
  gone-filling t h = ground (
    arith,
    v.unused t h,
    take-append-drop b.len b.items,
    live-append (take b.len b.items) (drop b.len b.items),
    live-replicate (b.capacity - b.len),
    append-nil (live (take b.len b.items)),
  )

  -- On a valid buffer: without a destroy function RingBufferClear destroys nothing; with one it
  -- destroys the items that the buffer holds and that are not NULL, each once.
  clear-gone : Perm (clear b).1 (if b.has_destroy then live (contents b) else [])
  unfolding clear
  clear-gone = elim (Bool-cases b.has_destroy) [
    | inr f ↦ rw f (Perm.refl [])
    | inl t ↦
        rw (t, clear_slots-gone b.capacity 0 b.items (omega (arith, v.slots)))
          (elim (dec_lt b.len b.capacity) [
            | yes p ↦ rw (gone-filling t p) (Perm.refl (live (contents b)))
            | no p ↦ gone-full (omega (arith, v.within))
          ])
  ]

  -- RingBufferHead on a valid buffer is the item appended last, and NULL on an empty buffer.
  pub head_lem : head b ≡ (if b.len == 0 then null else read (contents b) (b.len - 1))
  unfolding head buffer_length
  head_lem = ground (
    arith,
    get_or-take b.items b.len (b.len - 1) null,
    append-nil b.items,
    get_or-append_ge (drop b.end b.items) (take b.end b.items) (b.len - 1) null,
    length-drop b.end b.items,
    get_or-take b.items b.end (b.end - 1) null,
  )
