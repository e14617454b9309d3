-- ===== src/ThreadedDeque/State.antt =====
-- What a threaded deque holds, the invariant of its fields, and the growing of its array.
use libntech.Prelude.{
  ℕ, ◌+◌, ◌*◌, ◌≤◌, ◌<◌, ◌≡◌, refl, ap, sym, ◌∙◌, ◌⊎◌, inl, inr, Bool, true, false, List, [], ◌==◌,
  leb, max, length, take, drop, arith, Ptr, null, size_mod, add_size, realloc, copy_to,
  length-append, length-take, length-drop, length-replicate, length-realloc, length-copy_to,
  take-all, take-realloc, words_double, rotation, rotation-unrolled, Bool-cases,
}
use libntech.ThreadedDeque.{Deque, new, expand_if_necessary}

-- The items from left to right.
abbrev pub contents : Deque → List Ptr
contents q = take q.size (rotation q.items q.left)

-- The fields: the right end is `size` slots behind the left one, and round.
pub record IsValid (q : Deque) : Type 0 where
  pub slots : length q.items ≡ q.capacity
  pub left_in : q.left < q.capacity
  pub right_in : q.right < q.capacity
  pub within : q.size ≤ q.capacity
  pub placed : (q.left + q.size ≡ q.right) ⊎ (q.left + q.size ≡ q.right + q.capacity)

-- A doubled array of pointers stays below the address space.
abbrev pub Fits : Deque → Type 0
Fits q = 16 * q.capacity < size_mod

pub length-rotation : (q : Deque) → IsValid q → length (rotation q.items q.left) ≡ q.capacity
length-rotation q v = omega (
  arith,
  length-append (drop q.left q.items) (take q.left q.items),
  length-drop q.left q.items,
  length-take q.left q.items,
  v.slots,
  v.left_in,
)

pub length-contents : (q : Deque) → IsValid q → length (contents q) ≡ q.size
length-contents q v =
    omega (arith, length-take q.size (rotation q.items q.left), length-rotation q v, v.within)

pub new-IsValid : (n : ℕ) (d : Bool) → IsValid (new n d) × (contents (new n d) ≡ [])
unfolding new
new-IsValid n d = ground (arith, length-replicate n null, length-replicate 16 null)

-- What a push finds: the same items, and a free slot.
pub record HasRoom (q r : Deque) : Type 0 where
  pub valid : IsValid r
  pub room : r.size < r.capacity
  pub same : contents r ≡ contents q
  pub kept : r.size ≡ q.size
  pub bound : r.capacity ≤ max q.capacity (2 * q.size)
  pub flag : r.has_destroy ≡ q.has_destroy

-- A full deque has its ends at one slot, so that it is unrolled.
expand-full :
    (q : Deque)
    → IsValid q
    → Fits q
    → q.size ≡ q.capacity
    → expand_if_necessary q ≡ record q {
      capacity = q.capacity * 2;
      items = copy_to (realloc q.items (q.capacity * 2)) q.capacity (take q.left q.items);
      right = q.left + q.capacity;
    }
unfolding expand_if_necessary
expand-full q v f full =
    let w = words_double q.capacity f in
    let e : q.right ≡ q.left = omega (arith, v.placed, v.left_in, v.right_in, full) in
    let t : leb q.right q.left ≡ true = ground arith in
    let z : (q.size == q.capacity) ≡ true = ground arith in
    let n : add_size q.left q.capacity ≡ q.left + q.capacity = omega (arith, v.left_in, f) in
    let s : take q.left (realloc q.items (q.capacity * 2)) ≡ take q.left q.items =
      take-realloc q.items q.left (q.capacity * 2) (omega (arith, v.left_in, v.slots))
        (omega (arith, v.left_in)) in
    rw (z, t, w.1, w.0, e, n, s)

expand-open : (q : Deque) → (q.size == q.capacity) ≡ false → expand_if_necessary q ≡ q
unfolding expand_if_necessary
expand-open q e = rw e refl

-- ExpandIfNecessary makes room and keeps the items.
pub expand_if_necessary-HasRoom :
    (q : Deque) → IsValid q → Fits q → HasRoom q (expand_if_necessary q)
expand_if_necessary-HasRoom q v f = elim (Bool-cases (q.size == q.capacity)) [
  | inr e ↦ rw (expand-open q e) (record {
    valid = v;
    room = ground (arith, v.within);
    same = refl;
    kept = refl;
    bound = omega arith;
    flag = refl;
  })
  | inl e ↦
      let full : q.size ≡ q.capacity = ground arith in
      let d = realloc q.items (q.capacity * 2) in
      let whole : contents q ≡ rotation q.items q.left =
        take-all (rotation q.items q.left) q.size (omega (arith, full, length-rotation q v)) in
      rw (expand-full q v f full) (record {
        valid = record {
          slots =
              length-copy_to (take q.left q.items) d q.capacity
              ∙ length-realloc q.items (q.capacity * 2);
          left_in = omega (arith, v.left_in);
          right_in = omega (arith, v.left_in);
          within = omega (arith, full);
          placed = inl (omega (arith, full));
        };
        room = omega (arith, full, v.left_in);
        same =
            ap (λ n. take n (rotation (copy_to d q.capacity (take q.left q.items)) q.left)) full
            ∙ rotation-unrolled q.items q.capacity q.left v.slots v.left_in
            ∙ sym whole;
        kept = refl;
        bound = omega (arith, full);
        flag = refl;
      })
]
