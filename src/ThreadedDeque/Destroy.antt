-- ===== src/ThreadedDeque/Destroy.antt =====
-- DestroyRange and ThreadedDequeDestroy: the loop ends, and destroys what the deque holds.
use libntech.Prelude.{
  ℕ, zero, suc, ◌+◌, ◌-◌, ◌%◌, ◌≤◌, ◌<◌, ◌≡◌, ap, sym, ◌∙◌, ◌⊎◌, inl, inr, true, false, Option,
  none, some, List, [], ◌∷◌, ◌++◌, ◌==◌, ltb, ◌||◌, ◌&&◌, not, if◌then◌else◌, length, take, drop,
  arith, Ptr, null, read, size_mod, add_size, length-append, length-drop, length-take, drop-get,
  take-append_le, append_assoc, next_index_cases, rotation, rotation-next, Bool-cases,
}
use libntech.ThreadedDeque.{Deque}
use libntech.ThreadedDeque.State.{contents, IsValid}
use libntech.ThreadedDeque.Left.{take-suc}

-- The loop of DestroyRange from slot `i` on: what it reads, in order. `none` is a loop that has run
-- out of fuel.
unfoldable pub destroy_loop : ℕ → ℕ → ℕ → ℕ → List Ptr → Option (List Ptr)
destroy_loop zero i end cap d = none
destroy_loop (suc fuel) i end cap d =
    let j = add_size i 1 % cap in
    let more = destroy_loop fuel j end cap d in
    if j == end
    then some (read d i ∷ [])
    else elim more [ none ↦ none | some xs ↦ some (read d i ∷ xs) ]

-- DestroyRange: what it destroys, in order.
unfoldable pub destroy_range : ℕ → Deque → ℕ → ℕ → Option (List Ptr)
unfolding destroy_loop
destroy_range fuel q start end =
    if ltb q.capacity start || ltb q.capacity end || not (q.has_destroy && ltb 0 q.size)
    then some []
    else destroy_loop fuel start end q.capacity q.items

-- ThreadedDequeDestroy of a deque that is not NULL.
unfoldable pub destroy : ℕ → Deque → Option (List Ptr)
unfolding destroy_range
destroy fuel q = destroy_range fuel q q.left q.right

module _ (d : List Ptr) (cap : ℕ) (slots : length d ≡ cap) (small : cap < size_mod) where
  -- The items from a slot on are that slot's, and those from the next one on.
  take-rotation :
      (n i : ℕ)
      → i < cap
      → n < cap
      → take (suc n) (rotation d i) ≡ read d i ∷ take n (rotation d (add_size i 1 % cap))
  take-rotation n i h k =
      let rest = drop (suc i) d ++ take i d in
      let long : n ≤ length rest = omega (
        arith,
        length-append (drop (suc i) d) (take i d),
        length-drop (suc i) d,
        length-take i d,
        slots,
      ) in
      let next : rotation d (add_size i 1 % cap) ≡ rest ++ read d i ∷ [] =
        rotation-next d i cap slots h small
        ∙ ap (λ t. drop (suc i) d ++ t) (take-suc d i (omega (arith, slots)))
        ∙ sym (append_assoc (drop (suc i) d) (take i d) (read d i ∷ [])) in
      ap (λ l. take (suc n) (l ++ take i d)) (drop-get d i null (omega (arith, slots)))
      ∙ ap (λ l. read d i ∷ l)
          (sym (take-append_le rest (read d i ∷ []) n long) ∙ sym (ap (take n) next))

  destroy_loop_lem :
      (fuel n i end : ℕ)
      → i < cap
      → end < cap
      → n < cap
      → (i + suc n ≡ end) ⊎ (i + suc n ≡ end + cap)
      → n < fuel
      → destroy_loop fuel i end cap d ≡ some (take (suc n) (rotation d i))
  unfolding destroy_loop
  destroy_loop_lem zero n i end h e k p f = absurd (omega arith)
  destroy_loop_lem (suc fuel) zero i end h e k p f =
      let nx = next_index_cases i cap h small in
      let t : (add_size i 1 % cap == end) ≡ true = ground (arith, nx) in
      rw (t, take-rotation zero i h k)
  destroy_loop_lem (suc fuel) (suc n) i end h e k p f =
      let nx = next_index_cases i cap h small in
      let t : (add_size i 1 % cap == end) ≡ false = ground (arith, nx) in
      let inside : add_size i 1 % cap < cap = ground (arith, nx) in
      let on : (add_size i 1 % cap + suc n ≡ end) ⊎ (add_size i 1 % cap + suc n ≡ end + cap) =
        ground (arith, nx) in
      rw (
        t,
        destroy_loop_lem fuel n (add_size i 1 % cap) end inside e (omega arith) on (omega arith),
        take-rotation (suc n) i h k,
      )

-- ThreadedDequeDestroy on a valid deque, with a capacity below 2 ^ 64 and fuel for its items, ends,
-- and destroys what the deque holds, from left to right, if there is a destroy function.
pub destroy-contents :
    (fuel : ℕ) (q : Deque)
    → IsValid q
    → q.capacity < size_mod
    → q.size ≤ fuel
    → destroy fuel q ≡ some (if q.has_destroy then contents q else [])
unfolding destroy
destroy-contents fuel q v s f =
    let a : ltb q.capacity q.left ≡ false = ground (arith, v.left_in) in
    let b : ltb q.capacity q.right ≡ false = ground (arith, v.right_in) in
    elim (Bool-cases q.has_destroy) [
      | inr p ↦ rw (a, b, p)
      | inl p ↦ elim (Bool-cases (ltb 0 q.size)) [
        | inr z ↦
            let e : q.size ≡ 0 = ground arith in
            let none_in : contents q ≡ [] = ap (λ n. take n (rotation q.items q.left)) e in
            rw (a, b, p, z, none_in)
        | inl z ↦
            let n : suc (q.size - 1) ≡ q.size = ground arith in
            rw (
              a,
              b,
              p,
              z,
              destroy_loop_lem q.items q.capacity v.slots s fuel (q.size - 1) q.left q.right
                  v.left_in v.right_in (omega (arith, v.within, n)) (ground (arith, n, v.placed))
                  (omega (arith, n)),
              n,
            )
      ]
    ]
