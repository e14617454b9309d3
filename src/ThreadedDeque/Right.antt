-- ===== src/ThreadedDeque/Right.antt =====
-- The right end of a threaded deque.
use libntech.Prelude.{
  ℕ, zero, suc, ◌+◌, ◌-◌, ◌*◌, ◌≤◌, ◌<◌, ◌≡◌, refl, ap, ap₂, sym, ◌∙◌, ◌⊎◌, List, [], ◌∷◌, ◌++◌,
  max, length, set, take, arith, Ptr, null, read, size_mod, add_size, sub_size, length-set,
  next_index_cases, take-set_next, take-set_ge, get_or-set_self, rotation, rotation-set_at,
}
use libntech.ThreadedDeque.{Deque, expand_if_necessary, before, push_right, take_right}
use libntech.ThreadedDeque.State.{
  contents, IsValid, Fits, length-rotation, length-contents, expand_if_necessary-HasRoom,
}
use libntech.ThreadedDeque.Left.{before_cases, take-suc}

-- `r` is `q` with an item put behind its own.
pub record PushedRight (q : Deque) (x : Ptr) (r : Deque) : Type 0 where
  pub valid : IsValid r
  pub holds : contents r ≡ contents q ++ x ∷ []
  pub count : r.size ≡ q.size + 1
  pub bound : r.capacity ≤ max q.capacity (2 * r.size)
  pub flag : r.has_destroy ≡ q.has_destroy

pub push_right-PushedRight :
    (q : Deque) (x : Ptr)
    → IsValid q
    → Fits q
    → PushedRight q x (push_right q x).0 × ((push_right q x).1 ≡ length (contents q) + 1)
unfolding push_right
push_right-PushedRight q x v f =
    let r = expand_if_necessary q in
    let h = expand_if_necessary-HasRoom q v f in
    let w = h.valid in
    let small : r.capacity < size_mod = omega (arith, h.bound, v.within, f) in
    let nx = next_index_cases r.right r.capacity w.right_in small in
    let n : add_size r.size 1 ≡ suc r.size = omega (arith, h.room, small) in
    let written =
      rotation-set_at r.items r.capacity r.left r.size r.right x w.slots w.left_in h.room w.placed
        w.right_in in
    (
      record {
        valid = record {
          slots = length-set r.items r.right x ∙ w.slots;
          left_in = w.left_in;
          right_in = ground (arith, nx, w.right_in);
          within = omega (arith, n, h.room);
          placed = ground (arith, nx, n, w.placed, w.left_in, w.right_in, h.room);
        };
        holds =
            ap₂ take n written
            ∙ take-set_next (rotation r.items r.left) r.size x
                (omega (arith, length-rotation r w, h.room))
            ∙ ap (λ l. l ++ x ∷ []) h.same;
        count = omega (arith, n, h.kept);
        bound = omega (arith, n, h.kept, h.bound);
        flag = h.flag;
      },
      omega (arith, n, h.kept, length-contents q v),
    )

-- The rightmost item, and the deque without it.
pub record TakenRight (q : Deque) (p : Ptr × Deque) : Type 0 where
  pub valid : IsValid p.1
  pub holds : contents q ≡ contents p.1 ++ p.0 ∷ []
  pub count : p.1.size + 1 ≡ q.size
  pub same : p.1.capacity ≡ q.capacity
  pub flag : p.1.has_destroy ≡ q.has_destroy

set-read : (d : List Ptr) (i : ℕ) → set d i (read d i) ≡ d
set-read [] i = refl
set-read (x ∷ d) zero = refl
set-read (x ∷ d) (suc i) = ap (λ l. x ∷ l) (set-read d i)

pub take_right-TakenRight :
    (q : Deque) → IsValid q → Fits q → 0 < q.size → TakenRight q (take_right q)
unfolding take_right
take_right-TakenRight q v f h =
    let d = q.items in
    let e = before q.right q.capacity in
    let x = read d e in
    let b = before_cases q.right q.capacity v.right_in (omega (arith, f)) in
    let e_in : e < q.capacity = ground (arith, b, v.right_in) in
    let n : sub_size q.size 1 ≡ q.size - 1 = omega (arith, v.within, f, h) in
    let m = q.size - 1 in
    let at : (q.left + m ≡ e) ⊎ (q.left + m ≡ e + q.capacity) =
      ground (arith, b, v.placed, v.left_in, v.right_in, v.within, h) in
    let written = λ (y : Ptr).
      rotation-set_at d q.capacity q.left m e y v.slots v.left_in (omega (arith, v.within, h)) at
        e_in in
    let long : m < length (rotation d q.left) = omega (arith, length-rotation q v, v.within, h) in
    let item : read (rotation d q.left) m ≡ x =
      ap (λ l. read l m) (sym (ap (λ t. rotation t q.left) (set-read d e)) ∙ written x)
      ∙ get_or-set_self (rotation d q.left) m x null long in
    let s : suc m ≡ q.size = omega (arith, h) in
    record {
      valid = record {
        slots = length-set d e null ∙ v.slots;
        left_in = v.left_in;
        right_in = e_in;
        within = omega (arith, n, v.within);
        placed = ground (arith, at, n);
      };
      holds =
          ap (λ k. take k (rotation d q.left)) (sym s)
          ∙ take-suc (rotation d q.left) m long
          ∙ ap₂ (λ l y. l ++ y ∷ [])
              (sym (take-set_ge (rotation d q.left) m m null (omega arith))
                ∙ sym (ap₂ take n (written null)))
              item;
      count = omega (arith, n, h);
      same = refl;
      flag = refl;
    }
