-- ===== src/ThreadedDeque/Many.antt =====
-- Taking many items from either end of a threaded deque.
use mathlib.Core.List.{reverse, reverse-cons}
use libntech.Prelude.{
  ℕ, zero, suc, ◌+◌, ◌≤◌, ◌≡◌, refl, ap, sym, ◌∙◌, [], ◌∷◌, ◌++◌, append_assoc, append-nil, length,
  min, arith,
}
use libntech.ThreadedDeque.{
  Deque, take_left, take_right, take_lefts, take_rights, pop_left_n_now, pop_right_n_now,
}
use libntech.ThreadedDeque.State.{contents, IsValid, Fits}
use libntech.ThreadedDeque.Left.{take_left-TakenLeft}
use libntech.ThreadedDeque.Right.{take_right-TakenRight}

-- `r` is `q` without `n` items.
pub record Reduced (q : Deque) (n : ℕ) (r : Deque) : Type 0 where
  pub valid : IsValid r
  pub count : r.size + n ≡ q.size
  pub same : r.capacity ≡ q.capacity
  pub flag : r.has_destroy ≡ q.has_destroy

take_lefts-Reduced :
    (n : ℕ) (q : Deque)
    → IsValid q
    → Fits q
    → n ≤ q.size
    → Reduced q n (take_lefts n q).1
      × (contents q ≡ (take_lefts n q).0 ++ contents (take_lefts n q).1)
      × (length (take_lefts n q).0 ≡ n)
unfolding take_lefts
take_lefts-Reduced zero q v f h =
    (record { valid = v; count = omega arith; same = refl; flag = refl }, refl, refl)
take_lefts-Reduced (suc n) q v f h =
    let t = take_left-TakenLeft q v f (omega arith) in
    let (x, r) = take_left q in
    let (s, holds, long) =
      take_lefts-Reduced n (take_left q).1 t.valid (omega (arith, f, t.same))
        (omega (arith, h, t.count)) in
    (
      record {
        valid = s.valid;
        count = omega (arith, s.count, t.count);
        same = s.same ∙ t.same;
        flag = s.flag ∙ t.flag;
      },
      t.holds ∙ ap (λ l. (take_left q).0 ∷ l) holds,
      omega (arith, long),
    )

take_rights-Reduced :
    (n : ℕ) (q : Deque)
    → IsValid q
    → Fits q
    → n ≤ q.size
    → Reduced q n (take_rights n q).1
      × (contents q ≡ contents (take_rights n q).1 ++ reverse (take_rights n q).0)
      × (length (take_rights n q).0 ≡ n)
unfolding take_rights
take_rights-Reduced zero q v f h = (
  record { valid = v; count = omega arith; same = refl; flag = refl },
  sym (append-nil (contents q)),
  refl,
)
take_rights-Reduced (suc n) q v f h =
    let t = take_right-TakenRight q v f (omega arith) in
    let p = take_right q in
    let (s, holds, long) =
      take_rights-Reduced n p.1 t.valid (omega (arith, f, t.same)) (omega (arith, h, t.count)) in
    let xs = (take_rights n p.1).0 in
    (
      record {
        valid = s.valid;
        count = omega (arith, s.count, t.count);
        same = s.same ∙ t.same;
        flag = s.flag ∙ t.flag;
      },
      t.holds
          ∙ ap (λ l. l ++ p.0 ∷ []) holds
          ∙ append_assoc (contents (take_rights n p.1).1) (reverse xs) (p.0 ∷ [])
          ∙ ap (λ l. contents (take_rights n p.1).1 ++ l) (sym (reverse-cons p.0 xs)),
      omega (arith, long),
    )

-- ThreadedDequePopLeftN on a valid deque whose array fits into the address space takes the first
-- `num` items, or all if there are fewer, from left to right, and keeps the invariant, the capacity
-- and the destroy function.
pub pop_left_n_now-Reduced :
    (q : Deque) (num : ℕ)
    → IsValid q
    → Fits q
    → Reduced q (min num q.size) (pop_left_n_now q num).1
      × (contents q ≡ (pop_left_n_now q num).0 ++ contents (pop_left_n_now q num).1)
      × (length (pop_left_n_now q num).0 ≡ min num q.size)
unfolding pop_left_n_now
pop_left_n_now-Reduced q num v f = take_lefts-Reduced (min num q.size) q v f (omega arith)

-- ThreadedDequePopRightN on a valid deque whose array fits into the address space takes the last
-- `num` items, or all if there are fewer, from right to left, and keeps the invariant, the capacity
-- and the destroy function.
pub pop_right_n_now-Reduced :
    (q : Deque) (num : ℕ)
    → IsValid q
    → Fits q
    → Reduced q (min num q.size) (pop_right_n_now q num).1
      × (contents q ≡ contents (pop_right_n_now q num).1 ++ reverse (pop_right_n_now q num).0)
      × (length (pop_right_n_now q num).0 ≡ min num q.size)
unfolding pop_right_n_now
pop_right_n_now-Reduced q num v f = take_rights-Reduced (min num q.size) q v f (omega arith)
