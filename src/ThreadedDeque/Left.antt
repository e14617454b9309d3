-- ===== src/ThreadedDeque/Left.antt =====
-- The left end of a threaded deque.
use libntech.Prelude.{
  ℕ, zero, suc, ◌+◌, ◌-◌, ◌*◌, ◌%◌, ◌≤◌, ◌<◌, ◌≡◌, refl, ap, ap₂, sym, ◌∙◌, ◌⊎◌, inl, inr, List, [],
  ◌∷◌, ◌++◌, append_assoc, append-nil, max, length, set, take, drop, arith, Ptr, null, read,
  size_mod, add_size, sub_size, length-set, length-append, length-take, length-drop, drop-get,
  drop-all, drop-set_lt, get_or-set_self, next_index_cases, take-append_le, take-front, take-all,
  take-set_ge, rotation, rotation-next, rotation-set,
}
use libntech.ThreadedDeque.{Deque, expand_if_necessary, before, push_left, take_left}
use libntech.ThreadedDeque.State.{
  contents, IsValid, Fits, length-contents, expand_if_necessary-HasRoom,
}

-- The slot before an index, and round.
pub before_cases :
    (i c : ℕ) → i < c → c < size_mod → (suc (before i c) ≡ i) ⊎ ((i ≡ 0) × (suc (before i c) ≡ c))
unfolding before
before_cases i c h k = ground arith

pub take-suc : (l : List Ptr) (n : ℕ) → n < length l → take (suc n) l ≡ take n l ++ read l n ∷ []
take-suc [] n h = absurd (omega arith)
take-suc (x ∷ l) zero h = refl
take-suc (x ∷ l) (suc n) h = ap (λ t. x ∷ t) (take-suc l n (omega (arith, h)))

-- An array seen from behind slot `e`, with `e` last.
rotation_before :
    (d : List Ptr) (i e c : ℕ)
    → length d ≡ c
    → e < c
    → (suc e ≡ i) ⊎ ((i ≡ 0) × (suc e ≡ c))
    → rotation d i ≡ (drop (suc e) d ++ take e d) ++ read d e ∷ []
rotation_before d i e c l h (inl p) = rw (← p) (
    ap (λ t. drop (suc e) d ++ t) (take-suc d e (omega (arith, l, h)))
    ∙ sym (append_assoc (drop (suc e) d) (take e d) (read d e ∷ [])))
rotation_before d i e c l h (inr (p, q)) = rw p (
    append-nil d
    ∙ sym (take-all d (suc e) (omega (arith, l, q)))
    ∙ take-suc d e (omega (arith, l, h))
    ∙ ap (λ t. (t ++ take e d) ++ read d e ∷ []) (sym (drop-all d (suc e) (omega (arith, l, q)))))

-- A write at slot `e`, seen from it.
rotation_written :
    (d : List Ptr) (e : ℕ) (x : Ptr)
    → e < length d
    → rotation (set d e x) e ≡ x ∷ (drop (suc e) d ++ take e d)
rotation_written d e x h =
    ap₂ ◌++◌
      (drop-get (set d e x) e null (omega (arith, length-set d e x, h))
        ∙ ap₂ ◌∷◌ (get_or-set_self d e x null h) (drop-set_lt d (suc e) e x (omega arith)))
      (take-set_ge d e e x (omega arith))

-- `r` is `q` with an item put before its own.
pub record PushedLeft (q : Deque) (x : Ptr) (r : Deque) : Type 0 where
  pub valid : IsValid r
  pub holds : contents r ≡ x ∷ contents q
  pub count : r.size ≡ q.size + 1
  pub bound : r.capacity ≤ max q.capacity (2 * r.size)
  pub flag : r.has_destroy ≡ q.has_destroy

pub push_left-PushedLeft :
    (q : Deque) (x : Ptr)
    → IsValid q
    → Fits q
    → PushedLeft q x (push_left q x).0 × ((push_left q x).1 ≡ length (contents q) + 1)
unfolding push_left
push_left-PushedLeft q x v f =
    let r = expand_if_necessary q in
    let h = expand_if_necessary-HasRoom q v f in
    let small : r.capacity < size_mod = omega (arith, h.bound, v.within, f) in
    let e = before r.left r.capacity in
    let b = before_cases r.left r.capacity h.valid.left_in small in
    let e_in : e < r.capacity = ground (arith, b, h.valid.left_in) in
    let n : add_size r.size 1 ≡ suc r.size = omega (arith, h.room, small) in
    let rest = drop (suc e) r.items ++ take e r.items in
    let long : r.size ≤ length rest = omega (
      arith,
      length-append (drop (suc e) r.items) (take e r.items),
      length-drop (suc e) r.items,
      length-take e r.items,
      h.valid.slots,
      e_in,
      h.room,
    ) in
    let old : contents r ≡ take r.size rest =
      ap (take r.size) (rotation_before r.items r.left e r.capacity h.valid.slots e_in b)
      ∙ take-append_le rest (read r.items e ∷ []) r.size long in
    (
      record {
        valid = record {
          slots = length-set r.items e x ∙ h.valid.slots;
          left_in = e_in;
          right_in = h.valid.right_in;
          within = omega (arith, n, h.room);
          placed = ground (arith, b, n, h.valid.placed, h.valid.left_in, h.valid.right_in, h.room);
        };
        holds =
            ap₂ take n (rotation_written r.items e x (omega (arith, e_in, h.valid.slots)))
            ∙ ap (λ t. x ∷ t) (sym old ∙ h.same);
        count = omega (arith, n, h.kept);
        bound = omega (arith, n, h.kept, h.bound);
        flag = h.flag;
      },
      omega (arith, n, h.kept, length-contents q v),
    )

-- The leftmost item, and the deque without it.
pub record TakenLeft (q : Deque) (p : Ptr × Deque) : Type 0 where
  pub valid : IsValid p.1
  pub holds : contents q ≡ p.0 ∷ contents p.1
  pub count : p.1.size + 1 ≡ q.size
  pub same : p.1.capacity ≡ q.capacity
  pub flag : p.1.has_destroy ≡ q.has_destroy

pub take_left-TakenLeft : (q : Deque) → IsValid q → Fits q → 0 < q.size → TakenLeft q (take_left q)
unfolding take_left
take_left-TakenLeft q v f h =
    let d = q.items in
    let e = q.left in
    let x = read d e in
    let d' = set d e null in
    let r1 = drop (suc e) d ++ take e d in
    let in_array : e < length d = omega (arith, v.slots, v.left_in) in
    let n : sub_size q.size 1 ≡ q.size - 1 = omega (arith, v.within, f, h) in
    let nx = next_index_cases e q.capacity v.left_in (omega (arith, f)) in
    let turned : rotation d' (add_size e 1 % q.capacity) ≡ r1 ++ null ∷ [] =
      rotation-next d' e q.capacity (length-set d e null ∙ v.slots) v.left_in (omega (arith, f))
      ∙ rotation-set d e null in_array
      ∙ ap (λ l. drop 1 (l ++ take e d) ++ null ∷ []) (drop-get d e null in_array) in
    let front : rotation d e ≡ x ∷ r1 = ap (λ l. l ++ take e d) (drop-get d e null in_array) in
    let room : q.size - 1 ≤ length r1 = omega (
      arith,
      length-append (drop (suc e) d) (take e d),
      length-drop (suc e) d,
      length-take e d,
      v.slots,
      v.left_in,
      v.within,
    ) in
    record {
      valid = record {
        slots = length-set d e null ∙ v.slots;
        left_in = ground (arith, nx, v.left_in);
        right_in = v.right_in;
        within = omega (arith, n, v.within);
        placed = ground (arith, nx, n, v.placed, v.within, v.left_in, v.right_in, h);
      };
      holds =
          ap (take q.size) front
          ∙ take-front q.size x r1 h
          ∙ ap (λ l. x ∷ l)
              (sym (take-append_le r1 (null ∷ []) (q.size - 1) room) ∙ sym (ap₂ take n turned));
      count = omega (arith, n, h);
      same = refl;
      flag = refl;
    }
