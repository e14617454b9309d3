-- ===== src/Sequence/Sort/Partition.antt =====
-- One partition of QuickSortRecursive: it ends, reads nothing outside the array, moves at least one
-- item to either side, and separates the items by the pivot.
use Prim.Native.Nat.{Ordering}
use libntech.Prelude.{
  ℕ, zero, suc, ◌+◌, ◌-◌, ◌≤◌, ◌<◌, ◌≡◌, refl, sym, ◌∙◌, true, false, inl, inr, some, List, ◌==◌,
  ltb, subst, length, get_elem?, set, arith, length-set, Bool-cases,
}
use libntech.Sequence.Sort.{scan_up, scan_down, exchange, partition}
use libntech.Sequence.Sort.Exchange.{
  IsRearranged, get_elem?-some, get_elem?-length, swap-IsRearranged, swapped_j, swapped_i,
  swapped_else,
}
use libntech.Sequence.Sort.Scan.{
  IsLower, IsUpper, IsSplit, get_elem?-equal, scan_up-stops, scan_down-stops,
}

module _ {A : Type 0} (cmp : A → A → Ordering) (pivot : A) where
  -- What one turn of the outer loop makes of the bounds.
  record Turned (d e : List A) (l r l' r' : ℕ) : Type 0 where
    split : IsSplit cmp pivot e l' r'
    rearranged : IsRearranged e d
    same_length : length e ≡ length d
    up : l ≤ l'
    down : r' ≤ r
    closer : r' - l' < r - l

  exchange-Turned :
      (d : List A) (l r i j : ℕ) (x y : A)
      → IsSplit cmp pivot d l r
      → l < r
      → l ≤ i
      → j < r
      → get_elem? d i ≡ some x
      → IsUpper cmp pivot x
      → ((m : ℕ) (z : A) → l ≤ m → m < i → get_elem? d m ≡ some z → IsLower cmp pivot z)
      → get_elem? d j ≡ some y
      → IsLower cmp pivot y
      → ((m : ℕ) (z : A) → j < m → m < r → get_elem? d m ≡ some z → IsUpper cmp pivot z)
      → (e : List A) × (l' r' : ℕ) × (exchange d i (suc j) ≡ some (e, l', r'))
        × Turned d e l r l' r'
        × (i ≤ j → (1 ≤ l') × (r' < r))
  unfolding exchange
  exchange-Turned d l r i j x y s h a c at_i upper low at_j lower up =
      elim (Bool-cases (ltb i (suc j))) [
        | inr p ↦ (
          d,
          i,
          suc j,
          rw p refl,
          record {
            split = record {
              below = λ m z q g. elim (Bool-cases (ltb m l)) [
                | inl v ↦ s.below m z (ground arith) g
                | inr v ↦ low m z (ground arith) q g
              ];
              above = λ m z q g. elim (Bool-cases (ltb m r)) [
                | inl v ↦ up m z (omega (arith, q)) (ground arith) g
                | inr v ↦ s.above m z (ground arith) g
              ];
            };
            rearranged = λ f. refl;
            same_length = refl;
            up = a;
            down = omega (arith, c);
            closer = ground arith;
          },
          λ q. ground arith,
        )
        | inl p ↦
            let e = set (set d i y) j x in
            let last : suc j - 1 ≡ j = omega arith in
            (
              e,
              i + 1,
              j,
              rw p (rw last (rw at_i (rw at_j refl))),
              record {
                split = record {
                  below = λ m z q g. elim (Bool-cases (m == i)) [
                    | inl v ↦
                        subst (IsLower cmp pivot)
                          (get_elem?-equal e i m (ground arith) (swapped_i d i j at_i at_j) g) lower
                    | inr v ↦
                        let old : get_elem? d m ≡ some z =
                          sym (swapped_else d i j at_i at_j m (ground arith) (ground arith)) ∙ g in
                        elim (Bool-cases (ltb m l)) [
                          | inl w ↦ s.below m z (ground arith) old
                          | inr w ↦ low m z (ground arith) (ground arith) old
                        ]
                  ];
                  above = λ m z q g. elim (Bool-cases (m == j)) [
                    | inl v ↦
                        subst (IsUpper cmp pivot)
                          (get_elem?-equal e j m (ground arith) (swapped_j d i j at_i at_j) g) upper
                    | inr v ↦
                        let old : get_elem? d m ≡ some z =
                          sym (swapped_else d i j at_i at_j m (ground arith) (ground arith)) ∙ g in
                        elim (Bool-cases (ltb m r)) [
                          | inl w ↦ up m z (ground arith) (ground arith) old
                          | inr w ↦ s.above m z (ground arith) old
                        ]
                  ];
                };
                rearranged = swap-IsRearranged d i j at_i at_j;
                same_length = length-set (set d i y) j x ∙ length-set d i y;
                up = omega (arith, a);
                down = omega (arith, c);
                closer = omega (arith, h, a, c);
              },
              λ q. (omega arith, c),
            )
      ]

  partition-turn :
      (n : ℕ) (d : List A) (l r i j : ℕ) (s : List A × ℕ × ℕ)
      → l < r
      → scan_up cmp (suc (length d)) d pivot l ≡ some i
      → scan_down cmp d pivot r ≡ some j
      → exchange d i j ≡ some s
      → partition cmp (suc n) d pivot l r ≡ partition cmp n s.0 pivot s.1 s.2
  unfolding partition
  partition-turn n d l r i j s h u v w =
      let p : ltb l r ≡ true = ground arith in rw (partition, p, u, v, w) refl

  -- One turn, given an item at which each scan stops.
  turn :
      (d : List A) (l r k m : ℕ) (u v : A)
      → IsSplit cmp pivot d l r
      → l < r
      → r ≤ length d
      → get_elem? d k ≡ some u
      → IsUpper cmp pivot u
      → l ≤ k
      → get_elem? d m ≡ some v
      → IsLower cmp pivot v
      → m < r
      → (e : List A) × (l' r' : ℕ) × ((n : ℕ)
          → partition cmp (suc n) d pivot l r ≡ partition cmp n e pivot l' r')
        × Turned d e l r l' r'
        × (k ≤ m → (1 ≤ l') × (r' < r))
  turn d l r k m u v s h b at_k upper p at_m lower q =
      let (i, x, up_ends, a, c, at_i, upper', low) =
        scan_up-stops cmp pivot (suc (length d)) d l k u at_k upper p
          (omega (arith, get_elem?-length d k at_k)) in
      let (j, y, down_ends, e, f, at_j, lower', up) =
        scan_down-stops cmp pivot d r m v at_m lower q b in
      let (t, l', r', ends, turned, far) =
        exchange-Turned d l r i j x y s h a f at_i upper' low at_j lower' up in
      (
        t,
        l',
        r',
        λ n. partition-turn n d l r i (suc j) (t, l', r') h up_ends down_ends ends,
        turned,
        λ z. far (omega arith),
      )

  -- What a partition makes of the items, with `l` and `r` where it ends.
  pub record Partitioned (d e : List A) (l r : ℕ) : Type 0 where
    pub split : IsSplit cmp pivot e l r
    pub rearranged : IsRearranged e d
    pub same_length : length e ≡ length d
    pub crossed : r ≤ l
    pub left : 1 ≤ l
    pub right : r < length d

  -- A turn before a partition.
  Turned-Partitioned :
      (d e f : List A) (l r l' r' m k : ℕ)
      → Turned d e l r l' r'
      → Partitioned e f m k
      → Partitioned d f m k
  Turned-Partitioned d e f l r l' r' m k t q = record {
    split = q.split;
    rearranged = λ g. q.rearranged g ∙ t.rearranged g;
    same_length = q.same_length ∙ t.same_length;
    crossed = q.crossed;
    left = q.left;
    right = omega (arith, q.right, t.same_length);
  }

  partition_end :
      (n : ℕ) (d : List A) (l r : ℕ) → r ≤ l → partition cmp (suc n) d pivot l r ≡ some (d, l, r)
  unfolding partition
  partition_end n d l r h = let p : ltb l r ≡ false = ground arith in rw (partition, p) refl

  -- Once an item has moved to either side, these stop the scans.
  partition_rest :
      (n : ℕ) (d : List A) (l r : ℕ)
      → IsSplit cmp pivot d l r
      → 1 ≤ l
      → r < length d
      → r - l < n
      → (e : List A) × (l' r' : ℕ) × (partition cmp n d pivot l r ≡ some (e, l', r'))
        × Partitioned d e l' r'
  partition_rest zero d l r s a b h = absurd (omega arith)
  partition_rest (suc n) d l r s a b h = elim (Bool-cases (ltb l r)) [
    | inr p ↦ (
      d,
      l,
      r,
      partition_end n d l r (ground arith),
      record {
        split = s;
        rearranged = λ f. refl;
        same_length = refl;
        crossed = ground arith;
        left = a;
        right = b;
      },
    )
    | inl p ↦
        let (u, at_r) = get_elem?-some d r b in
        let (v, at_l) = get_elem?-some d (l - 1) (ground arith) in
        let (e, l', r', next, t, _) =
          turn d l r r (l - 1) u v s (ground arith) (omega arith) at_r
            (s.above r u (omega arith) at_r) (ground arith) at_l
            (s.below (l - 1) v (omega (arith, a)) at_l) (ground arith) in
        let (e', m, k, ends, q) =
          partition_rest n e l' r' t.split (omega (arith, a, t.up))
            (omega (arith, b, t.down, t.same_length)) (omega (arith, h, t.closer)) in
        (e', m, k, next n ∙ ends, Turned-Partitioned d e e' l r l' r' m k t q)
  ]

  -- From the whole array, the pivot itself stops the scans.
  pub partition-Partitioned :
      (d : List A) (k : ℕ)
      → get_elem? d k ≡ some pivot
      → cmp pivot pivot ≡ Ordering.eq
      → (e : List A) × (l r : ℕ) × (partition cmp (suc (length d)) d pivot 0 (length d)
          ≡ some (e, l, r))
        × Partitioned d e l r
  partition-Partitioned d k g o =
      let here = get_elem?-length d k g in
      let s : IsSplit cmp pivot d 0 (length d) = record {
        below = λ i x h. absurd (omega arith);
        above = λ i x h q. absurd (omega (arith, h, get_elem?-length d i q));
      } in
      let (e, l, r, next, t, far) =
        turn d 0 (length d) k k pivot pivot s (omega (arith, here)) (omega arith) g
          (λ e. ground arith) (omega arith) g (λ e. ground arith) here in
      let (l_pos, r_less) = far (omega arith) in
      let (e', m, j, ends, q) =
        partition_rest (length d) e l r t.split l_pos (omega (arith, r_less, t.same_length))
          (omega (arith, t.closer)) in
      (e', m, j, next (length d) ∙ ends, Turned-Partitioned d e e' 0 (length d) l r m j t q)
