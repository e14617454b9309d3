-- ===== src/Sequence/Filter.antt =====
-- SeqFilter and SeqRemoveNulls: compaction in place.
use libntech.Prelude.{
  ap₂, subst, ℕ, zero, suc, ◌+◌, ◌^◌, ◌≤◌, ◌<◌, ◌≡◌, refl, sym, ◌∙◌, Bool, true, false, Option,
  none, some, List, [], ◌∷◌, ◌++◌, if◌then◌else◌, ◌==◌, arith, Ptr, null, read, length, take, drop,
  set, length-set, take-set_next, drop-set_lt, drop-get, append_assoc, append-nil, Bool-cases, inl,
  inr, ◌≢◌, int_rounds,
}
use native.Mathlib.Numerals.{add-one}
use libntech.Sequence.{Seq}
use libntech.Sequence.Growth.{contents, IsValid, length-contents}

module _ (f : Ptr → Bool) (has_destroy : Bool) where
  -- The loop of SeqFilter with `n` rounds left: the array, `to`, and what is destroyed. `none` is a
  -- call of a destroy function that is NULL.
  filter_loop : ℕ → ℕ → ℕ → List Ptr → Option (List Ptr × ℕ × List Ptr)
  filter_loop zero from to d = some (d, to, [])
  filter_loop (suc n) from to d =
      let x = read d from in
      let skipped = filter_loop n (from + 1) to d in
      let kept = filter_loop n (from + 1) (to + 1) (set d to x) in
      if f x
      then (if has_destroy
          then elim skipped [ none ↦ none | some (d', t, gone) ↦ some (d', t, x ∷ gone) ]
          else none)
      else kept

pub filter : Seq → (Ptr → Bool) → Option (Seq × List Ptr)
unfolding filter_loop
filter s f = elim (filter_loop f s.has_destroy (int_rounds s.length) 0 0 s.items) [
  | none ↦ none
  | some (d, to, gone) ↦ some (record s { items = d; length = to }, gone)
]

pub remove_nulls : Seq → Option (Seq × List Ptr)
unfolding filter
remove_nulls s = filter s (λ x. x == null)

-- The items that pass the filter, and those that do not.
abbrev pub passing : (Ptr → Bool) → List Ptr → List Ptr
passing f [] = []
passing f (x ∷ xs) = if f x then x ∷ passing f xs else passing f xs

abbrev pub failing : (Ptr → Bool) → List Ptr → List Ptr
failing f [] = []
failing f (x ∷ xs) = if f x then failing f xs else x ∷ failing f xs

module _ (f : Ptr → Bool) where
  record Filtered (to : ℕ) (d xs : List Ptr) (r : List Ptr × ℕ × List Ptr) : Type 0 where
    holds : take r.1 r.0 ≡ take to d ++ failing f xs
    count : r.1 ≡ to + length (failing f xs)
    gone : r.2 ≡ passing f xs
    slots : length r.0 ≡ length d

  Filtered-keep :
      (to : ℕ) (d : List Ptr) (x : Ptr) (xs : List Ptr) (r : List Ptr × ℕ × List Ptr)
      → f x ≡ false
      → to < length d
      → Filtered (to + 1) (set d to x) xs r
      → Filtered to d (x ∷ xs) r
  Filtered-keep to d x xs r e h t = record {
    holds =
        t.holds
        ∙ rw (add-one, take-set_next d to x h, e)
            (append_assoc (take to d) (x ∷ []) (failing f xs));
    count = rw e (omega (arith, t.count));
    gone = rw e t.gone;
    slots = t.slots ∙ length-set d to x;
  }

  filter_loop-Filtered :
      (n from to : ℕ) (d : List Ptr)
      → to ≤ from
      → from + n ≤ length d
      → (r : List Ptr × ℕ × List Ptr) × (filter_loop f true n from to d ≡ some r)
        × Filtered to d (take n (drop from d)) r
  unfolding filter_loop
  filter_loop-Filtered zero from to d p q = (
    (d, to, []),
    refl,
    record { holds = sym (append-nil (take to d)); count = omega arith; gone = refl; slots = refl },
  )
  filter_loop-Filtered (suc n) from to d p q =
      let x = read d from in
      let xs = take n (drop (suc from) d) in
      let here : take (suc n) (drop from d) ≡ x ∷ xs = rw (drop-get d from null (omega arith)) in
      elim (Bool-cases (f x)) [
        | inl e ↦
            let (r, run, t) = filter_loop-Filtered n (from + 1) to d (omega arith) (omega arith) in
            let j = add-one from in
            ((r.0, r.1, x ∷ r.2), ground (arith, run, e), rw here (ground (arith, t, j)))
        | inr e ↦
            let d' = set d to x in
            let (r, run, t) =
              filter_loop-Filtered n (from + 1) (to + 1) d' (omega arith)
                (omega (arith, length-set d to x)) in
            (
              r,
              ground (arith, run, e),
              rw here (Filtered-keep to d x xs r e (omega arith) (again t)),
            )
      ]
    where
      again :
          {r : List Ptr × ℕ × List Ptr}
          → Filtered
              (to + 1)
              (set d to (read d from))
              (take n (drop (from + 1) (set d to (read d from))))
              r
          → Filtered (to + 1) (set d to (read d from)) (take n (drop (suc from) d)) r
      again {r} t =
          subst (λ l. Filtered (to + 1) (set d to (read d from)) (take n l) r)
            (rw add-one (drop-set_lt d (suc from) to (read d from) (omega arith))) t

length-failing : (f : Ptr → Bool) (xs : List Ptr) → length (failing f xs) ≤ length xs
length-failing f [] = omega arith
length-failing f (x ∷ xs) = ground (arith, length-failing f xs)

filter_loop_faults :
    (f : Ptr → Bool) (n from to : ℕ) (d : List Ptr)
    → to ≤ from
    → from + n ≤ length d
    → passing f (take n (drop from d)) ≢ []
    → filter_loop f false n from to d ≡ none
unfolding filter_loop
filter_loop_faults f zero from to d p q h = absurd (h refl)
filter_loop_faults f (suc n) from to d p q h =
    let x = read d from in
    let here : take (suc n) (drop from d) ≡ x ∷ take n (drop (suc from) d) =
      rw (drop-get d from null (omega arith)) in
    elim (Bool-cases (f x)) [
      | inl e ↦ rw e
      | inr e ↦ rw e (
          filter_loop_faults f n (from + 1) (to + 1) (set d to x) (omega arith)
            (omega (arith, length-set d to x))
            (rw (add-one, drop-set_lt d (suc from) to x (omega arith)) (λ k. h (rw (here, e) k))))
    ]

-- SeqFilter, on a valid sequence with a destroy function and fewer than 2 ^ 31 items, ends with the
-- items that the filter function refuses, in order, destroys those that it takes, and keeps the
-- invariant.
pub filter_lem :
    (s : Seq) (f : Ptr → Bool)
    → IsValid s
    → s.length < 2 ^ 31
    → s.has_destroy ≡ true
    → (t : Seq) × (filter s f ≡ some (t, passing f (contents s)))
      × (contents t ≡ failing f (contents s))
      × IsValid t
unfolding filter
filter_lem s f v h y =
    let n : int_rounds s.length ≡ s.length = ground arith in
    let (r, run, t) =
      filter_loop-Filtered f s.length 0 0 s.items (omega arith)
        (omega (arith, v.slots, v.within)) in
    (
      record s { items = r.0; length = r.1 },
      ground (arith, ap₂ (λ b m. filter_loop f b m 0 0 s.items) y n, run, t.gone),
      t.holds,
      record {
        slots = t.slots ∙ v.slots;
        positive = v.positive;
        within =
            omega (arith, t.count, length-failing f (contents s), length-contents s v, v.within);
      },
    )

-- On a valid sequence without a destroy function and with fewer than 2 ^ 31 items, SeqFilter calls
-- through a NULL pointer if the filter function takes an item.
pub filter_faults :
    (s : Seq) (f : Ptr → Bool)
    → IsValid s
    → s.length < 2 ^ 31
    → s.has_destroy ≡ false
    → passing f (contents s) ≢ []
    → filter s f ≡ none
unfolding filter
filter_faults s f v h y some_pass =
    let n : int_rounds s.length ≡ s.length = ground arith in
    ground (
      arith,
      ap₂ (λ b m. filter_loop f b m 0 0 s.items) y n,
      filter_loop_faults f s.length 0 0 s.items (omega arith) (omega (arith, v.slots, v.within))
          some_pass,
    )
