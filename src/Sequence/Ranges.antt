-- ===== src/Sequence/Ranges.antt =====
-- Copying, removing and splitting off ranges of a sequence.
use libntech.Prelude.{
  ℕ, ◌+◌, ◌-◌, ◌*◌, ◌≤◌, ◌<◌, ◌≡◌, refl, ap, sym, ◌∙◌, none, some, List, [], ◌++◌, append-nil,
  if◌then◌else◌, ltb, length, take, drop, arith, Ptr, copy_to, size_mod, take-all, drop-all,
  take-drop-take, drop-take, sub_size, length-copy_to, take-copy_to, ◌⊎◌, inl, inr, add_size,
  length-take, length-drop, take-take, Bool-cases,
}
use native.Mathlib.Decide.{dec_lt}
use libntech.Sequence.{
  Seq, new, slice, destroy_range, append_from, soft_remove_range, remove_range, get_range, split,
}
use libntech.Sequence.Growth.{
  contents, IsValid, new-IsValid, length-contents, slice-eq, append_from-Appended,
}

-- SeqGetRange returns NULL for a range that is empty or reaches past the sequence.
pub get_range-none :
    (s : Seq) (start end : ℕ) → (end < start) ⊎ (s.length ≤ end) → get_range s start end ≡ none
unfolding get_range
get_range-none s start end h = ground arith

-- SeqGetRange on a valid sequence of fewer than 2 ^ 58 items copies a range within it, both ends
-- included, into a new valid sequence.
pub get_range-some :
    (s : Seq) (start end : ℕ)
    → IsValid s
    → 64 * s.length < size_mod
    → start ≤ end
    → end < s.length
    → (t : Seq) × (get_range s start end ≡ some t)
      × IsValid t
      × (contents t ≡ take (end + 1 - start) (drop start (contents s)))
unfolding get_range
get_range-some s start end v h p q =
    let n = end + 1 - start in
    let u = new (end - start + 1) s.has_destroy in
    let e : u.capacity ≡ end - start + 1 = unfold new in ground arith in
    let l : u.length ≡ 0 = unfold new in refl in
    let b = new-IsValid (end - start + 1) s.has_destroy in
    let r = append_from-Appended n start u s.items b.0 (omega (arith, e)) (omega (arith, l)) in
    (
      append_from u s.items start n,
      ground arith,
      r.valid,
      r.holds
          ∙ ap (λ (c : List Ptr). c ++ slice s.items start n) b.1
          ∙ slice-eq n start s.items (omega (arith, v.slots, v.within))
          ∙ sym (take-drop-take s.items n start s.length (omega arith)),
    )

module _ (s : Seq) (start end : ℕ) (v : IsValid s) (h : s.capacity < size_mod) (p : start ≤ end)
    (q : end < s.length) where
  rest : List Ptr
  rest = take (s.length - end - 1) (drop (end + 1) s.items)

  length-rest : length rest ≡ s.length - end - 1
  unfolding rest
  length-rest = omega (
    arith,
    length-take (s.length - end - 1) (drop (end + 1) s.items),
    length-drop (end + 1) s.items,
    v.slots,
    v.within,
  )

  rest-drop : rest ≡ drop (end + 1) (contents s)
  unfolding rest
  rest-drop =
      sym (drop-take s.items (end + 1) s.length ∙ ap (λ k. take k (drop (end + 1) s.items)) sub)
    where
      sub : s.length - (end + 1) ≡ s.length - end - 1
      sub = omega arith

  rest_len : sub_size (sub_size s.length end) 1 ≡ s.length - end - 1
  rest_len = omega (arith, v.within)

  new_length : sub_size s.length (add_size (sub_size end start) 1) ≡ start + length rest
  new_length = omega (arith, length-rest, v.within)

  removed :
      soft_remove_range s start end
      ≡ record s { items = copy_to s.items start rest; length = start + length rest }
  unfolding soft_remove_range rest
  removed =
      rw (rest_len, new_length)
        (elim (Bool-cases (ltb 0 (s.length - end - 1))) [
          | inl more ↦ rw more
          | inr done ↦ let e : s.length - end - 1 ≡ 0 = ground arith in rw (done, e)
        ])

  -- SeqSoftRemoveRange on a valid sequence with a capacity below 2 ^ 64 drops the items of a range
  -- within it, both ends included, and keeps the invariant.
  pub soft_remove_range_lem :
      IsValid (soft_remove_range s start end)
      × (contents (soft_remove_range s start end)
          ≡ take start (contents s) ++ drop (end + 1) (contents s))
  soft_remove_range_lem = rw removed (
    record {
      slots = length-copy_to rest s.items start ∙ v.slots;
      positive = v.positive;
      within = omega (arith, length-rest, v.within);
    },
    take-copy_to rest s.items start (omega (arith, length-rest, v.slots, v.within))
        ∙ rw (take-take s.items start s.length (omega arith), ← rest-drop) refl,
  )

  -- SeqRemoveRange on a valid sequence with a capacity below 2 ^ 64 destroys the items of a range
  -- within it, both ends included, in order, if there is a destroy function, and nothing else.
  pub remove_range-gone :
      (remove_range s start end).1
      ≡ (if s.has_destroy then take (end + 1 - start) (drop start (contents s)) else [])
  unfolding remove_range destroy_range
  remove_range-gone = ground (
    arith,
    slice-eq (end + 1 - start) start s.items (omega (arith, v.slots, v.within)),
    take-drop-take s.items (end + 1 - start) start s.length,
  )

-- SeqSplit on a valid sequence whose capacity is below 2 ^ 58, at an index up to its length, keeps
-- the items before the index and returns those from it on; both sequences are valid.
pub split_lem :
    (s : Seq) (index : ℕ)
    → IsValid s
    → 64 * s.capacity < size_mod
    → index ≤ s.length
    → (t : Seq) × ((split s index).1 ≡ some t)
      × IsValid t
      × IsValid (split s index).0
      × (contents (split s index).0 ≡ take index (contents s))
      × (contents t ≡ drop index (contents s))
unfolding split
split_lem s index v h k = elim (dec_lt index s.length) [
  | no p ↦ (
    new 1 s.has_destroy,
    ground arith,
    (new-IsValid 1 s.has_destroy).0,
    ground arith,
    ground (arith, take-all (contents s) index, length-contents s v),
    (new-IsValid 1 s.has_destroy).1
        ∙ sym (drop-all (contents s) index (omega (arith, length-contents s v))),
  )
  | yes p ↦
      let r =
        get_range-some s index (s.length - 1) v (omega (arith, v.within)) (omega arith)
          (omega arith) in
      let q =
        soft_remove_range_lem s index (s.length - 1) v (omega arith) (omega arith) (omega arith) in
      (
        r.0,
        ground (arith, r.1),
        r.2,
        ground (arith, q.0),
        ground (
          arith,
          q.1,
          drop-all (contents s) (s.length - 1 + 1),
          append-nil (take index (contents s)),
          length-contents s v,
        ),
        r.3
            ∙ take-all (drop index (contents s)) (s.length - 1 + 1 - index)
                (omega (arith, length-drop index (contents s), length-contents s v)),
      )
]
