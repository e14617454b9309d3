-- ===== src/Sequence/Search/Linear.antt =====
-- SeqIndexOf, SeqLookup and SeqAppendOnce: the first equal item.
use Prim.Native.Nat.{Ordering}
use libntech.Prelude.{
  ◌↔◌, subst, Option-cases, ℕ, zero, suc, ◌+◌, ◌≤◌, ◌<◌, ◌≡◌, ◌≢◌, refl, ap, sym, ◌∙◌, ◌⊎◌, inl,
  inr, true, false, Option, none, some, List, [], ◌∷◌, if◌then◌else◌, arith, Ptr, null, read,
  Bool-cases,
}
use native.Mathlib.Decide.{dec_lt}
use libntech.Sequence.{Seq, append}
use libntech.Sequence.Search.{
  Comparator, is_equal, index_from, index_of, lookup_from, lookup, append_once,
}

-- What the first search answers about `n` items from index `i` on.
abbrev pub First : Comparator → Ptr → List Ptr → ℕ → ℕ → Option ℕ → Type 0
First cmp key d i n none = (j : ℕ) → i ≤ j → j < i + n → cmp key (read d j) ≢ Ordering.eq
First cmp key d i n (some k) =
    (i ≤ k)
    × (k < i + n)
    × (cmp key (read d k) ≡ Ordering.eq)
    × ((j : ℕ) → i ≤ j → j < k → cmp key (read d j) ≢ Ordering.eq)

module _ (cmp : Comparator) (key : Ptr) (d : List Ptr) where
  is_equal_iff : (o : Ordering) → (is_equal o ≡ true) ↔ (o ≡ Ordering.eq)
  is_equal_iff o = ground arith

  First-skip :
      (i n : ℕ) (r : Option ℕ)
      → is_equal (cmp key (read d i)) ≡ false
      → First cmp key d (i + 1) n r
      → First cmp key d i (suc n) r
  First-skip i n none ne f = λ j p q e. elim (dec_lt i j) [
    | yes h ↦ f j (omega arith) (omega arith) e
    | no h ↦
        let same : j ≡ i = omega arith in
        let e' : cmp key (read d i) ≡ Ordering.eq = ap (λ t. cmp key (read d t)) (sym same) ∙ e in
        ground arith
  ]
  First-skip i n (some k) ne f = (
    omega (arith, f.0),
    omega (arith, f.1),
    f.2,
    λ j p q e. elim (dec_lt i j) [
      | yes h ↦ f.3 j (omega arith) q e
      | no h ↦
          let same : j ≡ i = omega arith in
          let e' : cmp key (read d i) ≡ Ordering.eq = ap (λ t. cmp key (read d t)) (sym same) ∙ e in
          ground arith
    ],
  )

  index_from-First : (n i : ℕ) → First cmp key d i n (index_from cmp key d i n)
  unfolding index_from
  index_from-First zero i = λ j p q. absurd (omega arith)
  index_from-First (suc n) i =
      let x = cmp key (read d i) in
      elim (Bool-cases (is_equal x)) [
        | inl e ↦
            rw e (omega arith, omega arith, (is_equal_iff x).0 e, λ j p q. absurd (omega arith))
        | inr ne ↦
            rw ne (First-skip i n (index_from cmp key d (i + 1) n) ne (index_from-First n (i + 1)))
      ]

  lookup_from-index_from :
      (n i : ℕ)
      → lookup_from cmp key d i n
        ≡ elim (index_from cmp key d i n) [ none ↦ null | some k ↦ read d k ]
  unfolding lookup_from index_from
  lookup_from-index_from zero i = refl
  lookup_from-index_from (suc n) i = ground (arith, lookup_from-index_from n (i + 1))

-- SeqIndexOf answers with the first index of an equal item, or with -1 if there is none.
pub index_of-First :
    (cmp : Comparator) (key : Ptr) (s : Seq) → First cmp key s.items 0 s.length (index_of cmp key s)
unfolding index_of
index_of-First cmp key s = index_from-First cmp key s.items s.length 0

-- SeqLookup returns the item at the index of SeqIndexOf, and NULL where that is -1.
pub lookup-index_of :
    (cmp : Comparator) (key : Ptr) (s : Seq)
    → lookup cmp key s ≡ elim (index_of cmp key s) [ none ↦ null | some k ↦ read s.items k ]
unfolding lookup index_of
lookup-index_of cmp key s = lookup_from-index_from cmp key s.items s.length 0

-- SeqAppendOnce appends an item that the sequence does not have, and otherwise leaves the sequence
-- as it is and destroys the item, if there is a destroy function; where no stored item is NULL.
pub append_once_lem :
    (cmp : Comparator) (s : Seq) (x : Ptr)
    → ((i : ℕ) → i < s.length → read s.items i ≢ null)
    → ((index_of cmp x s ≡ none) × (append_once cmp s x ≡ (append s x, [])))
      ⊎ ((k : ℕ) × (index_of cmp x s ≡ some k)
          × (append_once cmp s x ≡ (s, (if s.has_destroy then x ∷ [] else []))))
unfolding append_once
append_once_lem cmp s x h = elim (Option-cases (index_of cmp x s)) [
  | inl e ↦ inl (e, ground (arith, lookup-index_of cmp x s, e))
  | inr (k, e) ↦
      let f : First cmp x s.items 0 s.length (some k) =
        subst (First cmp x s.items 0 s.length) e (index_of-First cmp x s) in
      inr (k, e, ground (arith, lookup-index_of cmp x s, e, h k (omega (arith, f.1))))
]
