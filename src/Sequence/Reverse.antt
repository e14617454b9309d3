-- ===== src/Sequence/Reverse.antt =====
-- SeqReverse: swaps from both ends towards the middle.
use mathlib.Core.List.{reverse, reverse-cons}
use native.Mathlib.Decide.{dec_lt}
use libntech.Prelude.{
  ℕ, zero, suc, ◌+◌, ◌-◌, ◌/◌, ◌≤◌, ◌<◌, ◌≡◌, refl, ◌∙◌, ◌&&◌, List, [], ◌∷◌, if◌then◌else◌, ltb,
  leb, arith, Ptr, null, read, length, take, swap, length-swap, read-swap, eq_of_get, length-append,
  length-take, get_or-take, get_or-append_lt, get_or-append_ge,
}
use libntech.Sequence.{Seq}
use libntech.Sequence.Growth.{contents, IsValid, length-contents}

-- The loop of SeqReverse: `n` swaps from index `i` on, in a sequence of `len` items.
reverse_loop : ℕ → ℕ → ℕ → List Ptr → List Ptr
reverse_loop zero i len d = d
reverse_loop (suc n) i len d = reverse_loop n (i + 1) len (swap d i (len - 1 - i))

pub reverse_items : Seq → Seq
unfolding reverse_loop
reverse_items s = record s { items = reverse_loop (s.length / 2) 0 s.length s.items }

length-reverse_loop : (n i len : ℕ) (d : List Ptr) → length (reverse_loop n i len d) ≡ length d
unfolding reverse_loop
length-reverse_loop zero i len d = refl
length-reverse_loop (suc n) i len d =
    length-reverse_loop n (i + 1) len (swap d i (len - 1 - i)) ∙ length-swap d i (len - 1 - i)

-- Between the ends that are swapped already, the loop mirrors the array.
read-reverse_loop :
    (n i len : ℕ) (d : List Ptr) (k : ℕ)
    → i + n ≡ len / 2
    → len ≤ length d
    → read (reverse_loop n i len d) k
      ≡ (if leb i k && ltb k (len - i) then read d (len - 1 - k) else read d k)
unfolding reverse_loop
read-reverse_loop zero i len d k e h = ground arith
read-reverse_loop (suc n) i len d k e h =
    let j = len - 1 - i in
    let d' = swap d i j in
    read-reverse_loop n (i + 1) len d' k (omega arith) (omega (arith, length-swap d i j))
    ∙ ground (arith, read-swap d i j k, read-swap d i j (len - 1 - k))

length-reverse : (xs : List Ptr) → length (reverse xs) ≡ length xs
length-reverse [] = refl
length-reverse (x ∷ xs) =
    rw (reverse-cons x xs) (omega (arith, length-append (reverse xs) (x ∷ []), length-reverse xs))

get_or-reverse :
    (xs : List Ptr) (k : ℕ) → k < length xs → read (reverse xs) k ≡ read xs (length xs - 1 - k)
get_or-reverse [] k h = absurd (omega arith)
get_or-reverse (x ∷ xs) k h =
    let n : length (reverse xs) ≡ length xs = length-reverse xs in
    rw (reverse-cons x xs) (elim (dec_lt k (length xs)) [
      | yes p ↦
          let j : suc (length xs) - 1 - k ≡ suc (length xs - 1 - k) = omega arith in
          get_or-append_lt (reverse xs) (x ∷ []) k null (omega (arith, n))
          ∙ get_or-reverse xs k p
          ∙ rw j
      | no p ↦
          let e : k - length (reverse xs) ≡ 0 = omega (arith, n) in
          let j : suc (length xs) - 1 - k ≡ 0 = omega arith in
          get_or-append_ge (reverse xs) (x ∷ []) k null (omega (arith, n)) ∙ rw (e, j)
    ])

-- SeqReverse on a valid sequence reverses the contents and keeps the invariant.
pub reverse_items_lem :
    (s : Seq)
    → IsValid s
    → IsValid (reverse_items s) × (contents (reverse_items s) ≡ reverse (contents s))
unfolding reverse_items
reverse_items_lem s v =
    let d = s.items in
    let n = s.length in
    let d' = reverse_loop (n / 2) 0 n d in
    let l : length d' ≡ length d = length-reverse_loop (n / 2) 0 n d in
    let c = length-contents s v in
    (
      record { slots = l ∙ v.slots; positive = v.positive; within = v.within },
      eq_of_get (take n d') (reverse (take n d)) null
          (omega (arith, length-take n d', l, v.slots, v.within, length-reverse (take n d), c))
          (λ i h.
            let p : i < n = omega (arith, h, length-take n d') in
            get_or-take d' n i null p
            ∙ read-reverse_loop (n / 2) 0 n d i (omega arith) (omega (arith, v.slots, v.within))
            ∙ ground (arith, get_or-reverse (take n d) i, get_or-take d n (n - 1 - i) null, c)),
    )
