-- ===== src/RingBuffer/Iterate.antt =====
-- Walking a ring buffer with RingBufferIteratorNext.
use libntech.Prelude.{
  rotation, ℕ, zero, suc, ◌+◌, ◌-◌, ◌%◌, ◌≤◌, ◌<◌, ◌≡◌, ap, sym, ◌∙◌, List, [], ◌∷◌, if◌then◌else◌,
  ◌==◌, length, take, drop, arith, Ptr, null, read, add_size, size_mod, get_or-drop,
  get_or-append_lt, get_or-append_ge, get_or-take, length-drop, add_size_small, drop-get,
  drop-length,
}
use native.Mathlib.Decide.{dec_lt}
use native.Mathlib.Nat.{mod-eq_of_lt, mod-eq-sub-mod}
use native.Mathlib.Numerals.{add-one}
use libntech.RingBuffer.{RingBuffer, Iterator, is_full, iterator, iterator_offset, iterator_next}
use libntech.RingBuffer.Contents.{contents, IsValid, length-contents}

-- What `n` calls of RingBufferIteratorNext return.
pub walk : ℕ → Iterator → List Ptr
walk zero it = []
walk (suc n) it = let (x, it') = iterator_next it in x ∷ walk n it'

module _ (d : List Ptr) (c e k : ℕ) (slots : length d ≡ c) (p : e < c) (q : k < c)
    (h : c + c < size_mod) where
  -- The slot `(e + k) % c` is item `k` of the rotation that starts at `e`.
  read-rotation : read d (add_size e k % c) ≡ read (rotation d e) k
  read-rotation = elim (dec_lt (e + k) c) [
    | yes r ↦
        ap (λ t. read d (t % c)) (add_size_small e k (omega arith))
        ∙ ap (read d) (mod-eq_of_lt {n = e + k} {m = c} r)
        ∙ sym (get_or-drop d e k null)
        ∙ sym (get_or-append_lt (drop e d) (take e d) k null (omega (arith, length-drop e d)))
    | no r ↦
        let i = k - (c - e) in
        ap (λ t. read d (t % c)) (add_size_small e k (omega arith))
        ∙ ap (read d) (mod-eq-sub-mod {n = e + k} {m = c} (omega arith))
        ∙ ap (λ t. read d (t % c)) two
        ∙ ap (read d) (mod-eq_of_lt {n = i} {m = c} (omega arith))
        ∙ sym (get_or-take d e i null (omega arith))
        ∙ ap (read (take e d)) same
        ∙ sym (get_or-append_ge (drop e d) (take e d) k null (omega (arith, length-drop e d)))
  ]
    where
      two : e + k - c ≡ k - (c - e)
      two = omega arith

      same : k - (c - e) ≡ k - length (drop e d)
      same = omega (arith, length-drop e d)

-- The iterator with `k` items read gives item `k` of the contents, and NULL after the last.
pub iterator_next_lem :
    (b : RingBuffer) (k : ℕ)
    → IsValid b
    → b.capacity + b.capacity < size_mod
    → k ≤ b.len
    → iterator_next (record { buf = b; num_read = k }) ≡ (
        if k == b.len
        then (null, record { buf = b; num_read = k })
        else (read (contents b) k, record { buf = b; num_read = k + 1 }))
unfolding iterator_next iterator_offset is_full
iterator_next_lem b k v h n = ground (
  arith,
  read-rotation b.items b.capacity b.end k v.slots v.end_in,
  get_or-take b.items b.len k null,
)

walk-from :
    (n k : ℕ) (b : RingBuffer)
    → IsValid b
    → b.capacity + b.capacity < size_mod
    → k + n ≡ b.len
    → walk n (record { buf = b; num_read = k }) ≡ drop k (contents b)
unfolding walk
walk-from zero k b v h e =
    let all : k ≡ length (contents b) = omega (arith, length-contents b v) in
    rw all (sym (drop-length (contents b)))
walk-from (suc n) k b v h e =
    let q = contents b in
    let step : iterator_next (record { buf = b; num_read = k })
        ≡ (read q k, record { buf = b; num_read = k + 1 }) =
      ground (arith, iterator_next_lem b k v h) in
    rw (step, walk-from n (k + 1) b v h (omega arith), add-one)
      (sym (drop-get q k null (omega (arith, length-contents b v))))

-- On a valid buffer whose doubled capacity is below 2 ^ 64, as many calls of RingBufferIteratorNext
-- as the buffer has items return its contents, the oldest first.
pub walk-contents :
    (b : RingBuffer)
    → IsValid b
    → b.capacity + b.capacity < size_mod
    → walk b.len (iterator b) ≡ contents b
unfolding iterator
walk-contents b v h = walk-from b.len 0 b v h (omega arith)
