-- ===== src/Prelude/Circular.antt =====
-- Circular arrays: an array seen from an index on and round to it.
use Prim.Native.Nat.{ℕ, zero, suc, ◌+◌, ◌-◌, ◌*◌, ◌%◌, ◌<◌}
use mathlib.Core.Path.{◌≡◌, refl, sym, ap, ap₂, ◌∙◌}
use mathlib.Core.List.{List, [], ◌∷◌, ◌++◌, append_assoc, append-nil}
use mathlib.Core.Logic.{◌⊎◌, inl, inr}
use native.Mathlib.Omega.{arith}
use native.Mathlib.Decide.{dec_lt}
use libntech.Prelude.Lists.{length, set, take, drop, length-set, length-drop, length-take}
use libntech.Prelude.Arrays.{
  take-set_next, take-set_ge, drop-set_lt, drop-get, take-all, drop-all, take-append_le, drop-take,
  drop-append_le,
}
use libntech.Prelude.Memory.{
  Ptr, null, add_size, size_mod, next_index, next_index_wraps, copy_to, realloc, length-copy_to,
  length-realloc, take-copy_to, take-realloc,
}

-- The array from index `e` on, and round to it.
abbrev pub rotation : List Ptr → ℕ → List Ptr
rotation d e = drop e d ++ take e d

pub rotation-next :
    (d : List Ptr) (e c : ℕ)
    → length d ≡ c
    → e < c
    → c < size_mod
    → rotation d (add_size e 1 % c) ≡ rotation d (suc e)
rotation-next d e c l h k = elim (dec_lt (suc e) c) [
  | yes p ↦ rw (next_index e c p k)
  | no p ↦
      let w : suc e ≡ c = omega arith in
      rw (
        next_index_wraps e c w k,
        w,
        drop-all d c (omega arith),
        take-all d c (omega arith),
        append-nil,
      )
]

-- A write at `e`, seen from just past it: the item at `e` makes place for the one written.
pub rotation-set :
    (d : List Ptr) (e : ℕ) (y : Ptr)
    → e < length d
    → rotation (set d e y) (suc e) ≡ drop 1 (rotation d e) ++ y ∷ []
rotation-set d e y h =
    rw (drop-set_lt d (suc e) e y (omega arith), take-set_next d e y h, drop-get d e null h)
      (sym (append_assoc (drop (suc e) d) (take e d) (y ∷ [])))

pub rotation-set_last :
    (d : List Ptr) (e c : ℕ) (y : Ptr)
    → length d ≡ c
    → suc e ≡ c
    → rotation (set d e y) (suc e) ≡ take e d ++ y ∷ []
rotation-set_last d e c y l h = rw (
  h,
  drop-all (set d e y) c (omega (arith, length-set d e y)),
  ← h,
  take-set_next d e y (omega arith),
)

drop-set_ge : (d : List Ptr) (h n : ℕ) (x : Ptr) → drop h (set d (h + n) x) ≡ set (drop h d) n x
drop-set_ge d zero n x = ap (λ k. set d k x) (omega arith)
drop-set_ge [] (suc h) n x = refl
drop-set_ge (y ∷ d) (suc h) n x =
    let e : suc h + n ≡ suc (h + n) = omega arith in rw e (drop-set_ge d h n x)

take-set_lt : (d : List Ptr) (h i : ℕ) (x : Ptr) → i < h → take h (set d i x) ≡ set (take h d) i x
take-set_lt d zero i x p = absurd (omega arith)
take-set_lt [] (suc h) i x p = refl
take-set_lt (y ∷ d) (suc h) zero x p = refl
take-set_lt (y ∷ d) (suc h) (suc i) x p = ap (λ l. y ∷ l) (take-set_lt d h i x (omega arith))

set-append_lt :
    (a b : List Ptr) (i : ℕ) (x : Ptr) → i < length a → set (a ++ b) i x ≡ set a i x ++ b
set-append_lt [] b i x p = absurd (omega arith)
set-append_lt (y ∷ a) b zero x p = refl
set-append_lt (y ∷ a) b (suc i) x p = ap (λ l. y ∷ l) (set-append_lt a b i x (omega arith))

set-append_ge :
    (a b : List Ptr) (i j : ℕ) (x : Ptr) → i ≡ length a + j → set (a ++ b) i x ≡ a ++ set b j x
set-append_ge [] b i j x e = ap (λ k. set b k x) (omega arith)
set-append_ge (y ∷ a) b zero j x e = absurd (omega arith)
set-append_ge (y ∷ a) b (suc i) j x e = ap (λ l. y ∷ l) (set-append_ge a b i j x (omega arith))

-- A write at the slot `(h + n) % c` writes item `n` of the rotation that starts at `h`.
pub rotation-set_at :
    (d : List Ptr) (c h n i : ℕ) (x : Ptr)
    → length d ≡ c
    → h < c
    → n < c
    → (h + n ≡ i) ⊎ (h + n ≡ i + c)
    → i < c
    → rotation (set d i x) h ≡ set (rotation d h) n x
rotation-set_at d c h n i x l p q (inl e) k = rw (← e) (
    ap₂ ◌++◌ (drop-set_ge d h n x) (take-set_ge d h (h + n) x (omega arith))
    ∙ sym (set-append_lt (drop h d) (take h d) n x (omega (arith, length-drop h d))))
rotation-set_at d c h n i x l p q (inr e) k =
    ap₂ ◌++◌ (drop-set_lt d h i x (omega arith)) (take-set_lt d h i x (omega arith))
    ∙ sym (set-append_ge (drop h d) (take h d) n i x (omega (arith, length-drop h d)))

-- An array of `c` slots that goes round the end, doubled, and its first part copied behind it.
pub rotation-unrolled :
    (d : List Ptr) (c h : ℕ)
    → length d ≡ c
    → h < c
    → take c (rotation (copy_to (realloc d (c * 2)) c (take h d)) h) ≡ rotation d h
rotation-unrolled d c h l p =
    let r = realloc d (c * 2) in
    let s = take h d in
    let w = copy_to r c s in
    let n : length s ≡ h = omega (arith, length-take h d) in
    let m : length w ≡ c * 2 = length-copy_to s r c ∙ length-realloc d (c * 2) in
    let whole : take (c + h) w ≡ d ++ s =
      ap (λ k. take (c + k) w) (sym n)
      ∙ take-copy_to s r c (omega (arith, n, length-realloc d (c * 2)))
      ∙ ap (λ l. l ++ s)
          (take-realloc d c (c * 2) (omega arith) (omega arith) ∙ take-all d c (omega arith)) in
    let k : c + h - h ≡ c = omega arith in
    take-append_le (drop h w) (take h w) c (omega (arith, length-drop h w, m))
    ∙ ap (λ t. take t (drop h w)) (sym k)
    ∙ sym (drop-take w h (c + h))
    ∙ ap (drop h) whole
    ∙ drop-append_le d s h (omega arith)

-- A doubled array that does not go round the end.
pub rotation-doubled :
    (d : List Ptr) (c : ℕ) → length d ≡ c → take c (rotation (realloc d (c * 2)) 0) ≡ rotation d 0
rotation-doubled d c l =
    ap (take c) (append-nil (realloc d (c * 2)))
    ∙ take-realloc d c (c * 2) (omega arith) (omega arith)
    ∙ take-all d c (omega arith)
    ∙ sym (append-nil d)
