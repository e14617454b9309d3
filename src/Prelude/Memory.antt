-- ===== src/Prelude/Memory.antt =====
-- C memory as the components use it: a pointer is a number, an array is a list of words, and
-- size_t arithmetic is modulo 2 ^ 64.
use Prim.Native.Nat.{ℕ, zero, suc, ◌+◌, ◌-◌, ◌*◌, ◌/◌, ◌%◌, ◌^◌, ◌≤◌, ◌<◌}
use mathlib.Core.Path.{◌≡◌, refl, ap, ◌∙◌}
use mathlib.Core.List.{append_assoc, append-nil, List, [], ◌∷◌, ◌++◌}
use mathlib.Core.Logic.{◌⊎◌, inl, inr}
use native.Mathlib.Decide.{dec_lt}
use native.Mathlib.Omega.{arith}
use native.Mathlib.Numerals.{add-one}
use native.Mathlib.Nat.{add-zero, mod-eq_of_lt, mod_self}
use libntech.Prelude.Tests.{◌==◌, ltb, if◌then◌else◌}
use libntech.Prelude.Lists.{
  length-set, length, get_or, set, take, replicate, length-append, length-replicate, length-take,
}
use libntech.Prelude.Arrays.{
  take-set_next, take-set_ge, get_or-set_self, get_or-set_ne, take-append_le, take-take,
}

-- A size_t that is stored in an int, for the uses that take a negative number as 0: rounds of a
-- loop up to it, and tests for a minimum.
abbrev pub int_rounds : ℕ → ℕ
int_rounds n = let k = n % 2 ^ 32 in if ltb k (2 ^ 31) then k else 0

-- `void *`, with NULL as 0.
abbrev pub Ptr : Type 0
Ptr = ℕ

abbrev pub null : Ptr
null = 0

abbrev pub size_mod : ℕ
size_mod = 2 ^ 64

abbrev pub add_size : ℕ → ℕ → ℕ
add_size a b = (a + b) % size_mod

abbrev pub sub_size : ℕ → ℕ → ℕ
sub_size a b = (a + size_mod - b) % size_mod

abbrev pub mul_size : ℕ → ℕ → ℕ
mul_size a b = a * b % size_mod

-- `p[i]`; a read past the end of the array reads NULL, and the invariants rule it out.
abbrev pub read : List Ptr → ℕ → Ptr
read p i = get_or p i null

-- calloc: all words are NULL.
abbrev pub calloc : ℕ → List Ptr
calloc n = replicate n null

-- realloc keeps the words that fit. The words that it adds are indeterminate; they stand as NULL.
abbrev pub realloc : List Ptr → ℕ → List Ptr
realloc p n = take n p ++ replicate (n - length p) null

-- Writes `xs` into the array from index `i` on, as memcpy does.
abbrev pub copy_to : List Ptr → ℕ → List Ptr → List Ptr
copy_to p i [] = p
copy_to p i (x ∷ xs) = copy_to (set p i x) (i + 1) xs

pub length-realloc : (p : List Ptr) (n : ℕ) → length (realloc p n) ≡ n
length-realloc p n = omega (
  arith,
  length-append (take n p) (replicate (n - length p) null),
  length-take n p,
  length-replicate (n - length p) null,
)

pub add_size_small : (a b : ℕ) → a + b < size_mod → add_size a b ≡ a + b
add_size_small a b h = omega arith

-- The next index of a circular array of `c` slots.
pub next_index : (e c : ℕ) → suc e < c → c < size_mod → add_size e 1 % c ≡ suc e
next_index e c h k = ap (λ t. t % c) (omega arith) ∙ mod-eq_of_lt {n = suc e} {m = c} h

pub next_index_wraps : (e c : ℕ) → suc e ≡ c → c < size_mod → add_size e 1 % c ≡ 0
next_index_wraps e c h k = ap (λ t. t % c) (omega arith) ∙ mod_self c

-- The pointers of a list that are not NULL.
abbrev pub live : List Ptr → List Ptr
live [] = []
live (x ∷ xs) = if x == null then live xs else x ∷ live xs

pub live-append : (xs ys : List Ptr) → live (xs ++ ys) ≡ live xs ++ live ys
live-append [] ys = refl
live-append (x ∷ xs) ys = ground (arith, live-append xs ys)

pub live-replicate : (n : ℕ) → live (replicate n null) ≡ []
live-replicate zero = refl
live-replicate (suc n) = live-replicate n

-- What was in the array is in the larger one.
pub take-realloc : (p : List Ptr) (n m : ℕ) → n ≤ length p → n ≤ m → take n (realloc p m) ≡ take n p
take-realloc p n m h k =
    take-append_le (take m p) (replicate (m - length p) null) n (omega (arith, length-take m p))
    ∙ take-take p n m k

pub length-copy_to : (xs : List Ptr) (p : List Ptr) (i : ℕ) → length (copy_to p i xs) ≡ length p
length-copy_to [] p i = refl
length-copy_to (x ∷ xs) p i = length-copy_to xs (set p i x) (i + 1) ∙ length-set p i x

-- What a copy that fits leaves before its end.
pub take-copy_to :
    (xs : List Ptr) (p : List Ptr) (i : ℕ)
    → i + length xs ≤ length p
    → take (i + length xs) (copy_to p i xs) ≡ take i p ++ xs
take-copy_to [] p i h = rw (add-zero, append-nil)
take-copy_to (x ∷ xs) p i h =
    let q = set p i x in
    let e : i + suc (length xs) ≡ i + 1 + length xs = omega arith in
    rw
      (
        e,
        take-copy_to xs q (i + 1) (omega (arith, length-set p i x)),
        add-one,
        take-set_next p i x (omega arith),
      )
      (append_assoc (take i p) (x ∷ []) xs)

-- A copy leaves the words before its start alone.
pub take-copy_to_below :
    (xs : List Ptr) (p : List Ptr) (i n : ℕ) → n ≤ i → take n (copy_to p i xs) ≡ take n p
take-copy_to_below [] p i n h = refl
take-copy_to_below (x ∷ xs) p i n h =
    take-copy_to_below xs (set p i x) (i + 1) n (omega arith) ∙ take-set_ge p n i x h

-- `t = p[i]; p[i] = p[j]; p[j] = t`
abbrev pub swap : List Ptr → ℕ → ℕ → List Ptr
swap p i j = set (set p i (read p j)) j (read p i)

pub length-swap : (p : List Ptr) (i j : ℕ) → length (swap p i j) ≡ length p
length-swap p i j = length-set (set p i (read p j)) j (read p i) ∙ length-set p i (read p j)

pub read-set :
    (p : List Ptr) (i k : ℕ) (v : Ptr)
    → i < length p
    → read (set p i v) k ≡ (if k == i then v else read p k)
read-set p i k v h = ground (arith, get_or-set_self p i v null, get_or-set_ne p i k v null)

pub read-swap :
    (p : List Ptr) (i j k : ℕ)
    → i < length p
    → j < length p
    → read (swap p i j) k ≡ (if k == j then read p i else (if k == i then read p j else read p k))
read-swap p i j k h g =
    read-set (set p i (read p j)) j k (read p i) (omega (arith, length-set p i (read p j)))
    ∙ ground (arith, read-set p i k (read p j))

pub next_index_cases :
    (e c : ℕ)
    → e < c
    → c < size_mod
    → ((add_size e 1 % c ≡ suc e) × (suc e < c)) ⊎ ((add_size e 1 % c ≡ 0) × (suc e ≡ c))
next_index_cases e c h k = elim (dec_lt (suc e) c) [
  | yes p ↦ inl (next_index e c p k, p)
  | no p ↦ let w : suc e ≡ c = omega arith in inr (next_index_wraps e c w k, w)
]

-- The number of words when an array of pointers is doubled.
pub words_double :
    (c : ℕ) → 16 * c < size_mod → (mul_size c 2 ≡ c * 2) × (mul_size 8 (mul_size c 2) / 8 ≡ c * 2)
words_double c h = omega arith
