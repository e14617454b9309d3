-- ===== src/Prelude/Arrays.antt =====
-- Laws of lists that are read, written and cut by index.
use Prim.Native.Nat.{ℕ, zero, suc, ◌+◌, ◌-◌, ◌≤◌, ◌<◌}
use mathlib.Core.Path.{◌≡◌, refl, ap, ap₂, ◌∙◌}
use mathlib.Core.Logic.{◌≢◌}
use mathlib.Core.List.{List, [], ◌∷◌, ◌++◌}
use native.Mathlib.Omega.{arith}
use libntech.Prelude.Lists.{length, set, get_or, take, drop, replicate}

-- Laws of arrays that are read and written by index.
module _ {ℓ} {A : Type ℓ} where
  pub get_or-set_self :
      (xs : List A) (i : ℕ) (v d : A) → i < length xs → get_or (set xs i v) i d ≡ v
  get_or-set_self [] i v d h = absurd (omega arith)
  get_or-set_self (x ∷ xs) zero v d h = refl
  get_or-set_self (x ∷ xs) (suc i) v d h = get_or-set_self xs i v d (omega arith)

  pub get_or-set_ne :
      (xs : List A) (i j : ℕ) (v d : A) → i ≢ j → get_or (set xs i v) j d ≡ get_or xs j d
  get_or-set_ne [] i j v d h = refl
  get_or-set_ne (x ∷ xs) zero zero v d h = absurd (h refl)
  get_or-set_ne (x ∷ xs) zero (suc j) v d h = refl
  get_or-set_ne (x ∷ xs) (suc i) zero v d h = refl
  get_or-set_ne (x ∷ xs) (suc i) (suc j) v d h = get_or-set_ne xs i j v d (λ e. h (ap suc e))

  -- A write just past the first `i` words extends them by the word.
  pub take-set_next :
      (xs : List A) (i : ℕ) (v : A)
      → i < length xs
      → take (suc i) (set xs i v) ≡ take i xs ++ v ∷ []
  take-set_next [] i v h = absurd (omega arith)
  take-set_next (x ∷ xs) zero v h = refl
  take-set_next (x ∷ xs) (suc i) v h = ap (λ l. x ∷ l) (take-set_next xs i v (omega arith))

  -- A write at or past index `n` leaves the first `n` words alone.
  pub take-set_ge : (xs : List A) (n i : ℕ) (v : A) → n ≤ i → take n (set xs i v) ≡ take n xs
  take-set_ge xs zero i v h = refl
  take-set_ge [] (suc n) i v h = refl
  take-set_ge (x ∷ xs) (suc n) zero v h = absurd (omega arith)
  take-set_ge (x ∷ xs) (suc n) (suc i) v h = ap (λ l. x ∷ l) (take-set_ge xs n i v (omega arith))

  -- A write below index `n` leaves the words from `n` on alone.
  pub drop-set_lt : (xs : List A) (n i : ℕ) (v : A) → i < n → drop n (set xs i v) ≡ drop n xs
  drop-set_lt xs zero i v h = absurd (omega arith)
  drop-set_lt [] (suc n) i v h = refl
  drop-set_lt (x ∷ xs) (suc n) zero v h = refl
  drop-set_lt (x ∷ xs) (suc n) (suc i) v h = drop-set_lt xs n i v (omega arith)

  pub drop-get :
      (xs : List A) (i : ℕ) (d : A) → i < length xs → drop i xs ≡ get_or xs i d ∷ drop (suc i) xs
  drop-get [] i d h = absurd (omega arith)
  drop-get (x ∷ xs) zero d h = refl
  drop-get (x ∷ xs) (suc i) d h = drop-get xs i d (omega arith)

  pub take-length : (xs : List A) → take (length xs) xs ≡ xs
  take-length [] = refl
  take-length (x ∷ xs) = ap (λ l. x ∷ l) (take-length xs)

  pub drop-length : (xs : List A) → drop (length xs) xs ≡ []
  drop-length [] = refl
  drop-length (x ∷ xs) = drop-length xs

  pub take-append_le : (xs ys : List A) (n : ℕ) → n ≤ length xs → take n (xs ++ ys) ≡ take n xs
  take-append_le xs ys zero h = refl
  take-append_le [] ys (suc n) h = absurd (omega arith)
  take-append_le (x ∷ xs) ys (suc n) h = ap (λ l. x ∷ l) (take-append_le xs ys n (omega arith))

  pub take-take : (xs : List A) (n m : ℕ) → n ≤ m → take n (take m xs) ≡ take n xs
  take-take xs zero m h = refl
  take-take xs (suc n) zero h = absurd (omega arith)
  take-take [] (suc n) (suc m) h = refl
  take-take (x ∷ xs) (suc n) (suc m) h = ap (λ l. x ∷ l) (take-take xs n m (omega arith))

  pub get_or-take : (xs : List A) (n i : ℕ) (d : A) → i < n → get_or (take n xs) i d ≡ get_or xs i d
  get_or-take xs zero i d h = absurd (omega arith)
  get_or-take [] (suc n) i d h = refl
  get_or-take (x ∷ xs) (suc n) zero d h = refl
  get_or-take (x ∷ xs) (suc n) (suc i) d h = get_or-take xs n i d (omega arith)

  pub get_or-drop : (xs : List A) (n i : ℕ) (d : A) → get_or (drop n xs) i d ≡ get_or xs (n + i) d
  get_or-drop xs zero i d = ap (λ k. get_or xs k d) (omega arith)
  get_or-drop [] (suc n) i d = refl
  get_or-drop (x ∷ xs) (suc n) i d =
      get_or-drop xs n i d ∙ ap (λ k. get_or (x ∷ xs) k d) (lemma n i)
    where
      lemma : (n i : ℕ) → suc (n + i) ≡ suc n + i
      lemma n i = omega arith

  pub get_or-append_lt :
      (xs ys : List A) (i : ℕ) (d : A) → i < length xs → get_or (xs ++ ys) i d ≡ get_or xs i d
  get_or-append_lt [] ys i d h = absurd (omega arith)
  get_or-append_lt (x ∷ xs) ys zero d h = refl
  get_or-append_lt (x ∷ xs) ys (suc i) d h = get_or-append_lt xs ys i d (omega arith)

  pub get_or-append_ge :
      (xs ys : List A) (i : ℕ) (d : A)
      → length xs ≤ i
      → get_or (xs ++ ys) i d ≡ get_or ys (i - length xs) d
  get_or-append_ge [] ys i d h = ap (λ k. get_or ys k d) (omega arith)
  get_or-append_ge (x ∷ xs) ys zero d h = absurd (omega arith)
  get_or-append_ge (x ∷ xs) ys (suc i) d h =
      get_or-append_ge xs ys i d (omega arith) ∙ ap (λ k. get_or ys k d) (omega arith)

  -- Arrays of one length that agree at every index are equal.
  pub eq_of_get :
      (xs ys : List A) (d : A)
      → length xs ≡ length ys
      → ((i : ℕ) → i < length xs → get_or xs i d ≡ get_or ys i d)
      → xs ≡ ys
  eq_of_get [] [] d e h = refl
  eq_of_get [] (y ∷ ys) d e h = absurd (omega arith)
  eq_of_get (x ∷ xs) [] d e h = absurd (omega arith)
  eq_of_get (x ∷ xs) (y ∷ ys) d e h =
      ap₂ ◌∷◌ (h 0 (omega arith)) (eq_of_get xs ys d (omega arith) (λ i p. h (suc i) (omega arith)))

  pub drop-drop_next : (xs : List A) (i : ℕ) → drop (suc i) xs ≡ drop 1 (drop i xs)
  drop-drop_next [] zero = refl
  drop-drop_next [] (suc i) = refl
  drop-drop_next (x ∷ xs) zero = refl
  drop-drop_next (x ∷ xs) (suc i) = drop-drop_next xs i

  pub drop-replicate_one : (n : ℕ) (a : A) → drop 1 (replicate n a) ≡ replicate (n - 1) a
  drop-replicate_one zero a = refl
  drop-replicate_one (suc n) a = ap (λ k. replicate k a) (omega arith)

  pub set-get_or : (xs : List A) (i : ℕ) (d : A) → set xs i (get_or xs i d) ≡ xs
  set-get_or [] i d = refl
  set-get_or (x ∷ xs) zero d = refl
  set-get_or (x ∷ xs) (suc i) d = ap (λ l. x ∷ l) (set-get_or xs i d)

  pub get_or-drop_zero : (xs : List A) (n : ℕ) (d : A) → get_or (drop n xs) 0 d ≡ get_or xs n d
  get_or-drop_zero xs zero d = refl
  get_or-drop_zero [] (suc n) d = refl
  get_or-drop_zero (x ∷ xs) (suc n) d = get_or-drop_zero xs n d

  pub take-drop-take :
      (xs : List A) (n i m : ℕ) → i + n ≤ m → take n (drop i (take m xs)) ≡ take n (drop i xs)
  take-drop-take xs n zero m h = take-take xs n m (omega arith)
  take-drop-take xs n (suc i) zero h = absurd (omega arith)
  take-drop-take [] n (suc i) (suc m) h = refl
  take-drop-take (x ∷ xs) n (suc i) (suc m) h = take-drop-take xs n i m (omega arith)

  pub drop-take : (xs : List A) (i m : ℕ) → drop i (take m xs) ≡ take (m - i) (drop i xs)
  drop-take xs zero m = ap (λ k. take k xs) (omega arith)
  drop-take xs (suc i) zero = let e : zero - suc i ≡ 0 = omega arith in rw e
  drop-take [] (suc i) (suc m) = take-nil (suc m - suc i)
    where
      take-nil : (k : ℕ) → [] ≡ take {A = A} k []
      take-nil zero = refl
      take-nil (suc k) = refl
  drop-take (x ∷ xs) (suc i) (suc m) = drop-take xs i m ∙ ap (λ k. take k (drop i xs)) (omega arith)

  pub take-all : (xs : List A) (n : ℕ) → length xs ≤ n → take n xs ≡ xs
  take-all [] zero h = refl
  take-all [] (suc n) h = refl
  take-all (x ∷ xs) zero h = absurd (omega arith)
  take-all (x ∷ xs) (suc n) h = ap (λ l. x ∷ l) (take-all xs n (omega arith))

  pub drop-all : (xs : List A) (n : ℕ) → length xs ≤ n → drop n xs ≡ []
  drop-all [] zero h = refl
  drop-all [] (suc n) h = refl
  drop-all (x ∷ xs) zero h = absurd (omega arith)
  drop-all (x ∷ xs) (suc n) h = drop-all xs n (omega arith)

-- A predicate of every item.
abbrev pub All {ℓ κ} : {A : Type ℓ} → (A → Type κ) → List A → Type κ
All P [] = Unit
All P (x ∷ xs) = P x × All P xs

pub All-append {ℓ κ} :
    {A : Type ℓ} (P : A → Type κ) (xs ys : List A) → All P xs → All P ys → All P (xs ++ ys)
All-append P [] ys h k = k
All-append P (x ∷ xs) ys h k = (h.0, All-append P xs ys h.1 k)

pub set-append {ℓ} :
    {A : Type ℓ} (xs : List A) (y v : A) (ys : List A)
    → set (xs ++ y ∷ ys) (length xs) v ≡ xs ++ v ∷ ys
set-append [] y v ys = refl
set-append (x ∷ xs) y v ys = ap (λ l. x ∷ l) (set-append xs y v ys)

pub take-front {ℓ} :
    {A : Type ℓ} (n : ℕ) (x : A) (xs : List A) → 0 < n → take n (x ∷ xs) ≡ x ∷ take (n - 1) xs
take-front zero x xs h = absurd (omega arith)
take-front (suc n) x xs h = ap (λ k. x ∷ take k xs) (omega arith)

pub drop-append_le {ℓ} :
    {A : Type ℓ} (xs ys : List A) (n : ℕ) → n ≤ length xs → drop n (xs ++ ys) ≡ drop n xs ++ ys
drop-append_le xs ys zero h = refl
drop-append_le [] ys (suc n) h = absurd (omega arith)
drop-append_le (x ∷ xs) ys (suc n) h = drop-append_le xs ys n (omega arith)

pub take-append_ge {ℓ} :
    {A : Type ℓ} (xs ys : List A) (n k : ℕ)
    → n ≡ length xs + k
    → take n (xs ++ ys) ≡ xs ++ take k ys
take-append_ge [] ys n k e = ap (λ j. take j ys) (omega arith)
take-append_ge (x ∷ xs) ys zero k e = absurd (omega arith)
take-append_ge (x ∷ xs) ys (suc n) k e = ap (λ l. x ∷ l) (take-append_ge xs ys n k (omega arith))
