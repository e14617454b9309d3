-- ===== src/Prelude/Bits.antt =====
-- Bitwise operations on unsigned words.
use Prim.Native.Nat.{ℕ, zero, suc, ◌+◌, ◌-◌, ◌*◌, ◌/◌, ◌%◌, ◌^◌, ◌≤◌, ◌<◌}
use mathlib.Core.Path.{◌≡◌, refl, sym, ap, ◌∙◌}
use native.Mathlib.Nat.{div-add-mod, div-div-eq-div-mul, mul_assoc, mod-one, mul-one, pow-succ'}
use native.Mathlib.Omega.{arith}

-- `a & b` on words of `w` bits.
unfoldable pub and_bits : ℕ → ℕ → ℕ → ℕ
and_bits zero a b = 0
and_bits (suc w) a b = (a % 2) * (b % 2) + 2 * and_bits w (a / 2) (b / 2)

-- `a | b` on words of `w` bits.
unfoldable pub or_bits : ℕ → ℕ → ℕ → ℕ
or_bits zero a b = 0
or_bits (suc w) a b = (a % 2 + b % 2 - (a % 2) * (b % 2)) + 2 * or_bits w (a / 2) (b / 2)

-- A remainder by a power of two, bit by bit.
mod_double : (a m : ℕ) → 0 < m → a % (2 * m) ≡ a % 2 + 2 * (a / 2 % m)
mod_double a m p =
    let q = a / 2 / m in
    let e : 2 * (m * q) + a % (2 * m) ≡ a =
      ap (λ z. z + a % (2 * m))
        (sym (mul_assoc 2 m q) ∙ ap (λ d. 2 * m * d) (div-div-eq-div-mul a 2 m))
      ∙ div-add-mod a (2 * m) in
    let d : m * q + a / 2 % m ≡ a / 2 = div-add-mod (a / 2) m in omega (arith, e, d)

pub pow_pos : (k : ℕ) → 0 < 2 ^ k
pow_pos zero = omega arith
pow_pos (suc k) = omega (arith, pow_pos k, pow-succ' 2 k)

and_bits-zero : (w a : ℕ) → and_bits w a 0 ≡ 0
unfolding and_bits
and_bits-zero zero a = refl
and_bits-zero (suc w) a = omega (arith, and_bits-zero w (a / 2))

-- `a & (2 ^ k - 1)` is the remainder by 2 ^ k.
pub and_bits-mask : (w k a : ℕ) → k ≤ w → and_bits w a (2 ^ k - 1) ≡ a % 2 ^ k
unfolding and_bits
and_bits-mask w zero a h = and_bits-zero w a ∙ sym (mod-one a)
and_bits-mask zero (suc k) a h = absurd (omega arith)
and_bits-mask (suc w) (suc k) a h =
    let p : 0 < 2 ^ k = pow_pos k in
    let n : 2 ^ suc k ≡ 2 * 2 ^ k = pow-succ' 2 k in
    let odd : (2 ^ suc k - 1) % 2 ≡ 1 = omega (arith, n, p) in
    let half : (2 ^ suc k - 1) / 2 ≡ 2 ^ k - 1 = omega (arith, n, p) in
    rw (odd, half, and_bits-mask w k (a / 2) (omega arith), mul-one (a % 2))
      (sym (mod_double a (2 ^ k) p) ∙ ap (λ z. a % z) (sym n))
