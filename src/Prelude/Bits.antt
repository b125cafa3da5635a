-- ===== src/Prelude/Bits.antt =====
-- `^` and `|` on words of `w` bits.
use Prim.Native.Nat.{ℕ, zero, suc, ◌+◌, ◌*◌, ◌/◌, ◌%◌, ◌^◌, ◌<◌, max}
use mathlib.Core.Path.{◌≡◌, refl}
use native.Mathlib.Omega.{arith}

abbrev pub xor : (w a b : ℕ) → ℕ
xor zero a b = 0
xor (suc w) a b = 2 * xor w (a / 2) (b / 2) + (a % 2 + b % 2) % 2

abbrev pub or : (w a b : ℕ) → ℕ
or zero a b = 0
or (suc w) a b = 2 * or w (a / 2) (b / 2) + max (a % 2) (b % 2)

half_bound : (w a : ℕ) → a < 2 ^ suc w → a / 2 < 2 ^ w
half_bound w a h = omega arith

pub xor_self : (w a : ℕ) → xor w a a ≡ 0
xor_self zero a = refl
xor_self (suc w) a = omega (arith, xor_self w (a / 2))

pub eq_of_xor : (w a b : ℕ) → a < 2 ^ w → b < 2 ^ w → xor w a b ≡ 0 → a ≡ b
eq_of_xor zero a b h k e = omega arith
eq_of_xor (suc w) a b h k e =
    let half = eq_of_xor w (a / 2) (b / 2) (half_bound w a h) (half_bound w b k) (omega arith) in
    omega arith

pub or_zero : (w : ℕ) → or w 0 0 ≡ 0
or_zero zero = refl
or_zero (suc w) = omega (arith, or_zero w)

pub zero_of_or : (w a b : ℕ) → a < 2 ^ w → b < 2 ^ w → or w a b ≡ 0 → (a ≡ 0) × (b ≡ 0)
zero_of_or zero a b h k e = (omega arith, omega arith)
zero_of_or (suc w) a b h k e =
    let (x, y) = zero_of_or w (a / 2) (b / 2) (half_bound w a h) (half_bound w b k) (omega arith) in
    (omega arith, omega arith)

pub xor_bound : (w a b : ℕ) → xor w a b < 2 ^ w
xor_bound zero a b = omega arith
xor_bound (suc w) a b = omega (arith, xor_bound w (a / 2) (b / 2))

pub or_bound : (w a b : ℕ) → or w a b < 2 ^ w
or_bound zero a b = omega arith
or_bound (suc w) a b = omega (arith, or_bound w (a / 2) (b / 2))
