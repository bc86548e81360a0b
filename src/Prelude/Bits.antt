-- ===== src/Prelude/Bits.antt =====
-- Shifts, and a law of `|` on numbers whose digits do not meet.
use Prim.Native.Nat.{
  ℕ, zero, suc, ◌+◌, ◌*◌, ◌/◌, ◌%◌, ◌^◌, ◌≤◌, ◌<◌, bit_or, max, digits, bit_or-bitwise,
}
use mathlib.Core.Path.{◌≡◌, refl, ap}
use native.Mathlib.Nat.{pow-suc}
use native.Mathlib.Omega.{arith}

-- `a << k`
infixl 70 ◌<<<◌
abbrev pub ◌<<<◌ : ℕ → ℕ → ℕ
a <<< k = a * 2 ^ k

-- The digits that the native operation stands for, with any fuel that covers the first number.
or_digits_enough :
    (n m a b : ℕ) → a ≤ n → a ≤ m → digits (λ d. d) max n a b ≡ digits (λ d. d) max m a b
or_digits_enough zero zero b c h k = refl
or_digits_enough zero (suc m) zero b h k = refl
or_digits_enough zero (suc m) (suc a) b h k = absurd (omega arith)
or_digits_enough (suc n) zero zero b h k = refl
or_digits_enough (suc n) zero (suc a) b h k = absurd (omega arith)
or_digits_enough (suc n) (suc m) zero b h k = refl
or_digits_enough (suc n) (suc m) (suc a) b h k =
    omega (arith, or_digits_enough n m (suc a / 2) (b / 2) (omega arith) (omega arith))

-- The lowest digit of `a | b`.
bit_or_low : (a b : ℕ) → bit_or a b ≡ bit_or (a / 2) (b / 2) * 2 + max (a % 2) (b % 2)
bit_or_low zero b = omega (arith, bit_or-bitwise 0 b, bit_or-bitwise 0 (b / 2))
bit_or_low (suc a) b = omega (
  arith,
  bit_or-bitwise (suc a) b,
  bit_or-bitwise (suc a / 2) (b / 2),
  or_digits_enough a (suc a / 2) (suc a / 2) (b / 2) (omega arith) (omega arith),
)

bit_or-zero_below : (n a : ℕ) → a ≤ n → bit_or a 0 ≡ a
bit_or-zero_below n zero h = refl
bit_or-zero_below zero (suc a) h = absurd (omega arith)
bit_or-zero_below (suc n) (suc a) h =
    omega (arith, bit_or_low (suc a) 0, bit_or-zero_below n (suc a / 2) (omega arith))

double : (q k : ℕ) → q * 2 ^ suc k ≡ 2 * (q * 2 ^ k)
double q k = omega (arith, ap (λ (t : ℕ). q * t) (pow-suc 2 k))

-- `(q << k) | r` is a sum when r has at most k digits.
pub bit_or-shift : (k q r : ℕ) → r < 2 ^ k → bit_or (q <<< k) r ≡ q * 2 ^ k + r
bit_or-shift zero q r h = ground (arith, bit_or-zero_below q q)
bit_or-shift (suc k) q r h = ground (
  arith,
  bit_or_low (q * 2 ^ suc k) r,
  double q k,
  bit_or-shift k q (r / 2) (omega (arith, pow-suc 2 k)),
)
