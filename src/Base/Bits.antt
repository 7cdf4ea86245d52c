-- ===== src/Base/Bits.antt =====
-- The bit operations of C as arithmetic: a mask of low bits is a remainder, a mask that clears
-- low bits (`x & ~(2^k - 1)`) rounds down, and one bit is read by a shift.
use Prim.Native.Nat.{
  ℕ, zero, suc, ◌+◌, ◌-◌, ◌*◌, ◌/◌, ◌%◌, ◌^◌, ◌≤◌, ◌<◌, min, max, bit_and, bit_or, digits, bitwise,
  bit_and-bitwise, bit_or-bitwise,
}
use native.Mathlib.Nat.{pow-suc, one-le-pow, mod-eq_of_lt}
use mathlib.Core.Path.{◌≡◌, refl, ap}
use native.Mathlib.Omega.{arith}

-- Where the fuel covers the first number, the digit recursion does not depend on it.
module _ (z : ℕ → ℕ) (f : ℕ → ℕ → ℕ) where
  digits_enough : (n m a b : ℕ) → a ≤ n → a ≤ m → digits z f n a b ≡ digits z f m a b
  digits_enough zero zero a b p q = refl
  digits_enough zero (suc m) zero b p q = refl
  digits_enough zero (suc m) (suc a) b p q = absurd (omega arith)
  digits_enough (suc n) zero zero b p q = refl
  digits_enough (suc n) zero (suc a) b p q = absurd (omega arith)
  digits_enough (suc n) (suc m) zero b p q = refl
  digits_enough (suc n) (suc m) (suc a) b p q =
      rw (digits_enough n m (suc a / 2) (b / 2) (omega arith) (omega arith))

  bitwise_half :
      (a b : ℕ)
      → bitwise z f (suc a) b ≡ bitwise z f (suc a / 2) (b / 2) * 2 + f (suc a % 2) (b % 2)
  bitwise_half a b =
      omega (arith, digits_enough a (suc a / 2) (suc a / 2) (b / 2) (omega arith) (omega arith))

pub bit_and_half : (a b : ℕ) → bit_and a b ≡ bit_and (a / 2) (b / 2) * 2 + min (a % 2) (b % 2)
bit_and_half zero b = simp bit_and-bitwise (omega arith)
bit_and_half (suc a) b = simp bit_and-bitwise (bitwise_half (λ y. 0) min a b)

pub bit_or_half : (a b : ℕ) → bit_or a b ≡ bit_or (a / 2) (b / 2) * 2 + max (a % 2) (b % 2)
bit_or_half zero b = simp bit_or-bitwise (omega arith)
bit_or_half (suc a) b = simp bit_or-bitwise (bitwise_half (λ y. y) max a b)

bit_and-zero_below : (n a : ℕ) → a ≤ n → bit_and a 0 ≡ 0
bit_and-zero_below n zero h = refl
bit_and-zero_below zero (suc a) h = absurd (omega arith)
bit_and-zero_below (suc n) (suc a) h =
    omega (arith, bit_and_half (suc a) 0, bit_and-zero_below n (suc a / 2) (omega arith))

pub bit_and-zero : (a : ℕ) → bit_and a 0 ≡ 0
bit_and-zero a = bit_and-zero_below a a (omega arith)

double-pow : (q k : ℕ) → q * 2 ^ suc k ≡ 2 * (q * 2 ^ k)
double-pow q k = omega (arith, ap (λ (t : ℕ). q * t) (pow-suc 2 k))

bit_and_low_parts : (k q r : ℕ) → r < 2 ^ k → bit_and (q * 2 ^ k + r) (2 ^ k - 1) ≡ r
bit_and_low_parts zero q r fits = rw bit_and-zero (omega arith)
bit_and_low_parts (suc k) q r fits = ground (
  arith,
  bit_and_half (q * 2 ^ suc k + r) (2 ^ suc k - 1),
  double-pow q k,
  pow-suc 2 k,
  bit_and_low_parts k q (r / 2) (omega arith),
)

-- `a & (2^k - 1)`.
pub bit_and_low : (k a : ℕ) → bit_and a (2 ^ k - 1) ≡ a % 2 ^ k
bit_and_low k a = ground (arith, one-le-pow k 2, bit_and_low_parts k (a / 2 ^ k) (a % 2 ^ k))

-- The mask of the bits from `k` to `k + d`, applied to a number that fits `k + d` bits.
bit_and_high_parts :
    (d k q r : ℕ)
    → q < 2 ^ d
    → r < 2 ^ k
    → bit_and (q * 2 ^ k + r) ((2 ^ d - 1) * 2 ^ k) ≡ q * 2 ^ k
bit_and_high_parts d zero q r small fits = ground (arith, bit_and_low d q, mod-eq_of_lt small)
bit_and_high_parts d (suc k) q r small fits = ground (
  arith,
  bit_and_half (q * 2 ^ suc k + r) ((2 ^ d - 1) * 2 ^ suc k),
  double-pow q k,
  double-pow (2 ^ d - 1) k,
  pow-suc 2 k,
  bit_and_high_parts d k q (r / 2) small (omega arith),
)

bit_and-le_below : (n a b : ℕ) → a ≤ n → bit_and a b ≤ a
bit_and-le_below n zero b h = omega (arith, bit_and-bitwise 0 b)
bit_and-le_below zero (suc a) b h = absurd (omega arith)
bit_and-le_below (suc n) (suc a) b h =
    omega (arith, bit_and_half (suc a) b, bit_and-le_below n (suc a / 2) (b / 2) (omega arith))

pub bit_and-le : (a b : ℕ) → bit_and a b ≤ a
bit_and-le a b = bit_and-le_below a a b (omega arith)

-- `a & ~(2^k - 1)`, for `a` of `d + k` bits.
pub bit_and_high :
    (d k a : ℕ) → a / 2 ^ k < 2 ^ d → bit_and a ((2 ^ d - 1) * 2 ^ k) ≡ a / 2 ^ k * 2 ^ k
bit_and_high d k a small =
    ground (arith, one-le-pow k 2, bit_and_high_parts d k (a / 2 ^ k) (a % 2 ^ k) small)
