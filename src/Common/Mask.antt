-- ===== src/Common/Mask.antt =====
-- Bits: masking a number by `&` does not exceed the mask, and `|` does not lower a number.
use Prim.Native.Nat.{
  ℕ, zero, suc, ◌/◌, ◌^◌, ◌≤◌, ◌<◌, min, max, bit_and, bit_or, digits, bit_and-bitwise,
  bit_or-bitwise,
}
use native.Mathlib.Nat.{pow-suc}
use native.Mathlib.Omega.{arith}

and_digits-le : (n a mask : ℕ) → digits (λ b. zero) min n a mask ≤ mask
and_digits-le zero a mask = omega arith
and_digits-le (suc n) zero mask = omega arith
and_digits-le (suc n) (suc a) mask = omega (arith, and_digits-le n (suc a / 2) (mask / 2))

pub bit_and-le : (a mask : ℕ) → bit_and a mask ≤ mask
bit_and-le a mask = omega (arith, bit_and-bitwise a mask, and_digits-le a a mask)

or_digits-ge : (n a b : ℕ) → a ≤ n → a ≤ digits (λ c. c) max n a b
or_digits-ge zero a b h = omega arith
or_digits-ge (suc n) zero b h = omega arith
or_digits-ge (suc n) (suc a) b h = omega (arith, or_digits-ge n (suc a / 2) (b / 2) (omega arith))

-- A number with more bits set is not smaller.
pub bit_or-ge : (a b : ℕ) → a ≤ bit_or a b
bit_or-ge a b = omega (arith, bit_or-bitwise a b, or_digits-ge a a b (omega arith))

or_digits-lt : (k n a b : ℕ) → a < 2 ^ k → b < 2 ^ k → digits (λ c. c) max n a b < 2 ^ k
or_digits-lt k zero a b h g = g
or_digits-lt k (suc n) zero b h g = g
or_digits-lt zero (suc n) (suc a) b h g = absurd (omega arith)
or_digits-lt (suc k) (suc n) (suc a) b h g =
    let twice = pow-suc 2 k in
    let rest =
      or_digits-lt k n (suc a / 2) (b / 2) (omega (arith, twice, h)) (omega (arith, twice, g)) in
    omega (arith, twice, rest)

-- It stays below a power of two.
pub bit_or-lt : (k a b : ℕ) → a < 2 ^ k → b < 2 ^ k → bit_or a b < 2 ^ k
bit_or-lt k a b h g = omega (arith, bit_or-bitwise a b, or_digits-lt k a a b h g)
