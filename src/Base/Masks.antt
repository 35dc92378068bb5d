-- ===== src/Base/Masks.antt =====
-- `x & m` and `x | ~m`: the ends of the range that a mask leaves open.
use Prim.Native.Nat.{
  ℕ, zero, suc, ◌+◌, ◌-◌, ◌*◌, ◌/◌, ◌%◌, ◌^◌, ◌≤◌, ◌<◌, min, bit_and, bit_or, bit_and-bitwise,
}
use mathlib.Core.Path.{◌≡◌, refl, ap}
use native.Mathlib.Nat.{pow-suc}
use native.Mathlib.Omega.{arith}
use esp32_control_logix.Base.Bits.{bit_or_halves, digits-enough}

zero-bit_and : (b : ℕ) → bit_and 0 b ≡ 0
zero-bit_and b = bit_and-bitwise 0 b

bit_and_halves : (a b : ℕ) → bit_and a b ≡ bit_and (a / 2) (b / 2) * 2 + min (a % 2) (b % 2)
bit_and_halves zero b = omega (arith, zero-bit_and b, zero-bit_and (b / 2))
bit_and_halves (suc a) b = omega (
  arith,
  bit_and-bitwise (suc a) b,
  bit_and-bitwise (suc a / 2) (b / 2),
  digits-enough (λ c. zero) min a (suc a / 2) (suc a / 2) (b / 2) (omega arith) (omega arith),
)

pub bit_and-le : (k a b : ℕ) → a < 2 ^ k → bit_and a b ≤ a
bit_and-le zero zero b h = omega (arith, zero-bit_and b)
bit_and-le zero (suc a) b h = absurd (omega arith)
bit_and-le (suc k) a b h =
    omega (arith, bit_and_halves a b, bit_and-le k (a / 2) (b / 2) (omega (arith, pow-suc 2 k)))

-- The two ends lie as far apart as the mask has values left.
pub bit_or-complement :
    (k a m : ℕ) → a < 2 ^ k → m < 2 ^ k → bit_or a (2 ^ k - 1 - m) ≡ bit_and a m + (2 ^ k - 1 - m)
bit_or-complement zero zero zero h g = refl
bit_or-complement zero (suc a) m h g = absurd (omega arith)
bit_or-complement zero zero (suc m) h g = absurd (omega arith)
bit_or-complement (suc k) a m h g = omega (
  arith,
  pow-suc 2 k,
  bit_or_halves a (2 ^ suc k - 1 - m),
  ap (λ (t : ℕ). bit_or (a / 2) t) half,
  bit_and_halves a m,
  bit_or-complement k (a / 2) (m / 2) (omega (arith, pow-suc 2 k)) (omega (arith, pow-suc 2 k)),
)
  where
    half : (2 ^ suc k - 1 - m) / 2 ≡ 2 ^ k - 1 - m / 2
    half = omega (arith, pow-suc 2 k)

pub le-bit_or : (k a b : ℕ) → a < 2 ^ k → b < 2 ^ k → (a ≤ bit_or a b) × (bit_or a b < 2 ^ k)
le-bit_or zero zero zero h g = (omega arith, omega arith)
le-bit_or zero (suc a) b h g = absurd (omega arith)
le-bit_or zero zero (suc b) h g = absurd (omega arith)
le-bit_or (suc k) a b h g =
    let ih =
      le-bit_or k (a / 2) (b / 2) (omega (arith, pow-suc 2 k)) (omega (arith, pow-suc 2 k)) in
    (omega (arith, bit_or_halves a b, ih.0), omega (arith, bit_or_halves a b, ih.1, pow-suc 2 k))
