-- ===== src/Base/Bits.antt =====
-- `|` of two numbers whose bits do not overlap is their sum.
use Prim.Native.Nat.{
  ℕ, zero, suc, ◌+◌, ◌*◌, ◌/◌, ◌%◌, ◌^◌, ◌≤◌, ◌<◌, max, bit_or, digits, bit_or-bitwise,
}
use mathlib.Core.Path.{◌≡◌, refl, ap}
use native.Mathlib.Nat.{pow-suc}
use native.Mathlib.Omega.{arith}

-- `digits` on a bound of its first number or more gives one result.
pub digits-enough :
    (rest : ℕ → ℕ) (bit : ℕ → ℕ → ℕ) (k l x y : ℕ)
    → x ≤ k
    → x ≤ l
    → digits rest bit k x y ≡ digits rest bit l x y
digits-enough rest bit zero zero x y small large = refl
digits-enough rest bit zero (suc l) (suc x) y small large = absurd (omega (arith, small))
digits-enough rest bit (suc k) zero (suc x) y small large = absurd (omega (arith, large))
digits-enough rest bit zero (suc l) zero y small large = refl
digits-enough rest bit (suc k) zero zero y small large = refl
digits-enough rest bit (suc k) (suc l) zero y small large = refl
digits-enough rest bit (suc k) (suc l) (suc x) y small large =
    let halves = digits-enough rest bit k l (suc x / 2) (y / 2) (omega arith) (omega arith) in
    omega (arith, halves)

pub zero-bit_or : (b : ℕ) → bit_or 0 b ≡ b
zero-bit_or b = bit_or-bitwise 0 b

pub bit_or_halves : (a b : ℕ) → bit_or a b ≡ bit_or (a / 2) (b / 2) * 2 + max (a % 2) (b % 2)
bit_or_halves zero b = omega (arith, zero-bit_or b, zero-bit_or (b / 2))
bit_or_halves (suc a) b = omega (
  arith,
  bit_or-bitwise (suc a) b,
  bit_or-bitwise (suc a / 2) (b / 2),
  digits-enough (λ c. c) max a (suc a / 2) (suc a / 2) (b / 2) (omega arith) (omega arith),
)

bit_or-zero_fuel : (n a : ℕ) → a ≤ n → bit_or a 0 ≡ a
bit_or-zero_fuel n zero h = refl
bit_or-zero_fuel zero (suc a) h = absurd (omega arith)
bit_or-zero_fuel (suc n) (suc a) h =
    omega (arith, bit_or_halves (suc a) 0, bit_or-zero_fuel n (suc a / 2) (omega arith))

pub bit_or-zero : (a : ℕ) → bit_or a 0 ≡ a
bit_or-zero a = bit_or-zero_fuel a a (omega arith)

pow_twice : (k q : ℕ) → q * 2 ^ suc k ≡ q * 2 ^ k * 2
pow_twice k q = omega (arith, ap (λ (t : ℕ). q * t) (pow-suc 2 k))

-- The low part on the left.
pub bit_or_low : (k r q : ℕ) → r < 2 ^ k → bit_or r (q * 2 ^ k) ≡ r + q * 2 ^ k
bit_or_low zero zero q h = omega (arith, zero-bit_or (q * 1))
bit_or_low zero (suc r) q h = absurd (omega arith)
bit_or_low (suc k) r q h = rw (pow_twice k q) (
    omega (
      arith,
      bit_or_halves r (q * 2 ^ k * 2),
      ap (λ (t : ℕ). bit_or (r / 2) t) half,
      bit_or_low k (r / 2) q (omega (arith, pow-suc 2 k)),
    ))
  where
    half : q * 2 ^ k * 2 / 2 ≡ q * 2 ^ k
    half = omega arith

-- The low part on the right.
pub bit_or_high : (k q r : ℕ) → r < 2 ^ k → bit_or (q * 2 ^ k) r ≡ q * 2 ^ k + r
bit_or_high zero q zero h = omega (arith, bit_or-zero (q * 1))
bit_or_high zero q (suc r) h = absurd (omega arith)
bit_or_high (suc k) q r h = rw (pow_twice k q) (
    omega (
      arith,
      bit_or_halves (q * 2 ^ k * 2) r,
      ap (λ (t : ℕ). bit_or t (r / 2)) half,
      bit_or_high k q (r / 2) (omega (arith, pow-suc 2 k)),
    ))
  where
    half : q * 2 ^ k * 2 / 2 ≡ q * 2 ^ k
    half = omega arith
