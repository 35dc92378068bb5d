-- ===== src/Base/Int.antt =====
-- The C++ `int` as a signed integer.
use Prim.Native.Nat.{ℕ, zero, suc, ◌+◌, ◌-◌, ◌%◌, ◌<◌}
use mathlib.Core.Path.{◌≡◌, refl}
use mathlib.Core.Logic.{◌⊎◌, inl, inr}
use esp32_control_logix.Base.Tests.{ltb, if◌then◌else◌}

-- `negsuc n` is -(n + 1).
pub data ℤ : Type 0 where
  pos : ℕ → ℤ
  negsuc : ℕ → ℤ

-- How the program looks at a returned number: 0, a count, or a negative code.
pub data Sign (z : ℤ) : Type 0 where
  nothing : z ≡ pos 0 → Sign z
  count : (n : ℕ) → z ≡ pos (suc n) → Sign z
  code : (n : ℕ) → z ≡ negsuc n → Sign z

pub sign : (z : ℤ) → Sign z
sign (pos zero) = nothing refl
sign (pos (suc n)) = count n refl
sign (negsuc n) = code n refl

pub ℤ-cases : (z : ℤ) → ((n : ℕ) × (z ≡ pos n)) ⊎ ((n : ℕ) × (z ≡ negsuc n))
ℤ-cases (pos n) = inl (n, refl)
ℤ-cases (negsuc n) = inr (n, refl)

-- The number that a `w`-bit pattern stands for, given 2 ^ (w - 1), and the pattern of a number.
abbrev pub signed : ℕ → ℕ → ℤ
signed half v = if ltb v half then pos v else negsuc (half + half - 1 - v)

abbrev pub unsigned : ℕ → ℤ → ℕ
unsigned half (pos n) = n % (half + half)
unsigned half (negsuc n) = half + half - 1 - n % (half + half)

-- The numbers that fit.
abbrev pub Fits : ℕ → ℤ → Type 0
Fits half (pos n) = n < half
Fits half (negsuc n) = n < half
