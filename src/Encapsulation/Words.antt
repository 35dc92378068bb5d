-- ===== src/Encapsulation/Words.antt =====
-- What the little-endian readers return, as plain arithmetic, and that they undo the writers.
use Prim.Native.Nat.{bit_or}
use native.Mathlib.Nat.{pow-suc, add_assoc}
use esp32_control_logix.Base.{
  ℕ, zero, suc, ◌+◌, ◌*◌, ◌/◌, ◌%◌, ◌^◌, ◌≤◌, ◌<◌, ◌≡◌, refl, ap, ◌∙◌, List, [], ◌∷◌, ◌++◌,
  get_or-append_right, All, length, store, length-store, get_or-store, get_or-store_before, arith,
}
use esp32_control_logix.Base.Bits.{bit_or_low, bit_or_high}
use esp32_control_logix.Encapsulation.{
  IsByte, byte_at, get_u16, get_u32, get_u64, get_u64_loop, put_u16, put_u32, u16_bytes, u32_bytes,
}

pub byte_at-IsByte : (buf : List ℕ) (p : ℕ) → All IsByte buf → IsByte (byte_at buf p)
byte_at-IsByte [] p h = omega arith
byte_at-IsByte (x ∷ xs) zero h = h.0
byte_at-IsByte (x ∷ xs) (suc p) h = byte_at-IsByte xs p h.1

-- `getU16` of two bytes is their little-endian value.
pub get_u16_lem :
    (buf : List ℕ) (p : ℕ)
    → All IsByte buf
    → get_u16 buf p ≡ byte_at buf p + byte_at buf (p + 1) * 256
unfolding get_u16
get_u16_lem buf p h = omega (
  arith,
  bit_or_low 8 (byte_at buf p) (byte_at buf (p + 1)) (byte_at-IsByte buf p h),
  byte_at-IsByte buf p h,
  byte_at-IsByte buf (p + 1) h,
)

or_bytes :
    (a b c d : ℕ)
    → IsByte a
    → IsByte b
    → IsByte c
    → IsByte d
    → bit_or (bit_or (bit_or a (b * 2 ^ 8)) (c * 2 ^ 16)) (d * 2 ^ 24)
      ≡ a + b * 256 + c * 65536 + d * 16777216
or_bytes a b c d ha hb hc hd = rw (bit_or_low 8 a b ha) (
    rw (bit_or_low 16 (a + b * 2 ^ 8) c (omega arith))
      (rw (bit_or_low 24 (a + b * 2 ^ 8 + c * 2 ^ 16) d (omega arith)) (omega arith)))

pub get_u32_lem :
    (buf : List ℕ) (p : ℕ)
    → All IsByte buf
    → get_u32 buf p
      ≡ byte_at buf p
        + byte_at buf (p + 1) * 256
        + byte_at buf (p + 2) * 65536
        + byte_at buf (p + 3) * 16777216
unfolding get_u32
get_u32_lem buf p h = omega (
  arith,
  or_bytes (byte_at buf p) (byte_at buf (p + 1)) (byte_at buf (p + 2)) (byte_at buf (p + 3))
      (byte_at-IsByte buf p h) (byte_at-IsByte buf (p + 1) h) (byte_at-IsByte buf (p + 2) h)
      (byte_at-IsByte buf (p + 3) h),
  byte_at-IsByte buf p h,
  byte_at-IsByte buf (p + 1) h,
  byte_at-IsByte buf (p + 2) h,
  byte_at-IsByte buf (p + 3) h,
)

-- The value of `n` bytes at `p`, lowest first.
abbrev pub value : List ℕ → ℕ → ℕ → ℕ
value buf p zero = 0
value buf p (suc n) = value buf p n + byte_at buf (p + n) * 256 ^ n

shift_in : (v b : ℕ) → v < 2 ^ 56 → IsByte b → bit_or (v * 2 ^ 8 % 2 ^ 64) b ≡ v * 256 + b
shift_in v b hv hb =
    let fits : v * 2 ^ 8 % 2 ^ 64 ≡ v * 2 ^ 8 = omega arith in rw fits (bit_or_high 8 v b hb)

pow_pos : (i : ℕ) → 0 < 256 ^ i
pow_pos zero = omega arith
pow_pos (suc i) = omega (arith, pow-suc 256 i, pow_pos i)

small_shift : (i v : ℕ) → (v + 1) * 256 ^ suc i ≤ 2 ^ 64 → v < 2 ^ 56
small_shift i v h = grind (arith, pow-suc 256 i, pow_pos i)

widen : (a b p : ℕ) → a ≤ b → a * p ≤ b * p
widen a b p h = grind arith

next_fits :
    (i v b : ℕ) → IsByte b → (v + 1) * 256 ^ suc i ≤ 2 ^ 64 → (v * 256 + b + 1) * 256 ^ i ≤ 2 ^ 64
next_fits i v b hb h = omega (
  arith,
  widen (b + 1) 256 (256 ^ i) (omega arith),
  h,
  ap (λ (t : ℕ). (v + 1) * t) (pow-suc 256 i),
)

get_u64_loop_lem :
    (i : ℕ) (buf : List ℕ) (p v : ℕ)
    → All IsByte buf
    → (v + 1) * 256 ^ i ≤ 2 ^ 64
    → get_u64_loop i buf p v ≡ v * 256 ^ i + value buf p i
unfolding get_u64_loop
get_u64_loop_lem zero buf p v h fits = omega arith
get_u64_loop_lem (suc i) buf p v h fits =
    let b = byte_at buf (p + i) in
    let hb = byte_at-IsByte buf (p + i) h in
    rw (shift_in v b (small_shift i v fits) hb) (
      omega (
        arith,
        get_u64_loop_lem i buf p (v * 256 + b) h (next_fits i v b hb fits),
        ap (λ (t : ℕ). v * t) (pow-suc 256 i),
      ))

first : (buf : List ℕ) (p : ℕ) → byte_at buf (p + 0) ≡ byte_at buf p
first buf p = ap (byte_at buf) (omega arith)

-- On bytes, the three readers return the little-endian value of 2, 4 and 8 bytes.
pub get_u16-value : (buf : List ℕ) (p : ℕ) → All IsByte buf → get_u16 buf p ≡ value buf p 2
get_u16-value buf p h = omega (arith, get_u16_lem buf p h, first buf p)

pub get_u32-value : (buf : List ℕ) (p : ℕ) → All IsByte buf → get_u32 buf p ≡ value buf p 4
get_u32-value buf p h = omega (arith, get_u32_lem buf p h, first buf p)

-- What was written at `p` is read back at `p`.
pub value-store :
    (buf : List ℕ) (p : ℕ) (bs : List ℕ) (j n : ℕ)
    → p + length bs ≤ length buf
    → j + n ≤ length bs
    → value (store buf p bs) (p + j) n ≡ value bs j n
value-store buf p bs j zero h k = refl
value-store buf p bs j (suc n) h k =
    let same : byte_at (store buf p bs) (p + j + n) ≡ byte_at bs (j + n) =
      ap (byte_at (store buf p bs)) (add_assoc p j n)
      ∙ get_or-store buf p bs (j + n) 0 h (omega arith) in
    rw (same, value-store buf p bs j n h (omega arith))

pub get_u64-value : (buf : List ℕ) (p : ℕ) → All IsByte buf → get_u64 buf p ≡ value buf p 8
unfolding get_u64
get_u64-value buf p h = omega (arith, get_u64_loop_lem 8 buf p 0 h (omega arith))

-- A write behind a field leaves it alone.
pub get_u16-store_before :
    (buf : List ℕ) (p off : ℕ) (bs : List ℕ)
    → p + 2 ≤ off
    → get_u16 (store buf off bs) p ≡ get_u16 buf p
unfolding get_u16
get_u16-store_before buf p off bs h = rw (
  get_or-store_before buf off bs p 0 (omega arith),
  get_or-store_before buf off bs (p + 1) 0 (omega arith),
)

byte_at-append : (pre bs : List ℕ) (i : ℕ) → byte_at (pre ++ bs) (length pre + i) ≡ byte_at bs i
byte_at-append pre bs i = get_or-append_right pre bs i 0

byte_at-append_first : (pre bs : List ℕ) → byte_at (pre ++ bs) (length pre) ≡ byte_at bs 0
byte_at-append_first pre bs = ap (byte_at (pre ++ bs)) (omega arith) ∙ byte_at-append pre bs 0

-- Two bytes in the middle of a buffer are read as the number that they encode.
pub get_u16-u16_bytes :
    (pre rest : List ℕ) (v : ℕ)
    → v < 2 ^ 16
    → get_u16 (pre ++ (u16_bytes v ++ rest)) (length pre) ≡ v
unfolding get_u16
get_u16-u16_bytes pre rest v h =
    let bs = u16_bytes v ++ rest in
    rw (byte_at-append_first pre bs, byte_at-append pre bs 1)
      (omega (arith, bit_or_low 8 (v % 256) (v / 2 ^ 8 % 256) (omega arith)))

-- A number behind other bytes.
pub get_u32-append : (pre bs : List ℕ) → get_u32 (pre ++ bs) (length pre) ≡ get_u32 bs 0
unfolding get_u32
get_u32-append pre bs =
    rw
      (
        byte_at-append_first pre bs,
        byte_at-append pre bs 1,
        byte_at-append pre bs 2,
        byte_at-append pre bs 3,
      )
      refl

-- A number in front of other bytes.
pub get_u32-append_front :
    (bs rest : List ℕ) → 4 ≤ length bs → get_u32 (bs ++ rest) 0 ≡ get_u32 bs 0
unfolding get_u32
get_u32-append_front (a ∷ b ∷ c ∷ d ∷ bs) rest h = refl
get_u32-append_front (a ∷ b ∷ c ∷ []) rest h = absurd (omega (arith, h))
get_u32-append_front (a ∷ b ∷ []) rest h = absurd (omega (arith, h))
get_u32-append_front (a ∷ []) rest h = absurd (omega (arith, h))
get_u32-append_front [] rest h = absurd (omega (arith, h))

pub length-put_u16 : (buf : List ℕ) (p v : ℕ) → length (put_u16 buf p v) ≡ length buf
unfolding put_u16
length-put_u16 buf p v = length-store buf p (u16_bytes v)

pub length-put_u32 : (buf : List ℕ) (p v : ℕ) → length (put_u32 buf p v) ≡ length buf
unfolding put_u32
length-put_u32 buf p v = length-store buf p (u32_bytes v)
