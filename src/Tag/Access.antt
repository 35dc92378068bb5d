-- ===== src/Tag/Access.antt =====
-- The typed accessors of the data buffer, at any byte offset. A `float` or `double` is its bit
-- pattern, which `memcpy` moves byte by byte on the little-endian target.
pub mod RoundTrip
pub mod Strings
use esp32_control_logix.Base.{
  ℕ, ◌+◌, ◌-◌, ◌%◌, ◌^◌, ◌≤◌, ◌<◌, ◌≡◌, Bool, true, false, not, ◌&&◌, Option, none, some, List, [],
  ◌∷◌, ◌++◌, length, take, drop, store, ltb, leb, ◌==◌, if◌then◌else◌,
}
use esp32_control_logix.Base.Int.{ℤ, pos, signed, unsigned}
use esp32_control_logix.Encapsulation.{
  byte_at, put_u16, put_u32, put_u64, get_u16, get_u32, get_u64,
}
use esp32_control_logix.Tag.{Tag, max_data_size}

pub in_bounds : ℕ → ℕ → Bool
in_bounds off size = leb size max_data_size && leb off (max_data_size - size)

-- The shape that all getters share: `inBounds(off, size) ? … : 0`.
abbrev get_at {ℓ} : {A : Type ℓ} → ℕ → ℕ → A → A → A
get_at off size value default = if in_bounds off size then value else default

abbrev set_at : Tag → ℕ → ℕ → List ℕ → Tag
set_at tag off size buf = if in_bounds off size then record tag { payload = buf } else tag

pub get_bool : Tag → ℕ → Bool
unfolding in_bounds
get_bool tag off = in_bounds off 1 && not (byte_at tag.payload off == 0)

pub get_uint8 : Tag → ℕ → ℕ
unfolding in_bounds
get_uint8 tag off = get_at off 1 (byte_at tag.payload off) 0

pub get_uint16 : Tag → ℕ → ℕ
unfolding in_bounds
get_uint16 tag off = get_at off 2 (get_u16 tag.payload off) 0

pub get_uint32 : Tag → ℕ → ℕ
unfolding in_bounds
get_uint32 tag off = get_at off 4 (get_u32 tag.payload off) 0

pub get_uint64 : Tag → ℕ → ℕ
unfolding in_bounds
get_uint64 tag off = get_at off 8 (get_u64 tag.payload off) 0

pub get_int8 : Tag → ℕ → ℤ
unfolding in_bounds
get_int8 tag off = get_at off 1 (signed (2 ^ 7) (byte_at tag.payload off)) (pos 0)

pub get_int16 : Tag → ℕ → ℤ
unfolding in_bounds
get_int16 tag off = get_at off 2 (signed (2 ^ 15) (get_u16 tag.payload off)) (pos 0)

pub get_int32 : Tag → ℕ → ℤ
unfolding in_bounds
get_int32 tag off = get_at off 4 (signed (2 ^ 31) (get_u32 tag.payload off)) (pos 0)

pub get_int64 : Tag → ℕ → ℤ
unfolding in_bounds
get_int64 tag off = get_at off 8 (signed (2 ^ 63) (get_u64 tag.payload off)) (pos 0)

pub get_float32 : Tag → ℕ → ℕ
unfolding in_bounds
get_float32 tag off = if not (in_bounds off 4) then 0 else get_u32 tag.payload off

pub get_float64 : Tag → ℕ → ℕ
unfolding in_bounds
get_float64 tag off = if not (in_bounds off 8) then 0 else get_u64 tag.payload off

pub set_bool : Tag → ℕ → Bool → Tag
unfolding in_bounds
set_bool tag off v = set_at tag off 1 (store tag.payload off ((if v then 1 else 0) ∷ []))

pub set_uint8 : Tag → ℕ → ℕ → Tag
unfolding in_bounds
set_uint8 tag off v = set_at tag off 1 (store tag.payload off (v ∷ []))

pub set_uint16 : Tag → ℕ → ℕ → Tag
unfolding in_bounds
set_uint16 tag off v = set_at tag off 2 (put_u16 tag.payload off v)

pub set_uint32 : Tag → ℕ → ℕ → Tag
unfolding in_bounds
set_uint32 tag off v = set_at tag off 4 (put_u32 tag.payload off v)

pub set_uint64 : Tag → ℕ → ℕ → Tag
unfolding in_bounds
set_uint64 tag off v = set_at tag off 8 (put_u64 tag.payload off v)

pub set_int8 : Tag → ℕ → ℤ → Tag
unfolding in_bounds
set_int8 tag off v = set_at tag off 1 (store tag.payload off (unsigned (2 ^ 7) v ∷ []))

pub set_int16 : Tag → ℕ → ℤ → Tag
unfolding in_bounds
set_int16 tag off v = set_at tag off 2 (put_u16 tag.payload off (unsigned (2 ^ 15) v))

pub set_int32 : Tag → ℕ → ℤ → Tag
unfolding in_bounds
set_int32 tag off v = set_at tag off 4 (put_u32 tag.payload off (unsigned (2 ^ 31) v))

pub set_int64 : Tag → ℕ → ℤ → Tag
unfolding in_bounds
set_int64 tag off v = set_at tag off 8 (put_u64 tag.payload off (unsigned (2 ^ 63) v))

pub set_float32 : Tag → ℕ → ℕ → Tag
unfolding in_bounds
set_float32 tag off v = set_at tag off 4 (put_u32 tag.payload off v)

pub set_float64 : Tag → ℕ → ℕ → Tag
unfolding in_bounds
set_float64 tag off v = set_at tag off 8 (put_u64 tag.payload off v)

-- `getString(buf, bufLen)`: the number of characters, and the caller's buffer.
pub get_string : Tag → Option (List ℕ) → ℕ → ℕ × Option (List ℕ)
get_string tag none buf_len = (0, none)
get_string tag (some buf) buf_len =
    let len = get_u32 tag.payload 0 in
    let held = if ltb len (tag.payload_len - 4) then len else tag.payload_len - 4 in
    let n = if ltb (buf_len - 1) held then buf_len - 1 else held in
    if ltb tag.payload_len 4
    then (0, some buf)
    else if buf_len == 0
    then (0, some buf)
    else (n, some (store (store buf 0 (take n (drop 4 tag.payload))) n (0 ∷ [])))

pub set_string : Tag → Option (List ℕ) → Tag
set_string tag none = tag
set_string tag (some s) =
    let len = if ltb (max_data_size - 4) (length s) then max_data_size - 4 else length s in
    let b1 = put_u32 tag.payload 0 len in
    record tag { payload = store b1 4 (take len s); payload_len = 4 + len }
