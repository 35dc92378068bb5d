-- ===== src/Tag/Access/RoundTrip.antt =====
-- What a typed setter of a tag writes is what the getter of that type reads.
use esp32_control_logix.Base.{
  ℕ, ◌+◌, ◌%◌, ◌^◌, ◌≤◌, ◌<◌, ◌≡◌, List, length, store, store-All, All, arith, ap, ◌∙◌, inl, inr,
  Bool-cases, leb, if◌then◌else◌,
}
use esp32_control_logix.Base.Int.{ℤ, pos, negsuc, signed, unsigned, Fits}
use esp32_control_logix.Encapsulation.{
  IsByte, u16_bytes, u32_bytes, u64_bytes, put_u16, put_u32, put_u64, get_u16, get_u32, get_u64,
}
use esp32_control_logix.Encapsulation.Words.{
  value, value-store, get_u16-value, get_u32-value, get_u64-value,
}
use esp32_control_logix.Tag.{Tag, max_data_size}
use esp32_control_logix.Tag.Access.{
  in_bounds, get_uint32, set_uint32, get_int16, set_int16, get_int32, set_int32, get_int64,
  set_int64,
}

-- The buffer of a tag.
pub record IsTag (tag : Tag) : Type 0 where
  pub payload_length : length tag.payload ≡ max_data_size
  pub payload_bytes : All IsByte tag.payload

-- The guard of the accessors, written without the wrap-around that it avoids.
in_bounds_lem : (off size : ℕ) → in_bounds off size ≡ leb (off + size) max_data_size
unfolding in_bounds
in_bounds_lem off size = ground arith

-- What is written at an offset is the value of the bytes written.
pub value-store_at :
    (buf : List ℕ) (off n : ℕ) (bs : List ℕ)
    → off + length bs ≤ length buf
    → n ≤ length bs
    → value (store buf off bs) off n ≡ value bs 0 n
value-store_at buf off n bs h k =
    ap (λ p. value (store buf off bs) p n) (omega arith)
    ∙ value-store buf off bs 0 n h (omega (arith, k))

get_u16-put_u16 :
    (buf : List ℕ) (off v : ℕ)
    → off + 2 ≤ length buf
    → All IsByte buf
    → get_u16 (put_u16 buf off v) off ≡ v % 2 ^ 16
unfolding put_u16
get_u16-put_u16 buf off v h b =
    let bytes : All IsByte (u16_bytes v) = omega arith in
    let all = store-All IsByte buf off (u16_bytes v) b bytes in
    get_u16-value (store buf off (u16_bytes v)) off all
    ∙ value-store_at buf off 2 (u16_bytes v) h (omega arith)
    ∙ omega arith

get_u32-put_u32 :
    (buf : List ℕ) (off v : ℕ)
    → off + 4 ≤ length buf
    → All IsByte buf
    → get_u32 (put_u32 buf off v) off ≡ v % 2 ^ 32
unfolding put_u32
get_u32-put_u32 buf off v h b =
    let bytes : All IsByte (u32_bytes v) = omega arith in
    let all = store-All IsByte buf off (u32_bytes v) b bytes in
    get_u32-value (store buf off (u32_bytes v)) off all
    ∙ value-store_at buf off 4 (u32_bytes v) h (omega arith)
    ∙ omega arith

get_u64-put_u64 :
    (buf : List ℕ) (off v : ℕ)
    → off + 8 ≤ length buf
    → All IsByte buf
    → get_u64 (put_u64 buf off v) off ≡ v % 2 ^ 64
unfolding put_u64
get_u64-put_u64 buf off v h b =
    let bytes : All IsByte (u64_bytes v) = omega arith in
    let all = store-All IsByte buf off (u64_bytes v) b bytes in
    get_u64-value (store buf off (u64_bytes v)) off all
    ∙ value-store_at buf off 8 (u64_bytes v) h (omega arith)
    ∙ omega arith

signed-unsigned16 : (v : ℤ) → Fits (2 ^ 15) v → signed (2 ^ 15) (unsigned (2 ^ 15) v % 2 ^ 16) ≡ v
signed-unsigned16 (pos n) h = ground arith
signed-unsigned16 (negsuc n) h = ground arith

signed-unsigned32 : (v : ℤ) → Fits (2 ^ 31) v → signed (2 ^ 31) (unsigned (2 ^ 31) v % 2 ^ 32) ≡ v
signed-unsigned32 (pos n) h = ground arith
signed-unsigned32 (negsuc n) h = ground arith

signed-unsigned64 : (v : ℤ) → Fits (2 ^ 63) v → signed (2 ^ 63) (unsigned (2 ^ 63) v % 2 ^ 64) ≡ v
signed-unsigned64 (pos n) h = ground arith
signed-unsigned64 (negsuc n) h = ground arith

-- After `setUInt32` of a value in range, at any offset, the getter returns the value where the field
-- lies inside the 256 bytes of the buffer, and 0 where it does not.
pub get_uint32-set_uint32 :
    (tag : Tag) (off v : ℕ)
    → IsTag tag
    → v < 2 ^ 32
    → get_uint32 (set_uint32 tag off v) off ≡ (if leb (off + 4) max_data_size then v else 0)
unfolding get_uint32 set_uint32
get_uint32-set_uint32 tag off v i h = elim (Bool-cases (leb (off + 4) max_data_size)) [
  | inl e ↦
      let room : off + 4 ≤ length tag.payload = ground (arith, e, i.payload_length) in
      let back = get_u32-put_u32 tag.payload off v room i.payload_bytes in
      ground (arith, e, in_bounds_lem off 4, back)
  | inr e ↦ ground (arith, e, in_bounds_lem off 4)
]

-- After `setInt16` of a value in range, at any offset, the getter returns the value where the field
-- lies inside the 256 bytes of the buffer, and 0 where it does not.
pub get_int16-set_int16 :
    (tag : Tag) (off : ℕ) (v : ℤ)
    → IsTag tag
    → Fits (2 ^ 15) v
    → get_int16 (set_int16 tag off v) off ≡ (if leb (off + 2) max_data_size then v else pos 0)
unfolding get_int16 set_int16
get_int16-set_int16 tag off v i h = elim (Bool-cases (leb (off + 2) max_data_size)) [
  | inl e ↦
      let room : off + 2 ≤ length tag.payload = ground (arith, e, i.payload_length) in
      let back = get_u16-put_u16 tag.payload off (unsigned (2 ^ 15) v) room i.payload_bytes in
      ground (arith, e, in_bounds_lem off 2, back, signed-unsigned16 v h)
  | inr e ↦ ground (arith, e, in_bounds_lem off 2)
]

-- After `setInt32` of a value in range, at any offset, the getter returns the value where the field
-- lies inside the 256 bytes of the buffer, and 0 where it does not.
pub get_int32-set_int32 :
    (tag : Tag) (off : ℕ) (v : ℤ)
    → IsTag tag
    → Fits (2 ^ 31) v
    → get_int32 (set_int32 tag off v) off ≡ (if leb (off + 4) max_data_size then v else pos 0)
unfolding get_int32 set_int32
get_int32-set_int32 tag off v i h = elim (Bool-cases (leb (off + 4) max_data_size)) [
  | inl e ↦
      let room : off + 4 ≤ length tag.payload = ground (arith, e, i.payload_length) in
      let back = get_u32-put_u32 tag.payload off (unsigned (2 ^ 31) v) room i.payload_bytes in
      ground (arith, e, in_bounds_lem off 4, back, signed-unsigned32 v h)
  | inr e ↦ ground (arith, e, in_bounds_lem off 4)
]

-- After `setInt64` of a value in range, at any offset, the getter returns the value where the field
-- lies inside the 256 bytes of the buffer, and 0 where it does not.
pub get_int64-set_int64 :
    (tag : Tag) (off : ℕ) (v : ℤ)
    → IsTag tag
    → Fits (2 ^ 63) v
    → get_int64 (set_int64 tag off v) off ≡ (if leb (off + 8) max_data_size then v else pos 0)
unfolding get_int64 set_int64
get_int64-set_int64 tag off v i h = elim (Bool-cases (leb (off + 8) max_data_size)) [
  | inl e ↦
      let room : off + 8 ≤ length tag.payload = ground (arith, e, i.payload_length) in
      let back = get_u64-put_u64 tag.payload off (unsigned (2 ^ 63) v) room i.payload_bytes in
      ground (arith, e, in_bounds_lem off 8, back, signed-unsigned64 v h)
  | inr e ↦ ground (arith, e, in_bounds_lem off 8)
]
