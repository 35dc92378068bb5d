-- ===== src/Encapsulation/Header.antt =====
-- The encapsulation header as 24 bytes: what `encodeHeader` writes and `decodeHeader` reads.
use esp32_control_logix.Base.{
  ℕ, ◌+◌, ◌^◌, ◌≤◌, ◌<◌, ◌≡◌, ap, ◌∙◌, List, ◌++◌, length, take, drop, store, length-store,
  store-store, take-store_before, drop-store, store-All, All, arith,
}
use esp32_control_logix.Encapsulation.{
  IsByte, EncapsulationHeader, u16_bytes, u32_bytes, u64_bytes, encode_header, decode_header,
  header_size,
}
use esp32_control_logix.Encapsulation.Words.{
  value, value-store, get_u16-value, get_u32-value, get_u64-value,
}

-- The fields fit their C++ types.
pub record IsHeader (h : EncapsulationHeader) : Type 0 where
  pub command_u16 : h.command < 2 ^ 16
  pub length_u16 : h.length < 2 ^ 16
  pub session_u32 : h.session < 2 ^ 32
  pub status_u32 : h.status < 2 ^ 32
  pub context_u64 : h.context < 2 ^ 64
  pub options_u32 : h.options < 2 ^ 32

-- The wire format: the fields in order, little-endian.
abbrev pub header_bytes : EncapsulationHeader → List ℕ
header_bytes h =
    u16_bytes h.command
    ++ (u16_bytes h.length
        ++ (u32_bytes h.session
            ++ (u32_bytes h.status ++ (u64_bytes h.context ++ u32_bytes h.options))))

-- `encodeHeader` is one write of the wire format, at any offset of any buffer.
pub encode_header-eq-store :
    (buf : List ℕ) (out : ℕ) (h : EncapsulationHeader)
    → encode_header buf out h ≡ store buf out (header_bytes h)
unfolding encode_header
encode_header-eq-store buf out h =
    let s1 = u16_bytes h.command in
    let s2 = s1 ++ u16_bytes h.length in
    let s3 = s2 ++ u32_bytes h.session in
    let s4 = s3 ++ u32_bytes h.status in
    let s5 = s4 ++ u64_bytes h.context in
    rw (
      store-store buf out s1 (u16_bytes h.length),
      store-store buf out s2 (u32_bytes h.session),
      store-store buf out s3 (u32_bytes h.status),
      store-store buf out s4 (u64_bytes h.context),
      store-store buf out s5 (u32_bytes h.options),
    )

-- `decodeHeader` on bytes, field by field.
decode_header-value :
    (buf : List ℕ) (p : ℕ)
    → All IsByte buf
    → decode_header buf p ≡ record {
      command = value buf p 2;
      length = value buf (p + 2) 2;
      session = value buf (p + 4) 4;
      status = value buf (p + 8) 4;
      context = value buf (p + 12) 8;
      options = value buf (p + 20) 4;
    }
unfolding decode_header
decode_header-value buf p v = rw (
  get_u16-value buf p v,
  get_u16-value buf (p + 2) v,
  get_u32-value buf (p + 4) v,
  get_u32-value buf (p + 8) v,
  get_u64-value buf (p + 12) v,
  get_u32-value buf (p + 20) v,
)

header_bytes-values :
    (h : EncapsulationHeader)
    → IsHeader h
    → (value (header_bytes h) 0 2 ≡ h.command)
      × (value (header_bytes h) 2 2 ≡ h.length)
      × (value (header_bytes h) 4 4 ≡ h.session)
      × (value (header_bytes h) 8 4 ≡ h.status)
      × (value (header_bytes h) 12 8 ≡ h.context)
      × (value (header_bytes h) 20 4 ≡ h.options)
header_bytes-values h v = omega arith

pub header_bytes-IsByte : (h : EncapsulationHeader) → All IsByte (header_bytes h)
header_bytes-IsByte h = omega arith

-- A header that fits its types and is written to a buffer of bytes, at any offset that leaves room
-- for 24 bytes, is read back unchanged; the bytes before and behind it stay as they were.
pub decode_header-encode_header :
    (buf : List ℕ) (out : ℕ) (h : EncapsulationHeader)
    → All IsByte buf
    → out + header_size ≤ length buf
    → IsHeader h
    → (decode_header (encode_header buf out h) out ≡ h)
      × (take out (encode_header buf out h) ≡ take out buf)
      × (drop (out + header_size) (encode_header buf out h) ≡ drop (out + header_size) buf)
decode_header-encode_header buf out h bytes room v =
    rw (encode_header-eq-store buf out h)
      (decoded, take-store_before buf out out _ (omega arith), drop-store buf out (header_bytes h))
  where
    tx : List ℕ
    tx = store buf out (header_bytes h)

    first : value tx out 2 ≡ value (header_bytes h) 0 2
    first =
        ap (λ k. value tx k 2) (omega arith)
        ∙ value-store buf out (header_bytes h) 0 2 room (omega arith)

    decoded : decode_header tx out ≡ h
    decoded =
        decode_header-value tx out (store-All IsByte buf out _ bytes (header_bytes-IsByte h))
        ∙ ground (
          arith,
          header_bytes-values h v,
          first,
          value-store buf out (header_bytes h) 2 2 room (omega arith),
          value-store buf out (header_bytes h) 4 4 room (omega arith),
          value-store buf out (header_bytes h) 8 4 room (omega arith),
          value-store buf out (header_bytes h) 12 8 room (omega arith),
          value-store buf out (header_bytes h) 20 4 room (omega arith),
        )

pub length-encode_header :
    (buf : List ℕ) (out : ℕ) (h : EncapsulationHeader)
    → length (encode_header buf out h) ≡ length buf
length-encode_header buf out h =
    ap length (encode_header-eq-store buf out h) ∙ length-store buf out (header_bytes h)
