-- ===== src/Encapsulation.antt =====
-- src/eip/Encapsulation.h and Encapsulation.cpp: the little-endian codecs and the 24-byte header.
-- A pointer into a buffer is the buffer, a list of bytes, and an offset.
pub mod Words
pub mod Header
pub mod Windows
use Prim.Native.Nat.{bit_or}
use esp32_control_logix.Base.{
  ℕ, zero, suc, ◌+◌, ◌*◌, ◌/◌, ◌%◌, ◌^◌, ◌<◌, List, [], ◌∷◌, get_or, store,
}

abbrev pub IsByte : ℕ → Type 0
IsByte b = b < 256

-- `enum class Command : uint16_t`.
pub data Command : Type 0 where
  nop list_services list_identity list_interfaces register_session : Command
  unregister_session send_rr_data send_unit_data indicate_status cancel : Command

-- `static_cast<uint16_t>(command)`.
abbrev pub command_code : Command → ℕ
command_code nop = 0x0000
command_code list_services = 0x0004
command_code list_identity = 0x0063
command_code list_interfaces = 0x0064
command_code register_session = 0x0065
command_code unregister_session = 0x0066
command_code send_rr_data = 0x006f
command_code send_unit_data = 0x0070
command_code indicate_status = 0x0072
command_code cancel = 0x0073

-- `kEncapsulationHeaderSize`.
abbrev pub header_size : ℕ
header_size = 24

pub record EncapsulationHeader : Type 0 where
  pub command : ℕ
  pub length : ℕ
  pub session : ℕ
  pub status : ℕ
  pub context : ℕ
  pub options : ℕ

-- The bytes that `putU16` writes at `p[0]`, `p[1]`.
abbrev pub u16_bytes : ℕ → List ℕ
u16_bytes v = (v % 256) ∷ (v / 2 ^ 8 % 256) ∷ []

abbrev pub u32_bytes : ℕ → List ℕ
u32_bytes v = (v % 256) ∷ (v / 2 ^ 8 % 256) ∷ (v / 2 ^ 16 % 256) ∷ (v / 2 ^ 24 % 256) ∷ []

-- The loop of `putU64`, with the rounds left: round `i` writes `uint8_t(v >> (8 * i))`.
abbrev u64_loop : ℕ → ℕ → ℕ → List ℕ
u64_loop zero i v = []
u64_loop (suc rounds) i v = (v / 2 ^ (8 * i) % 256) ∷ u64_loop rounds (i + 1) v

abbrev pub u64_bytes : ℕ → List ℕ
u64_bytes v = u64_loop 8 0 v

unfoldable pub put_u16 : List ℕ → ℕ → ℕ → List ℕ
put_u16 buf p v = store buf p (u16_bytes v)

unfoldable pub put_u32 : List ℕ → ℕ → ℕ → List ℕ
put_u32 buf p v = store buf p (u32_bytes v)

unfoldable pub put_u64 : List ℕ → ℕ → ℕ → List ℕ
put_u64 buf p v = store buf p (u64_bytes v)

-- `p[i]`.
abbrev pub byte_at : List ℕ → ℕ → ℕ
byte_at buf p = get_or buf p 0

unfoldable pub get_u16 : List ℕ → ℕ → ℕ
get_u16 buf p = bit_or (byte_at buf p) (byte_at buf (p + 1) * 2 ^ 8) % 2 ^ 16

unfoldable pub get_u32 : List ℕ → ℕ → ℕ
get_u32 buf p =
    bit_or
      (bit_or (bit_or (byte_at buf p) (byte_at buf (p + 1) * 2 ^ 8)) (byte_at buf (p + 2) * 2 ^ 16))
      (byte_at buf (p + 3) * 2 ^ 24)
    % 2 ^ 32

-- The loop of `getU64`, which reads from the highest byte down: `v = (v << 8) | p[i]`.
unfoldable pub get_u64_loop : ℕ → List ℕ → ℕ → ℕ → ℕ
get_u64_loop zero buf p v = v
get_u64_loop (suc i) buf p v =
    get_u64_loop i buf p (bit_or (v * 2 ^ 8 % 2 ^ 64) (byte_at buf (p + i)))

unfoldable pub get_u64 : List ℕ → ℕ → ℕ
unfolding get_u64_loop
get_u64 buf p = get_u64_loop 8 buf p 0

pub encode_header : List ℕ → ℕ → EncapsulationHeader → List ℕ
unfolding put_u16 put_u32 put_u64
encode_header buf out h =
    let b1 = put_u16 buf out h.command in
    let b2 = put_u16 b1 (out + 2) h.length in
    let b3 = put_u32 b2 (out + 4) h.session in
    let b4 = put_u32 b3 (out + 8) h.status in
    let b5 = put_u64 b4 (out + 12) h.context in put_u32 b5 (out + 20) h.options

unfoldable pub decode_header : List ℕ → ℕ → EncapsulationHeader
decode_header buf p = record {
  command = get_u16 buf p;
  length = get_u16 buf (p + 2);
  session = get_u32 buf (p + 4);
  status = get_u32 buf (p + 8);
  context = get_u64 buf (p + 12);
  options = get_u32 buf (p + 20);
}
