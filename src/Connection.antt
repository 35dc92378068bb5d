-- ===== src/Connection.antt =====
-- src/cip/Connection: a connected CIP connection (Forward Open, SendUnitData, Forward Close).
-- Pointers as in `Message`; `fwd` is the message that carries Forward Open and Forward Close.
pub mod Response
pub mod Calls
pub mod Identity
pub mod Exchange
pub mod Request
pub mod Reply
pub mod Completion
pub mod Opening
pub mod Run
pub mod Answer
pub mod Forward
pub mod Progress
use esp32_control_logix.Base.{
  ℕ, zero, suc, ◌+◌, ◌-◌, ◌/◌, ◌%◌, ◌^◌, ◌<◌, Bool, true, false, not, ◌&&◌, ◌||◌, Option, none,
  some, List, [], ◌∷◌, length, take, replicate, store, ltb, leb, ◌==◌, if◌then◌else◌,
}
use esp32_control_logix.Status.{Status, pending, ok, busy, not_ready, timeout, invalid_arg, error}
use esp32_control_logix.Encapsulation.{
  header_size, command_code, send_unit_data, byte_at, u16_bytes, u32_bytes, put_u16, put_u32,
  get_u16, get_u32, encode_header, decode_header,
}
use esp32_control_logix.Cip.{item_code, connected_address, connected_data, append_symbolic}
use esp32_control_logix.Transport.{Transport, deadline_after, expired}
use esp32_control_logix.Wire.{Wire, write_pending, read_response}
use esp32_control_logix.Message.{
  Message, Slice, bad_request, cip_length, request_header, put_cip, body_length_of,
}
use esp32_control_logix.Message

-- `kMaxDataSize`.
abbrev pub max_data_size : ℕ
max_data_size = 256

abbrev pub max_body : ℕ
max_body = 22 + max_data_size

-- `sizeof(tagName_)`.
abbrev pub tag_name_size : ℕ
tag_name_size = 64

pub data State : Type 0 where
  idle opening open_state sending closing closed failed : State

pub record Connection : Type 0 where
  pub fwd : Message
  pub attached : Bool
  pub state : State
  pub ot_conn_id : ℕ
  pub to_conn_id : ℕ
  pub sequence : ℕ
  pub tag_name : List ℕ
  pub wire : Wire
  pub reply_service : ℕ
  pub result_code : ℕ
  pub response : Option ℕ
  pub response_len : ℕ
  pub deadline : ℕ
  pub context : ℕ
  pub sent_context : ℕ
  pub sent_sequence : ℕ

-- The destructor.
pub destroy : Connection → Connection
destroy c = record c { state = idle }

-- Writes one piece after another and returns the position reached: `data[d++] = …` and
-- `putU32(data + d, …); d += 4`.
pub append_all : List ℕ → ℕ → List (List ℕ) → List ℕ × ℕ
append_all buf d [] = (buf, d)
append_all buf d (piece ∷ pieces) = append_all (store buf d piece) (d + length piece) pieces

-- `reqPath`: the Connection Manager, class 6, instance 1.
abbrev pub manager_path : Slice
manager_path = record { bytes = some (0x20 ∷ 0x06 ∷ 0x24 ∷ 0x01 ∷ []); len = 4 }

-- The parameters of Forward Open, up to the connection path.
abbrev pub open_parameters : ℕ → List (List ℕ)
open_parameters ot =
    (0x0a ∷ [])
    ∷ (0x0e ∷ [])
    ∷ u32_bytes ot
    ∷ u32_bytes 0
    ∷ u16_bytes 1
    ∷ u16_bytes 0x0001
    ∷ u32_bytes 0x00000001
    ∷ (0x03 ∷ [])
    ∷ (0 ∷ [])
    ∷ (0 ∷ [])
    ∷ (0 ∷ [])
    ∷ u32_bytes 10000
    ∷ u16_bytes 0x4200
    ∷ u32_bytes 10000
    ∷ u16_bytes 0x4200
    ∷ (0xa3 ∷ [])
    ∷ []

-- The local `uint8_t data[128]`; its bytes are written before they are read.
abbrev pub scratch : List ℕ
scratch = replicate 128 0

pub open_data : ℕ → List ℕ → List ℕ × ℕ
unfolding append_all
open_data ot name =
    let (b1, d) = append_all scratch 0 (open_parameters ot) in
    let (b2, path_len) = append_symbolic b1 (d + 1) name in
    (store b2 d ((path_len / 2 % 256) ∷ []), d + 1 + path_len)

pub close_data : List ℕ → List ℕ × ℕ
unfolding append_all
close_data name =
    let (b1, path_len) = append_symbolic scratch 1 name in
    let b2 = store b1 0 ((path_len / 2 % 256) ∷ []) in
    append_all b2 (1 + path_len) (u16_bytes 1 ∷ u16_bytes 0x0001 ∷ u32_bytes 0x00000001 ∷ [])

abbrev pub slice_of : List ℕ × ℕ → Slice
slice_of r = record { bytes = some r.0; len = r.1 }

-- The transmit buffer as `startSend` fills it.
unfoldable pub put_unit : List ℕ → ℕ → ℕ → ℕ → ℕ → ℕ → Slice → Slice → List ℕ
put_unit tx session context ot sequence service path payload =
    let cip_len = cip_length path payload in
    let body = header_size in
    let t1 =
      encode_header tx 0
        (request_header (command_code send_unit_data) (22 + cip_len) session context 0) in
    let t2 = put_u32 t1 body 0 in
    let t3 = put_u16 t2 (body + 4) 0 in
    let t4 = put_u16 t3 (body + 6) 2 in
    let t5 = put_u16 t4 (body + 8) (item_code connected_address) in
    let t6 = put_u16 t5 (body + 10) 4 in
    let t7 = put_u32 t6 (body + 12) ot in
    let t8 = put_u16 t7 (body + 16) (item_code connected_data) in
    let t9 = put_u16 t8 (body + 18) ((2 + cip_len) % 2 ^ 16) in
    let t10 = put_u16 t9 (body + 20) sequence in put_cip t10 (body + 22) service path payload
