-- ===== src/Tag.antt =====
-- src/tag/Tag: a tag's data buffer, and Read Tag and Write Tag over a shared `ExplicitMessage`.
pub mod Kept
pub mod Access
pub mod Exchange
pub mod Packets
pub mod Completion
pub mod Written
use esp32_control_logix.Base.{
  ℕ, ◌+◌, ◌-◌, ◌*◌, ◌/◌, ◌%◌, ◌^◌, ◌<◌, Bool, true, false, not, ◌&&◌, ◌||◌, Option, none, some,
  List, [], ◌∷◌, length, take, drop, replicate, store, min, ltb, leb, ◌==◌, if◌then◌else◌,
}
use esp32_control_logix.Status.{Status, pending, ok, busy, not_ready, invalid_arg, error}
use esp32_control_logix.Encapsulation.{
  byte_at, u16_bytes, put_u16, put_u32, get_u16, get_u32, get_u64,
}
use esp32_control_logix.Cip.{
  max_symbolic_name, append_symbolic, data_type_code, string, data_type_element_size,
  tag_service_code, read_tag, write_tag,
}
use esp32_control_logix.Transport.{Transport}
use esp32_control_logix.Message.{Message, Slice}
use esp32_control_logix.Message

-- `kMaxDataSize`.
abbrev pub max_data_size : ℕ
max_data_size = 256

pub data State : Type 0 where
  idle reading writing done failed : State

-- `payload` is `data_`, and `payload_len` `dataLen_`.
pub record Tag : Type 0 where
  pub state : State
  pub payload : List ℕ
  pub payload_len : ℕ
  pub data_type : ℕ
  pub result_code : ℕ

-- The destructor.
pub destroy : Tag → Tag
destroy tag = record tag { state = idle }

abbrev pub is_busy : State → Bool
is_busy reading = true
is_busy writing = true
is_busy s = false

pub set_data_type : Tag → ℕ → Tag
set_data_type tag type = record tag { data_type = type }

-- `if (name == nullptr || strlen(name) > kMaxSymbolicName)`; a C string is the list of its
-- characters before the NUL, and `none` is `nullptr`.
abbrev pub bad_name : Option (List ℕ) → Bool
bad_name none = true
bad_name (some name) = ltb max_symbolic_name (length name)

abbrev pub characters : Option (List ℕ) → List ℕ
characters none = []
characters (some name) = name

-- The local `uint8_t path[128]` with the tag's path, as the argument of `send`.
abbrev pub path_of : List ℕ → Slice
path_of name =
    let (buf, len) = append_symbolic (replicate 128 0) 0 name in
    record { bytes = some buf; len = len }

-- The length of the data to write, from the data type and the element count; `none` is the early
-- return of `Status::InvalidArg`.
unfoldable pub write_length : Tag → ℕ → Option ℕ
write_length tag element_count =
    let string_len = get_u32 tag.payload 0 in
    let size = data_type_element_size tag.data_type in
    if tag.data_type == data_type_code string
    then (if ltb (max_data_size - 4) string_len then none else some (4 + string_len))
    else if size == 0 || ltb (max_data_size / size) element_count
    then none
    else some (element_count * size)

-- The local `wdata`: element count, data type, data.
pub write_data : Tag → ℕ → ℕ → List ℕ
write_data tag element_count len =
    let b1 = put_u16 (replicate (2 + 2 + max_data_size) 0) 0 (element_count % 2 ^ 16) in
    let b2 = put_u16 b1 2 tag.data_type in store b2 4 (take len tag.payload)

module _ {W : Type 0} (t : Transport W) where
  -- `startRead` after `msg.send`: the previous result is invalidated only when the read starts.
  abbrev pub read_started : Tag → Status × Message × W → Status × Tag × Message × W
  read_started tag (pending, m, w) =
      (pending, record tag { payload_len = 0; result_code = 0; state = reading }, m, w)
  read_started tag (st, m, w) = (st, tag, m, w)

  pub start_read : Tag → Message → W → ℕ → List ℕ → ℕ → ℕ → Status × Tag × Message × W
  start_read tag m w session name element_count timeout_ms =
      let count : Slice = record {
        bytes = some (put_u16 (replicate 2 0) 0 (element_count % 2 ^ 16));
        len = 2;
      } in
      read_started tag
        (Message.send t m w session (tag_service_code read_tag) (path_of name) count timeout_ms)

  pub read : Tag → Message → W → ℕ → Option (List ℕ) → ℕ → ℕ → Status × Tag × Message × W
  read tag m w session name element_count timeout_ms =
      if bad_name name
      then (invalid_arg, tag, m, w)
      else if is_busy tag.state
      then (busy, tag, m, w)
      else start_read tag m w session (characters name) element_count timeout_ms

  abbrev pub write_started : Tag → Status × Message × W → Status × Tag × Message × W
  write_started tag (pending, m, w) = (pending, record tag { state = writing }, m, w)
  write_started tag (st, m, w) = (st, tag, m, w)

  pub start_write : Tag → Message → W → ℕ → List ℕ → ℕ → ℕ → Status × Tag × Message × W
  start_write tag m w session name element_count timeout_ms =
      elim (write_length tag element_count) [
        | none ↦ (invalid_arg, tag, m, w)
        | some len ↦
            let payload : Slice = record {
              bytes = some (write_data tag element_count len);
              len = 4 + len;
            } in
            write_started tag (
              Message.send t m w session (tag_service_code write_tag) (path_of name) payload
                timeout_ms)
      ]

  pub write : Tag → Message → W → ℕ → Option (List ℕ) → ℕ → ℕ → Status × Tag × Message × W
  write tag m w session name element_count timeout_ms =
      if bad_name name
      then (invalid_arg, tag, m, w)
      else if tag.data_type == 0
      then (not_ready, tag, m, w)
      else if is_busy tag.state
      then (busy, tag, m, w)
      else start_write tag m w session (characters name) element_count timeout_ms

  -- `msg.data() + 2`, as an offset into the message's receive buffer.
  abbrev response_offset : Message → ℕ
  response_offset m = elim m.response [ none ↦ 0 | some p ↦ p ]

  -- The end of `poll`, once the message is done.
  pub finish : Tag → Message → Status × Tag
  finish tag m =
      let rx = m.wire.rx in
      let p = response_offset m in
      let n = min (m.response_len - 2) max_data_size in
      let checked : Tag = record tag { result_code = m.result_code } in
      let loaded : Tag = record checked {
        data_type = get_u16 rx p % 256;
        payload = store tag.payload 0 (take n (drop (p + 2) rx));
        payload_len = n;
        state = done;
      } in
      if not (m.result_code == 0)
      then (error, record checked { state = failed })
      else (elim tag.state [
        | reading ↦
            if leb 2 m.response_len then (ok, loaded) else (ok, record checked { state = done })
        | _ ↦ (ok, record checked { state = done })
      ])

  abbrev pub polled : Tag → Status × Message × W → Status × Tag × Message × W
  polled tag (pending, m, w) = (pending, tag, m, w)
  polled tag (ok, m, w) = let (st, tag') = finish tag m in (st, tag', m, w)
  polled tag (st, m, w) = (st, record tag { state = failed }, m, w)

  unfoldable pub poll : Tag → Message → W → Status × Tag × Message × W
  poll tag m w = elim tag.state [
    | done ↦ (ok, tag, m, w)
    | failed ↦ (error, tag, m, w)
    | idle ↦ (not_ready, tag, m, w)
    | _ ↦ polled tag (Message.poll t m w)
  ]

pub status : Tag → Status
status tag = elim tag.state [
  | reading ↦ pending
  | writing ↦ pending
  | done ↦ ok
  | failed ↦ error
  | idle ↦ not_ready
]

unfoldable pub abort : Tag → Message → Tag × Message
abort tag m =
    (record tag { state = idle; payload_len = 0 }, if is_busy tag.state then Message.abort m else m)
