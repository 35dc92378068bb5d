-- ===== src/Message.antt =====
-- src/cip/ExplicitMessage: one unconnected request and its response (SendRRData).
-- A pointer into `rx_` is an offset, with `none` for `nullptr`; a pointer argument is the bytes that
-- it points to, with `none` for `nullptr`. The object that `conn_` points to is the transport
-- state `w`, and `attached` says that `conn_` is not null.
pub mod Kept
pub mod Request
pub mod Response
pub mod Exchange
pub mod Progress
pub mod Answer
pub mod Flight
pub mod Reply
pub mod Completion
pub mod Run
use esp32_control_logix.Base.{
  ℕ, zero, suc, ◌+◌, ◌-◌, ◌*◌, ◌/◌, ◌%◌, ◌^◌, ◌≤◌, ◌<◌, ◌≡◌, Bool, true, false, not, ◌&&◌, ◌||◌,
  Option, none, some, List, [], ◌∷◌, take, store, ltb, ◌==◌, if◌then◌else◌,
}
use esp32_control_logix.Status.{Status, pending, ok, busy, not_ready, timeout, invalid_arg, error}
use esp32_control_logix.Encapsulation.{
  header_size, command_code, send_rr_data, byte_at, put_u16, put_u32, get_u16, encode_header,
  decode_header, EncapsulationHeader,
}
use esp32_control_logix.Cip.{item_code, null_address, unconnected_data}
use esp32_control_logix.Transport.{Transport, deadline_after, expired}
use esp32_control_logix.Wire.{Wire, write_pending, read_response}

-- `kMaxCipData`.
abbrev pub max_cip_data : ℕ
max_cip_data = 256

-- The bound of `readResponse` on the body.
abbrev pub max_body : ℕ
max_body = 16 + max_cip_data

pub data State : Type 0 where
  idle sending receiving done failed : State

pub record Message : Type 0 where
  pub attached : Bool
  pub state : State
  pub deadline : ℕ
  pub context : ℕ
  pub sent_context : ℕ
  pub wire : Wire
  pub reply_service : ℕ
  pub result_code : ℕ
  pub response : Option ℕ
  pub response_len : ℕ

-- The destructor does the same.
unfoldable pub abort : Message → Message
abort m = record m { attached = false; state = idle }

abbrev pub is_sending : State → Bool
is_sending sending = true
is_sending receiving = true
is_sending s = false

-- A `const uint8_t *` with its length.
pub record Slice : Type 0 where
  pub bytes : Option (List ℕ)
  pub len : ℕ

-- `len > 0 && p == nullptr`.
abbrev pub dangling : Slice → Bool
dangling s = elim s.bytes [ none ↦ ltb 0 s.len | some bs ↦ false ]

-- `if (len) memcpy(buf + off, p, len);`
abbrev pub copy : List ℕ → ℕ → Slice → List ℕ
copy buf off s = elim s.bytes [
  | none ↦ buf
  | some bs ↦ if s.len == 0 then buf else store buf off (take s.len bs)
]

-- `2 + pathLen + dataLen`, in the 32-bit `size_t` of the target.
abbrev pub cip_length : Slice → Slice → ℕ
cip_length path payload = (2 + path.len + payload.len) % 2 ^ 32

abbrev pub request_header : ℕ → ℕ → ℕ → ℕ → ℕ → EncapsulationHeader
request_header command length session context options = record {
  command = command;
  length = length % 2 ^ 16;
  session = session;
  status = 0;
  context = context;
  options = options;
}

-- The CIP request at `cip`: service, path size in words, path, data.
pub put_cip : List ℕ → ℕ → ℕ → Slice → Slice → List ℕ
put_cip tx cip service path payload =
    let t1 = store tx cip (service ∷ []) in
    let t2 = store t1 (cip + 1) ((path.len / 2 % 256) ∷ []) in
    let t3 = copy t2 (cip + 2) path in copy t3 (cip + 2 + path.len) payload

-- The transmit buffer as `send` fills it.
pub put_request : List ℕ → ℕ → ℕ → ℕ → Slice → Slice → List ℕ
put_request tx session context service path payload =
    let cip_len = cip_length path payload in
    let body = header_size in
    let t1 =
      encode_header tx 0
        (request_header (command_code send_rr_data) (16 + cip_len) session context 0) in
    let t2 = put_u32 t1 body 0 in
    let t3 = put_u16 t2 (body + 4) 0 in
    let t4 = put_u16 t3 (body + 6) 2 in
    let t5 = put_u16 t4 (body + 8) (item_code null_address) in
    let t6 = put_u16 t5 (body + 10) 0 in
    let t7 = put_u16 t6 (body + 12) (item_code unconnected_data) in
    let t8 = put_u16 t7 (body + 14) (cip_len % 2 ^ 16) in
    put_cip t8 (body + 16) service path payload

-- The guard of `send` on its arguments.
abbrev pub bad_request : Slice → Slice → Bool
bad_request path payload =
    ltb max_cip_data (cip_length path payload)
    || not (path.len % 2 == 0)
    || dangling path
    || dangling payload

module _ {W : Type 0} (t : Transport W) where
  pub send : Message → W → ℕ → ℕ → Slice → Slice → ℕ → Status × Message × W
  send m w session service path payload timeout_ms =
      if is_sending m.state
      then (busy, m, w)
      else if not (t.connected w)
      then (not_ready, m, w)
      else if bad_request path payload
      then (invalid_arg, record m { attached = true }, w)
      else (let (now, w') = t.millis w in
          let wire : Wire = record m.wire {
            tx = put_request m.wire.tx session m.context service path payload;
            tx_len = header_size + 16 + cip_length path payload;
            tx_sent = 0;
            rx_len = 0;
            rx_expected = header_size;
          } in
          (
            pending,
            record m {
              attached = true;
              wire = wire;
              sent_context = m.context;
              context = (m.context + 1) % 2 ^ 64;
              deadline = deadline_after now timeout_ms;
              state = sending;
            },
            w',
          ))

-- The loop over the CPF items, from the item at `p` with `remaining` bytes left; `found` is
-- `cipData` with `cipLen`. `none` is the early return of `Status::Error`.
pub find_item : ℕ → List ℕ → ℕ → ℕ → Option (ℕ × ℕ) → Option (Option (ℕ × ℕ))
find_item zero rx p remaining found = some found
find_item (suc items) rx p remaining found =
    let type = get_u16 rx p in
    let len = get_u16 rx (p + 2) in
    let found' = if type == item_code unconnected_data then some (p + 4, len) else found in
    let rest = find_item items rx (p + 4 + len) (remaining - 4 - len) found' in
    if ltb remaining 4 then none else if ltb (remaining - 4) len then none else rest

-- The end of `parseResponse`: the CIP response at the item found.
abbrev finish_response : Message → Option (Option (ℕ × ℕ)) → Status × Message
finish_response m none = (error, m)
finish_response m (some none) = (error, m)
finish_response m (some (some (cip, len))) = if ltb len 4 then (error, m) else (
  ok,
  record m {
    reply_service = byte_at m.wire.rx cip;
    result_code = byte_at m.wire.rx (cip + 2);
    response = some (cip + 4);
    response_len = len - 4;
  },
)

-- `size_t bodyLen = rxLen_ - kEncapsulationHeaderSize`.
abbrev pub body_length_of : Wire → ℕ
body_length_of b = (b.rx_len + 2 ^ 32 - header_size) % 2 ^ 32

pub parse_response : Message → Status × Message
parse_response m =
    let rx = m.wire.rx in
    let h = decode_header rx 0 in
    let body = header_size in
    let body_len = body_length_of m.wire in
    if not (h.command == command_code send_rr_data) || not (h.status == 0)
    then (error, m)
    else if not (h.context == m.sent_context)
    then (error, m)
    else if ltb body_len 8
    then (error, m)
    else finish_response m (find_item (get_u16 rx (body + 6)) rx (body + 8) (body_len - 8) none)

module _ {W : Type 0} (t : Transport W) where
  -- `state_ = (st == Status::Ok) ? State::Done : State::Failed;`
  abbrev settle : Status × Message → W → Status × Message × W
  settle (ok, m) w = (ok, record m { state = done }, w)
  settle (st, m) w = (st, record m { state = failed }, w)

  abbrev after_read : Message → Status × Wire × W → Status × Message × W
  after_read m (ok, b, w) = settle (parse_response (record m { wire = b })) w
  after_read m (pending, b, w) = (pending, record m { wire = b }, w)
  after_read m (st, b, w) = (st, record m { wire = b; state = failed }, w)

  abbrev after_write : Message → Status × Wire × W → Status × Message × W
  after_write m (ok, b, w) =
      after_read (record m { state = receiving }) (read_response t max_body b w)
  after_write m (pending, b, w) = (pending, record m { wire = b }, w)
  after_write m (st, b, w) = (st, record m { wire = b; state = failed }, w)

  pub poll_exchange : Message → W → Status × Message × W
  unfolding parse_response
  poll_exchange m w =
      let (now, w') = t.millis w in
      if expired now m.deadline
      then (timeout, record m { state = failed }, w')
      else after_write m (write_pending t m.wire w')

  pub poll : Message → W → Status × Message × W
  poll m w = elim m.state [
    | sending ↦ poll_exchange m w
    | receiving ↦ poll_exchange m w
    | done ↦ (ok, m, w)
    | failed ↦ (error, m, w)
    | idle ↦ (not_ready, m, w)
  ]
