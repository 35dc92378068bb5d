-- ===== src/Message/Response.antt =====
-- What `parseResponse` accepts, and what it finds.
use mathlib.Core.Option
use esp32_control_logix.Base.{
  ℕ, zero, suc, ◌+◌, ◌-◌, ◌%◌, ◌^◌, ◌≤◌, ◌<◌, ◌≡◌, refl, ◌⊎◌, inl, inr, Option, none, some, List,
  ltb, ◌==◌, Bool-cases, arith,
}
use esp32_control_logix.Status.{Status, ok, error}
use esp32_control_logix.Encapsulation.{
  EncapsulationHeader, header_size, command_code, send_rr_data, get_u16, decode_header,
}
use esp32_control_logix.Cip.{item_code, unconnected_data}
use esp32_control_logix.Message.{Message, find_item, finish_response, parse_response}

-- A place in the first `limit` bytes of the buffer.
abbrev pub Within : ℕ → Option (ℕ × ℕ) → Type 0
Within limit none = Unit {0}
Within limit (some (p, len)) = p + len ≤ limit

abbrev pub WithinResult : ℕ → Option (Option (ℕ × ℕ)) → Type 0
WithinResult limit none = Unit {0}
WithinResult limit (some found) = Within limit found

-- The loop finds no place past the bytes it is given, whatever they are.
find_item-Within :
    (items : ℕ) (rx : List ℕ) (p remaining limit : ℕ) (found : Option (ℕ × ℕ))
    → p + remaining ≡ limit
    → Within limit found
    → WithinResult limit (find_item items rx p remaining found)
unfolding find_item
find_item-Within zero rx p remaining limit found e h = h
find_item-Within (suc items) rx p remaining limit found e h = elim (Bool-cases (ltb remaining 4)) [
  | inl short ↦ ground arith
  | inr header ↦ elim (Bool-cases (ltb (remaining - 4) len)) [
    | inl long ↦ ground arith
    | inr fits ↦
        let next : p + 4 + len + (remaining - 4 - len) ≡ limit = ground arith in
        let place : p + 4 + len ≤ limit = ground arith in
        elim (Bool-cases (get_u16 rx p == item_code unconnected_data)) [
          | inl hit ↦ ground (
            arith,
            find_item-Within items rx (p + 4 + len) (remaining - 4 - len) limit (some (p + 4, len))
                next place,
          )
          | inr miss ↦ ground (
            arith,
            find_item-Within items rx (p + 4 + len) (remaining - 4 - len) limit found next h,
          )
        ]
  ]
]
  where
    len : ℕ
    len = get_u16 rx (p + 2)

-- What the accessors give out after `Ok`: the header was that of the answer to the last request,
-- and the data lie inside the bytes received.
pub record IsAnswer (m m' : Message) : Type 0 where
  pub command : (decode_header m.wire.rx 0).command ≡ command_code send_rr_data
  pub status : (decode_header m.wire.rx 0).status ≡ 0
  pub context : (decode_header m.wire.rx 0).context ≡ m.sent_context
  pub within : Within m.wire.rx_len (Option.map (λ p. (p, m'.response_len)) m'.response)
  pub only_answer : m' ≡ record m {
    reply_service = m'.reply_service;
    result_code = m'.result_code;
    response = m'.response;
    response_len = m'.response_len;
  }

-- What `parseResponse` may return: `Ok` with an answer, or `Error` and no change.
abbrev pub Parsed : Message → Status × Message → Type 0
Parsed m out = ((out.0 ≡ ok) × IsAnswer m out.1) ⊎ (out ≡ (error, m))

module _ (m : Message) where
  finish_response-Parsed :
      (found : Option (Option (ℕ × ℕ)))
      → (decode_header m.wire.rx 0).command ≡ command_code send_rr_data
      → (decode_header m.wire.rx 0).status ≡ 0
      → (decode_header m.wire.rx 0).context ≡ m.sent_context
      → WithinResult m.wire.rx_len found
      → Parsed m (finish_response m found)
  finish_response-Parsed none hc hs hx h = inr refl
  finish_response-Parsed (some none) hc hs hx h = inr refl
  finish_response-Parsed (some (some (p, len))) hc hs hx h = elim (Bool-cases (ltb len 4)) [
    | inl short ↦ inr (ground arith)
    | inr fine ↦ inl (ground arith, ground arith)
  ]

-- `parseResponse` returns `Ok` only for a frame that is a successful SendRRData response to the
-- request last sent, and then the response data lie inside the bytes received. Otherwise it returns
-- `Error` and changes nothing. The condition is that a whole header was received.
pub parse_response-Parsed :
    (m : Message)
    → header_size ≤ m.wire.rx_len
    → m.wire.rx_len < 2 ^ 32
    → Parsed m (parse_response m)
unfolding parse_response
parse_response-Parsed m h small = elim (Bool-cases (h'.command == command_code send_rr_data)) [
  | inr other ↦ inr (ground arith)
  | inl ours ↦ elim (Bool-cases (h'.status == 0)) [
    | inr bad ↦ inr (ground arith)
    | inl good ↦ elim (Bool-cases (h'.context == m.sent_context)) [
      | inr stale ↦ inr (ground arith)
      | inl fresh ↦ elim (Bool-cases (ltb left 8)) [
        | inl short ↦ inr (ground arith)
        | inr full ↦
            let place : 32 + (left - 8) ≡ m.wire.rx_len = ground arith in
            let items = get_u16 m.wire.rx 30 in
            let found = find_item items m.wire.rx 32 (left - 8) none in
            let inside =
              find_item-Within items m.wire.rx 32 (left - 8) m.wire.rx_len none place tt in
            let parsed =
              finish_response-Parsed m found (ground arith) (ground arith) (ground arith) inside in
            ground (arith, parsed)
      ]
    ]
  ]
]
  where
    h' : EncapsulationHeader
    h' = decode_header m.wire.rx 0

    left : ℕ
    left = (m.wire.rx_len + 2 ^ 32 - header_size) % 2 ^ 32
