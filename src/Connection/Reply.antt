-- ===== src/Connection/Reply.antt =====
-- The packet that answers a connected request, and its bytes in a receive buffer.
use esp32_control_logix.Base.{
  ℕ, ◌+◌, ◌^◌, ◌≤◌, ◌<◌, ◌≡◌, sym, ap, ◌∙◌, true, some, List, [], ◌∷◌, ◌++◌, append-nil, length,
  take, drop, take-append, All, arith,
}
use esp32_control_logix.Encapsulation.{
  IsByte, EncapsulationHeader, send_unit_data, u16_bytes, u32_bytes, byte_at, get_u16, get_u32,
}
use esp32_control_logix.Encapsulation.Header.{header_bytes}
use esp32_control_logix.Encapsulation.Words.{get_u16-u16_bytes, get_u32-value}
use esp32_control_logix.Cip.{item_code, connected_address, connected_data}
use esp32_control_logix.Packet.{Item, item, frame, frame_header, body_bytes}
use esp32_control_logix.Packet.Frame.{
  FitsFrame, frame-IsFrame, frame-held, frame-header, frame-item_count, frame-items,
}
use esp32_control_logix.Wire.Delivery.{IsFrame}
use esp32_control_logix.Connection.{Connection, max_body}
use esp32_control_logix.Connection.Response.{nothing_found}
use esp32_control_logix.Connection.Answer.{IsAnswerFrame, all_seen}

-- The address item names the T->O connection; the data item has the sequence number of the request,
-- the reply service, a reserved byte, the general status, the size of the additional status, which
-- is 0, and the data.
abbrev pub answer_items : ℕ → ℕ → ℕ → ℕ → List ℕ → List Item
answer_items to sequence service code payload =
    item connected_address (u32_bytes to)
    ∷ item connected_data (u16_bytes sequence ++ (service ∷ 0 ∷ code ∷ 0 ∷ payload))
    ∷ []

abbrev pub answer_packet : ℕ → ℕ → ℕ → ℕ → ℕ → ℕ → List ℕ → List ℕ
answer_packet session context to sequence service code payload =
    frame send_unit_data session context (answer_items to sequence service code payload)

-- The numbers of an answer fit their fields, and the answer its buffer.
pub record FitsAnswer (session context to sequence service code : ℕ) (payload : List ℕ)
    : Type 0 where
  pub session_u32 : session < 2 ^ 32
  pub context_u64 : context < 2 ^ 64
  pub to_u32 : to < 2 ^ 32
  pub sequence_u16 : sequence < 2 ^ 16
  pub service_u8 : IsByte service
  pub code_u8 : IsByte code
  pub payload_u8 : All IsByte payload
  pub payload_room : length payload ≤ 252

pub get_u32-u32_bytes : (v : ℕ) → v < 2 ^ 32 → get_u32 (u32_bytes v) 0 ≡ v
get_u32-u32_bytes v h = get_u32-value (u32_bytes v) 0 (omega arith) ∙ omega arith

module _ (session context to sequence service code : ℕ) (payload : List ℕ) where
  pub length-answer_packet :
      length (answer_packet session context to sequence service code payload) ≡ 50 + length payload
  length-answer_packet = omega (arith, ap length (append-nil payload))

  abbrev items : List Item
  items = answer_items to sequence service code payload

  -- The loop over the items finds the id and the data.
  pub answer-all_seen :
      to < 2 ^ 32
      → all_seen 32 items nothing_found
        ≡ some (record {
          conn_id = to;
          have_conn_id = true;
          conn_data = some 44;
          conn_data_len = 6 + length payload;
        })
  answer-all_seen h = rw (get_u32-u32_bytes to h) (ground arith)

  answer-FitsFrame :
      FitsAnswer session context to sequence service code payload
      → FitsFrame max_body send_unit_data session context items
  answer-FitsFrame v = record {
    session_u32 = v.session_u32;
    context_u64 = v.context_u64;
    contents = (
      omega arith,
      (
        (
          omega arith,
          (omega arith, (v.service_u8, (omega arith, (v.code_u8, (omega arith, v.payload_u8))))),
        ),
        tt,
      ),
    );
    room = omega (arith, ap length (append-nil payload), v.payload_room);
    small = omega arith;
  }

  pub answer_packet-IsFrame :
      FitsAnswer session context to sequence service code payload
      → IsFrame max_body (answer_packet session context to sequence service code payload)
  answer_packet-IsFrame v =
      frame-IsFrame max_body send_unit_data session context items (answer-FitsFrame v)

  -- A connection that holds the packet, under the context that it waits for, holds an answer, and
  -- this is what the accessors give out of it.
  module _ (c : Connection) (v : FitsAnswer session context to sequence service code payload)
      (bytes : All IsByte c.wire.rx)
      (holds : take c.wire.rx_len c.wire.rx
        ≡ answer_packet session context to sequence service code payload) where
    pub answer_packet-IsAnswerFrame :
        c.wire.rx_len ≡ 50 + length payload → c.sent_context ≡ context → IsAnswerFrame c items
    answer_packet-IsAnswerFrame size same =
        let fits = answer-FitsFrame v in
        let h =
          frame-header max_body send_unit_data session context items fits c.wire.rx c.wire.rx_len
            bytes holds in
        let (before, at, buffer) =
          frame-items max_body send_unit_data session context items fits c.wire.rx c.wire.rx_len
            bytes holds in
        record {
          command = ap EncapsulationHeader.command h;
          status = ap EncapsulationHeader.status h;
          context = ap EncapsulationHeader.context h ∙ sym same;
          item_count =
              frame-item_count max_body send_unit_data session context items fits c.wire.rx
                c.wire.rx_len bytes holds (omega arith);
          items_fit =
              ((omega arith, omega arith), ((omega arith, omega (arith, v.payload_room)), tt));
          before = before;
          before_length = at;
          behind = drop c.wire.rx_len c.wire.rx;
          buffer = buffer;
          whole = omega (arith, size, ap length (append-nil payload));
          small = omega (arith, size, v.payload_room);
        }

    pub answer_packet-bytes :
        (get_u16 c.wire.rx 44 ≡ sequence)
        × (byte_at c.wire.rx 46 ≡ service)
        × (byte_at c.wire.rx 48 ≡ code)
        × (take (length payload) (drop 50 c.wire.rx) ≡ payload)
    answer_packet-bytes =
        let behind = drop c.wire.rx_len c.wire.rx in
        let rx =
          frame-held max_body send_unit_data session context items (answer-FitsFrame v) c.wire.rx
            c.wire.rx_len bytes holds in
        let front =
          header_bytes (frame_header send_unit_data session context (body_bytes items))
          ++ (u32_bytes 0
              ++ (u16_bytes 0
                  ++ (u16_bytes 2
                      ++ (u16_bytes (item_code connected_address)
                          ++ (u16_bytes 4
                              ++ (u32_bytes to
                                  ++ (u16_bytes (item_code connected_data)
                                      ++ u16_bytes (
                                          length (
                                            u16_bytes sequence
                                            ++ (service ∷ 0 ∷ code ∷ 0 ∷ payload)))))))))) in
        (
          ap (λ xs. get_u16 xs 44) rx
              ∙ get_u16-u16_bytes front ((service ∷ 0 ∷ code ∷ 0 ∷ (payload ++ [])) ++ behind)
                  sequence v.sequence_u16,
          ap (λ xs. byte_at xs 46) rx,
          ap (λ xs. byte_at xs 48) rx,
          ap (λ xs. take (length payload) (drop 50 xs)) rx
              ∙ ap (λ xs. take (length payload) (xs ++ behind)) (append-nil payload)
              ∙ take-append payload behind,
        )
