-- ===== src/Message/Reply.antt =====
-- The packet that answers a request, and its bytes in a receive buffer.
use esp32_control_logix.Base.{
  ℕ, ◌+◌, ◌^◌, ◌≤◌, ◌<◌, ◌≡◌, sym, ap, ◌∙◌, List, [], ◌∷◌, ◌++◌, append-nil, length, take, drop,
  take-append, All, arith,
}
use esp32_control_logix.Encapsulation.{IsByte, EncapsulationHeader, send_rr_data, byte_at}
use esp32_control_logix.Cip.{null_address, unconnected_data}
use esp32_control_logix.Packet.{Item, item, frame}
use esp32_control_logix.Packet.Frame.{
  FitsFrame, frame-IsFrame, frame-held, frame-header, frame-item_count, frame-items,
}
use esp32_control_logix.Wire.Delivery.{IsFrame}
use esp32_control_logix.Message.{Message, max_body}
use esp32_control_logix.Message.Answer.{IsReply}

abbrev pub reply_items : ℕ → ℕ → List ℕ → List Item
reply_items service code payload =
    item null_address [] ∷ item unconnected_data (service ∷ 0 ∷ code ∷ 0 ∷ payload) ∷ []

-- The answer of a target: the reply service, a reserved byte, the general status, the size of the
-- additional status, which is 0, and the data.
abbrev pub response_frame : ℕ → ℕ → ℕ → ℕ → List ℕ → List ℕ
response_frame session context service code payload =
    frame send_rr_data session context (reply_items service code payload)

-- The numbers of a reply fit their fields, and the reply its buffer.
pub record FitsReply (session context service code : ℕ) (payload : List ℕ) : Type 0 where
  pub session_u32 : session < 2 ^ 32
  pub context_u64 : context < 2 ^ 64
  pub service_u8 : IsByte service
  pub code_u8 : IsByte code
  pub payload_u8 : All IsByte payload
  pub payload_room : length payload ≤ 252

module _ (session context service code : ℕ) (payload : List ℕ) where
  pub length-response_frame :
      length (response_frame session context service code payload) ≡ 44 + length payload
  length-response_frame = omega (arith, ap length (append-nil payload))

  reply-FitsFrame :
      FitsReply session context service code payload
      → FitsFrame max_body send_rr_data session context (reply_items service code payload)
  reply-FitsFrame v = record {
    session_u32 = v.session_u32;
    context_u64 = v.context_u64;
    contents = (tt, ((v.service_u8, (omega arith, (v.code_u8, (omega arith, v.payload_u8)))), tt));
    room = omega (arith, ap length (append-nil payload), v.payload_room);
    small = omega arith;
  }

  pub response_frame-IsFrame :
      FitsReply session context service code payload
      → IsFrame max_body (response_frame session context service code payload)
  response_frame-IsFrame v =
      frame-IsFrame max_body send_rr_data session context (reply_items service code payload)
        (reply-FitsFrame v)

  -- A message that holds the packet, under the context that it waits for, holds a reply, and this is
  -- what the accessors give out of it.
  module _ (m : Message) (v : FitsReply session context service code payload)
      (bytes : All IsByte m.wire.rx)
      (holds : take m.wire.rx_len m.wire.rx
        ≡ response_frame session context service code payload) where
    pub response_frame-IsReply :
        m.wire.rx_len ≡ 44 + length payload
        → m.sent_context ≡ context
        → IsReply m (reply_items service code payload)
    response_frame-IsReply size same =
        let items = reply_items service code payload in
        let fits = reply-FitsFrame v in
        let h =
          frame-header max_body send_rr_data session context items fits m.wire.rx m.wire.rx_len
            bytes holds in
        let (before, at, buffer) =
          frame-items max_body send_rr_data session context items fits m.wire.rx m.wire.rx_len bytes
            holds in
        record {
          command = ap EncapsulationHeader.command h;
          status = ap EncapsulationHeader.status h;
          context = ap EncapsulationHeader.context h ∙ sym same;
          item_count =
              frame-item_count max_body send_rr_data session context items fits m.wire.rx
                m.wire.rx_len bytes holds (omega arith);
          items_fit =
              ((omega arith, omega arith), ((omega arith, omega (arith, v.payload_room)), tt));
          before = before;
          before_length = at;
          behind = drop m.wire.rx_len m.wire.rx;
          buffer = buffer;
          whole = omega (arith, size, ap length (append-nil payload));
          small = omega (arith, size, v.payload_room);
        }

    pub response_frame-bytes :
        (byte_at m.wire.rx 40 ≡ service)
        × (byte_at m.wire.rx 42 ≡ code)
        × (take (length payload) (drop 44 m.wire.rx) ≡ payload)
    response_frame-bytes =
        let behind = drop m.wire.rx_len m.wire.rx in
        let rx =
          frame-held max_body send_rr_data session context (reply_items service code payload)
            (reply-FitsFrame v) m.wire.rx m.wire.rx_len bytes holds in
        (
          ap (λ xs. byte_at xs 40) rx,
          ap (λ xs. byte_at xs 42) rx,
          ap (λ xs. take (length payload) (drop 44 xs)) rx
              ∙ ap (λ xs. take (length payload) (xs ++ behind)) (append-nil payload)
              ∙ take-append payload behind,
        )
