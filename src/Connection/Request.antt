-- ===== src/Connection/Request.antt =====
-- The bytes of a connected request: what `startSend` writes is a SendUnitData packet.
use esp32_control_logix.Base.{
  ℕ, ◌+◌, ◌%◌, ◌^◌, ◌≤◌, ◌≡◌, refl, sym, ap, ◌∙◌, List, [], ◌∷◌, ◌++◌, length, take, store,
  append-nil, length-append, store-append, store-store, take-store_start, arith,
}
use esp32_control_logix.Status.{pending}
use esp32_control_logix.Encapsulation.{
  command_code, send_unit_data, u16_bytes, u32_bytes, put_u16, put_u32,
}
use esp32_control_logix.Encapsulation.Header.{header_bytes, encode_header-eq-store}
use esp32_control_logix.Cip.{item_code, connected_address, connected_data}
use esp32_control_logix.Transport.{Transport, deadline_after}
use esp32_control_logix.Packet.{item, frame, frame_header, body_bytes}
use esp32_control_logix.Message.{Slice, cip_length, request_header}
use esp32_control_logix.Message.Request.{IsSlice, put_cip-eq-store, request, length-request}
use esp32_control_logix.Message.Progress.{IsRequest, good_request}
use esp32_control_logix.Connection.{Connection, open_state, sending, put_unit, max_data_size}
use esp32_control_logix.Connection.Calls.{send, start_send}
use esp32_control_logix.Connection.Exchange.{IsConnection}

-- The request as a packet: the address item names the O->T connection, and the data item starts
-- with the sequence number.
abbrev pub unit_frame : ℕ → ℕ → ℕ → ℕ → ℕ → Slice → Slice → List ℕ
unit_frame session context ot sequence service path payload = frame send_unit_data session context (
    item connected_address (u32_bytes ot)
    ∷ item connected_data (u16_bytes sequence ++ request service path payload)
    ∷ [])

length-unit_frame :
    (session context ot sequence service : ℕ) (path payload : Slice)
    → IsSlice path
    → IsSlice payload
    → length (unit_frame session context ot sequence service path payload)
      ≡ 46 + (2 + path.len + payload.len)
length-unit_frame session context ot sequence service path payload h k =
    let r = request service path payload in
    omega (arith, length-request service path payload h k, length-append r [])

module _ (tx : List ℕ) (session context ot sequence service : ℕ) (path payload : Slice) where
  abbrev asked : List ℕ
  asked = request service path payload

  -- The buffer holds the packet from its start, and no other byte has changed.
  pub put_unit-eq-store :
      IsSlice path
      → IsSlice payload
      → 2 + path.len + payload.len ≤ max_data_size
      → put_unit tx session context ot sequence service path payload
        ≡ store tx 0 (unit_frame session context ot sequence service path payload)
  unfolding put_unit put_u16 put_u32
  put_unit-eq-store h k small =
      let cip_len = cip_length path payload in
      let header =
        header_bytes
          (request_header (command_code send_unit_data) (22 + cip_len) session context 0) in
      let s2 = header ++ u32_bytes 0 in
      let s3 = s2 ++ u16_bytes 0 in
      let s4 = s3 ++ u16_bytes 2 in
      let s5 = s4 ++ u16_bytes (item_code connected_address) in
      let s6 = s5 ++ u16_bytes 4 in
      let s7 = s6 ++ u32_bytes ot in
      let s8 = s7 ++ u16_bytes (item_code connected_data) in
      let s9 = s8 ++ u16_bytes ((2 + cip_len) % 2 ^ 16) in
      rw
        (
          encode_header-eq-store tx 0
              (request_header (command_code send_unit_data) (22 + cip_len) session context 0),
          store-store tx 0 header (u32_bytes 0),
          store-store tx 0 s2 (u16_bytes 0),
          store-store tx 0 s3 (u16_bytes 2),
          store-store tx 0 s4 (u16_bytes (item_code connected_address)),
          store-store tx 0 s5 (u16_bytes 4),
          store-store tx 0 s6 (u32_bytes ot),
          store-store tx 0 s7 (u16_bytes (item_code connected_data)),
          store-store tx 0 s8 (u16_bytes ((2 + cip_len) % 2 ^ 16)),
          store-store tx 0 s9 (u16_bytes sequence),
        )
        (put_cip-eq-store (store tx 0 (s9 ++ u16_bytes sequence)) 46 service path payload h
            (omega arith)
          ∙ store-append tx 0 46 (s9 ++ u16_bytes sequence) asked refl
          ∙ ap (λ (n : ℕ). store tx 0 (shape n ((2 + cip_len) % 2 ^ 16) asked)) whole
          ∙ ap (λ (m : ℕ). store tx 0 (shape (length body) m asked)) own
          ∙ ap (λ r. store tx 0 (shape (length body) (length (u16_bytes sequence ++ asked)) r))
              (sym (append-nil asked)))
    where
      shape : ℕ → ℕ → List ℕ → List ℕ
      shape n m r =
          header_bytes (record (frame_header send_unit_data session context []) { length = n })
          ++ (u32_bytes 0
              ++ (u16_bytes 0
                  ++ (u16_bytes 2
                      ++ (u16_bytes (item_code connected_address)
                          ++ (u16_bytes 4
                              ++ (u32_bytes ot
                                  ++ (u16_bytes (item_code connected_data)
                                      ++ (u16_bytes m ++ (u16_bytes sequence ++ r)))))))))

      body : List ℕ
      body = body_bytes (
          item connected_address (u32_bytes ot)
          ∷ item connected_data (u16_bytes sequence ++ asked)
          ∷ [])

      whole : (22 + cip_length path payload) % 2 ^ 16 ≡ length body
      whole = omega (arith, length-request service path payload h k, length-append asked [])

      own : (2 + cip_length path payload) % 2 ^ 16 ≡ length (u16_bytes sequence ++ asked)
      own = omega (arith, length-request service path payload h k)

module _ {W : Type 0} (t : Transport W) where
  -- Under the invariant and on an open connection, a request of whole words and at most 256 bytes
  -- is accepted: the transmit buffer then holds, from its start, exactly the SendUnitData packet
  -- with the O->T id of the connection, the next sequence number and the request, none of it sent;
  -- the answer must echo the context and the sequence number, which go on by one, and the deadline
  -- is `timeout_ms` from now.
  pub send-unit :
      (c : Connection) (w : W) (session service : ℕ) (path payload : Slice) (timeout_ms : ℕ)
      → IsConnection c
      → c.state ≡ open_state
      → IsRequest path payload
      → let (st, c', w') = send t c w session service path payload timeout_ms in
        (st ≡ pending)
        × (c'.state ≡ sending)
        × (take c'.wire.tx_len c'.wire.tx
            ≡ unit_frame session c.context c.ot_conn_id c.sequence service path payload)
        × (c'.wire.tx_sent ≡ 0)
        × (c'.sent_context ≡ c.context)
        × (c'.sent_sequence ≡ c.sequence)
        × (c'.sequence ≡ (c.sequence + 1) % 2 ^ 16)
        × (c'.deadline ≡ deadline_after (t.millis w).0 timeout_ms)
  unfolding send start_send
  send-unit c w session service path payload timeout_ms v up r =
      let frame' = unit_frame session c.context c.ot_conn_id c.sequence service path payload in
      let stored =
        put_unit-eq-store c.wire.tx session c.context c.ot_conn_id c.sequence service path payload
          r.path_whole r.payload_whole r.small in
      let size =
        length-unit_frame session c.context c.ot_conn_id c.sequence service path payload
          r.path_whole r.payload_whole in
      let len : cip_length path payload ≡ 2 + path.len + payload.len = omega (arith, r.small) in
      let fits : length frame' ≤ length c.wire.tx = omega (arith, size, r.small, v.tx_room) in
      let same : 46 + cip_length path payload ≡ length frame' = omega (arith, size, len) in
      let buffer =
        put_unit c.wire.tx session c.context c.ot_conn_id c.sequence service path payload in
      let holds : take (46 + cip_length path payload) buffer ≡ frame' =
        ap (λ (k : ℕ). take k buffer) same
        ∙ ap (take (length frame')) stored
        ∙ take-store_start c.wire.tx frame' fits in
      ground (arith, good_request path payload r, holds)
