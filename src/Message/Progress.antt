-- ===== src/Message/Progress.antt =====
-- What `send` puts on the wire, and what the results of `poll` mean.
use esp32_control_logix.Base.{
  ℕ, ◌+◌, ◌%◌, ◌^◌, ◌≤◌, ◌<◌, ◌≡◌, ◌≢◌, refl, ap, ◌∙◌, inl, inr, true, false, length, take,
  take-store_start, Bool-cases, arith,
}
use esp32_control_logix.Status.{Status, ok, pending, timeout}
use esp32_control_logix.Encapsulation.{header_size, command_code, send_rr_data, decode_header}
use esp32_control_logix.Transport.{Transport, IsTransport, expired, deadline_after}
use esp32_control_logix.Wire.{Outcome, body_length, write_pending, read_response}
use esp32_control_logix.Wire.Sending.{IsSending, write_pending-Wrote}
use esp32_control_logix.Wire.Sending
use esp32_control_logix.Wire.Framing.{IsReceiving, Read, whole_frame, read_response-Read}
use esp32_control_logix.Message.Request.{
  IsSlice, request_frame, length-request_frame, put_request-eq-store,
}
use esp32_control_logix.Message.Response.{Parsed, parse_response-Parsed}
use esp32_control_logix.Message.Exchange.{IsMessage}
use esp32_control_logix.Message.{
  Message, Slice, sending, receiving, done, failed, max_body, max_cip_data, is_sending, bad_request,
  cip_length, put_request, send, settle, after_read, after_write, poll_exchange, poll,
  parse_response,
}

-- A request that `send` can take: whole words of path, 256 bytes in all.
pub record IsRequest (path payload : Slice) : Type 0 where
  pub path_whole : IsSlice path
  pub payload_whole : IsSlice payload
  pub even : path.len % 2 ≡ 0
  pub small : 2 + path.len + payload.len ≤ max_cip_data

pub good_request :
    (path payload : Slice) → IsRequest path payload → bad_request path payload ≡ false
good_request path payload v = ground (arith, v.path_whole, v.payload_whole)

module _ {W : Type 0} (t : Transport W) where
  -- Under the invariant, on a connected transport and with no exchange in flight, a request of whole words and at most
  -- 256 bytes is accepted: the transmit buffer then holds, from its start, exactly the SendRRData
  -- packet with a null address item and the request, none of it sent, under the context that the
  -- answer must echo, and the deadline is `timeout_ms` from now.
  pub send_request :
      (m : Message) (w : W) (session service : ℕ) (path payload : Slice) (timeout_ms : ℕ)
      → IsMessage m
      → is_sending m.state ≡ false
      → t.connected w ≡ true
      → IsRequest path payload
      → let (st, m', w') = send t m w session service path payload timeout_ms in
        (st ≡ pending)
        × (m'.state ≡ sending)
        × (take m'.wire.tx_len m'.wire.tx ≡ request_frame session m.context service path payload)
        × (m'.wire.tx_sent ≡ 0)
        × (m'.sent_context ≡ m.context)
        × (m'.deadline ≡ deadline_after (t.millis w).0 timeout_ms)
  unfolding send
  send_request m w session service path payload timeout_ms v free up r =
      let frame' = request_frame session m.context service path payload in
      let stored =
        put_request-eq-store m.wire.tx session m.context service path payload r.path_whole
          r.payload_whole r.small in
      let size =
        length-request_frame session m.context service path payload r.path_whole r.payload_whole in
      let len : cip_length path payload ≡ 2 + path.len + payload.len = omega (arith, r.small) in
      let fits : length frame' ≤ length m.wire.tx = omega (arith, size, r.small, v.tx_room) in
      let same : 40 + cip_length path payload ≡ length frame' = omega (arith, size, len) in
      let holds : take (40 + cip_length path payload)
            (put_request m.wire.tx session m.context service path payload)
          ≡ frame' =
        ap (λ (k : ℕ). take k (put_request m.wire.tx session m.context service path payload)) same
        ∙ ap (take (length frame')) stored
        ∙ take-store_start m.wire.tx frame' fits in
      ground (arith, good_request path payload r, holds)

-- What the result of a `poll` in flight means.
pub record Progress (m : Message) (st : Status) (m' : Message) : Type 0 where
  pub same_request : m'.sent_context ≡ m.sent_context
  pub pending_flight : st ≡ pending → is_sending m'.state ≡ true
  pub failure_failed : st ≢ ok → st ≢ pending → m'.state ≡ failed
  pub ok_done : st ≡ ok → m'.state ≡ done
  pub ok_sent : st ≡ ok → m'.wire.tx_sent ≡ m'.wire.tx_len
  pub ok_whole : st ≡ ok → m'.wire.rx_len ≡ header_size + body_length m'.wire
  pub ok_command : st ≡ ok → (decode_header m'.wire.rx 0).command ≡ command_code send_rr_data
  pub ok_status : st ≡ ok → (decode_header m'.wire.rx 0).status ≡ 0
  pub ok_context : st ≡ ok → (decode_header m'.wire.rx 0).context ≡ m.sent_context

module _ {W : Type 0} (t : Transport W) where
  settle-Progress :
      (m m' : Message) (out : Status × Message) (w : W)
      → m'.sent_context ≡ m.sent_context
      → m'.wire.tx_sent ≡ m'.wire.tx_len
      → m'.wire.rx_len ≡ header_size + body_length m'.wire
      → Parsed m' out
      → Progress m (settle t out w).0 (settle t out w).1
  settle-Progress m m' (ok, n) w e s f p = ground arith
  settle-Progress m m' (st, n) w e s f p = ground arith

  after_read-Progress :
      (m m' : Message) (out : Outcome W)
      → m'.sent_context ≡ m.sent_context
      → m'.state ≡ receiving
      → m'.wire.tx_sent ≡ m'.wire.tx_len
      → Read max_body m'.wire out
      → Progress m (after_read t m' out).0 (after_read t m' out).1
  after_read-Progress m m' (ok, b, w) e st s r =
      let n : Message = record m' { wire = b } in
      let (whole, frame') = whole_frame b (r.ok_receiving refl) (r.ok_frame refl) in
      let small : b.rx_len < 2 ^ 32 = omega (arith, r.rx_fits) in
      let all_sent : b.tx_sent ≡ b.tx_len = ground arith in
      settle-Progress m n (parse_response n) w e all_sent frame'
        (parse_response-Parsed n whole small)
  after_read-Progress m m' (pending, b, w) e st s r = ground arith
  after_read-Progress m m' (status, b, w) e st s r = ground arith

  after_write-Progress :
      IsTransport t
      → (m : Message) (out : Outcome W) → is_sending m.state ≡ true
      → IsReceiving max_body m.wire
      → Sending.Wrote m.wire out
      → Progress m (after_write t m out).0 (after_write t m out).1
  after_write-Progress ht m (ok, b, w) e v r =
      let m' : Message = record m { wire = b; state = receiving } in
      let ready : IsReceiving max_body b = ground (arith, v) in
      let all_sent : b.tx_sent ≡ b.tx_len = ground arith in
      after_read-Progress m m' (read_response t max_body b w) refl refl all_sent
        (read_response-Read t ht max_body b w ready)
  after_write-Progress ht m (pending, b, w) e v r = ground arith
  after_write-Progress ht m (st, b, w) e v r = ground arith

  -- A `poll` of an exchange in flight, under the invariant and over a transport that keeps its
  -- contract: past the deadline it returns `Timeout` and fails the
  -- exchange. Otherwise `Pending` means still in flight, and `Ok` that the whole request went out and
  -- one whole frame came in, a successful SendRRData response with the context of this request;
  -- any other status fails the exchange.
  pub poll-Progress :
      IsTransport t
      → (m : Message) (w : W) → IsMessage m
      → is_sending m.state ≡ true
      → Progress m (poll t m w).0 (poll t m w).1
        × (expired (t.millis w).0 m.deadline ≡ true → (poll t m w).0 ≡ timeout)
  unfolding poll poll_exchange
  poll-Progress ht m w v e =
      let w' = (t.millis w).1 in
      let later =
        after_write-Progress ht m (write_pending t m.wire w') e (v.rx_ready e)
          (write_pending-Wrote t ht m.wire w' (v.tx_ready e).sent_fits) in
      elim (Bool-cases (expired (t.millis w).0 m.deadline)) [
        | inl late ↦ ground arith
        | inr early ↦ ground (arith, later)
      ]
