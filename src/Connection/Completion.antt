-- ===== src/Connection/Completion.antt =====
-- A connected request is answered: it ends with `Ok` and the data of the answer.
use esp32_control_logix.Base.{
  ℕ, ◌+◌, ◌-◌, ◌≡◌, refl, sym, ap, ◌∙◌, true, false, some, List, ◌++◌, length, take, drop, arith,
}
use esp32_control_logix.Status.{Status, ok, pending}
use esp32_control_logix.Transport.{Transport, IsTransport, Streams, expired, deadline_after}
use esp32_control_logix.Wire.{Outcome, unsent, write_pending, read_response}
use esp32_control_logix.Wire.Framing.{IsReceiving, Read, read_response-Read}
use esp32_control_logix.Wire.Conservation.{incoming}
use esp32_control_logix.Wire.Ready.{IsReady, clock-keeps, write_pending-ready, unsent_whole}
use esp32_control_logix.Wire.Delivery.{Delivered, read_response-Delivered, read_response-sent}
use esp32_control_logix.Message.{Slice}
use esp32_control_logix.Message.Progress.{IsRequest, good_request}
use esp32_control_logix.Connection.{Connection, open_state, sending, max_body}
use esp32_control_logix.Connection.Response.{Found}
use esp32_control_logix.Connection.Calls.{
  send, start_send, after_read, after_write, poll_sending, poll,
}
use esp32_control_logix.Connection.Answer.{parse_connected_response-accepts}
use esp32_control_logix.Connection.Exchange.{IsConnection, capacity, send-IsConnection}
use esp32_control_logix.Connection.Request.{unit_frame, send-unit}
use esp32_control_logix.Connection.Reply.{
  FitsAnswer, answer_packet, answer_items, length-answer_packet, answer-all_seen,
  answer_packet-IsFrame, answer_packet-IsAnswerFrame, answer_packet-bytes,
}

-- A connection on which the request has ended with an answer.
pub record Answered (service code : ℕ) (payload : List ℕ) (st : Status) (c : Connection)
    : Type 0 where
  pub all_ok : st ≡ ok
  pub still_open : c.state ≡ open_state
  pub service_read : c.reply_service ≡ service
  pub code_read : c.result_code ≡ code
  pub data_place : c.response ≡ some 50
  pub data_length : c.response_len ≡ length payload
  pub data_read : take (length payload) (drop 50 c.wire.rx) ≡ payload

-- A request that is accepted finds the receive buffer empty, and has only read the clock.
pub send-fresh :
    {W : Type 0} (t : Transport W) (c : Connection) (w : W) (session service : ℕ)
    (path content : Slice) (timeout_ms : ℕ)
    → c.state ≡ open_state
    → IsRequest path content
    → let (st, c1, w1) = send t c w session service path content timeout_ms in
      (c1.wire.rx_len ≡ 0) × (w1 ≡ (t.millis w).1) × (c1.to_conn_id ≡ c.to_conn_id)
unfolding send start_send
send-fresh t c w session service path content timeout_ms e q =
    ground (arith, e, good_request path content q)

module _ {W : Type 0} (t : Transport W) (ht : IsTransport t) (s : Streams t) {on : W → Type 0}
    (r : IsReady s on) (session context to sequence service code : ℕ) (payload more : List ℕ)
    (v : FitsAnswer session context to sequence service code payload) where
  abbrev answer : List ℕ
  answer = answer_packet session context to sequence service code payload

  after_read-Answered :
      (c : Connection) (out : Outcome W)
      → c.sent_context ≡ context
      → c.sent_sequence ≡ sequence
      → c.to_conn_id ≡ to
      → Read max_body c.wire out
      → Delivered s answer more out
      → let fin = after_read t c out in Answered service code payload fin.0 fin.1 × (fin.2 ≡ out.2)
  after_read-Answered c (ok, b, w) echoed counted named rd d =
      let c' : Connection = record c { wire = b } in
      let size : b.rx_len ≡ 50 + length payload =
        d.size ∙ length-answer_packet session context to sequence service code payload in
      let frame =
        answer_packet-IsAnswerFrame session context to sequence service code payload c' v
          rd.rx_bytes d.holds size echoed in
      let bytes =
        answer_packet-bytes session context to sequence service code payload c' v rd.rx_bytes
          d.holds in
      let seen = answer-all_seen session context to sequence service code payload v.to_u32 in
      let found : ℕ → Found = λ id. record {
        conn_id = id;
        have_conn_id = true;
        conn_data = some 44;
        conn_data_len = 6 + length payload;
      } in
      let parsed =
        parse_connected_response-accepts c' (answer_items to sequence service code payload) 44
          (6 + length payload) frame (seen ∙ ap (λ id. some (found id)) (sym named))
          (bytes.0 ∙ sym counted) (omega arith) in
      let less : 6 + length payload - 6 ≡ length payload = omega arith in
      rw parsed (
        record {
          all_ok = refl;
          still_open = refl;
          service_read = bytes.1;
          code_read = bytes.2;
          data_place = refl;
          data_length = less;
          data_read = bytes.3;
        },
        refl,
      )
  after_read-Answered c (pending, b, w) echoed counted named rd d = ground (arith, d.all_in)
  after_read-Answered c (st, b, w) echoed counted named rd d = ground (arith, d.all_in)

  after_write-Answered :
      (c : Connection) (out : Outcome W)
      → out.0 ≡ ok
      → c.sent_context ≡ context
      → c.sent_sequence ≡ sequence
      → c.to_conn_id ≡ to
      → IsReceiving max_body out.1
      → incoming s out.1 out.2 ≡ answer ++ more
      → on out.2
      → let fin = after_write t c out in
        Answered service code payload fin.0 fin.1
        × (s.sent fin.2 ≡ s.sent out.2)
        × (s.unread fin.2 ≡ more)
  after_write-Answered c (ok, b, w) e echoed counted named ready there o =
      let c' : Connection = record c { wire = b } in
      let frame = answer_packet-IsFrame session context to sequence service code payload v in
      let out = read_response t max_body b w in
      let d = read_response-Delivered t ht s r.reads max_body answer more frame b w ready there o in
      let rd = read_response-Read t ht max_body b w ready in
      let ends = after_read-Answered c' out echoed counted named rd d in
      (
        ends.0,
        ap s.sent ends.1 ∙ read_response-sent t s r max_body b w,
        ap s.unread ends.1 ∙ d.behind,
      )
  after_write-Answered c (pending, b, w) e echoed counted named ready there o =
      absurd (ground (arith, e))
  after_write-Answered c (st, b, w) e echoed counted named ready there o = ground (arith, e)

  -- A request in flight whose deadline has not passed.
  poll-Answered :
      (c : Connection) (w : W)
      → IsConnection c
      → on w
      → c.state ≡ sending
      → c.sent_context ≡ context
      → c.sent_sequence ≡ sequence
      → c.to_conn_id ≡ to
      → expired (t.millis w).0 c.deadline ≡ false
      → (let out = write_pending t c.wire (t.millis w).1 in incoming s out.1 out.2 ≡ answer ++ more)
      → let fin = poll t c w in
        Answered service code payload fin.0 fin.1
        × (s.sent fin.2 ≡ s.sent w ++ unsent c.wire)
        × (s.unread fin.2 ≡ more)
  unfolding poll poll_sending
  poll-Answered c w h o e echoed counted named early there =
      let w1 = (t.millis w).1 in
      let out = write_pending t c.wire w1 in
      let wrote =
        write_pending-ready t ht s r capacity c.wire w1 (h.tx_ready e) (r.millis_on w o) in
      let ready : IsReceiving max_body out.1 = ground (arith, wrote.1, h.rx_ready e) in
      let ends = after_write-Answered c out wrote.0 echoed counted named ready there wrote.3 in
      let all_sent : s.sent out.2 ≡ s.sent w ++ unsent c.wire =
        wrote.2 ∙ ap (λ xs. xs ++ unsent c.wire) (r.millis_sent w) in
      ground (arith, e, early, ends, all_sent)

  -- From a state in which the stream moves bytes at both ends and goes on so (`IsReady`), a request
  -- on an open connection is answered: `send` and then `poll` before the deadline put exactly the
  -- SendUnitData packet on the stream, and where the answer under its context, its sequence number
  -- and the T->O id of the connection can then be read, they end with `Ok` and an open connection,
  -- and give out the service, the status and the data of that answer, and leave what follows it
  -- unread.
  pub poll-send_unit :
      (c : Connection) (w : W) (handle request_service : ℕ) (path content : Slice) (timeout_ms : ℕ)
      → IsConnection c
      → on w
      → c.state ≡ open_state
      → c.context ≡ context
      → c.sequence ≡ sequence
      → c.to_conn_id ≡ to
      → IsRequest path content
      → let (st, c1, w1) = send t c w handle request_service path content timeout_ms in
        expired (t.millis w1).0 (deadline_after (t.millis w).0 timeout_ms) ≡ false
        → (let out = write_pending t c1.wire (t.millis w1).1 in s.unread out.2 ≡ answer ++ more)
        → let (st2, c2, w2) = poll t c1 w1 in
          Answered service code payload st2 c2
          × (s.sent w2
              ≡ s.sent w
                ++ unit_frame handle c.context c.ot_conn_id c.sequence request_service path content)
          × (s.unread w2 ≡ more)
  poll-send_unit c w handle request_service path content timeout_ms h o up echoed counted named q
        early there =
      let (st, c1, w1) = send t c w handle request_service path content timeout_ms in
      let (begins, flies, full, none_sent, same_context, same_sequence, _, set) =
        send-unit t c w handle request_service path content timeout_ms h up q in
      let kept : IsConnection c1 =
        send-IsConnection t c w handle request_service path content timeout_ms h in
      let (no_rx, clock, same_id) =
        send-fresh t c w handle request_service path content timeout_ms up q in
      let o1 : on w1 = clock-keeps r w w1 clock o in
      let out = write_pending t c1.wire (t.millis w1).1 in
      let wrote =
        write_pending-ready t ht s r capacity c1.wire (t.millis w1).1 (kept.tx_ready flies)
          (r.millis_on w1 o1) in
      let still : out.1.rx_len ≡ 0 = ground (arith, wrote.1, no_rx) in
      let comes : incoming s out.1 out.2 ≡ answer ++ more =
        ap (λ (k : ℕ). take k out.1.rx ++ s.unread out.2) still ∙ there in
      let on_time : expired (t.millis w1).0 c1.deadline ≡ false =
        ap (expired (t.millis w1).0) set ∙ early in
      let (ends, moved, left) =
        poll-Answered c1 w1 kept o1 flies (same_context ∙ echoed) (same_sequence ∙ counted)
          (same_id ∙ named) on_time comes in
      let packet =
        unit_frame handle c.context c.ot_conn_id c.sequence request_service path content in
      (
        ends,
        moved
            ∙ ap (λ xs. s.sent w1 ++ xs) (unsent_whole c1.wire none_sent ∙ full)
            ∙ ap (λ xs. xs ++ packet) (ap s.sent clock ∙ r.millis_sent w),
        left,
      )
