-- ===== src/Message/Completion.antt =====
-- A request is answered: the exchange ends with `Ok` and the data of the answer.
use esp32_control_logix.Base.{
  ℕ, ◌+◌, ◌-◌, ◌≡◌, refl, ap, ◌∙◌, true, false, none, some, List, [], ◌++◌, length, take, drop, ◌∷◌,
  arith,
}
use esp32_control_logix.Status.{Status, ok, pending}
use esp32_control_logix.Transport.{Transport, IsTransport, Streams, expired, deadline_after}
use esp32_control_logix.Wire.{Outcome, unsent, write_pending, read_response}
use esp32_control_logix.Wire.Framing.{IsReceiving, Read, read_response-Read}
use esp32_control_logix.Wire.Conservation.{incoming}
use esp32_control_logix.Wire.Ready.{IsReady, clock-keeps, write_pending-ready, unsent_whole}
use esp32_control_logix.Wire.Delivery.{Delivered, read_response-Delivered, read_response-sent}
use esp32_control_logix.Message.{
  Message, Slice, receiving, done, max_body, is_sending, send, after_read, after_write,
  poll_exchange, poll,
}
use esp32_control_logix.Message.Answer.{parse_response-IsReply}
use esp32_control_logix.Message.Reply.{
  FitsReply, response_frame, reply_items, length-response_frame, response_frame-IsFrame,
  response_frame-IsReply, response_frame-bytes,
}
use esp32_control_logix.Message.Request.{request_frame}
use esp32_control_logix.Message.Progress.{IsRequest, good_request, send_request}
use esp32_control_logix.Message.Exchange.{IsMessage, send-IsMessage}

-- `data()` with `dataLen()`.
abbrev pub answer_data : Message → List ℕ
answer_data m = elim m.response [ none ↦ [] | some p ↦ take m.response_len (drop p m.wire.rx) ]

-- An exchange that has ended with an answer.
pub record Answered (service code : ℕ) (payload : List ℕ) (st : Status) (m : Message) : Type 0 where
  pub all_ok : st ≡ ok
  pub is_done : m.state ≡ done
  pub service_read : m.reply_service ≡ service
  pub code_read : m.result_code ≡ code
  pub data_place : m.response ≡ some 44
  pub data_length : m.response_len ≡ length payload
  pub data_read : take (length payload) (drop 44 m.wire.rx) ≡ payload

-- A request that is accepted finds the receive buffer empty, and has only read the clock.
pub send-fresh :
    {W : Type 0} (t : Transport W) (m : Message) (w : W) (session service : ℕ)
    (path content : Slice) (timeout_ms : ℕ)
    → is_sending m.state ≡ false
    → t.connected w ≡ true
    → IsRequest path content
    → let (st, m1, w1) = send t m w session service path content timeout_ms in
      (m1.wire.rx_len ≡ 0) × (w1 ≡ (t.millis w).1)
unfolding send
send-fresh t m w session service path content timeout_ms free up q =
    ground (arith, good_request path content q)

module _ {W : Type 0} (t : Transport W) (ht : IsTransport t) (s : Streams t) {on : W → Type 0}
    (r : IsReady s on) (session context service code : ℕ) (payload more : List ℕ)
    (v : FitsReply session context service code payload) where
  abbrev answer : List ℕ
  answer = response_frame session context service code payload

  after_read-Answered :
      (m : Message) (out : Outcome W)
      → m.sent_context ≡ context
      → Read max_body m.wire out
      → Delivered s answer more out
      → let fin = after_read t m out in Answered service code payload fin.0 fin.1 × (fin.2 ≡ out.2)
  after_read-Answered m (ok, b, w) same rd d =
      let m' : Message = record m { wire = b } in
      let size : b.rx_len ≡ 44 + length payload =
        d.size ∙ length-response_frame session context service code payload in
      let reply =
        response_frame-IsReply session context service code payload m' v rd.rx_bytes d.holds size
          same in
      let len = length (service ∷ 0 ∷ code ∷ 0 ∷ payload) in
      let parsed =
        parse_response-IsReply m' (reply_items service code payload) 40 len reply refl
          (omega arith) in
      let bytes =
        response_frame-bytes session context service code payload m' v rd.rx_bytes d.holds in
      let less : len - 4 ≡ length payload = omega arith in
      rw parsed (
        record {
          all_ok = refl;
          is_done = refl;
          service_read = bytes.0;
          code_read = bytes.1;
          data_place = refl;
          data_length = less;
          data_read = bytes.2;
        },
        refl,
      )
  after_read-Answered m (pending, b, w) same rd d = ground (arith, d.all_in)
  after_read-Answered m (st, b, w) same rd d = ground (arith, d.all_in)

  after_write-Answered :
      (m : Message) (out : Outcome W)
      → out.0 ≡ ok
      → m.sent_context ≡ context
      → IsReceiving max_body out.1
      → incoming s out.1 out.2 ≡ answer ++ more
      → on out.2
      → let fin = after_write t m out in
        Answered service code payload fin.0 fin.1
        × (s.sent fin.2 ≡ s.sent out.2)
        × (s.unread fin.2 ≡ more)
  after_write-Answered m (ok, b, w) e same ready there o =
      let m' : Message = record m { state = receiving; wire = b } in
      let frame = response_frame-IsFrame session context service code payload v in
      let out = read_response t max_body b w in
      let d = read_response-Delivered t ht s r.reads max_body answer more frame b w ready there o in
      let ends = after_read-Answered m' out same (read_response-Read t ht max_body b w ready) d in
      (
        ends.0,
        ap s.sent ends.1 ∙ read_response-sent t s r max_body b w,
        ap s.unread ends.1 ∙ d.behind,
      )
  after_write-Answered m (pending, b, w) e same ready there o = absurd (ground (arith, e))
  after_write-Answered m (st, b, w) e same ready there o = ground (arith, e)

  -- An exchange in flight whose deadline has not passed.
  pub poll-Answered :
      (m : Message) (w : W)
      → IsMessage m
      → on w
      → is_sending m.state ≡ true
      → m.sent_context ≡ context
      → expired (t.millis w).0 m.deadline ≡ false
      → (let out = write_pending t m.wire (t.millis w).1 in incoming s out.1 out.2 ≡ answer ++ more)
      → let fin = poll t m w in
        Answered service code payload fin.0 fin.1
        × (s.sent fin.2 ≡ s.sent w ++ unsent m.wire)
        × (s.unread fin.2 ≡ more)
  unfolding poll poll_exchange
  poll-Answered m w h o e same early there =
      let w1 = (t.millis w).1 in
      let out = write_pending t m.wire w1 in
      let wrote = write_pending-ready t ht s r _ m.wire w1 (h.tx_ready e) (r.millis_on w o) in
      let ready : IsReceiving max_body out.1 = ground (arith, wrote.1, h.rx_ready e) in
      let ends = after_write-Answered m out wrote.0 same ready there wrote.3 in
      let all_sent : s.sent out.2 ≡ s.sent w ++ unsent m.wire =
        wrote.2 ∙ ap (λ xs. xs ++ unsent m.wire) (r.millis_sent w) in
      ground (arith, early, ends, all_sent)

  -- From a state in which the stream moves bytes at both ends and goes on so (`IsReady`), a request
  -- that is accepted is answered: `send` and then `poll` before the deadline put exactly the
  -- request packet on the stream, and where the answer under its context can then be read, they end
  -- with `Ok` and give out the service, the status and the data of that answer, and leave what
  -- follows it unread.
  pub poll-send :
      (m : Message) (w : W) (handle request_service : ℕ) (path content : Slice) (timeout_ms : ℕ)
      → IsMessage m
      → on w
      → is_sending m.state ≡ false
      → m.context ≡ context
      → t.connected w ≡ true
      → IsRequest path content
      → let (st, m1, w1) = send t m w handle request_service path content timeout_ms in
        expired (t.millis w1).0 (deadline_after (t.millis w).0 timeout_ms) ≡ false
        → (let out = write_pending t m1.wire (t.millis w1).1 in s.unread out.2 ≡ answer ++ more)
        → let (st2, m2, w2) = poll t m1 w1 in
          Answered service code payload st2 m2
          × (s.sent w2 ≡ s.sent w ++ request_frame handle m.context request_service path content)
          × (s.unread w2 ≡ more)
  poll-send m w handle request_service path content timeout_ms h o free same up q early there =
      let (st, m1, w1) = send t m w handle request_service path content timeout_ms in
      let started = send_request t m w handle request_service path content timeout_ms h free up q in
      let kept : IsMessage m1 =
        send-IsMessage t m w handle request_service path content timeout_ms h in
      let flies : is_sending m1.state ≡ true = ap is_sending started.1 in
      let fresh = send-fresh t m w handle request_service path content timeout_ms free up q in
      let o1 : on w1 = clock-keeps r w w1 fresh.1 o in
      let (_, _, full, unsent_sent, same_context, set) = started in
      let wrote =
        write_pending-ready t ht s r _ m1.wire (t.millis w1).1 (kept.tx_ready flies)
          (r.millis_on w1 o1) in
      let out = write_pending t m1.wire (t.millis w1).1 in
      let no_rx : out.1.rx_len ≡ 0 = ground (arith, wrote.1, fresh.0) in
      let comes : incoming s out.1 out.2 ≡ answer ++ more =
        ap (λ (k : ℕ). take k out.1.rx ++ s.unread out.2) no_rx ∙ there in
      let on_time : expired (t.millis w1).0 m1.deadline ≡ false =
        ap (expired (t.millis w1).0) set ∙ early in
      let (ends, moved, left) =
        poll-Answered m1 w1 kept o1 flies (same_context ∙ same) on_time comes in
      let packet : unsent m1.wire ≡ request_frame handle m.context request_service path content =
        unsent_whole m1.wire unsent_sent ∙ full in
      (
        ends,
        moved
            ∙ ap (λ xs. s.sent w1 ++ xs) packet
            ∙ ap (λ xs. xs ++ request_frame handle m.context request_service path content)
                (ap s.sent fresh.1 ∙ r.millis_sent w),
        left,
      )
