-- ===== src/Connection/Progress.antt =====
-- What the results of `poll` mean while a connected request is in flight.
use esp32_control_logix.Base.{◌+◌, ◌^◌, ◌<◌, ◌≡◌, ◌≢◌, refl, inl, inr, true, Bool-cases, arith}
use esp32_control_logix.Status.{Status, ok, pending, timeout}
use esp32_control_logix.Encapsulation.{header_size}
use esp32_control_logix.Transport.{Transport, IsTransport, expired}
use esp32_control_logix.Wire.{Wire, Outcome, body_length, write_pending, read_response}
use esp32_control_logix.Wire.Sending.{Wrote, write_pending-Wrote}
use esp32_control_logix.Wire.Framing.{IsReceiving, Read, whole_frame, read_response-Read}
use esp32_control_logix.Connection.{Connection, sending, open_state, failed, max_body}
use esp32_control_logix.Connection.Response.{parse_connected_response}
use esp32_control_logix.Connection.Identity.{IsAnswer, Parsed, parse_connected_response-Parsed}
use esp32_control_logix.Connection.Calls.{settle, after_read, after_write, poll_sending, poll}
use esp32_control_logix.Connection.Exchange.{IsConnection}

-- The connection was opened again with what the frame in the wire `frame` answers.
pub record Answered (c c' : Connection) : Type 0 where
  pub frame : Wire
  pub parsed : Connection
  pub is_answer : IsAnswer (record c { wire = frame }) parsed
  pub opened : c' ≡ record parsed { state = open_state }

-- What the result of a `poll` in flight means.
pub record SendProgress (c : Connection) (st : Status) (c' : Connection) : Type 0 where
  pub same_context : c'.sent_context ≡ c.sent_context
  pub same_sequence : c'.sent_sequence ≡ c.sent_sequence
  pub pending_flight : st ≡ pending → c'.state ≡ sending
  pub failure_failed : st ≢ ok → st ≢ pending → c'.state ≡ failed
  pub ok_open : st ≡ ok → c'.state ≡ open_state
  pub ok_sent : st ≡ ok → c'.wire.tx_sent ≡ c'.wire.tx_len
  pub ok_whole : st ≡ ok → c'.wire.rx_len ≡ header_size + body_length c'.wire
  pub ok_answer : st ≡ ok → Answered c c'

module _ {W : Type 0} (t : Transport W) where
  settle-SendProgress :
      (c : Connection) (b : Wire) (out : Status × Connection) (w : W)
      → b.tx_sent ≡ b.tx_len
      → b.rx_len ≡ header_size + body_length b
      → Parsed (record c { wire = b }) out
      → SendProgress c (settle t out w).0 (settle t out w).1
  settle-SendProgress c b (ok, c2) w s f (inl (accepted, a)) =
      let opened : Connection = record c2 { state = open_state } in
      let answered : Answered c opened = record {
        frame = b;
        parsed = c2;
        is_answer = a;
        opened = refl;
      } in
      let same = a.only_answer in ground (arith, same, answered)
  settle-SendProgress c b (ok, c2) w s f (inr same) = cc
  settle-SendProgress c b (st, c2) w s f (inl (accepted, a)) = ground arith
  settle-SendProgress c b (st, c2) w s f (inr same) = ground arith

  after_read-SendProgress :
      (c : Connection) (b0 : Wire) (out : Outcome W)
      → c.state ≡ sending
      → b0.tx_sent ≡ b0.tx_len
      → Read max_body b0 out
      → let r = after_read t (record c { wire = b0 }) out in SendProgress c r.0 r.1
  after_read-SendProgress c b0 (ok, b, w) e s r =
      let c1 : Connection = record c { wire = b } in
      let (whole, frame) = whole_frame b (r.ok_receiving refl) (r.ok_frame refl) in
      let small : b.rx_len < 2 ^ 32 = omega (arith, r.rx_fits) in
      let all_sent : b.tx_sent ≡ b.tx_len = ground arith in
      settle-SendProgress c b (parse_connected_response c1) w all_sent frame
        (parse_connected_response-Parsed c1 whole small)
  after_read-SendProgress c b0 (pending, b, w) e s r = ground arith
  after_read-SendProgress c b0 (st, b, w) e s r = ground arith

  after_write-SendProgress :
      IsTransport t
      → (c : Connection) (out : Outcome W) → c.state ≡ sending
      → IsReceiving max_body c.wire
      → Wrote c.wire out
      → SendProgress c (after_write t c out).0 (after_write t c out).1
  after_write-SendProgress ht c (ok, b, w) e v r =
      let ready : IsReceiving max_body b = ground (arith, v) in
      let all_sent : b.tx_sent ≡ b.tx_len = ground arith in
      after_read-SendProgress c b (read_response t max_body b w) e all_sent
        (read_response-Read t ht max_body b w ready)
  after_write-SendProgress ht c (pending, b, w) e v r = ground arith
  after_write-SendProgress ht c (st, b, w) e v r = ground arith

  -- A `poll` of a connected request in flight, under the invariant and over a transport that keeps
  -- its contract: past the deadline it returns `Timeout` and the connection fails. Otherwise
  -- `Pending` means still in flight, and `Ok` that the whole request went out, that one whole frame
  -- came in, which answers this request on this connection, and that the connection is open again;
  -- any other status fails the connection.
  pub poll-SendProgress :
      IsTransport t
      → (c : Connection) (w : W) → IsConnection c
      → c.state ≡ sending
      → SendProgress c (poll t c w).0 (poll t c w).1
        × (expired (t.millis w).0 c.deadline ≡ true → (poll t c w).0 ≡ timeout)
  unfolding poll poll_sending
  poll-SendProgress ht c w v e =
      let w' = (t.millis w).1 in
      let later =
        after_write-SendProgress ht c (write_pending t c.wire w') e (v.rx_ready e)
          (write_pending-Wrote t ht c.wire w' (v.tx_ready e).sent_fits) in
      elim (Bool-cases (expired (t.millis w).0 c.deadline)) [
        | inl late ↦ ground arith
        | inr early ↦ ground (arith, later)
      ]
