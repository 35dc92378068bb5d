-- ===== src/Connection/Exchange.antt =====
-- The invariant of a `Connection`, kept by every operation.
use mathlib.Core.Option
use esp32_control_logix.Base.{
  ℕ, ◌+◌, ◌^◌, ◌≤◌, ◌<◌, ◌≡◌, ◌≢◌, refl, inl, inr, true, Option, none, some, List, length, take,
  ◌==◌, if◌then◌else◌, All, Bool-cases, arith,
}
use esp32_control_logix.Status.{Status, ok, pending}
use esp32_control_logix.Encapsulation.{IsByte, header_size}
use esp32_control_logix.Encapsulation.Words.{length-put_u16, length-put_u32}
use esp32_control_logix.Encapsulation.Header.{length-encode_header}
use esp32_control_logix.Transport.{Transport, IsTransport, expired}
use esp32_control_logix.Wire.{Outcome, write_pending, read_response}
use esp32_control_logix.Wire.Sending.{IsSending, Wrote, write_pending-Wrote}
use esp32_control_logix.Wire.Framing.{IsReceiving, Read, whole_frame, read_response-Read}
use esp32_control_logix.Message
use esp32_control_logix.Message.{Message, Slice, bad_request, cip_length}
use esp32_control_logix.Message.Request.{length-put_cip}
use esp32_control_logix.Message.Response.{Within}
use esp32_control_logix.Message.Exchange.{IsMessage, send-IsMessage, poll-IsMessage}
use esp32_control_logix.Connection.{
  Connection, State, opening, sending, closing, max_body, manager_path, slice_of, open_data,
  close_data, put_unit,
}
use esp32_control_logix.Connection.Response.{parse_connected_response}
use esp32_control_logix.Connection.Identity.{Parsed, parse_connected_response-Parsed}
use esp32_control_logix.Connection.Calls.{
  forwarded, start_open, open_connection, start_close, close, start_send, send, finish_open,
  opening_polled, poll_opening, closing_polled, poll_closing, settle, after_read, after_write,
  poll_sending, poll,
}

-- The size of the two buffers.
abbrev pub capacity : ℕ
capacity = header_size + max_body

-- The invariant: the message that opens and closes the connection keeps its own; the buffers keep
-- their size; while a request is in flight there is a connection and the buffers are in order; and
-- a response that is given out lies in the receive buffer.
pub record IsConnection (c : Connection) : Type 0 where
  pub forward : IsMessage c.fwd
  pub tx_room : length c.wire.tx ≡ capacity
  pub rx_room : length c.wire.rx ≡ capacity
  pub rx_bytes : All IsByte c.wire.rx
  pub attached : c.state ≡ sending → c.attached ≡ true
  pub tx_ready : c.state ≡ sending → IsSending capacity c.wire
  pub rx_ready : c.state ≡ sending → IsReceiving max_body c.wire
  pub answered : Within capacity (Option.map (λ p. (p, c.response_len)) c.response)

length-put_unit :
    (tx : List ℕ) (session context ot sequence service : ℕ) (path payload : Slice)
    → length (put_unit tx session context ot sequence service path payload) ≡ length tx
unfolding put_unit
length-put_unit tx session context ot sequence service path payload =
    simp (length-put_cip, length-put_u16, length-put_u32, length-encode_header)

finish_open-IsConnection :
    {W : Type 0} (t : Transport W) (c : Connection)
    → IsConnection c
    → IsConnection (finish_open t c).1
unfolding finish_open
finish_open-IsConnection t c v = ground arith

module _ {W : Type 0} (t : Transport W) where
  forwarded-IsConnection :
      (c : Connection) (next : State) (r : Status × Message × W)
      → next ≢ sending
      → IsConnection c
      → IsMessage r.1
      → IsConnection (forwarded t c next r).1
  forwarded-IsConnection c next (pending, m, w) fits v vm = ground arith
  forwarded-IsConnection c next (st, m, w) fits v vm = ground arith

  start_open-IsConnection :
      (c : Connection) (w : W) (session : ℕ) (name : List ℕ) (timeout_ms : ℕ)
      → IsConnection c
      → IsConnection (start_open t c w session name timeout_ms).1
  unfolding start_open
  start_open-IsConnection c w session name timeout_ms v =
      let (r, w') = t.random w in
      let ot = if r == 0 then 1 else r in
      let c' : Connection = record c { ot_conn_id = ot; to_conn_id = 0; tag_name = take 63 name } in
      let keeps : IsConnection c' = ground arith in
      let body = slice_of (open_data ot (take 63 name)) in
      forwarded-IsConnection c' opening
        (Message.send t c.fwd w' session 0x54 manager_path body timeout_ms) (λ d. cc) keeps
        (send-IsMessage t c.fwd w' session 0x54 manager_path body timeout_ms v.forward)

  pub open-IsConnection :
      (c : Connection) (w : W) (session : ℕ) (name : Option (List ℕ)) (timeout_ms : ℕ)
      → IsConnection c
      → IsConnection (open_connection t c w session name timeout_ms).1
  unfolding open_connection
  open-IsConnection c w session none timeout_ms v = v
  open-IsConnection c w session (some name) timeout_ms v =
      ground (arith, start_open-IsConnection c w session name timeout_ms v)

  pub close-IsConnection :
      (c : Connection) (w : W) (session timeout_ms : ℕ)
      → IsConnection c
      → IsConnection (close t c w session timeout_ms).1
  unfolding close start_close
  close-IsConnection c w session timeout_ms v =
      let body = slice_of (close_data c.tag_name) in
      let closing' =
        forwarded-IsConnection c closing
          (Message.send t c.fwd w session 0x4e manager_path body timeout_ms) (λ d. cc) v
          (send-IsMessage t c.fwd w session 0x4e manager_path body timeout_ms v.forward) in
      ground (arith, closing')

  pub send-IsConnection :
      (c : Connection) (w : W) (session service : ℕ) (path payload : Slice) (timeout_ms : ℕ)
      → IsConnection c
      → IsConnection (send t c w session service path payload timeout_ms).1
  unfolding send start_send
  send-IsConnection c w session service path payload timeout_ms v =
      elim (Bool-cases (bad_request path payload)) [
        | inl bad ↦ ground arith
        | inr good ↦
            let small : cip_length path payload ≤ 256 = ground arith in
            ground (
              arith,
              length-put_unit c.wire.tx session c.context c.ot_conn_id c.sequence service path
                  payload,
            )
      ]

  settle-IsConnection :
      (c : Connection) (out : Status × Connection) (w : W)
      → IsConnection c
      → c.wire.rx_len ≤ capacity
      → Parsed c out
      → IsConnection (settle t out w).1
  settle-IsConnection c (ok, c') w v fits p = ground arith
  settle-IsConnection c (st, c') w v fits p = ground arith

  after_read-IsConnection :
      (c : Connection) (out : Outcome W)
      → IsConnection c
      → c.state ≡ sending
      → Read max_body c.wire out
      → IsConnection (after_read t c out).1
  after_read-IsConnection c (ok, b, w) v e r =
      let c' : Connection = record c { wire = b } in
      let ready : IsReceiving max_body b = r.ok_receiving refl in
      let keeps : IsConnection c' = ground arith in
      let whole : header_size ≤ b.rx_len = (whole_frame b ready (r.ok_frame refl)).0 in
      let small : b.rx_len < 2 ^ 32 = omega (arith, r.rx_fits) in
      settle-IsConnection c' (parse_connected_response c') w keeps (omega (arith, r.rx_fits))
        (parse_connected_response-Parsed c' whole small)
  after_read-IsConnection c (pending, b, w) v e r = ground arith
  after_read-IsConnection c (st, b, w) v e r = ground arith

  after_write-IsConnection :
      IsTransport t
      → (c : Connection) (out : Outcome W) → IsConnection c
      → c.state ≡ sending
      → Wrote c.wire out
      → IsConnection (after_write t c out).1
  after_write-IsConnection ht c (ok, b, w) v e r =
      let c' : Connection = record c { wire = b } in
      let ready : IsReceiving max_body b = ground (arith, v.rx_ready e) in
      let keeps : IsConnection c' = ground (arith, v.rx_ready e, v.tx_ready e) in
      after_read-IsConnection c' (read_response t max_body b w) keeps e
        (read_response-Read t ht max_body b w ready)
  after_write-IsConnection ht c (pending, b, w) v e r = ground (arith, v.rx_ready e, v.tx_ready e)
  after_write-IsConnection ht c (st, b, w) v e r = ground arith

  poll_sending-IsConnection :
      IsTransport t
      → (c : Connection) (w : W) → c.state ≡ sending
      → IsConnection c
      → IsConnection (poll_sending t c w).1
  unfolding poll_sending
  poll_sending-IsConnection ht c w e v =
      let w' = (t.millis w).1 in
      let keeps =
        after_write-IsConnection ht c (write_pending t c.wire w') v e
          (write_pending-Wrote t ht c.wire w' (v.tx_ready e).sent_fits) in
      elim (Bool-cases (expired (t.millis w).0 c.deadline)) [
        | inl late ↦ ground arith
        | inr early ↦ ground (arith, keeps)
      ]

  opening_polled-IsConnection :
      (c : Connection) (r : Status × Message × W)
      → c.state ≡ opening
      → IsConnection c
      → IsMessage r.1
      → IsConnection (opening_polled t c r).1
  opening_polled-IsConnection c (pending, m, w) e v vm = ground arith
  opening_polled-IsConnection c (ok, m, w) e v vm =
      let keeps : IsConnection (record c { fwd = m }) = ground arith in
      finish_open-IsConnection t (record c { fwd = m }) keeps
  opening_polled-IsConnection c (st, m, w) e v vm = ground arith

  closing_polled-IsConnection :
      (c : Connection) (r : Status × Message × W)
      → c.state ≡ closing
      → IsConnection c
      → IsMessage r.1
      → IsConnection (closing_polled t c r).1
  closing_polled-IsConnection c (pending, m, w) e v vm = ground arith
  closing_polled-IsConnection c (ok, m, w) e v vm = ground arith
  closing_polled-IsConnection c (st, m, w) e v vm = ground arith

  pub poll-IsConnection :
      IsTransport t → (c : Connection) (w : W) → IsConnection c → IsConnection (poll t c w).1
  unfolding poll poll_opening poll_closing
  poll-IsConnection ht c w v =
      let vm = poll-IsMessage t ht c.fwd w v.forward in
      let opens =
        λ (e : c.state ≡ opening). opening_polled-IsConnection c (Message.poll t c.fwd w) e v vm in
      let closes =
        λ (e : c.state ≡ closing). closing_polled-IsConnection c (Message.poll t c.fwd w) e v vm in
      let sends = λ (e : c.state ≡ sending). poll_sending-IsConnection ht c w e v in
      ground (arith, opens, closes, sends)
