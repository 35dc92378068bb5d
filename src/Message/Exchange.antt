-- ===== src/Message/Exchange.antt =====
-- The exchange as a whole: the invariant of an `ExplicitMessage`, kept by every operation.
use mathlib.Core.Option
use esp32_control_logix.Base.{
  ℕ, ◌+◌, ◌^◌, ◌≤◌, ◌<◌, ◌≡◌, refl, inl, inr, true, length, All, Bool-cases, arith,
}
use esp32_control_logix.Status.{Status, ok, pending}
use esp32_control_logix.Encapsulation.{IsByte, header_size}
use esp32_control_logix.Transport.{Transport, IsTransport, expired}
use esp32_control_logix.Wire.{Outcome, write_pending, read_response}
use esp32_control_logix.Wire.Sending.{IsSending, write_pending-Wrote}
use esp32_control_logix.Wire.Sending
use esp32_control_logix.Wire.Framing.{IsReceiving, Read, whole_frame, read_response-Read}
use esp32_control_logix.Message.Request.{length-put_request}
use esp32_control_logix.Message.Response.{Within, Parsed, parse_response-Parsed}
use esp32_control_logix.Message.{
  Message, Slice, receiving, done, max_body, max_cip_data, is_sending, bad_request, cip_length,
  send, settle, after_read, after_write, poll_exchange, poll, parse_response,
}

-- The size of the two buffers.
abbrev pub capacity : ℕ
capacity = header_size + max_body

-- The invariant: the buffers keep their size; an exchange in flight has a connection and two
-- buffers in order; a response that is given out lies in the receive buffer.
pub record IsMessage (m : Message) : Type 0 where
  pub tx_room : length m.wire.tx ≡ capacity
  pub rx_room : length m.wire.rx ≡ capacity
  pub rx_bytes : All IsByte m.wire.rx
  pub attached : is_sending m.state ≡ true → m.attached ≡ true
  pub tx_ready : is_sending m.state ≡ true → IsSending capacity m.wire
  pub rx_ready : is_sending m.state ≡ true → IsReceiving max_body m.wire
  pub answered : m.state ≡ done → Within capacity (Option.map (λ p. (p, m.response_len)) m.response)

module _ {W : Type 0} (t : Transport W) where
  -- `send` keeps the invariant of the message, on every branch.
  pub send-IsMessage :
      (m : Message) (w : W) (session service : ℕ) (path payload : Slice) (timeout_ms : ℕ)
      → IsMessage m
      → IsMessage (send t m w session service path payload timeout_ms).1
  unfolding send
  send-IsMessage m w session service path payload timeout_ms v =
      elim (Bool-cases (is_sending m.state)) [
        | inl taken ↦ ground arith
        | inr free ↦ elim (Bool-cases (t.connected w)) [
          | inr down ↦ ground arith
          | inl up ↦ elim (Bool-cases (bad_request path payload)) [
            | inl bad ↦ ground arith
            | inr good ↦
                let small : cip_length path payload ≤ max_cip_data = ground arith in
                ground (arith, length-put_request m.wire.tx session m.context service path payload)
          ]
        ]
      ]

  settle-IsMessage :
      (m : Message) (out : Status × Message) (w : W)
      → IsMessage m
      → m.wire.rx_len ≤ capacity
      → Parsed m out
      → IsMessage (settle t out w).1
  settle-IsMessage m (ok, m') w v fits p = ground arith
  settle-IsMessage m (st, m') w v fits p = ground arith

  after_read-IsMessage :
      (m : Message) (out : Outcome W)
      → IsMessage m
      → m.state ≡ receiving
      → Read max_body m.wire out
      → IsMessage (after_read t m out).1
  after_read-IsMessage m (ok, b, w) v e r =
      let m' : Message = record m { wire = b } in
      let ready : IsReceiving max_body b = r.ok_receiving refl in
      let keeps : IsMessage m' = ground arith in
      let whole : header_size ≤ b.rx_len = (whole_frame b ready (r.ok_frame refl)).0 in
      let small : b.rx_len < 2 ^ 32 = omega (arith, r.rx_fits) in
      settle-IsMessage m' (parse_response m') w keeps (omega (arith, r.rx_fits))
        (parse_response-Parsed m' whole small)
  after_read-IsMessage m (pending, b, w) v e r = ground arith
  after_read-IsMessage m (st, b, w) v e r = ground arith

  after_write-IsMessage :
      IsTransport t
      → (m : Message) (out : Outcome W) → IsMessage m
      → is_sending m.state ≡ true
      → Sending.Wrote m.wire out
      → IsMessage (after_write t m out).1
  after_write-IsMessage ht m (ok, b, w) v e r =
      let m' : Message = record m { wire = b; state = receiving } in
      let ready : IsReceiving max_body b = ground (arith, v.rx_ready e) in
      let keeps : IsMessage m' = ground (arith, v.rx_ready e, v.tx_ready e) in
      after_read-IsMessage m' (read_response t max_body b w) keeps refl
        (read_response-Read t ht max_body b w ready)
  after_write-IsMessage ht m (pending, b, w) v e r = ground (arith, v.rx_ready e, v.tx_ready e)
  after_write-IsMessage ht m (st, b, w) v e r = ground arith

  poll_exchange-IsMessage :
      IsTransport t
      → (m : Message) (w : W) → is_sending m.state ≡ true
      → IsMessage m
      → IsMessage (poll_exchange t m w).1
  unfolding poll_exchange
  poll_exchange-IsMessage ht m w e v =
      let w' = (t.millis w).1 in
      let keeps =
        after_write-IsMessage ht m (write_pending t m.wire w') v e
          (write_pending-Wrote t ht m.wire w' (v.tx_ready e).sent_fits) in
      elim (Bool-cases (expired (t.millis w).0 m.deadline)) [
        | inl late ↦ ground arith
        | inr early ↦ ground (arith, keeps)
      ]

  -- Over a transport that keeps its contract, `poll` keeps the invariant, on every branch: it never uses a null connection, never leaves a
  -- buffer, and gives out no response outside the receive buffer.
  pub poll-IsMessage :
      IsTransport t → (m : Message) (w : W) → IsMessage m → IsMessage (poll t m w).1
  unfolding poll
  poll-IsMessage ht m w v =
      let keeps = λ (e : is_sending m.state ≡ true). poll_exchange-IsMessage ht m w e v in
      ground (arith, keeps)
