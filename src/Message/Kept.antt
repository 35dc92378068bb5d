-- ===== src/Message/Kept.antt =====
-- What an `ExplicitMessage` leaves true of the state behind the transport.
use esp32_control_logix.Base.{ℕ, arith}
use esp32_control_logix.Status.{ok, pending}
use esp32_control_logix.Transport.{Transport}
use esp32_control_logix.Wire.{Outcome, write_pending, read_response}
use esp32_control_logix.Wire.Kept.{IsKept, write_pending-keeps, read_response-keeps}
use esp32_control_logix.Message.{
  Message, Slice, receiving, max_body, send, after_read, after_write, poll_exchange, poll,
}

module _ {W : Type 0} (t : Transport W) {on : W → Type 0} (k : IsKept t on) where
  pub send-keeps :
      (m : Message) (w : W) (session service : ℕ) (path content : Slice) (timeout_ms : ℕ)
      → on w
      → on (send t m w session service path content timeout_ms).2
  unfolding send
  send-keeps m w session service path content timeout_ms o = ground (arith, o, k.millis_keeps w o)

  after_read-keeps : (m : Message) (out : Outcome W) → on out.2 → on (after_read t m out).2
  after_read-keeps m (ok, b, w) o = ground (arith, o)
  after_read-keeps m (pending, b, w) o = o
  after_read-keeps m (st, b, w) o = o

  after_write-keeps : (m : Message) (out : Outcome W) → on out.2 → on (after_write t m out).2
  after_write-keeps m (ok, b, w) o =
      after_read-keeps (record m { state = receiving }) (read_response t max_body b w)
        (read_response-keeps t k max_body b w o)
  after_write-keeps m (pending, b, w) o = o
  after_write-keeps m (st, b, w) o = o

  pub poll-keeps : (m : Message) (w : W) → on w → on (poll t m w).2
  unfolding poll poll_exchange
  poll-keeps m w o =
      let w1 = (t.millis w).1 in
      let now = k.millis_keeps w o in
      ground (
        arith,
        o,
        now,
        after_write-keeps m (write_pending t m.wire w1) (write_pending-keeps t k m.wire w1 now),
      )
