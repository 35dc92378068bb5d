-- ===== src/Session/Kept.antt =====
-- What a `Session` leaves true of the state behind the transport.
use esp32_control_logix.Base.{ℕ, arith}
use esp32_control_logix.Status.{ok, pending}
use esp32_control_logix.Transport.{Transport}
use esp32_control_logix.Wire.{Outcome, write_pending, read_response}
use esp32_control_logix.Wire.Kept.{IsKept, write_pending-keeps, read_response-keeps}
use esp32_control_logix.Session.{
  Session, max_body, open_session, registered_read, registered_write, poll_registering,
  unregistered_read, unregistered_write, poll_unregistering, poll,
}

module _ {W : Type 0} (t : Transport W) {on : W → Type 0} (k : IsKept t on) where
  pub open_session-keeps :
      (s : Session) (w : W) (timeout_ms : ℕ) → on w → on (open_session t s w timeout_ms).2
  unfolding open_session
  open_session-keeps s w timeout_ms o = ground (arith, o, k.millis_keeps w o)

  registered_read-keeps :
      (s : Session) (out : Outcome W) → on out.2 → on (registered_read t s out).2
  registered_read-keeps s (ok, b, w) o = o
  registered_read-keeps s (pending, b, w) o = o
  registered_read-keeps s (st, b, w) o = o

  registered_write-keeps :
      (s : Session) (out : Outcome W) → on out.2 → on (registered_write t s out).2
  registered_write-keeps s (ok, b, w) o =
      registered_read-keeps (record s { wire = b }) (read_response t max_body b w)
        (read_response-keeps t k max_body b w o)
  registered_write-keeps s (st, b, w) o = o

  unregistered_read-keeps :
      (s : Session) (out : Outcome W) → on out.2 → on (unregistered_read t s out).2
  unregistered_read-keeps s (ok, b, w) o = o
  unregistered_read-keeps s (pending, b, w) o = o
  unregistered_read-keeps s (st, b, w) o = o

  unregistered_write-keeps :
      (s : Session) (out : Outcome W) → on out.2 → on (unregistered_write t s out).2
  unregistered_write-keeps s (ok, b, w) o =
      unregistered_read-keeps (record s { wire = b }) (read_response t max_body b w)
        (read_response-keeps t k max_body b w o)
  unregistered_write-keeps s (st, b, w) o = o

  pub poll-keeps : (s : Session) (w : W) → on w → on (poll t s w).2
  unfolding poll poll_registering poll_unregistering
  poll-keeps s w o =
      let out = write_pending t s.wire (t.millis w).1 in
      let now = k.millis_keeps w o in
      let sent = write_pending-keeps t k s.wire (t.millis w).1 now in
      ground (arith, o, now, registered_write-keeps s out sent, unregistered_write-keeps s out sent)
