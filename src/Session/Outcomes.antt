-- ===== src/Session/Outcomes.antt =====
-- What the operations of a `Session` leave, by the phase of its life in which they are called.
use esp32_control_logix.Base.{ℕ, ◌≡◌, ◌≢◌, ◌⊎◌, Bool, true, false, arith}
use esp32_control_logix.Status.{Status, pending, ok}
use esp32_control_logix.Transport.{Transport}
use esp32_control_logix.Wire.{Outcome, read_response, write_pending}
use esp32_control_logix.Session.{
  Session, State, idle, registering, registered, unregistering, closed, failed, max_body,
  start_register, start_unregister, close, open_session, finish_register, registered_read,
  registered_write, poll_registering, poll_unregistering, unregistered_read, unregistered_write,
  poll,
}

abbrev pub is_registered : State → Bool
is_registered registered = true
is_registered st = false

-- `open` does not refuse, and `poll` does not end with `Ok` before the answer has come.
abbrev pub is_free : State → Bool
is_free idle = true
is_free closed = true
is_free st = false

-- What the state of the session can be after `open`.
abbrev pub is_opening : State → Bool
is_opening registering = true
is_opening failed = true
is_opening st = is_free st

abbrev pub is_closing : State → Bool
is_closing unregistering = true
is_closing failed = true
is_closing st = false

-- What a session's `poll` returns while it is opened: `Ok` with a handle, or no session.
abbrev pub Opened : Status → Session → Type 0
Opened st s =
    ((st ≡ ok) × (s.state ≡ registered) × (s.handle ≢ 0))
    ⊎ ((st ≢ ok) × (is_opening s.state ≡ true))

abbrev pub Closing : Status → Session → Type 0
Closing st s = (st ≡ ok) ⊎ (is_closing s.state ≡ true)

pub close-is_closing : (s : Session) → s.state ≡ registered → is_closing (close s).1.state ≡ true
unfolding close start_unregister
close-is_closing s e = ground arith

module _ {W : Type 0} (t : Transport W) where
  finish_register-Opened : (s : Session) → let r = finish_register s in Opened r.0 r.1
  unfolding finish_register
  finish_register-Opened s = ground arith

  registered_read-Opened :
      (s : Session) (out : Outcome W)
      → s.state ≡ registering
      → let r = registered_read t s out in Opened r.0 r.1
  registered_read-Opened s (ok, b, w) e = finish_register-Opened (record s { wire = b })
  registered_read-Opened s (pending, b, w) e = ground arith
  registered_read-Opened s (st, b, w) e = ground arith

  registered_write-Opened :
      (s : Session) (out : Outcome W)
      → s.state ≡ registering
      → let r = registered_write t s out in Opened r.0 r.1
  registered_write-Opened s (ok, b, w) e =
      registered_read-Opened (record s { wire = b }) (read_response t max_body b w) e
  registered_write-Opened s (st, b, w) e = ground arith

  pub poll-Opened :
      (s : Session) (w : W) → is_opening s.state ≡ true → let r = poll t s w in Opened r.0 r.1
  unfolding poll poll_registering
  poll-Opened s w e =
      let wrote = registered_write-Opened s (write_pending t s.wire (t.millis w).1) in
      ground (arith, wrote)

  unregistered_read-Closing :
      (s : Session) (out : Outcome W)
      → s.state ≡ unregistering
      → let r = unregistered_read t s out in Closing r.0 r.1
  unregistered_read-Closing s (ok, b, w) e = ground arith
  unregistered_read-Closing s (pending, b, w) e = ground arith
  unregistered_read-Closing s (st, b, w) e = ground arith

  unregistered_write-Closing :
      (s : Session) (out : Outcome W)
      → s.state ≡ unregistering
      → let r = unregistered_write t s out in Closing r.0 r.1
  unregistered_write-Closing s (ok, b, w) e =
      unregistered_read-Closing (record s { wire = b }) (read_response t max_body b w) e
  unregistered_write-Closing s (st, b, w) e = ground arith

  pub poll-Closing :
      (s : Session) (w : W) → is_closing s.state ≡ true → let r = poll t s w in Closing r.0 r.1
  unfolding poll poll_unregistering
  poll-Closing s w e =
      let wrote = unregistered_write-Closing s (write_pending t s.wire (t.millis w).1) in
      ground (arith, wrote)

  pub open_session-is_opening :
      (s : Session) (w : W) (timeout_ms : ℕ)
      → is_free s.state ≡ true
      → is_opening (open_session t s w timeout_ms).1.state ≡ true
  unfolding open_session start_register
  open_session-is_opening s w timeout_ms e = ground arith
