-- ===== src/Session/Lifecycle.antt =====
-- The invariant of a `Session`, kept by every operation.
use esp32_control_logix.Base.{ℕ, ◌+◌, ◌≡◌, ◌≢◌, refl, ◌∙◌, Bool, true, false, length, All, arith}
use esp32_control_logix.Status.{ok, pending}
use esp32_control_logix.Encapsulation.{
  IsByte, register_session, unregister_session, header_size, put_u16, encode_header,
}
use esp32_control_logix.Encapsulation.Words.{length-put_u16}
use esp32_control_logix.Encapsulation.Header.{length-encode_header}
use esp32_control_logix.Transport.{Transport, IsTransport, deadline_after}
use esp32_control_logix.Wire.{Outcome, write_pending, read_response}
use esp32_control_logix.Wire.Sending.{IsSending, Wrote, write_pending-Wrote}
use esp32_control_logix.Wire.Framing.{IsReceiving, Read, read_response-Read}
use esp32_control_logix.Session.{
  Session, State, registering, registered, unregistering, max_body, abort, session_header,
  start_register, start_unregister, close, open_session, finish_register, registered_read,
  registered_write, poll_registering, unregistered_read, unregistered_write, poll_unregistering,
  poll,
}

-- The size of the two buffers.
abbrev pub capacity : ℕ
capacity = header_size + max_body

abbrev pub is_active : State → Bool
is_active registering = true
is_active unregistering = true
is_active st = false

-- The invariant: the buffers keep their size; while a frame is exchanged there is a connection and
-- the buffers are in order; a registered session has a handle other than 0.
pub record IsSession (s : Session) : Type 0 where
  pub tx_room : length s.wire.tx ≡ capacity
  pub rx_room : length s.wire.rx ≡ capacity
  pub rx_bytes : All IsByte s.wire.rx
  pub attached : is_active s.state ≡ true → s.attached ≡ true
  pub attached_registered : s.state ≡ registered → s.attached ≡ true
  pub tx_ready : is_active s.state ≡ true → IsSending capacity s.wire
  pub rx_ready : is_active s.state ≡ true → IsReceiving max_body s.wire
  pub handle_set : s.state ≡ registered → s.handle ≢ 0

pub abort-IsSession : (s : Session) → IsSession s → IsSession (abort s)
unfolding abort
abort-IsSession s v = ground arith

length-register : (s : Session) → length (start_register s).1.wire.tx ≡ length s.wire.tx
unfolding start_register
length-register s =
    let t1 = encode_header s.wire.tx 0 (session_header register_session 4 0 s.context) in
    let t2 = put_u16 t1 header_size 1 in
    length-put_u16 t2 (header_size + 2) 0
    ∙ length-put_u16 t1 header_size 1
    ∙ length-encode_header s.wire.tx 0 _

start_register-IsSession :
    (s : Session) → s.attached ≡ true → IsSession s → IsSession (start_register s).1
unfolding start_register
start_register-IsSession s a v = ground (arith, length-register s)

start_unregister-IsSession :
    (s : Session) → s.state ≡ registered → IsSession s → IsSession (start_unregister s).1
unfolding start_unregister
start_unregister-IsSession s e v = ground (
  arith,
  length-encode_header s.wire.tx 0 (session_header unregister_session 0 s.handle s.context),
)

-- `close` keeps the invariant of the session, in every state.
pub close-IsSession : (s : Session) → IsSession s → IsSession (close s).1
unfolding close
close-IsSession s v = ground (arith, start_unregister-IsSession s, abort-IsSession s v)

module _ {W : Type 0} (t : Transport W) where
  -- `open` keeps the invariant of the session, in every state and whether the transport is
  -- connected or not.
  pub open_session-IsSession :
      (s : Session) (w : W) (timeout_ms : ℕ)
      → IsSession s
      → IsSession (open_session t s w timeout_ms).1
  unfolding open_session
  open_session-IsSession s w timeout_ms v =
      let s' : Session = record s {
        attached = true;
        deadline = deadline_after (t.millis w).0 timeout_ms;
      } in
      let armed : IsSession s' = ground arith in
      ground (arith, v, start_register-IsSession s' refl armed)

  registered_read-IsSession :
      (s : Session) (out : Outcome W)
      → IsSession s
      → s.state ≡ registering
      → Read max_body s.wire out
      → IsSession (registered_read t s out).1
  unfolding finish_register
  registered_read-IsSession s (ok, b, w) v e r = ground (arith, v.tx_ready)
  registered_read-IsSession s (pending, b, w) v e r = ground (arith, v.tx_ready)
  registered_read-IsSession s (st, b, w) v e r = ground arith

  registered_write-IsSession :
      IsTransport t
      → (s : Session) (out : Outcome W) → IsSession s
      → s.state ≡ registering
      → Wrote s.wire out
      → IsSession (registered_write t s out).1
  registered_write-IsSession ht s (ok, b, w) v e r =
      let s' : Session = record s { wire = b } in
      let ready : IsReceiving max_body b = ground (arith, v.rx_ready) in
      let keeps : IsSession s' = ground (arith, v.rx_ready, v.tx_ready) in
      registered_read-IsSession s' (read_response t max_body b w) keeps e
        (read_response-Read t ht max_body b w ready)
  registered_write-IsSession ht s (st, b, w) v e r = ground (arith, v.rx_ready, v.tx_ready)

  unregistered_read-IsSession :
      (s : Session) (out : Outcome W)
      → IsSession s
      → s.state ≡ unregistering
      → Read max_body s.wire out
      → IsSession (unregistered_read t s out).1
  unregistered_read-IsSession s (ok, b, w) v e r = ground arith
  unregistered_read-IsSession s (pending, b, w) v e r = ground (arith, v.tx_ready)
  unregistered_read-IsSession s (st, b, w) v e r = ground arith

  unregistered_write-IsSession :
      IsTransport t
      → (s : Session) (out : Outcome W) → IsSession s
      → s.state ≡ unregistering
      → Wrote s.wire out
      → IsSession (unregistered_write t s out).1
  unregistered_write-IsSession ht s (ok, b, w) v e r =
      let s' : Session = record s { wire = b } in
      let ready : IsReceiving max_body b = ground (arith, v.rx_ready) in
      let keeps : IsSession s' = ground (arith, v.rx_ready, v.tx_ready) in
      unregistered_read-IsSession s' (read_response t max_body b w) keeps e
        (read_response-Read t ht max_body b w ready)
  unregistered_write-IsSession ht s (st, b, w) v e r = ground (arith, v.rx_ready, v.tx_ready)

  poll_registering-IsSession :
      IsTransport t
      → (s : Session) (w : W) → IsSession s
      → s.state ≡ registering
      → IsSession (poll_registering t s w).1
  unfolding poll_registering
  poll_registering-IsSession ht s w v e =
      let w' = (t.millis w).1 in
      let ready : IsSending capacity s.wire = v.tx_ready (ground arith) in
      let wrote = write_pending-Wrote t ht s.wire w' ready.sent_fits in
      ground (arith, registered_write-IsSession ht s (write_pending t s.wire w') v e wrote)

  poll_unregistering-IsSession :
      IsTransport t
      → (s : Session) (w : W) → IsSession s
      → s.state ≡ unregistering
      → IsSession (poll_unregistering t s w).1
  unfolding poll_unregistering
  poll_unregistering-IsSession ht s w v e =
      let w' = (t.millis w).1 in
      let ready : IsSending capacity s.wire = v.tx_ready (ground arith) in
      let wrote = write_pending-Wrote t ht s.wire w' ready.sent_fits in
      ground (arith, unregistered_write-IsSession ht s (write_pending t s.wire w') v e wrote)

  -- Over a transport that keeps its contract, `poll` keeps the invariant in every state and on
  -- every branch: it never uses a null connection and never leaves a buffer, and a session that it
  -- leaves registered has a handle other than 0.
  pub poll-IsSession :
      IsTransport t → (s : Session) (w : W) → IsSession s → IsSession (poll t s w).1
  unfolding poll
  poll-IsSession ht s w v =
      let reg = poll_registering-IsSession ht s w v in
      let unreg = poll_unregistering-IsSession ht s w v in ground (arith, reg, unreg)
