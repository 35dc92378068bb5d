-- ===== src/Message/Run.antt =====
-- Runs of an `ExplicitMessage`: the calls that its users make, in any order.
use esp32_control_logix.Base.{ℕ, arith}
use esp32_control_logix.Transport.{Transport, IsTransport}
use esp32_control_logix.Message.{Message, Slice, abort, send, poll}
use esp32_control_logix.Message.Exchange.{IsMessage, send-IsMessage, poll-IsMessage}

-- A call, on the message and on the world: `send` with any arguments, `poll`, and `abort`.
pub data Step {W : Type 0} (t : Transport W) : Message → W → Message → W → Type 0 where
  started :
      {m : Message} {w : W} (session service : ℕ) (path payload : Slice) (timeout_ms : ℕ)
      → Step t m w
          (send t m w session service path payload timeout_ms).1
          (send t m w session service path payload timeout_ms).2
  polled : {m : Message} {w : W} → Step t m w (poll t m w).1 (poll t m w).2
  aborted : {m : Message} {w : W} → Step t m w (abort m) w

-- Any number of calls.
pub data Run {W : Type 0} (t : Transport W) : Message → W → Message → W → Type 0 where
  stay : {m : Message} {w : W} → Run t m w m w
  call : {m m1 m2 : Message} {w w1 w2 : W} → Step t m w m1 w1 → Run t m1 w1 m2 w2 → Run t m w m2 w2

abort-IsMessage : (m : Message) → IsMessage m → IsMessage (abort m)
unfolding abort
abort-IsMessage m v = ground arith

module _ {W : Type 0} (t : Transport W) (ht : IsTransport t) where
  step-IsMessage :
      {m : Message} {w : W} {m' : Message} {w' : W} → Step t m w m' w' → IsMessage m → IsMessage m'
  step-IsMessage {m} {w} (started session service path payload timeout_ms) v =
      send-IsMessage t m w session service path payload timeout_ms v
  step-IsMessage {m} {w} polled v = poll-IsMessage t ht m w v
  step-IsMessage {m} {w} aborted v = abort-IsMessage m v

  -- Over a transport that keeps its contract, any sequence of `send`, `poll` and `abort`, with any
  -- arguments and on every branch, keeps the invariant of the message: the buffers keep their size,
  -- an exchange in flight has a connection and a request and a frame that lie in the buffers, and a
  -- response that is given out lies in the receive buffer.
  pub Run-IsMessage : {m m' : Message} {w w' : W} → Run t m w m' w' → IsMessage m → IsMessage m'
  Run-IsMessage stay v = v
  Run-IsMessage (call s r) v = Run-IsMessage r (step-IsMessage s v)
