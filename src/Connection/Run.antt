-- ===== src/Connection/Run.antt =====
-- Runs of a connection: the calls that a sketch makes, in any order.
use esp32_control_logix.Base.{ℕ, Option, List, [], ◌∷◌}
use esp32_control_logix.Transport.{Transport, IsTransport}
use esp32_control_logix.Message.{Slice}
use esp32_control_logix.Connection.{Connection}
use esp32_control_logix.Connection.Calls.{open_connection, close, send, poll}
use esp32_control_logix.Connection.Exchange.{
  IsConnection, open-IsConnection, close-IsConnection, send-IsConnection, poll-IsConnection,
}

-- A call that a sketch makes.
pub data Call : Type 0 where
  opened : ℕ → Option (List ℕ) → ℕ → Call
  sent : ℕ → ℕ → Slice → Slice → ℕ → Call
  shut : ℕ → ℕ → Call
  polled : Call

abbrev pub step : {W : Type 0} → Transport W → Call → Connection → W → Connection × W
step t (opened session name timeout_ms) c w =
    let r = open_connection t c w session name timeout_ms in (r.1, r.2)
step t (sent session service path payload timeout_ms) c w =
    let r = send t c w session service path payload timeout_ms in (r.1, r.2)
step t (shut session timeout_ms) c w = let r = close t c w session timeout_ms in (r.1, r.2)
step t polled c w = let r = poll t c w in (r.1, r.2)

abbrev pub run : {W : Type 0} → Transport W → List Call → Connection → W → Connection × W
run t [] c w = (c, w)
run t (k ∷ ks) c w = let (c', w') = step t k c w in run t ks c' w'

module _ {W : Type 0} (t : Transport W) where
  step-IsConnection :
      IsTransport t
      → (k : Call) (c : Connection) (w : W) → IsConnection c
      → IsConnection (step t k c w).0
  step-IsConnection ht (opened session name timeout_ms) c w v =
      open-IsConnection t c w session name timeout_ms v
  step-IsConnection ht (sent session service path payload timeout_ms) c w v =
      send-IsConnection t c w session service path payload timeout_ms v
  step-IsConnection ht (shut session timeout_ms) c w v =
      close-IsConnection t c w session timeout_ms v
  step-IsConnection ht polled c w v = poll-IsConnection t ht c w v

  -- Over a transport that keeps its contract, any sequence of calls keeps the invariant, whatever
  -- their arguments are and on every branch: the buffers keep their size, while a request is in
  -- flight there is a connection and its frames lie in the buffers, and no response outside the
  -- receive buffer is given out.
  pub run-IsConnection :
      IsTransport t
      → (ks : List Call) (c : Connection) (w : W) → IsConnection c
      → IsConnection (run t ks c w).0
  run-IsConnection ht [] c w v = v
  run-IsConnection ht (k ∷ ks) c w v =
      let (c', w') = step t k c w in run-IsConnection ht ks c' w' (step-IsConnection ht k c w v)
