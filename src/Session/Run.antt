-- ===== src/Session/Run.antt =====
-- Runs of a session: the calls that a sketch or the client makes, in any order.
use esp32_control_logix.Base.{ℕ, List, [], ◌∷◌}
use esp32_control_logix.Transport.{Transport, IsTransport}
use esp32_control_logix.Session.{Session, abort, close, open_session, poll}
use esp32_control_logix.Session.Lifecycle.{
  IsSession, abort-IsSession, close-IsSession, open_session-IsSession, poll-IsSession,
}

pub data Call : Type 0 where
  opened : ℕ → Call
  shut aborted polled : Call

abbrev pub step : {W : Type 0} → Transport W → Call → Session → W → Session × W
step t (opened timeout_ms) s w = let r = open_session t s w timeout_ms in (r.1, r.2)
step t shut s w = ((close s).1, w)
step t aborted s w = (abort s, w)
step t polled s w = let r = poll t s w in (r.1, r.2)

abbrev pub run : {W : Type 0} → Transport W → List Call → Session → W → Session × W
run t [] s w = (s, w)
run t (k ∷ ks) s w = let (s', w') = step t k s w in run t ks s' w'

module _ {W : Type 0} (t : Transport W) where
  step-IsSession :
      IsTransport t → (k : Call) (s : Session) (w : W) → IsSession s → IsSession (step t k s w).0
  step-IsSession ht (opened timeout_ms) s w v = open_session-IsSession t s w timeout_ms v
  step-IsSession ht shut s w v = close-IsSession s v
  step-IsSession ht aborted s w v = abort-IsSession s v
  step-IsSession ht polled s w v = poll-IsSession t ht s w v

  -- Over a transport that keeps its contract, any sequence of `open`, `close`, `abort` and `poll`
  -- keeps the invariant of the session, on every branch: the buffers keep their size, while a frame
  -- is exchanged there is a connection and the frame lies in the buffers, and a registered session
  -- has a handle other than 0.
  pub run-IsSession :
      IsTransport t
      → (ks : List Call) (s : Session) (w : W) → IsSession s
      → IsSession (run t ks s w).0
  run-IsSession ht [] s w v = v
  run-IsSession ht (k ∷ ks) s w v =
      let (s', w') = step t k s w in run-IsSession ht ks s' w' (step-IsSession ht k s w v)
