-- ===== src/Sketch/EipSession.antt =====
-- examples/EipSession/EipSession.ino: a session is opened, held for two seconds and closed.
use esp32_control_logix.Base.{ℕ, refl, leb, if◌then◌else◌, arith}
use esp32_control_logix.Network.{Network}
use esp32_control_logix.Session
use esp32_control_logix.Sketch.Cycle
use esp32_control_logix.Sketch.Cycle.{Cycle, operate, close_session, elapsed, enter}
use esp32_control_logix.Sketch.Cycle.Lifecycle.{IsCycle, loop-IsCycle, Starts, Works}

abbrev pub hold_ms : ℕ
hold_ms = 2000

-- The sketch has no variables of its own.
abbrev pub EipSession : Type 0
EipSession = Cycle (Unit {0})

module _ {C W : Type 0} (net : Network C W) where
  pub start : EipSession → W → EipSession × W
  start l w = (l, w)

  -- `case Phase::Registered`.
  pub registered_step : EipSession → W → EipSession × W
  registered_step l w =
      let (now, w') = net.transport.millis w in
      if leb hold_ms (elapsed now l.phase_started)
      then enter net (record l { session = (Session.close l.session).1 }) close_session w'
      else (l, w')

  pub setup : C → EipSession → W → EipSession × W
  setup cfg l w = Cycle.setup net cfg l w

  pub loop : C → EipSession → W → EipSession × W
  unfolding start registered_step
  loop cfg l w = Cycle.loop net cfg start registered_step l w

  start-Starts : Starts start
  unfolding start
  start-Starts = record { same_session = λ l w. refl }

  registered_step-Works : Works registered_step
  unfolding registered_step
  registered_step-Works = record { worked = λ l w e. ground arith }

  pub keeps-IsCycle : (cfg : C) (l : EipSession) (w : W) → IsCycle l → IsCycle (loop cfg l w).0
  unfolding loop
  keeps-IsCycle cfg l w v =
      loop-IsCycle net cfg start registered_step start-Starts registered_step-Works l w v
