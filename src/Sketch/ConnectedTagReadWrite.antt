-- ===== src/Sketch/ConnectedTagReadWrite.antt =====
-- examples/ConnectedTagReadWrite/ConnectedTagReadWrite.ino: Forward Open, connected reads and a
-- write, Forward Close. What is printed is left out.
use esp32_control_logix.Base.{
  ℕ, ◌+◌, ◌≡◌, refl, Bool, false, not, some, replicate, ltb, ◌==◌, if◌then◌else◌, arith,
}
use esp32_control_logix.Status.{Status, ok, timeout, error}
use esp32_control_logix.Encapsulation.{put_u16, put_u32}
use esp32_control_logix.Cip.{append_symbolic}
use esp32_control_logix.Network.{Network}
use esp32_control_logix.Session
use esp32_control_logix.Message.{Slice}
use esp32_control_logix.Connection.Calls
use esp32_control_logix.Connection.{Connection}
use esp32_control_logix.PlcClient.Tags.{is_pending}
use esp32_control_logix.Sketch.Cycle
use esp32_control_logix.Sketch.Cycle.{Cycle, operate, close_session, retry_wait, enter}
use esp32_control_logix.Sketch.Cycle.Lifecycle.{IsCycle, loop-IsCycle, Starts, Works, Worked}
use esp32_control_logix.Sketch.TagReadWrite.{test_dint}

abbrev pub conn_timeout_ms : ℕ
conn_timeout_ms = 5000

pub record Operations : Type 0 where
  pub conn : Connection
  pub step : ℕ
  pub step_started : Bool

abbrev pub ConnectedTagReadWrite : Type 0
ConnectedTagReadWrite = Cycle Operations

-- The locals `path` and `data`; the elements of `data` that are sent are written before.
abbrev pub dint_path : Slice
dint_path =
    let (path, pl) = append_symbolic (replicate 64 0) 0 test_dint in
    record { bytes = some path; len = pl }

abbrev pub read_data : Slice
read_data = record { bytes = some (put_u16 (replicate 16 0) 0 1); len = 2 }

abbrev pub write_data : Slice
write_data =
    let count = put_u16 (replicate 16 0) 0 1 in
    let type = put_u16 count 2 0x00c4 in record { bytes = some (put_u32 type 4 2026); len = 8 }

module _ {C W : Type 0} (net : Network C W) where
  open net use {transport as t}

  -- The `switch` of `startStep`.
  pub run_step : ℕ → ConnectedTagReadWrite → W → Status × Connection × W
  run_step n l w =
      let c = l.work.conn in
      let handle = l.session.handle in
      if n == 0
      then Calls.open_connection t c w handle (some test_dint) conn_timeout_ms
      else if n == 1
      then Calls.send t c w handle 0x4c dint_path read_data conn_timeout_ms
      else if n == 2
      then Calls.send t c w handle 0x4d dint_path write_data conn_timeout_ms
      else if n == 3
      then Calls.send t c w handle 0x4c dint_path read_data conn_timeout_ms
      else if n == 4
      then Calls.close t c w handle conn_timeout_ms
      else (error, c, w)

  abbrev step_sent : ConnectedTagReadWrite → Status × Connection × W → ConnectedTagReadWrite × W
  step_sent l r =
      (record l { work = record l.work { conn = r.1; step_started = is_pending r.0 } }, r.2)

  pub start_step : ConnectedTagReadWrite → W → ConnectedTagReadWrite × W
  unfolding run_step
  start_step l w = step_sent l (run_step l.work.step l w)

  pub finish_step : ConnectedTagReadWrite → ConnectedTagReadWrite
  finish_step l =
      let l' : ConnectedTagReadWrite = record l {
        work = record l.work { step = l.work.step + 1; step_started = false };
      } in
      if ltb 4 l'.work.step
      then record l' { session = (Session.close l'.session).1; phase = close_session }
      else l'

  pub start : ConnectedTagReadWrite → W → ConnectedTagReadWrite × W
  start l w = (record l { work = record l.work { step = 0; step_started = false } }, w)

  abbrev conn_polled : ConnectedTagReadWrite → Status × Connection × W → ConnectedTagReadWrite × W
  conn_polled l (ok, c, w) = (finish_step (record l { work = record l.work { conn = c } }), w)
  conn_polled l (timeout, c, w) =
      enter net (record l { work = record l.work { conn = c } }) retry_wait w
  conn_polled l (error, c, w) =
      enter net (record l { work = record l.work { conn = c } }) retry_wait w
  conn_polled l (st, c, w) = (record l { work = record l.work { conn = c } }, w)

  -- `case Phase::ConnOps`.
  pub conn_step : ConnectedTagReadWrite → W → ConnectedTagReadWrite × W
  unfolding start_step finish_step
  conn_step l w =
      if not l.work.step_started then start_step l w else conn_polled l (Calls.poll t l.work.conn w)

  pub setup : C → ConnectedTagReadWrite → W → ConnectedTagReadWrite × W
  setup cfg l w = Cycle.setup net cfg l w

  pub loop : C → ConnectedTagReadWrite → W → ConnectedTagReadWrite × W
  unfolding start conn_step
  loop cfg l w = Cycle.loop net cfg start conn_step l w

  start-Starts : Starts start
  unfolding start
  start-Starts = record { same_session = λ l w. refl }

  finish_step-Worked : (l : ConnectedTagReadWrite) → l.phase ≡ operate → Worked l (finish_step l)
  unfolding finish_step
  finish_step-Worked l e = ground arith

  conn_polled-Worked :
      (l : ConnectedTagReadWrite) (r : Status × Connection × W)
      → l.phase ≡ operate
      → Worked l (conn_polled l r).0
  conn_polled-Worked l (ok, c, w) e =
      finish_step-Worked (record l { work = record l.work { conn = c } }) e
  conn_polled-Worked l (timeout, c, w) e = ground arith
  conn_polled-Worked l (error, c, w) e = ground arith
  conn_polled-Worked l (st, c, w) e = ground arith

  conn_step-Works : Works conn_step
  unfolding conn_step start_step
  conn_step-Works = record {
    worked =
        λ l w e. let r = conn_polled-Worked l (Calls.poll t l.work.conn w) e in ground (arith, r);
  }

  pub keeps-IsCycle :
      (cfg : C) (l : ConnectedTagReadWrite) (w : W) → IsCycle l → IsCycle (loop cfg l w).0
  unfolding loop
  keeps-IsCycle cfg l w v = loop-IsCycle net cfg start conn_step start-Starts conn_step-Works l w v
