-- ===== src/Sketch/TagReadWrite.antt =====
-- examples/TagReadWrite/TagReadWrite.ino: tags are read and written, one operation after another,
-- over one shared message. What is printed is left out.
use esp32_control_logix.Base.{
  ℕ, ◌+◌, ◌≡◌, refl, Bool, false, not, some, List, [], ◌∷◌, leb, ◌==◌, if◌then◌else◌, arith,
}
use esp32_control_logix.Base.Int.{pos}
use esp32_control_logix.Status.{Status, ok, timeout, error}
use esp32_control_logix.Network.{Network}
use esp32_control_logix.Session
use esp32_control_logix.Message.{Message}
use esp32_control_logix.Tag
use esp32_control_logix.Tag.{Tag}
use esp32_control_logix.Tag.Access.{set_int32}
use esp32_control_logix.PlcClient.Tags.{is_pending}
use esp32_control_logix.Sketch.Cycle
use esp32_control_logix.Sketch.Cycle.{Cycle, operate, close_session, retry_wait, enter}
use esp32_control_logix.Sketch.Cycle.Lifecycle.{IsCycle, loop-IsCycle, Starts, Works, Worked}

abbrev pub tag_timeout_ms : ℕ
tag_timeout_ms = 5000

-- The characters of "TestDint", "TestReal" and "TestString".
abbrev pub test_dint : List ℕ
test_dint = 84 ∷ 101 ∷ 115 ∷ 116 ∷ 68 ∷ 105 ∷ 110 ∷ 116 ∷ []

abbrev pub test_real : List ℕ
test_real = 84 ∷ 101 ∷ 115 ∷ 116 ∷ 82 ∷ 101 ∷ 97 ∷ 108 ∷ []

abbrev pub test_string : List ℕ
test_string = 84 ∷ 101 ∷ 115 ∷ 116 ∷ 83 ∷ 116 ∷ 114 ∷ 105 ∷ 110 ∷ 103 ∷ []

pub record Operations : Type 0 where
  pub tag : Tag
  pub msg : Message
  pub step : ℕ
  pub step_started : Bool

abbrev pub TagReadWrite : Type 0
TagReadWrite = Cycle Operations

module _ {C W : Type 0} (net : Network C W) where
  open net use {transport as t}

  abbrev read_tag : TagReadWrite → W → List ℕ → Status × Tag × Message × W
  read_tag l w name =
      Tag.read t l.work.tag l.work.msg w l.session.handle (some name) 1 tag_timeout_ms

  -- The `switch` of `startStep`.
  pub run_step : ℕ → TagReadWrite → W → Status × Tag × Message × W
  run_step n l w =
      let written : Status × Tag × Message × W =
        Tag.write t (set_int32 l.work.tag 0 (pos 2026)) l.work.msg w l.session.handle
          (some test_dint) 1 tag_timeout_ms in
      if n == 0
      then read_tag l w test_dint
      else if n == 1
      then written
      else if n == 2
      then read_tag l w test_dint
      else if n == 3
      then read_tag l w test_real
      else if n == 4
      then read_tag l w test_string
      else (error, l.work.tag, l.work.msg, w)

  abbrev step_sent : TagReadWrite → Status × Tag × Message × W → TagReadWrite × W
  step_sent l r = (
    record l { work = record l.work { tag = r.1; msg = r.2; step_started = is_pending r.0 } },
    r.3,
  )

  pub start_step : TagReadWrite → W → TagReadWrite × W
  unfolding run_step
  start_step l w = step_sent l (run_step l.work.step l w)

  pub finish_step : TagReadWrite → TagReadWrite
  finish_step l =
      let l' : TagReadWrite = record l {
        work = record l.work { step = l.work.step + 1; step_started = false };
      } in
      if leb 5 l'.work.step
      then record l' { session = (Session.close l'.session).1; phase = close_session }
      else l'

  pub start : TagReadWrite → W → TagReadWrite × W
  start l w = (record l { work = record l.work { step = 0; step_started = false } }, w)

  abbrev tag_polled : TagReadWrite → Status × Tag × Message × W → TagReadWrite × W
  tag_polled l (ok, tag, m, w) =
      (finish_step (record l { work = record l.work { tag = tag; msg = m } }), w)
  tag_polled l (timeout, tag, m, w) =
      enter net (record l { work = record l.work { tag = tag; msg = m } }) retry_wait w
  tag_polled l (error, tag, m, w) =
      enter net (record l { work = record l.work { tag = tag; msg = m } }) retry_wait w
  tag_polled l (st, tag, m, w) = (record l { work = record l.work { tag = tag; msg = m } }, w)

  -- `case Phase::TagOps`.
  pub tag_step : TagReadWrite → W → TagReadWrite × W
  unfolding start_step finish_step
  tag_step l w =
      if not l.work.step_started
      then start_step l w
      else tag_polled l (Tag.poll t l.work.tag l.work.msg w)

  pub setup : C → TagReadWrite → W → TagReadWrite × W
  setup cfg l w = Cycle.setup net cfg l w

  pub loop : C → TagReadWrite → W → TagReadWrite × W
  unfolding start tag_step
  loop cfg l w = Cycle.loop net cfg start tag_step l w

  start-Starts : Starts start
  unfolding start
  start-Starts = record { same_session = λ l w. refl }

  finish_step-Worked : (l : TagReadWrite) → l.phase ≡ operate → Worked l (finish_step l)
  unfolding finish_step
  finish_step-Worked l e = ground arith

  tag_polled-Worked :
      (l : TagReadWrite) (r : Status × Tag × Message × W)
      → l.phase ≡ operate
      → Worked l (tag_polled l r).0
  tag_polled-Worked l (ok, tag, m, w) e =
      finish_step-Worked (record l { work = record l.work { tag = tag; msg = m } }) e
  tag_polled-Worked l (timeout, tag, m, w) e = ground arith
  tag_polled-Worked l (error, tag, m, w) e = ground arith
  tag_polled-Worked l (st, tag, m, w) e = ground arith

  tag_step-Works : Works tag_step
  unfolding tag_step start_step
  tag_step-Works = record {
    worked = λ l w e.
        let r = tag_polled-Worked l (Tag.poll t l.work.tag l.work.msg w) e in ground (arith, r);
  }

  pub keeps-IsCycle : (cfg : C) (l : TagReadWrite) (w : W) → IsCycle l → IsCycle (loop cfg l w).0
  unfolding loop
  keeps-IsCycle cfg l w v = loop-IsCycle net cfg start tag_step start-Starts tag_step-Works l w v
