-- ===== src/Sketch/ReliabilityDemo.antt =====
-- examples/ReliabilityDemo/ReliabilityDemo.ino: the pool of tags is filled, a read is aborted, and
-- the client is connected again. What is printed, in the callbacks too, and the `delay` at the end
-- of `loop` are left out.
pub mod Exhaust
use esp32_control_logix.Base.{
  ℕ, zero, suc, ◌+◌, Bool, true, false, Option, some, List, length, leb, if◌then◌else◌,
}
use esp32_control_logix.Base.Int.{ℤ, pos, negsuc}
use esp32_control_logix.Status.{Status, ok, timeout, error, closed}
use esp32_control_logix.Network.{Network}
use esp32_control_logix.PlcClient.{PlcClient, is_ready, set_tag_callback, set_state_callback}
use esp32_control_logix.PlcClient.Tags
use esp32_control_logix.PlcClient.Tags.{create_tag, destroy_tag, abort_tag, tag_status}
use esp32_control_logix.PlcClient.Link
use esp32_control_logix.Sketch.Cycle.{Target, target, elapsed}
use esp32_control_logix.Sketch.TagReadWrite.{test_dint}

abbrev pub tag_timeout_ms : ℕ
tag_timeout_ms = 5000

pub data Phase : Type 0 where
  connect exhaust read abort disconnect retry_wait : Phase

pub record Demo : Type 0 where
  pub plc : PlcClient
  pub phase : Phase
  pub phase_started : ℕ
  pub tag : ℤ

-- The loop of `case Phase::Disconnect`, over `n` handles from `i` on.
pub destroy_tags : ℕ → ℕ → PlcClient → PlcClient
destroy_tags zero i c = c
destroy_tags (suc n) i c = destroy_tags n (i + 1) (destroy_tag c (pos i)).1

module _ {C W : Type 0} (net : Network C W) where
  open net use {transport as t}

  abbrev enter : Demo → Phase → W → Demo × W
  enter l phase w =
      let (now, w') = t.millis w in (record l { phase = phase; phase_started = now }, w')

  -- `plc.connect(TARGET_IP, TARGET_PORT, CONNECT_TIMEOUT_MS)`.
  abbrev plc_connect : Demo → W → Demo × W
  plc_connect l w =
      let (st, c, w') = Link.connect net l.plc w target.ip target.port target.connect_timeout_ms in
      (record l { plc = c }, w')

  -- `plc.read(tag, TAG_TIMEOUT_MS)`.
  abbrev plc_read : Demo → W → Demo × W
  plc_read l w =
      let (st, c, w') = Tags.read t l.plc w l.tag tag_timeout_ms in (record l { plc = c }, w')

  -- `setup`, with the configuration that it fills in.
  pub setup : C → Demo → W → Demo × W
  setup cfg l w =
      let called = set_state_callback (set_tag_callback l.plc true) true in
      let (st, c, w1) = Link.begin net called w cfg in
      let (l2, w2) = plc_connect (record l { plc = c }) w1 in enter l2 l2.phase w2

  abbrev client_polled : Demo → Status → W → Demo × W
  client_polled l timeout w = enter l retry_wait w
  client_polled l error w = enter l retry_wait w
  client_polled l closed w = enter l retry_wait w
  client_polled l st w = (l, w)

  pub connect_step : Demo → W → Demo × W
  connect_step l w =
      let (st, c, w') = Link.poll net l.plc w in
      let l' : Demo = record l { plc = c } in
      if is_ready c then enter l' exhaust w' else client_polled l' st w'

  -- On `h < 0`, handle 0 is read.
  abbrev tag_created : Demo → ℤ × PlcClient → W → Demo × W
  tag_created l (pos h, c) w = (record l { plc = c }, w)
  tag_created l (negsuc n, c) w =
      let (l', w') = plc_read (record l { plc = c; tag = pos 0 }) w in enter l' read w'

  pub exhaust_step : Demo → W → Demo × W
  exhaust_step l w = tag_created l (create_tag l.plc (some test_dint) 1) w

  abbrev tag_read : Demo → Status → W → Demo × W
  tag_read l ok w = let (l', w') = plc_read l w in enter l' abort w'
  tag_read l error w = enter l disconnect w
  tag_read l st w = (l, w)

  pub read_step : Demo → W → Demo × W
  read_step l w =
      let (st, c, w') = Link.poll net l.plc w in
      tag_read (record l { plc = c }) (tag_status c l.tag) w'

  pub abort_step : Demo → W → Demo × W
  abort_step l w =
      let (st, c, w') = Link.poll net l.plc w in
      enter (record l { plc = (abort_tag c l.tag).1 }) disconnect w'

  -- `kMaxTags` is the length of the list of slots.
  pub disconnect_step : Demo → W → Demo × W
  unfolding destroy_tags
  disconnect_step l w =
      let emptied = destroy_tags (length l.plc.slots) 0 l.plc in
      let (st, c, w') = Link.disconnect net emptied w in enter (record l { plc = c }) retry_wait w'

  pub retry_step : Demo → W → Demo × W
  retry_step l w =
      let (now, w1) = t.millis w in
      let (l2, w2) = plc_connect l w1 in
      if leb target.retry_delay_ms (elapsed now l.phase_started)
      then enter l2 connect w2
      else (l, w1)

  pub loop : Demo → W → Demo × W
  unfolding connect_step exhaust_step read_step abort_step disconnect_step retry_step
  loop l w = elim l.phase [
    | connect ↦ connect_step l w
    | exhaust ↦ exhaust_step l w
    | read ↦ read_step l w
    | abort ↦ abort_step l w
    | disconnect ↦ disconnect_step l w
    | retry_wait ↦ retry_step l w
  ]
