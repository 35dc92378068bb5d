-- ===== src/Sketch/PlcClientDemo.antt =====
-- examples/PlcClientDemo/PlcClientDemo.ino: a read, a write and a second read of one tag through
-- `PlcClient`. What is printed, and the `delay` at the end of `loop`, are left out.
use esp32_control_logix.Base.{ℕ, none, some, leb, if◌then◌else◌}
use esp32_control_logix.Base.Int.{ℤ, pos, negsuc}
use esp32_control_logix.Status.{Status, ok, timeout, error}
use esp32_control_logix.Network.{Network}
use esp32_control_logix.Tag.Access.{set_int32}
use esp32_control_logix.PlcClient.{PlcClient, used_slot, with_slot, is_ready}
use esp32_control_logix.PlcClient.Tags
use esp32_control_logix.PlcClient.Tags.{create_tag, destroy_tag, tag_status}
use esp32_control_logix.PlcClient.Link
use esp32_control_logix.Sketch.Cycle.{target, elapsed}
use esp32_control_logix.Sketch.TagReadWrite.{test_dint}

abbrev pub tag_timeout_ms : ℕ
tag_timeout_ms = 5000

pub data Phase : Type 0 where
  connect read write verify done retry_wait : Phase

pub record Demo : Type 0 where
  pub plc : PlcClient
  pub phase : Phase
  pub phase_started : ℕ
  pub tag : ℤ

-- `plc.tag(tag)->setInt32(0, 2026)`, after `tagStatus` found the tag.
abbrev pub set_value : PlcClient → ℤ → PlcClient
set_value c h = elim (used_slot c.slots h) [
  | none ↦ c
  | some s ↦ with_slot c h (record s { tag = set_int32 s.tag 0 (pos 2026) })
]

module _ {C W : Type 0} (net : Network C W) where
  open net use {transport as t}

  abbrev enter : Demo → Phase → W → Demo × W
  enter l phase w =
      let (now, w') = t.millis w in (record l { phase = phase; phase_started = now }, w')

  -- `plc.connect(TARGET_IP, TARGET_PORT, CONNECT_TIMEOUT_MS)`.
  abbrev plc_connect : Demo → W → Demo × W
  plc_connect l w =
      let (st, c, w') = Link.connect net l.plc w target.ip target.port target.connect_timeout_ms in
      (record l { plc = c }, w')

  -- `plc.read(tag, TAG_TIMEOUT_MS)` and `plc.write(tag, TAG_TIMEOUT_MS)`.
  abbrev plc_read : Demo → W → Demo × W
  plc_read l w =
      let (st, c, w') = Tags.read t l.plc w l.tag tag_timeout_ms in (record l { plc = c }, w')

  abbrev plc_write : Demo → W → Demo × W
  plc_write l w =
      let (st, c, w') = Tags.write t l.plc w l.tag tag_timeout_ms in (record l { plc = c }, w')

  -- `setup`, with the configuration that it fills in.
  pub setup : C → Demo → W → Demo × W
  setup cfg l w =
      let (st, c, w1) = Link.begin net l.plc w cfg in
      let (l2, w2) = plc_connect (record l { plc = c }) w1 in enter l2 l2.phase w2

  -- `tag = plc.createTag("TestDint", 1); …`
  abbrev tag_created : Demo → ℤ × PlcClient → W → Demo × W
  tag_created l (negsuc n, c) w = (record l { plc = c; tag = negsuc n; phase = done }, w)
  tag_created l (pos h, c) w =
      let (l', w') = plc_read (record l { plc = c; tag = pos h }) w in enter l' read w'

  abbrev client_polled : Demo → Status → W → Demo × W
  client_polled l timeout w = enter l retry_wait w
  client_polled l error w = enter l retry_wait w
  client_polled l st w = (l, w)

  pub connect_step : Demo → W → Demo × W
  connect_step l w =
      let (st, c, w') = Link.poll net l.plc w in
      let l' : Demo = record l { plc = c } in
      if is_ready c
      then tag_created l' (create_tag c (some test_dint) 1) w'
      else client_polled l' st w'

  abbrev tag_read : Demo → Status → W → Demo × W
  tag_read l ok w =
      let (l', w') = plc_write (record l { plc = set_value l.plc l.tag }) w in enter l' write w'
  tag_read l error w = (record l { phase = done }, w)
  tag_read l st w = (l, w)

  abbrev tag_written : Demo → Status → W → Demo × W
  tag_written l ok w = let (l', w') = plc_read l w in enter l' verify w'
  tag_written l error w = (record l { phase = done }, w)
  tag_written l st w = (l, w)

  abbrev tag_verified : Demo → Status → W → Demo × W
  tag_verified l ok w =
      enter (record l { plc = (destroy_tag l.plc l.tag).1; tag = negsuc 0 }) done w
  tag_verified l error w = (record l { phase = done }, w)
  tag_verified l st w = (l, w)

  -- `plc.poll(); clx::Status st = plc.tagStatus(tag);`, and the branches on it.
  abbrev tag_step : (Demo → Status → W → Demo × W) → Demo → W → Demo × W
  tag_step react l w =
      let (st, c, w') = Link.poll net l.plc w in
      react (record l { plc = c }) (tag_status c l.tag) w'

  pub done_step : Demo → W → Demo × W
  done_step l w =
      let (st, c, w') = Link.disconnect net l.plc w in enter (record l { plc = c }) retry_wait w'

  pub retry_step : Demo → W → Demo × W
  retry_step l w =
      let (now, w1) = t.millis w in
      let (l2, w2) = plc_connect l w1 in
      if leb target.retry_delay_ms (elapsed now l.phase_started)
      then enter l2 connect w2
      else (l, w1)

  pub loop : Demo → W → Demo × W
  unfolding connect_step done_step retry_step
  loop l w = elim l.phase [
    | connect ↦ connect_step l w
    | read ↦ tag_step tag_read l w
    | write ↦ tag_step tag_written l w
    | verify ↦ tag_step tag_verified l w
    | done ↦ done_step l w
    | retry_wait ↦ retry_step l w
  ]
