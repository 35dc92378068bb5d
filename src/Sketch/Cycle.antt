-- ===== src/Sketch/Cycle.antt =====
-- The phases that four of the sketches share (examples/EipSession, IdentityQuery, TagReadWrite and
-- ConnectedTagReadWrite): their `loop` functions have the same text but for what is done on the
-- registered session. Here that part is the two steps `start` and `operate`, and the sketch's own
-- variables are `work`. Lines that print and the `delay` at the end of `loop` are left out.
pub mod Lifecycle
pub mod Stuck
use esp32_control_logix.Base.{
  ℕ, zero, suc, ◌+◌, ◌-◌, ◌%◌, ◌^◌, ◌<◌, Bool, true, false, leb, if◌then◌else◌,
}
use esp32_control_logix.Status.{Status, pending, ok, timeout, error, closed}
use esp32_control_logix.Network.{Network}
use esp32_control_logix.Session
use esp32_control_logix.Session.{Session}

-- `operate` is the phase `Registered`, `Query`, `TagOps` or `ConnOps`.
pub data Phase : Type 0 where
  wait_ethernet connect open_session operate close_session retry_wait : Phase

pub record Cycle (D : Type 0) : Type 0 where
  pub session : Session
  pub phase : Phase
  pub phase_started : ℕ
  pub work : D

-- The constants of a sketch.
pub record Target : Type 0 where
  pub ip : ℕ
  pub port : ℕ
  pub connect_timeout_ms : ℕ
  pub session_timeout_ms : ℕ
  pub retry_delay_ms : ℕ

-- The constants have the same values in the four sketches; the address is 192.168.1.2.
abbrev pub target : Target
target = record {
  ip = 3232235778;
  port = 44818;
  connect_timeout_ms = 5000;
  session_timeout_ms = 5000;
  retry_delay_ms = 5000;
}

-- `millis() - phaseStarted`, on 32 bits.
abbrev pub elapsed : ℕ → ℕ → ℕ
elapsed now started = (now + 2 ^ 32 - started) % 2 ^ 32

-- The state after `n` loops.
unfoldable pub after : {D W : Type 0} → (Cycle D → W → Cycle D × W) → ℕ → Cycle D → W → Cycle D × W
after one zero l w = (l, w)
after one (suc n) l w = let (l', w') = one l w in after one n l' w'

module _ {C W D : Type 0} (net : Network C W) where
  open net use {transport as t, eth_begin, eth_poll, tcp_connect, tcp_poll, tcp_close}

  -- `phase = …; phaseStarted = millis();`
  abbrev pub enter : Cycle D → Phase → W → Cycle D × W
  enter l phase w =
      let (now, w') = t.millis w in (record l { phase = phase; phase_started = now }, w')

  -- `setup`, with the configuration that it fills in.
  pub setup : C → Cycle D → W → Cycle D × W
  setup cfg l w =
      let (st, w1) = eth_begin w cfg in
      let (now, w2) = t.millis w1 in
      (record l { phase = elim st [ error ↦ retry_wait | _ ↦ l.phase ]; phase_started = now }, w2)

  unfoldable pub ethernet_polled : C → Cycle D → Status × W → Cycle D × W
  ethernet_polled cfg l (ok, w) =
      enter l connect (tcp_connect w target.ip target.port target.connect_timeout_ms).1
  ethernet_polled cfg l (error, w) =
      let (now, w') = t.millis (eth_begin w cfg).1 in (record l { phase_started = now }, w')
  ethernet_polled cfg l (st, w) = (l, w)

  unfoldable pub connect_polled : Cycle D → Status × W → Cycle D × W
  connect_polled l (ok, w) =
      let (st, s, w') = Session.open_session t l.session w target.session_timeout_ms in
      enter (record l { session = s }) open_session w'
  connect_polled l (timeout, w) = enter l retry_wait w
  connect_polled l (error, w) = enter l retry_wait w
  connect_polled l (st, w) = (l, w)

  -- `start` is what the sketch does on the registered session before it enters `operate`.
  unfoldable pub session_polled :
      (Cycle D → W → Cycle D × W) → Cycle D → Status × Session × W → Cycle D × W
  session_polled start l (ok, s, w) =
      let (l', w') = start (record l { session = s }) w in enter l' operate w'
  session_polled start l (timeout, s, w) = enter (record l { session = s }) retry_wait w
  session_polled start l (error, s, w) = enter (record l { session = s }) retry_wait w
  session_polled start l (st, s, w) = (record l { session = s }, w)

  unfoldable pub close_polled : Cycle D → Status × Session × W → Cycle D × W
  close_polled l (ok, s, w) = enter (record l { session = s }) retry_wait (tcp_close w)
  close_polled l (timeout, s, w) =
      enter (record l { session = Session.abort s }) retry_wait (tcp_close w)
  close_polled l (error, s, w) =
      enter (record l { session = Session.abort s }) retry_wait (tcp_close w)
  close_polled l (st, s, w) = (record l { session = s }, w)

  unfoldable pub retry_step : Cycle D → W → Cycle D × W
  retry_step l w =
      let l' : Cycle D = record l { session = Session.abort l.session } in
      let (now, w') = t.millis (tcp_close w) in
      if leb target.retry_delay_ms (elapsed now l.phase_started)
      then enter l' wait_ethernet w'
      else (l', w')

  unfoldable pub loop :
      C → (Cycle D → W → Cycle D × W) → (Cycle D → W → Cycle D × W) → Cycle D → W → Cycle D × W
  loop cfg start operate_step l w = elim l.phase [
    | wait_ethernet ↦ ethernet_polled cfg l (eth_poll w)
    | connect ↦ connect_polled l (tcp_poll w)
    | open_session ↦ session_polled start l (Session.poll t l.session w)
    | operate ↦ operate_step l w
    | close_session ↦ close_polled l (Session.poll t l.session w)
    | retry_wait ↦ retry_step l w
  ]
