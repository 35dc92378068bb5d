-- ===== src/PlcClient/Link.antt =====
-- The connection side of `PlcClient`: `begin`, `connect`, `poll` and `disconnect`.
pub mod Disconnect
pub mod Run
pub mod Opening
pub mod Moves
pub mod Completion
use esp32_control_logix.Base.{
  ℕ, ◌+◌, ◌-◌, ◌%◌, ◌^◌, ◌<◌, Bool, true, false, List, ◌++◌, if◌then◌else◌,
}
use esp32_control_logix.Status.{Status, pending, ok, not_ready, timeout, error}
use esp32_control_logix.Transport.{deadline_after, expired}
use esp32_control_logix.Network.{Network}
use esp32_control_logix.Session
use esp32_control_logix.Session.{Session}
use esp32_control_logix.PlcClient.{
  PlcClient, State, idle, ethernet, connecting, registering, ready, disconnecting, failed, notify,
}
use esp32_control_logix.PlcClient.Tags.{Sweep, sweep}

module _ {C W : Type 0} (net : Network C W) where
  open net use {transport as t, eth_begin, eth_poll, eth_ready, tcp_connect, tcp_poll, tcp_close}

  -- The destructor.
  pub destroy : PlcClient → W → PlcClient × W
  destroy c w = (record c { session = Session.abort c.session }, tcp_close w)

  pub begin : PlcClient → W → C → Status × PlcClient × W
  begin c w cfg =
      let (st, w') = eth_begin w cfg in
      (st, record c { state = ethernet; want_connect = false }, w')

  -- `tcp_.connect(…); if (st != Status::Pending) { state_ = State::Failed; return st; }`
  pub start_connect : PlcClient → Status × W → Status × PlcClient × W
  start_connect c (pending, w) = (pending, record c { state = connecting }, w)
  start_connect c (st, w) = (st, record c { state = failed }, w)

  pub connect : PlcClient → W → ℕ → ℕ → ℕ → Status × PlcClient × W
  unfolding start_connect
  connect c w ip port timeout_ms =
      let c1 : PlcClient = record c {
        remote_ip = ip;
        remote_port = port;
        connect_timeout = timeout_ms;
        want_connect = false;
      } in
      let (now, w2) = t.millis (tcp_close w) in
      let c2 : PlcClient = record c1 {
        session = Session.abort c1.session;
        deadline = deadline_after now timeout_ms;
      } in
      if eth_ready w
      then start_connect c2 (tcp_connect w2 ip port timeout_ms)
      else (pending, record c1 { want_connect = true; state = ethernet }, w)

  pub disconnect : PlcClient → W → Status × PlcClient × W
  disconnect c w =
      let closed' = Session.close c.session in
      let dropped : Status × PlcClient × W =
        (ok, record c { session = Session.abort c.session; state = idle }, tcp_close w) in
      elim c.state [
        | ready ↦ (pending, record c { session = closed'.1; state = disconnecting }, w)
        | _ ↦ dropped
      ]

  -- `case State::Ethernet`, after `eth_.poll()`.
  pub poll_ethernet : PlcClient → Status × W → Status × PlcClient × W
  unfolding start_connect
  poll_ethernet c (ok, w) =
      let (now, w') = t.millis w in
      let c' : PlcClient = record c {
        want_connect = false;
        deadline = deadline_after now c.connect_timeout;
      } in
      if c.want_connect
      then start_connect c' (tcp_connect w' c.remote_ip c.remote_port c.connect_timeout)
      else (ok, c, w)
  poll_ethernet c (error, w) = (error, record c { state = failed }, w)
  poll_ethernet c (st, w) = (pending, c, w)

  abbrev session_opened : PlcClient → Status × Session × W → Status × PlcClient × W
  session_opened c (pending, s, w) = (pending, record c { session = s; state = registering }, w)
  session_opened c (st, s, w) = (st, record c { session = s; state = failed }, w)

  abbrev tcp_polled : PlcClient → Status × W → Status × PlcClient × W
  tcp_polled c (ok, w) =
      let (now, w') = t.millis w in
      session_opened c (Session.open_session t c.session w' ((c.deadline + 2 ^ 32 - now) % 2 ^ 32))
  tcp_polled c (timeout, w) = (timeout, record c { state = failed }, w)
  tcp_polled c (error, w) = (error, record c { state = failed }, w)
  tcp_polled c (st, w) = (pending, c, w)

  pub poll_connecting : PlcClient → W → Status × PlcClient × W
  poll_connecting c w =
      let (now, w') = t.millis w in
      if expired now c.deadline
      then (timeout, record c { state = failed }, w')
      else tcp_polled c (tcp_poll w')

  abbrev session_polled : PlcClient → Status × Session × W → Status × PlcClient × W
  session_polled c (ok, s, w) = (ok, notify (record c { session = s; state = ready }) ok, w)
  session_polled c (timeout, s, w) = (timeout, record c { session = s; state = failed }, w)
  session_polled c (error, s, w) = (error, record c { session = s; state = failed }, w)
  session_polled c (st, s, w) = (pending, record c { session = s }, w)

  pub poll_registering : PlcClient → W → Status × PlcClient × W
  poll_registering c w =
      let (now, w') = t.millis w in
      if expired now c.deadline
      then (timeout, record c { state = failed }, w')
      else session_polled c (Session.poll t c.session w')

  -- `case State::Ready`, after the loop over the tags.
  pub finish_sweep : PlcClient → Sweep W → Status × PlcClient × W
  finish_sweep c r =
      let c' : PlcClient = record c { slots = r.slots; msg = r.msg; calls = c.calls ++ r.calls } in
      let lost : PlcClient = record c' { session = Session.abort c'.session; state = idle } in
      if r.disconnected
      then (Status.closed, notify lost Status.closed, tcp_close r.world)
      else (ok, c', r.world)

  pub poll_ready : PlcClient → W → Status × PlcClient × W
  poll_ready c w = finish_sweep c (sweep t c.tag_callback 0 c.slots c.msg w)

  abbrev disconnected : PlcClient → Session → W → Status × PlcClient × W
  disconnected c s w =
      (ok, notify (record c { session = s; state = idle }) Status.closed, tcp_close w)

  abbrev close_polled : PlcClient → Status × Session × W → Status × PlcClient × W
  close_polled c (ok, s, w) = disconnected c s w
  close_polled c (Status.closed, s, w) = disconnected c s w
  close_polled c (st, s, w) = (pending, record c { session = s }, w)

  pub poll_disconnecting : PlcClient → W → Status × PlcClient × W
  poll_disconnecting c w = close_polled c (Session.poll t c.session w)

  pub poll : PlcClient → W → Status × PlcClient × W
  poll c w = elim c.state [
    | ethernet ↦ poll_ethernet c (eth_poll w)
    | connecting ↦ poll_connecting c w
    | registering ↦ poll_registering c w
    | ready ↦ poll_ready c w
    | disconnecting ↦ poll_disconnecting c w
    | failed ↦ (error, c, w)
    | idle ↦ (not_ready, c, w)
  ]
