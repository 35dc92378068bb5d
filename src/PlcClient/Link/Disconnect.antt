-- ===== src/PlcClient/Link/Disconnect.antt =====
-- A disconnect after the time that `connect` was given never ends.
use esp32_control_logix.Base.{ℕ, zero, suc, ◌≡◌, true, arith}
use esp32_control_logix.Status.{Status, pending}
use esp32_control_logix.Transport.{expired}
use esp32_control_logix.Network.{Network}
use esp32_control_logix.Session
use esp32_control_logix.Session.{Session}
use esp32_control_logix.PlcClient.{PlcClient, ready, disconnecting}
use esp32_control_logix.PlcClient.Link.{poll, poll_disconnecting, disconnect}

module _ {C W : Type 0} (net : Network C W) where
  open net use {transport as t}

  -- Once the session has failed, a disconnecting client is stuck: `poll` returns `Pending` and
  -- leaves the client and the world as they are.
  disconnecting-stuck :
      (c : PlcClient) (w : W)
      → c.state ≡ disconnecting
      → c.session.state ≡ Session.failed
      → poll net c w ≡ (pending, c, w)
  unfolding poll poll_disconnecting Session.poll
  disconnecting-stuck c w e f = ground arith

  late_poll :
      (c : PlcClient) (w : W)
      → c.state ≡ disconnecting
      → c.session.state ≡ Session.unregistering
      → expired (t.millis w).0 c.session.deadline ≡ true
      → let r = poll net c w in
        (r.0 ≡ pending)
        × (r.1.state ≡ disconnecting)
        × (r.1.session.state ≡ Session.failed)
        × (r.2 ≡ (t.millis w).1)
  unfolding poll poll_disconnecting Session.poll Session.poll_unregistering
  late_poll c w e f late = ground arith

  disconnected_ready :
      (c : PlcClient) (w : W)
      → c.state ≡ ready
      → c.session.state ≡ Session.registered
      → let d = disconnect net c w in
        (d.1.state ≡ disconnecting)
        × (d.1.session.state ≡ Session.unregistering)
        × (d.1.session.deadline ≡ c.session.deadline)
        × (d.2 ≡ w)
  unfolding disconnect Session.close Session.start_unregister
  disconnected_ready c w e f = ground arith

  -- `n` calls of `poll`, whatever they return, and then one more.
  pub polls : ℕ → PlcClient → W → Status × PlcClient × W
  polls zero c w = poll net c w
  polls (suc n) c w = let (st, c', w') = poll net c w in polls n c' w'

  stuck_polls :
      (n : ℕ) (c : PlcClient) (w : W)
      → c.state ≡ disconnecting
      → c.session.state ≡ Session.failed
      → polls n c w ≡ (pending, c, w)
  unfolding polls
  stuck_polls zero c w e f = disconnecting-stuck c w e f
  stuck_polls (suc n) c w e f =
      let once = disconnecting-stuck c w e f in ground (arith, once, stuck_polls n c w e f)

  late_polls :
      (n : ℕ) (c : PlcClient) (w : W)
      → c.state ≡ disconnecting
      → c.session.state ≡ Session.unregistering
      → expired (t.millis w).0 c.session.deadline ≡ true
      → ((polls n c w).0 ≡ pending) × ((polls n c w).2 ≡ (t.millis w).1)
  unfolding polls
  late_polls zero c w e f late = ground (arith, late_poll c w e f late)
  late_polls (suc n) c w e f late =
      let r = poll net c w in
      let once = late_poll c w e f late in
      let again = stuck_polls n r.1 r.2 once.1 once.2 in ground (arith, once, again)

  -- If `disconnect` is called on a ready client with a registered session, and the next `poll`
  -- finds that the deadline of the registration has passed, then every `poll` after the
  -- `disconnect` returns `Pending`, and the world stays as the one read of the clock left it:
  -- `UnregisterSession` is never sent and the connection is never closed.
  pub disconnect-polls :
      (c : PlcClient) (w : W) (n : ℕ)
      → c.state ≡ ready
      → c.session.state ≡ Session.registered
      → expired (t.millis w).0 c.session.deadline ≡ true
      → let d = disconnect net c w in
        ((polls n d.1 d.2).0 ≡ pending) × ((polls n d.1 d.2).2 ≡ (t.millis w).1)
  disconnect-polls c w n e f late =
      let d = disconnect net c w in
      let (st, reg, dl, same) = disconnected_ready c w e f in
      let late_then : expired (t.millis d.2).0 d.1.session.deadline ≡ true = cc in
      ground (arith, late_polls n d.1 d.2 st reg late_then)
