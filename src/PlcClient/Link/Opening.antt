-- ===== src/PlcClient/Link/Opening.antt =====
-- A connection that comes up: from the TCP connection to a ready client.
use esp32_control_logix.Base.{
  ℕ, ◌+◌, ◌-◌, ◌%◌, ◌^◌, ◌≡◌, ◌≢◌, refl, ap, ◌∙◌, true, false, List, [], ◌∷◌, ◌++◌, take,
  append-nil, if◌then◌else◌, arith,
}
use esp32_control_logix.Status.{Status, pending, ok}
use esp32_control_logix.Transport.{IsTransport, Streams, expired}
use esp32_control_logix.Network.{Network}
use esp32_control_logix.Wire.{write_pending}
use esp32_control_logix.Wire.Ready.{IsReady, clock-keeps, write_pending-ready, unsent_whole}
use esp32_control_logix.Wire.Conservation.{incoming}
use esp32_control_logix.Session
use esp32_control_logix.Session.{Session, open_session}
use esp32_control_logix.Session.Lifecycle.{IsSession, is_active, capacity, open_session-IsSession}
use esp32_control_logix.Session.Packets.{register_packet, open_session-packet}
use esp32_control_logix.Session.Completion.{IsGrant, IsGranted, open_session-fresh, poll-IsGranted}
use esp32_control_logix.PlcClient.{PlcClient, connecting, registering, ready, state_changed, notify}
use esp32_control_logix.PlcClient.Link.{poll, poll_connecting, poll_registering, session_polled}

-- The timeout that the client gives to the session: what is left of its own.
abbrev pub time_left : PlcClient → ℕ → ℕ
time_left c now = (c.deadline + 2 ^ 32 - now) % 2 ^ 32

-- A client that has a session under the handle.
pub record IsUp (handle : ℕ) (c : PlcClient) (st : Status) (c' : PlcClient) : Type 0 where
  pub all_ok : st ≡ ok
  pub is_up : c'.state ≡ ready
  pub session_up : c'.session.state ≡ Session.registered
  pub session_handle : c'.session.handle ≡ handle
  pub announced : c'.calls ≡ c.calls ++ (if c.state_callback then state_changed ok ∷ [] else [])

module _ {C W : Type 0} (net : Network C W) where
  open net use {transport as t, tcp_poll}

  -- The `poll` that finds the TCP connection up.
  pub connecting-opens :
      (c : PlcClient) (w w1 : W)
      → c.state ≡ connecting
      → expired (t.millis w).0 c.deadline ≡ false
      → tcp_poll (t.millis w).1 ≡ (ok, w1)
      → let now = (t.millis w1).0 in
        let (st, s, w3) = open_session t c.session (t.millis w1).1 (time_left c now) in
        st ≡ pending → poll net c w ≡ (pending, record c { session = s; state = registering }, w3)
  unfolding poll poll_connecting
  connecting-opens c w w1 e early up started = ground (arith, e, early, up, started)

  session_polled-IsUp :
      (handle : ℕ) (c : PlcClient) (r : Status × Session × W)
      → IsGranted handle r.0 r.1
      → let fin = session_polled net c r in IsUp handle c fin.0 fin.1 × (fin.2 ≡ r.2)
  unfolding notify
  session_polled-IsUp handle c (ok, s, w) g =
      ground (arith, g.is_registered, g.under, append-nil c.calls)
  session_polled-IsUp handle c (st, s, w) g = ground (arith, g.all_ok)

  registering-IsUp :
      (handle : ℕ) (c : PlcClient) (w : W)
      → c.state ≡ registering
      → expired (t.millis w).0 c.deadline ≡ false
      → (let r = Session.poll t c.session (t.millis w).1 in IsGranted handle r.0 r.1)
      → let fin = poll net c w in
        IsUp handle c fin.0 fin.1 × (fin.2 ≡ (Session.poll t c.session (t.millis w).1).2)
  unfolding poll poll_registering
  registering-IsUp handle c w e early g =
      let up = session_polled-IsUp handle c (Session.poll t c.session (t.millis w).1) g in
      ground (arith, e, early, up)

  -- From a state in which the stream moves bytes at both ends and goes on so (`IsReady`), a client
  -- comes up: if a `poll` of a connecting client finds the TCP connection up, before the deadline,
  -- it starts the registration and returns `Pending`; and if the next `poll` comes before the
  -- deadlines of the client and of the session, and a successful answer with a handle other than 0
  -- can be read once the packet is sent, then it returns `Ok`, with the client ready on a session
  -- registered under that handle and one call of the state callback with `Ok`, if one is set.
  -- Exactly the RegisterSession packet has gone out in between, and what follows the answer stays
  -- unread.
  pub poll-IsUp :
      IsTransport t
      → (str : Streams t) {on : W → Type 0} → IsReady str on
      → (c : PlcClient) (w w1 : W) (handle : ℕ) (grant more : List ℕ) → c.state ≡ connecting
      → expired (t.millis w).0 c.deadline ≡ false
      → tcp_poll (t.millis w).1 ≡ (ok, w1)
      → on w1
      → t.connected (t.millis w1).1 ≡ true
      → IsSession c.session
      → c.session.state ≢ Session.registering
      → c.session.state ≢ Session.registered
      → IsGrant handle grant
      → let (st, c1, w3) = poll net c w in
        let w4 = (t.millis w3).1 in
        expired (t.millis w3).0 c.deadline ≡ false
        → expired (t.millis w4).0 c1.session.deadline ≡ false
        → (let out = write_pending t c1.session.wire (t.millis w4).1 in
            str.unread out.2 ≡ grant ++ more)
        → let (st2, c2, w5) = poll net c1 w3 in
          (st ≡ pending)
          × IsUp handle c st2 c2
          × (str.sent w5 ≡ str.sent w1 ++ register_packet c.session.context)
          × (str.unread w5 ≡ more)
  poll-IsUp ht str {on = on} r c w w1 handle grant more e early up o live v no_reg no_done g =
      let (now, w2) = t.millis w1 in
      let left = time_left c now in
      let (_, s, w3) = open_session t c.session w2 left in
      let (begins, starts, full, none_sent, _) =
        open_session-packet t c.session w2 left v live no_reg no_done in
      let kept : IsSession s = open_session-IsSession t c.session w2 left v in
      let (no_rx, clock) = open_session-fresh t c.session w2 left live no_reg no_done in
      let active : is_active s.state ≡ true = ap is_active starts in
      let o2 : on w2 = r.millis_on w1 o in
      let o3 : on w3 = clock-keeps r w2 w3 clock o2 in
      let w4 = (t.millis w3).1 in
      let o4 : on w4 = r.millis_on w3 o3 in
      let out = write_pending t s.wire (t.millis w4).1 in
      let wrote =
        write_pending-ready t ht str r capacity s.wire (t.millis w4).1 (kept.tx_ready active)
          (r.millis_on w4 o4) in
      let still : out.1.rx_len ≡ 0 = ground (arith, wrote.1, no_rx) in
      rw (connecting-opens c w w1 e early up begins) (λ on_time in_time there.
        let comes : incoming str out.1 out.2 ≡ grant ++ more =
          ap (λ (k : ℕ). take k out.1.rx ++ str.unread out.2) still ∙ there in
        let (ends, moved, rest) =
          poll-IsGranted handle grant g t ht str r more s w4 kept o4 starts in_time comes in
        let c1 : PlcClient = record c { session = s; state = registering } in
        let (is_up, world) = registering-IsUp handle c1 w3 refl on_time ends in
        let quiet : str.sent w4 ≡ str.sent w1 =
          r.millis_sent w3 ∙ ap str.sent clock ∙ r.millis_sent w2 ∙ r.millis_sent w1 in
        (
          refl,
          record {
            all_ok = is_up.all_ok;
            is_up = is_up.is_up;
            session_up = is_up.session_up;
            session_handle = is_up.session_handle;
            announced = is_up.announced;
          },
          ap str.sent world
              ∙ moved
              ∙ ap (λ xs. str.sent w4 ++ xs) (unsent_whole s.wire none_sent ∙ full)
              ∙ ap (λ xs. xs ++ register_packet c.session.context) quiet,
          ap str.unread world ∙ rest,
        ))
