-- ===== src/Session/Completion.antt =====
-- A registration that the target answers ends with a registered session, and so does its end.
use esp32_control_logix.Base.{ℕ, ◌≤◌, ◌≡◌, ◌≢◌, refl, ap, ◌∙◌, true, false, List, ◌++◌, take, arith}
use esp32_control_logix.Status.{Status, ok, pending}
use esp32_control_logix.Encapsulation.{command_code, register_session, decode_header}
use esp32_control_logix.Transport.{Transport, IsTransport, Streams, expired, deadline_after}
use esp32_control_logix.Wire.{Outcome, unsent, write_pending, read_response}
use esp32_control_logix.Wire.Framing.{IsReceiving, Read, read_response-Read}
use esp32_control_logix.Wire.Conservation.{incoming}
use esp32_control_logix.Wire.Ready.{IsReady, clock-keeps, write_pending-ready, unsent_whole}
use esp32_control_logix.Wire.Delivery.{
  IsFrame, Delivered, read_response-Delivered, read_response-sent, header-Delivered,
}
use esp32_control_logix.Session.{
  Session, registering, registered, max_body, start_register, open_session, finish_register,
  registered_read, registered_write, poll_registering, poll,
}
use esp32_control_logix.Session.Lifecycle.{IsSession, capacity, is_active, open_session-IsSession}
use esp32_control_logix.Session.Packets.{register_packet, open_session-packet}

-- A frame that grants a session under the handle.
pub record IsGrant (handle : ℕ) (frame : List ℕ) : Type 0 where
  pub framed : IsFrame max_body frame
  pub command : (decode_header frame 0).command ≡ command_code register_session
  pub status : (decode_header frame 0).status ≡ 0
  pub long : 4 ≤ (decode_header frame 0).length
  pub names : (decode_header frame 0).session ≡ handle
  pub not_null : handle ≢ 0

-- A session that is registered under the handle.
pub record IsGranted (handle : ℕ) (st : Status) (s : Session) : Type 0 where
  pub all_ok : st ≡ ok
  pub is_registered : s.state ≡ registered
  pub under : s.handle ≡ handle

-- An `open` that is accepted finds the receive buffer empty, and has only read the clock.
pub open_session-fresh :
    {W : Type 0} (t : Transport W) (s : Session) (w : W) (timeout_ms : ℕ)
    → t.connected w ≡ true
    → s.state ≢ registering
    → s.state ≢ registered
    → let (st, s1, w1) = open_session t s w timeout_ms in
      (s1.wire.rx_len ≡ 0) × (w1 ≡ (t.millis w).1)
unfolding open_session start_register
open_session-fresh t s w timeout_ms up no_reg no_done = ground (arith, up)

module _ (handle : ℕ) (frame : List ℕ) (g : IsGrant handle frame) where
  finish_register-IsGranted :
      (s : Session)
      → decode_header s.wire.rx 0 ≡ decode_header frame 0
      → let fin = finish_register s in IsGranted handle fin.0 fin.1
  unfolding finish_register
  finish_register-IsGranted s e =
      rw e (ground (arith, g.command, g.status, g.long, g.names, g.not_null))

  module _ {W : Type 0} (t : Transport W) (ht : IsTransport t) (str : Streams t) {on : W → Type 0}
      (r : IsReady str on) (more : List ℕ) where
    registered_read-IsGranted :
        (s : Session) (out : Outcome W)
        → Read max_body s.wire out
        → Delivered str frame more out
        → let fin = registered_read t s out in IsGranted handle fin.0 fin.1 × (fin.2 ≡ out.2)
    registered_read-IsGranted s (ok, b, w) rd d =
        let s' : Session = record s { wire = b } in
        let same = header-Delivered str max_body frame more (ok, b, w) g.framed rd.rx_room d in
        (finish_register-IsGranted s' same, refl)
    registered_read-IsGranted s (pending, b, w) rd d = ground (arith, d.all_in)
    registered_read-IsGranted s (st, b, w) rd d = ground (arith, d.all_in)

    registered_write-IsGranted :
        (s : Session) (out : Outcome W)
        → out.0 ≡ ok
        → IsReceiving max_body out.1
        → incoming str out.1 out.2 ≡ frame ++ more
        → on out.2
        → let fin = registered_write t s out in
          IsGranted handle fin.0 fin.1
          × (str.sent fin.2 ≡ str.sent out.2)
          × (str.unread fin.2 ≡ more)
    registered_write-IsGranted s (ok, b, w) e ready there o =
        let s' : Session = record s { wire = b } in
        let out = read_response t max_body b w in
        let d =
          read_response-Delivered t ht str r.reads max_body frame more g.framed b w ready there o in
        let ends =
          registered_read-IsGranted s' out (read_response-Read t ht max_body b w ready) d in
        (
          ends.0,
          ap str.sent ends.1 ∙ read_response-sent t str r max_body b w,
          ap str.unread ends.1 ∙ d.behind,
        )
    registered_write-IsGranted s (st, b, w) e ready there o = ground (arith, e)

    -- A registration in flight, whose deadline has not passed.
    pub poll-IsGranted :
        (s : Session) (w : W)
        → IsSession s
        → on w
        → s.state ≡ registering
        → expired (t.millis w).0 s.deadline ≡ false
        → (let out = write_pending t s.wire (t.millis w).1 in
            incoming str out.1 out.2 ≡ frame ++ more)
        → let fin = poll t s w in
          IsGranted handle fin.0 fin.1
          × (str.sent fin.2 ≡ str.sent w ++ unsent s.wire)
          × (str.unread fin.2 ≡ more)
    unfolding poll poll_registering
    poll-IsGranted s w h o e early there =
        let active : is_active s.state ≡ true = ap is_active e in
        let out = write_pending t s.wire (t.millis w).1 in
        let wrote =
          write_pending-ready t ht str r capacity s.wire (t.millis w).1 (h.tx_ready active)
            (r.millis_on w o) in
        let ready : IsReceiving max_body out.1 = ground (arith, wrote.1, h.rx_ready active) in
        let ends = registered_write-IsGranted s out wrote.0 ready there wrote.3 in
        let all_sent : str.sent out.2 ≡ str.sent w ++ unsent s.wire =
          wrote.2 ∙ ap (λ xs. xs ++ unsent s.wire) (r.millis_sent w) in
        ground (arith, early, ends, all_sent)

    -- From a state in which the stream moves bytes at both ends and goes on so (`IsReady`), a
    -- session registers: `open` and then `poll` before the deadline put exactly the RegisterSession
    -- packet on the stream, and where a successful answer with a handle other than 0 can then be
    -- read, they end with `Ok` and a session registered under that handle, and leave what follows
    -- the answer unread.
    pub poll-open_session :
        (s : Session) (w : W) (timeout_ms : ℕ)
        → IsSession s
        → on w
        → t.connected w ≡ true
        → s.state ≢ registering
        → s.state ≢ registered
        → let (st, s1, w1) = open_session t s w timeout_ms in
          expired (t.millis w1).0 (deadline_after (t.millis w).0 timeout_ms) ≡ false
          → (let out = write_pending t s1.wire (t.millis w1).1 in str.unread out.2 ≡ frame ++ more)
          → let (st2, s2, w2) = poll t s1 w1 in
            IsGranted handle st2 s2
            × (str.sent w2 ≡ str.sent w ++ register_packet s.context)
            × (str.unread w2 ≡ more)
    poll-open_session s w timeout_ms h o up no_reg no_done early there =
        let (st, s1, w1) = open_session t s w timeout_ms in
        let (_, starts, full, none_sent, set) =
          open_session-packet t s w timeout_ms h up no_reg no_done in
        let kept : IsSession s1 = open_session-IsSession t s w timeout_ms h in
        let (no_rx, clock) = open_session-fresh t s w timeout_ms up no_reg no_done in
        let o1 : on w1 = clock-keeps r w w1 clock o in
        let active : is_active s1.state ≡ true = ap is_active starts in
        let out = write_pending t s1.wire (t.millis w1).1 in
        let wrote =
          write_pending-ready t ht str r capacity s1.wire (t.millis w1).1 (kept.tx_ready active)
            (r.millis_on w1 o1) in
        let still : out.1.rx_len ≡ 0 = ground (arith, wrote.1, no_rx) in
        let comes : incoming str out.1 out.2 ≡ frame ++ more =
          ap (λ (k : ℕ). take k out.1.rx ++ str.unread out.2) still ∙ there in
        let on_time : expired (t.millis w1).0 s1.deadline ≡ false =
          ap (expired (t.millis w1).0) set ∙ early in
        let (ends, moved, left) = poll-IsGranted s1 w1 kept o1 starts on_time comes in
        (
          ends,
          moved
              ∙ ap (λ xs. str.sent w1 ++ xs) (unsent_whole s1.wire none_sent ∙ full)
              ∙ ap (λ xs. xs ++ register_packet s.context) (ap str.sent clock ∙ r.millis_sent w),
          left,
        )
