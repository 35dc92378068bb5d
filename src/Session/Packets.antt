-- ===== src/Session/Packets.antt =====
-- The packets of `startRegister` and `startUnregister`.
use esp32_control_logix.Base.{
  ℕ, ◌+◌, ◌≡◌, ◌≢◌, refl, ap, ◌∙◌, true, List, ◌++◌, length, take, store, store-append,
  take-store_start, arith,
}
use esp32_control_logix.Status.{pending}
use esp32_control_logix.Encapsulation.{
  header_size, register_session, unregister_session, u16_bytes, put_u16,
}
use esp32_control_logix.Encapsulation.Header.{header_bytes, encode_header-eq-store}
use esp32_control_logix.Transport.{Transport, deadline_after}
use esp32_control_logix.Session.{
  Session, registering, registered, unregistering, session_header, start_register, start_unregister,
  close, open_session,
}
use esp32_control_logix.Session.Lifecycle.{IsSession, capacity}

-- Protocol version 1 and option flags 0.
abbrev pub register_packet : ℕ → List ℕ
register_packet context =
    header_bytes (session_header register_session 4 0 context) ++ (u16_bytes 1 ++ u16_bytes 0)

abbrev pub unregister_packet : ℕ → ℕ → List ℕ
unregister_packet handle context = header_bytes (session_header unregister_session 0 handle context)

start_register-tx :
    (s : Session)
    → capacity ≡ length s.wire.tx
    → take (start_register s).1.wire.tx_len (start_register s).1.wire.tx ≡ register_packet s.context
unfolding start_register put_u16
start_register-tx s room =
    let head = header_bytes (session_header register_session 4 0 s.context) in
    let h = encode_header-eq-store s.wire.tx 0 (session_header register_session 4 0 s.context) in
    let stored =
      ap (λ b. store (store b header_size (u16_bytes 1)) (header_size + 2) (u16_bytes 0)) h
      ∙ ap (λ b. store b (header_size + 2) (u16_bytes 0))
          (store-append s.wire.tx 0 header_size head (u16_bytes 1) refl)
      ∙ store-append s.wire.tx 0 (header_size + 2) (head ++ u16_bytes 1) (u16_bytes 0) refl in
    ap (take (header_size + 4)) stored
    ∙ take-store_start s.wire.tx (register_packet s.context) (omega (arith, room))

start_unregister-tx :
    (s : Session)
    → capacity ≡ length s.wire.tx
    → take (start_unregister s).1.wire.tx_len (start_unregister s).1.wire.tx
      ≡ unregister_packet s.handle s.context
unfolding start_unregister
start_unregister-tx s room =
    ap (take header_size)
      (encode_header-eq-store s.wire.tx 0 (session_header unregister_session 0 s.handle s.context))
    ∙ take-store_start s.wire.tx (unregister_packet s.handle s.context) (omega (arith, room))

module _ {W : Type 0} (t : Transport W) where
  -- Under the invariant, on a connected transport, `open` of a session that is not registering and
  -- not registered starts the registration: the transmit buffer holds exactly the RegisterSession
  -- packet for protocol version 1, none of it sent, and the deadline is `timeout_ms` from now.
  pub open_session-packet :
      (s : Session) (w : W) (timeout_ms : ℕ)
      → IsSession s
      → t.connected w ≡ true
      → s.state ≢ registering
      → s.state ≢ registered
      → let (st, s', w') = open_session t s w timeout_ms in
        (st ≡ pending)
        × (s'.state ≡ registering)
        × (take s'.wire.tx_len s'.wire.tx ≡ register_packet s.context)
        × (s'.wire.tx_sent ≡ 0)
        × (s'.deadline ≡ deadline_after (t.millis w).0 timeout_ms)
  unfolding open_session start_register
  open_session-packet s w timeout_ms v up no_reg no_done =
      ground (arith, start_register-tx s, v.tx_room, up)

-- Under the invariant, `close` of a registered session starts the end of the session: the transmit
-- buffer holds exactly the UnregisterSession packet with the handle of the session, none of it sent.
pub close-packet :
    (s : Session)
    → IsSession s
    → s.state ≡ registered
    → let (st, s') = close s in
      (st ≡ pending)
      × (s'.state ≡ unregistering)
      × (take s'.wire.tx_len s'.wire.tx ≡ unregister_packet s.handle s.context)
      × (s'.wire.tx_sent ≡ 0)
unfolding close start_unregister
close-packet s v e = ground (arith, start_unregister-tx s, v.tx_room)
