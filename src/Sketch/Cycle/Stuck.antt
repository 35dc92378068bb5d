-- ===== src/Sketch/Cycle/Stuck.antt =====
-- A connect that does not start.
use esp32_control_logix.Base.{ℕ, zero, suc, ◌≡◌, ◌≢◌, refl, ◌∙◌, ap, true, arith}
use esp32_control_logix.Status.{Status, pending, ok}
use esp32_control_logix.Tcp
use esp32_control_logix.Tcp.{Tcp, Platform, negative, tcp_transport}
use esp32_control_logix.Ethernet
use esp32_control_logix.Ethernet.{Ethernet, Driver, Config}
use esp32_control_logix.Station.{Station, station, station_transport}
use esp32_control_logix.Sketch.Cycle.{
  Cycle, wait_ethernet, connect, target, connect_polled, ethernet_polled, loop, after,
}

module _ {P : Type 0} (p : Platform P) where
  -- A connect that is not pending leaves no socket.
  connect-no_socket :
      (c : Tcp) (w : P) (ip port timeout_ms : ℕ)
      → (Tcp.connect p c w ip port timeout_ms).0 ≢ pending
      → negative (Tcp.connect p c w ip port timeout_ms).1.fd ≡ true
  unfolding Tcp.connect Tcp.open_socket Tcp.close
  connect-no_socket c w ip port timeout_ms h = ground (arith, h)

module _ {P D : Type 0} (p : Platform P) (d : Driver P) (cfg : Config)
    (start operate_step : Cycle D → Station P → Cycle D × Station P) where
  -- Without a socket `poll` returns `Closed`, which the phase does not look for.
  no_socket-stays :
      (n : ℕ) (l : Cycle D) (s : Station P)
      → l.phase ≡ connect
      → negative s.tcp.fd ≡ true
      → (after (loop (station p d) cfg start operate_step) n l s).0.phase ≡ connect
  unfolding after loop connect_polled Tcp.poll station
  no_socket-stays zero l s e h = e
  no_socket-stays (suc n) l s e h =
      let same : loop (station p d) cfg start operate_step l s ≡ (l, s) = ground arith in
      ground (arith, no_socket-stays n l s e h)

  ready-no_socket :
      (l : Cycle D) (r : Status × Station P)
      → r.0 ≡ ok
      → negative
          (Tcp.connect p r.1.tcp r.1.platform target.ip target.port target.connect_timeout_ms).1.fd
        ≡ true
      → let l1 = ethernet_polled (station p d) cfg l r in
        (l1.0.phase ≡ connect) × (negative l1.1.tcp.fd ≡ true)
  unfolding ethernet_polled station station_transport tcp_transport
  ready-no_socket l (ok, s) up h = (refl, h)
  ready-no_socket l (st, s) up h = ground arith

  -- When the interface is ready and `TcpConnection::connect` fails at once, the sketch is in the
  -- phase `Connect` after any number of further loops: it never tries again.
  pub failed_connect-stays :
      (n : ℕ) (l : Cycle D) (s : Station P)
      → l.phase ≡ wait_ethernet
      → (Ethernet.poll d s.eth s.platform).0 ≡ ok
      → (Tcp.connect p s.tcp
          (Ethernet.poll d s.eth s.platform).2
          target.ip
          target.port
          target.connect_timeout_ms).0
        ≢ pending
      → (after (loop (station p d) cfg start operate_step) (suc n) l s).0.phase ≡ connect
  unfolding after loop station
  failed_connect-stays n l s e up failed =
      let gone =
        connect-no_socket p s.tcp (Ethernet.poll d s.eth s.platform).2 target.ip target.port
          target.connect_timeout_ms failed in
      let s1 = station p d in
      let (entered, no_socket) = ready-no_socket l (s1.eth_poll s) up gone in
      let l1 = ethernet_polled s1 cfg l (s1.eth_poll s) in
      let first : loop s1 cfg start operate_step l s ≡ l1 = ground arith in
      ap (λ (x : Cycle D × Station P). (after (loop s1 cfg start operate_step) n x.0 x.1).0.phase)
        first
      ∙ no_socket-stays n l1.0 l1.1 entered no_socket
