-- ===== src/Station.antt =====
-- A `Client` and a `TcpConnection` on one platform, as the network of a `PlcClient` or a sketch.
pub mod Contract
use esp32_control_logix.Base.{ℕ}
use esp32_control_logix.Status.{Status}
use esp32_control_logix.Transport.{Transport}
use esp32_control_logix.Tcp
use esp32_control_logix.Tcp.{Tcp, Platform, tcp_transport}
use esp32_control_logix.Ethernet
use esp32_control_logix.Ethernet.{Ethernet, Driver, Config}
use esp32_control_logix.Network.{Network}

pub record Station (P : Type 0) : Type 0 where
  pub eth : Ethernet
  pub tcp : Tcp
  pub platform : P

module _ {P : Type 0} where
  -- The connection with the platform behind it.
  abbrev pub tcp_side : Station P → Tcp × P
  tcp_side s = (s.tcp, s.platform)

  abbrev pub with_tcp : Station P → Tcp × P → Station P
  with_tcp s r = record s { tcp = r.0; platform = r.1 }

  abbrev pub with_eth : Station P → Ethernet × P → Station P
  with_eth s r = record s { eth = r.0; platform = r.1 }

module _ {P : Type 0} (p : Platform P) (d : Driver P) where
  unfoldable pub station_transport : Transport (Station P)
  station_transport = record {
    connected = λ s. Tcp.connected s.tcp;
    write =
        λ s buffer. let (n, c) = (tcp_transport p).write (tcp_side s) buffer in (n, with_tcp s c);
    read = λ s len.
        let (n, bytes, c) = (tcp_transport p).read (tcp_side s) len in (n, bytes, with_tcp s c);
    millis = λ s. let (now, c) = (tcp_transport p).millis (tcp_side s) in (now, with_tcp s c);
    random = λ s. let (r, c) = (tcp_transport p).random (tcp_side s) in (r, with_tcp s c);
  }

  unfoldable pub station : Network Config (Station P)
  unfolding station_transport
  station = record {
    transport = station_transport;
    eth_begin =
        λ s cfg. let (st, e, w) = Ethernet.begin d s.eth s.platform cfg in (st, with_eth s (e, w));
    eth_poll = λ s. let (st, e, w) = Ethernet.poll d s.eth s.platform in (st, with_eth s (e, w));
    eth_ready = λ s. s.eth.ready;
    eth_local_ip = λ s. Ethernet.local_ip d s.eth s.platform;
    eth_subnet_mask = λ s. Ethernet.subnet_mask d s.eth s.platform;
    tcp_connect = λ s ip port timeout_ms.
        let (st, c, w) = Tcp.connect p s.tcp s.platform ip port timeout_ms in
        (st, with_tcp s (c, w));
    tcp_poll = λ s. let (st, c, w) = Tcp.poll p s.tcp s.platform in (st, with_tcp s (c, w));
    tcp_close = λ s. with_tcp s (Tcp.close p s.tcp s.platform);
  }
