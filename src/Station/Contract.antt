-- ===== src/Station/Contract.antt =====
-- The network of a station keeps the bounds that the buffers of the protocol layers rest on.
use esp32_control_logix.Transport.{IsTransport}
use esp32_control_logix.Tcp.{Platform}
use esp32_control_logix.Tcp.Contract.{IsPlatform, tcp_transport-IsTransport}
use esp32_control_logix.Ethernet.{Driver}
use esp32_control_logix.Station.{station, station_transport, tcp_side}

module _ {P : Type 0} (p : Platform P) (d : Driver P) where
  -- Over a platform whose socket calls and clock keep their bounds, so does the station of a
  -- `Client` and a `TcpConnection`.
  pub station-IsTransport : IsPlatform p → IsTransport (station p d).transport
  unfolding station station_transport
  station-IsTransport v =
      let c = tcp_transport-IsTransport p v in
      record {
        write_fits = λ s bs n e. c.write_fits (tcp_side s) bs n e;
        read_fits = λ s len n e. c.read_fits (tcp_side s) len n e;
        read_length = λ s len n e. c.read_length (tcp_side s) len n e;
        read_bytes = λ s len. c.read_bytes (tcp_side s) len;
        millis_u32 = λ s. c.millis_u32 (tcp_side s);
        random_u32 = λ s. c.random_u32 (tcp_side s);
      }
