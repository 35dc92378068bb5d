-- ===== src/Network.antt =====
-- What `PlcClient` and the sketches use of a `Client` and a `TcpConnection`: the interface between
-- them and src/transport. `C` is the Ethernet configuration, and `W` the state of the two
-- objects and of the platform.
use esp32_control_logix.Base.{ℕ, Bool}
use esp32_control_logix.Status.{Status}
use esp32_control_logix.Transport.{Transport}
use esp32_control_logix.Address.{Address}

pub record Network (C W : Type 0) : Type 0 where
  pub transport : Transport W
  pub eth_begin : W → C → Status × W
  pub eth_poll : W → Status × W
  pub eth_ready : W → Bool
  pub eth_local_ip : W → Address
  pub eth_subnet_mask : W → Address
  -- The address, the port and the timeout.
  pub tcp_connect : W → ℕ → ℕ → ℕ → Status × W
  pub tcp_poll : W → Status × W
  pub tcp_close : W → W
