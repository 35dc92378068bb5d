-- ===== src/Tcp/Contract.antt =====
-- `TcpConnection` keeps the bounds that the buffers of the protocol layers rest on.
use esp32_control_logix.Base.{ℕ, ◌^◌, ◌≤◌, ◌<◌, ◌≡◌, List, length, All, arith}
use esp32_control_logix.Base.Int.{ℤ, pos}
use esp32_control_logix.Encapsulation.{IsByte}
use esp32_control_logix.Transport.{IsTransport}
use esp32_control_logix.Tcp.{Platform, tcp_transport}

-- What the socket calls and the clock promise: `recv` and `send` move no more than they are asked
-- to, and a count of bytes received comes with that many bytes.
pub record IsPlatform {P : Type 0} (p : Platform P) : Type 0 where
  pub recv_fits : (w : P) (fd : ℤ) (len n : ℕ) → (p.recv w fd len).0 ≡ pos n → n ≤ len
  pub recv_length :
      (w : P) (fd : ℤ) (len n : ℕ) → (p.recv w fd len).0 ≡ pos n → length (p.recv w fd len).1 ≡ n
  pub recv_bytes : (w : P) (fd : ℤ) (len : ℕ) → All IsByte (p.recv w fd len).1
  pub send_fits :
      (w : P) (fd : ℤ) (bs : List ℕ) (n : ℕ) → (p.send w fd bs).0 ≡ pos n → n ≤ length bs
  pub millis_u32 : (w : P) → (p.millis w).0 < 2 ^ 32
  pub random_u32 : (w : P) → (p.esp_random w).0 < 2 ^ 32

module _ {P : Type 0} (p : Platform P) where
  -- Over a platform whose socket calls and clock keep these bounds, so do `TcpConnection::read` and
  -- `write`.
  pub tcp_transport-IsTransport : IsPlatform p → IsTransport (tcp_transport p)
  unfolding tcp_transport
  tcp_transport-IsTransport v = record {
    write_fits = λ w bs n e. ground (arith, v.send_fits w.1 w.0.fd bs n);
    read_fits = λ w len n e. ground (arith, v.recv_fits w.1 w.0.fd len n);
    read_length = λ w len n e. ground (arith, v.recv_length w.1 w.0.fd len n);
    read_bytes = λ w len. ground (arith, v.recv_bytes w.1 w.0.fd len);
    millis_u32 = λ w. v.millis_u32 w.1;
    random_u32 = λ w. v.random_u32 w.1;
  }
