-- ===== src/Address.antt =====
-- IPv4 addresses, for the `IPAddress` of the Arduino core: four octets, `ip[0]` the highest.
pub mod Order
use esp32_control_logix.Base.{ℕ, ◌+◌, ◌*◌, ◌^◌, Bool, ◌&&◌, ◌==◌}

pub record Address : Type 0 where
  pub o0 : ℕ
  pub o1 : ℕ
  pub o2 : ℕ
  pub o3 : ℕ

-- The address as a number; 0.0.0.0 is 0.
unfoldable pub number : Address → ℕ
number a = a.o0 * 2 ^ 24 + a.o1 * 2 ^ 16 + a.o2 * 2 ^ 8 + a.o3

-- `a == b`.
unfoldable pub same : Address → Address → Bool
same a b = a.o0 == b.o0 && a.o1 == b.o1 && a.o2 == b.o2 && a.o3 == b.o3
