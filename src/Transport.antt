-- ===== src/Transport.antt =====
-- What the protocol layers use of a `TcpConnection` and of the platform: the interface between
-- src/transport/TcpConnection.h and its clients. `W` is the state of the connection and of all
-- that lies behind it.
pub mod Deadline
use esp32_control_logix.Base.{
  ℕ, ◌+◌, ◌-◌, ◌%◌, ◌^◌, ◌≤◌, ◌<◌, ◌≡◌, Bool, List, ◌++◌, length, take, All, ltb,
}
use esp32_control_logix.Base.Int.{ℤ, pos, negsuc}
use esp32_control_logix.Encapsulation.{IsByte}

pub record Transport (W : Type 0) : Type 0 where
  pub connected : W → Bool
  -- `write(buffer, length)` on the bytes of the buffer.
  pub write : W → List ℕ → ℤ × W
  -- `read(buffer, length)`: the number returned and the bytes put into the buffer.
  pub read : W → ℕ → ℤ × List ℕ × W
  -- `millis()` and `esp_random()` of the platform.
  pub millis : W → ℕ × W
  pub random : W → ℕ × W

-- The bounds that the buffers rest on: a count that is returned is no larger than what was asked for,
-- and comes with as many bytes; and the ranges of the two numbers. What 0 and the negative numbers
-- mean for a `TcpConnection` is in Tcp/Results.
pub record IsTransport {W : Type 0} (t : Transport W) : Type 0 where
  pub write_fits : (w : W) (bs : List ℕ) (n : ℕ) → (t.write w bs).0 ≡ pos n → n ≤ length bs
  pub read_fits : (w : W) (len n : ℕ) → (t.read w len).0 ≡ pos n → n ≤ len
  pub read_length : (w : W) (len n : ℕ) → (t.read w len).0 ≡ pos n → length (t.read w len).1 ≡ n
  pub read_bytes : (w : W) (len : ℕ) → All IsByte (t.read w len).1
  pub millis_u32 : (w : W) → (t.millis w).0 < 2 ^ 32
  pub random_u32 : (w : W) → (t.random w).0 < 2 ^ 32

-- A byte stream behind the transport: what the peer was sent, and what it has sent and is not
-- read yet. A call moves bytes in order, and none without reporting it.
pub record Streams {W : Type 0} (t : Transport W) : Type 0 where
  pub sent : W → List ℕ
  pub unread : W → List ℕ
  pub write_sends :
      (w : W) (bs : List ℕ) (n : ℕ)
      → (t.write w bs).0 ≡ pos n
      → sent (t.write w bs).1 ≡ sent w ++ take n bs
  pub write_fails :
      (w : W) (bs : List ℕ) (n : ℕ) → (t.write w bs).0 ≡ negsuc n → sent (t.write w bs).1 ≡ sent w
  pub read_takes :
      (w : W) (len n : ℕ)
      → (t.read w len).0 ≡ pos n
      → (t.read w len).1 ++ unread (t.read w len).2 ≡ unread w
  pub read_fails :
      (w : W) (len n : ℕ) → (t.read w len).0 ≡ negsuc n → unread (t.read w len).2 ≡ unread w

-- `millis() + timeoutMs`, in `uint32_t`.
abbrev pub deadline_after : ℕ → ℕ → ℕ
deadline_after now timeout = (now + timeout) % 2 ^ 32

-- `(int32_t)(millis() - deadline) >= 0`.
abbrev pub expired : ℕ → ℕ → Bool
expired now deadline = ltb ((now + 2 ^ 32 - deadline) % 2 ^ 32) (2 ^ 31)
