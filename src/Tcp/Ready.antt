-- ===== src/Tcp/Ready.antt =====
-- A connected `TcpConnection` is a byte stream, and one that moves bytes while its socket does.
use esp32_control_logix.Base.{
  ℕ, zero, suc, ◌<◌, ◌≡◌, refl, false, List, ◌++◌, length, take, append-nil, arith,
}
use esp32_control_logix.Base.Int.{ℤ, pos, negsuc, sign, nothing, count, code}
use esp32_control_logix.Status.{ok}
use esp32_control_logix.Transport.{Streams}
use esp32_control_logix.Wire.Ready.{IsReady}
use esp32_control_logix.Tcp.{Platform, Tcp, negative, tcp_transport, read, write}

-- The bytes behind the sockets of a platform: what was sent on a descriptor, and what has arrived
-- on it and is not received yet. `recv` and `send` move bytes in order, and none when they fail;
-- the clock and the random numbers move none.
pub record Sockets {P : Type 0} (p : Platform P) : Type 0 where
  pub sent : P → ℤ → List ℕ
  pub unread : P → ℤ → List ℕ
  pub recv_takes :
      (w : P) (fd : ℤ) (len n : ℕ)
      → (p.recv w fd len).0 ≡ pos (suc n)
      → (p.recv w fd len).1 ++ unread (p.recv w fd len).2 fd ≡ unread w fd
  pub recv_ends :
      (w : P) (fd : ℤ) (len : ℕ)
      → (p.recv w fd len).0 ≡ pos zero
      → unread (p.recv w fd len).2 fd ≡ unread w fd
  pub recv_fails :
      (w : P) (fd : ℤ) (len n : ℕ)
      → (p.recv w fd len).0 ≡ negsuc n
      → unread (p.recv w fd len).2 fd ≡ unread w fd
  pub recv_sends_none : (w : P) (fd : ℤ) (len : ℕ) → sent (p.recv w fd len).2 fd ≡ sent w fd
  pub send_puts :
      (w : P) (fd : ℤ) (bs : List ℕ) (n : ℕ)
      → (p.send w fd bs).0 ≡ pos n
      → sent (p.send w fd bs).1 fd ≡ sent w fd ++ take n bs
  pub send_fails :
      (w : P) (fd : ℤ) (bs : List ℕ) (n : ℕ)
      → (p.send w fd bs).0 ≡ negsuc n
      → sent (p.send w fd bs).1 fd ≡ sent w fd
  pub millis_sends_none : (w : P) (fd : ℤ) → sent (p.millis w).1 fd ≡ sent w fd
  pub random_sends_none : (w : P) (fd : ℤ) → sent (p.esp_random w).1 fd ≡ sent w fd

-- A socket `fd` is `live` while it takes a byte at least of what is sent and hands over a byte at
-- least of what has arrived; a call that does so leaves it live, and so do the clock and the random
-- numbers.
pub record Lives {P : Type 0} {p : Platform P} (k : Sockets p) (live : P → ℤ → Type 0)
    : Type 0 where
  pub recv_moves :
      (w : P) (fd : ℤ) (len : ℕ)
      → live w fd
      → 0 < len
      → 0 < length (k.unread w fd)
      → (n : ℕ) × ((p.recv w fd len).0 ≡ pos (suc n))
  pub recv_live :
      (w : P) (fd : ℤ) (len : ℕ)
      → live w fd
      → 0 < len
      → 0 < length (k.unread w fd)
      → live (p.recv w fd len).2 fd
  pub send_moves :
      (w : P) (fd : ℤ) (bs : List ℕ)
      → live w fd
      → 0 < length bs
      → (n : ℕ) × ((p.send w fd bs).0 ≡ pos (suc n))
  pub send_live :
      (w : P) (fd : ℤ) (bs : List ℕ) → live w fd → 0 < length bs → live (p.send w fd bs).1 fd
  pub millis_live : (w : P) (fd : ℤ) → live w fd → live (p.millis w).1 fd
  pub random_live : (w : P) (fd : ℤ) → live w fd → live (p.esp_random w).1 fd

-- The connection is established on a live socket.
pub record IsLive {P : Type 0} (live : P → ℤ → Type 0) (s : Tcp × P) : Type 0 where
  pub has_socket : negative s.0.fd ≡ false
  pub is_up : s.0.state ≡ ok
  pub alive : live s.1 s.0.fd

module _ {P : Type 0} (p : Platform P) (k : Sockets p) where
  pub write-sent :
      (c : Tcp) (w : P) (bs : List ℕ)
      → let (z, c', w') = write p c w bs in
        ((n : ℕ) → z ≡ pos n → k.sent w' c'.fd ≡ k.sent w c.fd ++ take n bs)
        × ((n : ℕ) → z ≡ negsuc n → k.sent w' c'.fd ≡ k.sent w c.fd)
  unfolding write
  write-sent c w bs =
      let puts = k.send_puts w c.fd bs in
      let fails = k.send_fails w c.fd bs in
      let same = append-nil (k.sent w c.fd) in
      elim (sign (p.send w c.fd bs).0) [
        | nothing e ↦ (λ n f. ground (arith, e, puts zero e), λ n f. ground (arith, e, puts zero e))
        | count m e ↦ (λ n f. ground (arith, e, puts (suc m) e), λ n f. ground (arith, e))
        | code m e ↦
            (λ n f. ground (arith, e, fails m e, same), λ n f. ground (arith, e, fails m e))
      ]

  pub read-unread :
      (c : Tcp) (w : P) (len : ℕ)
      → let (z, bytes, c', w') = read p c w len in
        ((n : ℕ) → z ≡ pos n → bytes ++ k.unread w' c'.fd ≡ k.unread w c.fd)
        × ((n : ℕ) → z ≡ negsuc n → k.unread w' c'.fd ≡ k.unread w c.fd)
  unfolding read
  read-unread c w len = elim (sign (p.recv w c.fd len).0) [
    | nothing e ↦
        let ends = k.recv_ends w c.fd len e in
        (λ n f. ground (arith, e), λ n f. ground (arith, e, ends))
    | count m e ↦
        let takes = k.recv_takes w c.fd len m e in
        (λ n f. ground (arith, e, takes), λ n f. ground (arith, e))
    | code m e ↦
        let fails = k.recv_fails w c.fd len m e in
        (λ n f. ground (arith, e, fails), λ n f. ground (arith, e, fails))
  ]

  read-sends_none :
      (c : Tcp) (w : P) (len : ℕ) → let r = read p c w len in k.sent r.3 r.2.fd ≡ k.sent w c.fd
  unfolding read
  read-sends_none c w len = ground (arith, k.recv_sends_none w c.fd len)

  -- Where `send` leaves what has arrived alone, so does `write`.
  pub write-unread :
      ((w : P) (fd : ℤ) (bs : List ℕ) → k.unread (p.send w fd bs).1 fd ≡ k.unread w fd)
      → (s : Tcp × P) (bs : List ℕ)
      → let s' = ((tcp_transport p).write s bs).1 in k.unread s'.1 s'.0.fd ≡ k.unread s.1 s.0.fd
  unfolding tcp_transport write
  write-unread keeps s bs = ground (arith, keeps s.1 s.0.fd bs)

  -- The bytes on the socket that the connection holds.
  unfoldable pub tcp_stream : Streams (tcp_transport p)
  unfolding tcp_transport
  tcp_stream = record {
    sent = λ s. k.sent s.1 s.0.fd;
    unread = λ s. k.unread s.1 s.0.fd;
    write_sends = λ s bs n e. (write-sent s.0 s.1 bs).0 n e;
    write_fails = λ s bs n e. (write-sent s.0 s.1 bs).1 n e;
    read_takes = λ s len n e. (read-unread s.0 s.1 len).0 n e;
    read_fails = λ s len n e. (read-unread s.0 s.1 len).1 n e;
  }

  module _ {live : P → ℤ → Type 0} (v : Lives k live) where
    read-IsLive :
        (s : Tcp × P) (len : ℕ)
        → IsLive live s
        → 0 < len
        → 0 < length (k.unread s.1 s.0.fd)
        → let (z, bytes, c', w') = read p s.0 s.1 len in
          ((n : ℕ) × (z ≡ pos (suc n))) × IsLive live (c', w')
    unfolding read
    read-IsLive s len h asks waiting =
        let (m, e) = v.recv_moves s.1 s.0.fd len h.alive asks waiting in
        let still = v.recv_live s.1 s.0.fd len h.alive asks waiting in
        let after : IsLive live (s.0, (p.recv s.1 s.0.fd len).2) = record {
          has_socket = h.has_socket;
          is_up = h.is_up;
          alive = still;
        } in
        let some_moved : (n : ℕ) × (pos (suc m) ≡ pos (suc n)) = (m, refl) in
        ground (arith, h.has_socket, h.is_up, e, some_moved, after)

    write-IsLive :
        (s : Tcp × P) (bs : List ℕ)
        → IsLive live s
        → 0 < length bs
        → let (z, c', w') = write p s.0 s.1 bs in
          ((n : ℕ) × (z ≡ pos (suc n))) × IsLive live (c', w')
    unfolding write
    write-IsLive s bs h some_left =
        let (m, e) = v.send_moves s.1 s.0.fd bs h.alive some_left in
        let still = v.send_live s.1 s.0.fd bs h.alive some_left in
        let after : IsLive live (s.0, (p.send s.1 s.0.fd bs).1) = record {
          has_socket = h.has_socket;
          is_up = h.is_up;
          alive = still;
        } in
        let some_moved : (n : ℕ) × (pos (suc m) ≡ pos (suc n)) = (m, refl) in
        ground (arith, h.has_socket, h.is_up, e, some_moved, after)

    -- Where a socket stays live, a `TcpConnection` that is established on it is a byte stream that
    -- is ready to read and to write, and stays so: every read and write moves a byte at least where
    -- there is one to move, and no other call of the protocol layers ends this.
    pub tcp_transport-IsReady : IsReady tcp_stream (IsLive live)
    unfolding tcp_stream tcp_transport
    tcp_transport-IsReady = record {
      reads = record {
        read_moves = λ s len h asks waiting. (read-IsLive s len h asks waiting).0;
        read_on = λ s len h asks waiting. (read-IsLive s len h asks waiting).1;
      };
      write_moves = λ s bs h some_left. (write-IsLive s bs h some_left).0;
      write_on = λ s bs h some_left. (write-IsLive s bs h some_left).1;
      millis_on = λ s h. record {
        has_socket = h.has_socket;
        is_up = h.is_up;
        alive = v.millis_live s.1 s.0.fd h.alive;
      };
      random_on = λ s h. record {
        has_socket = h.has_socket;
        is_up = h.is_up;
        alive = v.random_live s.1 s.0.fd h.alive;
      };
      read_keeps = λ s len. read-sends_none s.0 s.1 len;
      millis_sent = λ s. k.millis_sends_none s.1 s.0.fd;
      random_sent = λ s. k.random_sends_none s.1 s.0.fd;
    }
