-- ===== src/Tcp.antt =====
-- src/transport/TcpConnection over the socket calls of lwIP, which are parameters.
pub mod Contract
pub mod Owned
pub mod Ready
pub mod Results
use esp32_control_logix.Base.{
  ℕ, ◌+◌, ◌%◌, ◌^◌, ◌<◌, Bool, true, false, not, ◌||◌, List, [], ◌==◌, length, if◌then◌else◌,
}
use esp32_control_logix.Base.Int.{ℤ, pos, negsuc}
use esp32_control_logix.Status.{Status, pending, ok, closed, timeout, invalid_arg, error, to_int}
use esp32_control_logix.Transport.{Transport, deadline_after, expired}

-- The values of `errno` that the program tells apart.
pub data Errno : Type 0 where
  e_would_block e_again e_in_progress e_pipe e_conn_reset e_other : Errno

-- lwIP and the Arduino core, over a state `P`; descriptors and results are C ints.
pub record Platform (P : Type 0) : Type 0 where
  pub socket : P → ℤ × P
  pub get_flags : P → ℤ → ℤ × P
  -- `lwip_fcntl(fd, F_SETFL, flags | O_NONBLOCK)`, with the flags read before.
  pub set_nonblocking : P → ℤ → ℤ → ℤ × P
  -- The descriptor, the address and the port.
  pub connect : P → ℤ → ℕ → ℕ → ℤ × P
  -- `lwip_select` for writability, with a timeout of zero.
  pub select_writable : P → ℤ → ℤ × P
  -- `lwip_getsockopt(fd, SOL_SOCKET, SO_ERROR, …)`: its result and the error read.
  pub socket_error : P → ℤ → ℤ × ℤ × P
  pub recv : P → ℤ → ℕ → ℤ × List ℕ × P
  pub send : P → ℤ → List ℕ → ℤ × P
  pub close_socket : P → ℤ → P
  -- `errno` after the last call.
  pub errno : P → Errno
  pub millis : P → ℕ × P
  pub esp_random : P → ℕ × P

pub record Tcp : Type 0 where
  pub fd : ℤ
  pub remote_ip : ℕ
  pub remote_port : ℕ
  pub deadline : ℕ
  pub state : Status

abbrev pub negative : ℤ → Bool
negative (pos n) = false
negative (negsuc n) = true

abbrev pub connected : Tcp → Bool
connected c = elim c.state [ ok ↦ true | _ ↦ false ]

abbrev is_in_progress : Errno → Bool
is_in_progress e_in_progress = true
is_in_progress e = false

-- `errno == EWOULDBLOCK || errno == EAGAIN`.
abbrev is_blocked : Errno → Bool
is_blocked e_would_block = true
is_blocked e_again = true
is_blocked e = false

-- `errno == EPIPE || errno == ECONNRESET`.
abbrev is_broken : Errno → Bool
is_broken e_pipe = true
is_broken e_conn_reset = true
is_broken e = false

module _ {P : Type 0} (p : Platform P) where
  unfoldable pub close : Tcp → P → Tcp × P
  close c w = (
    record { fd = negsuc 0; remote_ip = 0; remote_port = 0; deadline = 0; state = Status.closed },
    if negative c.fd then w else p.close_socket w c.fd,
  )

  -- `connect` once the address is checked: each failure closes the new socket.
  unfoldable pub open_socket : Tcp → P → ℕ → ℕ → ℕ → Status × Tcp × P
  open_socket c w ip port timeout_ms =
      let (fd, w1) = p.socket w in
      let (flags, w2) = p.get_flags w1 fd in
      let (set_rc, w3) = p.set_nonblocking w2 fd flags in
      let (rc, w4) = p.connect w3 fd ip port in
      let (now, w5) = p.millis w4 in
      if negative fd
      then (error, c, w1)
      else if negative flags
      then (error, c, p.close_socket w2 fd)
      else if negative set_rc
      then (error, c, p.close_socket w3 fd)
      else if (if negative rc then not (is_in_progress (p.errno w4)) else false)
      then (error, c, p.close_socket w4 fd)
      else (
        pending,
        record {
          fd = fd;
          remote_ip = ip;
          remote_port = port;
          deadline = deadline_after now timeout_ms;
          state = pending;
        },
        w5,
      )

  unfoldable pub connect : Tcp → P → ℕ → ℕ → ℕ → Status × Tcp × P
  unfolding close open_socket
  connect c w ip port timeout_ms =
      let (c', w') = if negative c.fd then (c, w) else close c w in
      if ip == 0 || port == 0 then (invalid_arg, c', w') else open_socket c' w' ip port timeout_ms

  abbrev close_with : Status → Tcp → P → Status × Tcp × P
  close_with st c w = let (c', w') = close c w in (st, c', w')

  -- `poll` once the socket is writable: the connect has finished.
  unfoldable pub finish_connect : Tcp → P → Status × Tcp × P
  unfolding close
  finish_connect c w =
      let (rc, err, w') = p.socket_error w c.fd in
      if negative rc then close_with error c w' else (elim err [
        | pos n ↦ if n == 0 then (ok, record c { state = ok }, w') else close_with error c w'
        | negsuc n ↦ close_with error c w'
      ])

  unfoldable pub poll_connect : Tcp → P → Status × Tcp × P
  unfolding finish_connect close
  poll_connect c w =
      let (rc, w1) = p.select_writable w c.fd in
      let (now, w2) = p.millis w1 in
      elim rc [
        | negsuc n ↦ close_with error c w1
        | pos n ↦
            if n == 0
            then (if expired now c.deadline then close_with timeout c w2 else (pending, c, w2))
            else finish_connect c w1
      ]

  unfoldable pub poll : Tcp → P → Status × Tcp × P
  unfolding poll_connect
  poll c w =
      if negative c.fd
      then (Status.closed, c, w)
      else if connected c
      then (ok, c, w)
      else poll_connect c w

  -- The buffer argument is never null in the library; the length may be 0.
  pub read : Tcp → P → ℕ → ℤ × List ℕ × Tcp × P
  read c w len =
      let (n, bytes, w') = p.recv w c.fd len in
      if negative c.fd || not (connected c)
      then (to_int Status.closed, [], c, w)
      else if len == 0
      then (to_int invalid_arg, [], c, w)
      else (elim n [
        | pos k ↦
            if k == 0
            then (to_int Status.closed, [], record c { state = Status.closed }, w')
            else (pos k, bytes, c, w')
        | negsuc k ↦
            if is_blocked (p.errno w') then (pos 0, [], c, w') else (to_int error, [], c, w')
      ])

  pub write : Tcp → P → List ℕ → ℤ × Tcp × P
  write c w buffer =
      let (n, w') = p.send w c.fd buffer in
      if negative c.fd || not (connected c)
      then (to_int Status.closed, c, w)
      else if length buffer == 0
      then (to_int invalid_arg, c, w)
      else (elim n [
        | pos k ↦ (pos k, c, w')
        | negsuc k ↦
            if is_blocked (p.errno w')
            then (pos 0, c, w')
            else if is_broken (p.errno w')
            then (to_int Status.closed, record c { state = Status.closed }, w')
            else (to_int error, c, w')
      ])

  -- The connection object with the platform behind it, as the protocol layers see it.
  unfoldable pub tcp_transport : Transport (Tcp × P)
  unfolding read write
  tcp_transport = record {
    connected = λ s. connected s.0;
    write = λ s buffer. let (n, c, w) = write s.0 s.1 buffer in (n, (c, w));
    read = λ s len. let (n, bytes, c, w) = read s.0 s.1 len in (n, bytes, (c, w));
    millis = λ s. let (now, w) = p.millis s.1 in (now, (s.0, w));
    random = λ s. let (r, w) = p.esp_random s.1 in (r, (s.0, w));
  }
