-- ===== src/Tests/Sockets.antt =====
-- Examples on the sockets: a platform whose state is the list of its open descriptors.
use esp32_control_logix.Base.{◌+◌, ◌≡◌, refl, List, [], ◌∷◌, length, drop}
use esp32_control_logix.Base.Int.{ℤ, pos, negsuc}
use esp32_control_logix.Status.{closed}
use esp32_control_logix.Tcp.{Platform, Tcp, e_would_block, connect, poll, read, close}
use esp32_control_logix.Tcp.Owned.{
  Descriptors, Owns, stay, call, opened, polled, received, Run-Owns,
}
use esp32_control_logix.Tcp
use esp32_control_logix.Wire.Ready.{IsReady}
use esp32_control_logix.Tcp.Ready.{IsLive, tcp_stream, tcp_transport-IsReady}
use esp32_control_logix.Tcp.Results.{ReadMeans, WriteMeans, read-ReadMeans, write-WriteMeans}
use esp32_control_logix.Tests.Lines.{lines, lines-Sockets, lines-Lives, Any, established}

-- The next descriptor is 3 more than there are open ones.
abbrev sockets : Platform (List ℤ)
sockets = record {
  socket = λ w. (pos (3 + length w), pos (3 + length w) ∷ w);
  get_flags = λ w fd. (pos 0, w);
  set_nonblocking = λ w fd flags. (pos 0, w);
  connect = λ w fd ip port. (pos 0, w);
  select_writable = λ w fd. (pos 1, w);
  socket_error = λ w fd. (pos 0, pos 111, w);
  recv = λ w fd len. (pos 0, [], w);
  send = λ w fd bs. (pos (length bs), w);
  close_socket = λ w fd. drop 1 w;
  errno = λ w. e_would_block;
  millis = λ w. (1000, w);
  esp_random = λ w. (7, w);
}

descriptors : Descriptors sockets
descriptors = record {
  held = λ w. w;
  opens = λ w n e. cc;
  refuses = λ w n e. cc;
  shuts = λ w fd rest e. cc;
  flags_keep = λ w fd. refl;
  set_keeps = λ w fd flags. refl;
  connect_keeps = λ w fd ip port. refl;
  select_keeps = λ w fd. refl;
  error_keeps = λ w fd. refl;
  recv_keeps = λ w fd len. refl;
  send_keeps = λ w fd bs. refl;
  millis_keeps = λ w. refl;
}

-- A `TcpConnection` without a socket.
abbrev unconnected : Tcp
unconnected = record { fd = negsuc 0; remote_ip = 0; remote_port = 0; deadline = 0; state = closed }

-- Two connects, with a read in between and a poll after them, which finds that the second one was
-- refused; descriptor 9 is the rest of the program's.
abbrev first : Tcp × List ℤ
first = let r = connect sockets unconnected (pos 9 ∷ []) 1 44818 5000 in (r.1, r.2)

abbrev second : Tcp × List ℤ
second = let r = read sockets first.0 first.1 4 in (r.2, r.3)

abbrev third : Tcp × List ℤ
third = let r = connect sockets second.0 second.1 1 44818 5000 in (r.1, r.2)

abbrev fourth : Tcp × List ℤ
fourth = let r = poll sockets third.0 third.1 in (r.1, r.2)

Run-Owns_example :
    Owns sockets descriptors (pos 9 ∷ []) fourth.0 fourth.1
    × (descriptors.held (close sockets fourth.0 fourth.1).1 ≡ pos 9 ∷ [])
unfolding descriptors
Run-Owns_example =
    Run-Owns sockets descriptors (pos 9 ∷ [])
      (call (opened 1 44818 5000)
        (call (received 4) (call (opened 1 44818 5000) (call polled stay))))
      refl

-- A read and a write on the established connection of the bench, and on one without a socket.
tcp_transport-IsReady_example : IsReady (tcp_stream lines lines-Sockets) (IsLive Any)
tcp_transport-IsReady_example = tcp_transport-IsReady lines lines-Sockets lines-Lives

read-ReadMeans_example :
    let s = established ([], 5 ∷ 6 ∷ []) in ReadMeans lines s.0 s.1 4 (Tcp.read lines s.0 s.1 4)
read-ReadMeans_example = let s = established ([], 5 ∷ 6 ∷ []) in read-ReadMeans lines s.0 s.1 4

write-WriteMeans_example :
    WriteMeans lines unconnected ([], []) (5 ∷ []) (Tcp.write lines unconnected ([], []) (5 ∷ []))
write-WriteMeans_example = write-WriteMeans lines unconnected ([], []) (5 ∷ [])
