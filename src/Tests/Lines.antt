-- ===== src/Tests/Lines.antt =====
-- A `TcpConnection` on a platform whose sockets are two lists of bytes.
use esp32_control_logix.Base.{
  ℕ, zero, suc, ◌<◌, ◌≤◌, ◌≡◌, refl, sym, ap, ◌∙◌, List, [], ◌∷◌, ◌++◌, length, take, drop,
  take_all, take-append-drop, true, All, arith,
}
use esp32_control_logix.Base.Int.{ℤ, pos, negsuc}
use esp32_control_logix.Status.{pending, ok}
use esp32_control_logix.Encapsulation.{IsByte}
use esp32_control_logix.Transport.{Transport, IsTransport}
use esp32_control_logix.Network.{Network}
use esp32_control_logix.Wire.{Wire, write_pending}
use esp32_control_logix.Wire.Ready.{IsReady, write_pending-unread}
use esp32_control_logix.Tcp
use esp32_control_logix.Tcp.{Platform, Tcp, e_would_block, tcp_transport}
use esp32_control_logix.Tcp.Contract.{IsPlatform, tcp_transport-IsTransport}
use esp32_control_logix.Tcp.Ready.{
  Sockets, Lives, IsLive, tcp_stream, tcp_transport-IsReady, write-unread,
}
use esp32_control_logix.Tests.Bench.{Peer, peer-IsTransport, bytes, bytes-append, pos_inj}

-- A socket without data would block.
abbrev pub receive : Peer → ℕ → ℤ × List ℕ × Peer
receive (out, []) len = (negsuc 0, [], (out, []))
receive (out, x ∷ xs) len =
    (pos (length (take len (x ∷ xs))), bytes (take len (x ∷ xs)), (out, drop len (x ∷ xs)))

-- The sockets take all they are given and give all they have, at time 1000.
abbrev pub lines : Platform Peer
lines = record {
  socket = λ w. (pos 3, w);
  get_flags = λ w fd. (pos 0, w);
  set_nonblocking = λ w fd flags. (pos 0, w);
  connect = λ w fd ip port. (pos 0, w);
  select_writable = λ w fd. (pos 1, w);
  socket_error = λ w fd. (pos 0, pos 0, w);
  recv = λ w fd len. receive w len;
  send = λ w fd bs. (pos (length bs), (w.0 ++ bs, w.1));
  close_socket = λ w fd. w;
  errno = λ w. e_would_block;
  millis = λ w. (1000, w);
  esp_random = λ w. (7, w);
}

receive-fits : (w : Peer) (len n : ℕ) → (receive w len).0 ≡ pos n → n ≤ len
receive-fits (out, []) len n e = absurd cc
receive-fits (out, x ∷ xs) len n e = peer-IsTransport.read_fits (out, x ∷ xs) len n e

length-receive : (w : Peer) (len n : ℕ) → (receive w len).0 ≡ pos n → length (receive w len).1 ≡ n
length-receive (out, []) len n e = absurd cc
length-receive (out, x ∷ xs) len n e = peer-IsTransport.read_length (out, x ∷ xs) len n e

receive-IsByte : (w : Peer) (len : ℕ) → All IsByte (receive w len).1
receive-IsByte (out, []) len = tt
receive-IsByte (out, x ∷ xs) len = peer-IsTransport.read_bytes (out, x ∷ xs) len

lines-IsPlatform : IsPlatform lines
lines-IsPlatform = record {
  recv_fits = λ w fd len n e. receive-fits w len n e;
  recv_length = λ w fd len n e. length-receive w len n e;
  recv_bytes = λ w fd len. receive-IsByte w len;
  send_fits = λ w fd bs n e. peer-IsTransport.write_fits w bs n e;
  millis_u32 = λ w. omega arith;
  random_u32 = λ w. omega arith;
}

pub receive-takes :
    (w : Peer) (len : ℕ) → (receive w len).1 ++ bytes (receive w len).2.1 ≡ bytes w.1
receive-takes (out, []) len = refl
receive-takes (out, x ∷ xs) len =
    sym (bytes-append (take len (x ∷ xs)) (drop len (x ∷ xs)))
    ∙ ap bytes (take-append-drop len (x ∷ xs))

-- A count of 0 and a failure leave the bytes where they are.
pub receive-idle :
    (w : Peer) (len : ℕ)
    → ((receive w len).0 ≡ pos zero → bytes (receive w len).2.1 ≡ bytes w.1)
      × ((n : ℕ) → (receive w len).0 ≡ negsuc n → bytes (receive w len).2.1 ≡ bytes w.1)
receive-idle (out, []) len = (λ e. refl, λ n e. refl)
receive-idle (out, x ∷ xs) zero = (λ e. refl, λ n e. refl)
receive-idle (out, x ∷ xs) (suc len) = (λ e. absurd cc, λ n e. absurd cc)

pub receive-sends : (w : Peer) (len : ℕ) → (receive w len).2.0 ≡ w.0
receive-sends (out, []) len = refl
receive-sends (out, x ∷ xs) len = refl

receive-moves :
    (w : Peer) (len : ℕ)
    → 0 < len
    → 0 < length (bytes w.1)
    → (n : ℕ) × ((receive w len).0 ≡ pos (suc n))
receive-moves (out, []) len h k = absurd (omega arith)
receive-moves (out, x ∷ xs) zero h k = absurd (omega arith)
receive-moves (out, x ∷ xs) (suc len) h k = (length (take len xs), refl)

unfoldable pub lines-Sockets : Sockets lines
lines-Sockets = record {
  sent = λ w fd. w.0;
  unread = λ w fd. bytes w.1;
  recv_takes = λ w fd len n e. receive-takes w len;
  recv_ends = λ w fd len e. (receive-idle w len).0 e;
  recv_fails = λ w fd len n e. (receive-idle w len).1 n e;
  recv_sends_none = λ w fd len. receive-sends w len;
  send_puts =
      λ w fd bs n e. ap (◌++◌ w.0) (sym (take_all n bs (omega (arith, pos_inj (length bs) n e))));
  send_fails = λ w fd bs n e. cc;
  millis_sends_none = λ w fd. refl;
  random_sends_none = λ w fd. refl;
}

-- Every socket is live.
abbrev pub Any : Peer → ℤ → Type 0
Any w fd = fd ≡ fd

some_sent : (bs : List ℕ) → 0 < length bs → (n : ℕ) × (pos (length bs) ≡ pos (suc n))
some_sent [] h = absurd (omega arith)
some_sent (x ∷ xs) h = (length xs, refl)

pub lines-Lives : Lives lines-Sockets Any
unfolding lines-Sockets
lines-Lives = record {
  recv_moves = λ w fd len o h k. receive-moves w len h k;
  recv_live = λ w fd len o h k. refl;
  send_moves = λ w fd bs o h. some_sent bs h;
  send_live = λ w fd bs o h. refl;
  millis_live = λ w fd o. refl;
  random_live = λ w fd o. refl;
}

-- The connection, established on the socket 3.
abbrev pub Line : Type 0
Line = Tcp × Peer

abbrev pub established : Peer → Line
established w =
    (record { fd = pos 3; remote_ip = 1; remote_port = 44818; deadline = 5000; state = ok }, w)

abbrev pub line : Transport Line
line = tcp_transport lines

pub line-IsTransport : IsTransport line
line-IsTransport = tcp_transport-IsTransport lines lines-IsPlatform

pub line-IsReady : IsReady (tcp_stream lines lines-Sockets) (IsLive Any)
line-IsReady = tcp_transport-IsReady lines lines-Sockets lines-Lives

pub established-IsLive : (w : Peer) → IsLive Any (established w)
established-IsLive w = record { has_socket = refl; is_up = refl; alive = refl }

-- `writePending` reads nothing.
pub line-unread : (b : Wire) (s : Line) → bytes (write_pending line b s).2.1.1 ≡ bytes s.1.1
unfolding lines-Sockets tcp_stream
line-unread b s =
    write_pending-unread line (tcp_stream lines lines-Sockets)
      (write-unread lines lines-Sockets (λ w fd bs. refl)) b s

-- The network of a `TcpConnection` alone, with the Ethernet interface up; the configuration is a
-- number.
abbrev pub line_network : Network ℕ Line
line_network = record {
  transport = line;
  eth_begin = λ s cfg. (pending, s);
  eth_poll = λ s. (ok, s);
  eth_ready = λ s. true;
  eth_local_ip = λ s. record { o0 = 192; o1 = 168; o2 = 1; o3 = 50 };
  eth_subnet_mask = λ s. record { o0 = 255; o1 = 255; o2 = 255; o3 = 0 };
  tcp_connect = λ s ip port timeout_ms.
      let (st, c, w) = Tcp.connect lines s.0 s.1 ip port timeout_ms in (st, (c, w));
  tcp_poll = λ s. let (st, c, w) = Tcp.poll lines s.0 s.1 in (st, (c, w));
  tcp_close = λ s. Tcp.close lines s.0 s.1;
}
