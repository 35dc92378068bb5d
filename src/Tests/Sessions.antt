-- ===== src/Tests/Sessions.antt =====
-- Examples on the session and on the TCP connection.
use esp32_control_logix.Base.{
  ℕ, zero, suc, ◌≤◌, ◌≡◌, refl, List, [], ◌∷◌, length, take, arith, false, All,
}
use esp32_control_logix.Base.Int.{pos}
use esp32_control_logix.Encapsulation.{IsByte}
use esp32_control_logix.Session
use esp32_control_logix.Session.{Session, open_session, close, poll}
use esp32_control_logix.Session.Lifecycle.{IsSession}
use esp32_control_logix.Session.Run.{opened, shut, aborted, polled, run, run-IsSession}
use esp32_control_logix.Tcp.{Platform, e_would_block}
use esp32_control_logix.Tcp.Contract.{IsPlatform}
use esp32_control_logix.Tests.Bench.{
  Peer, peer, peer-IsTransport, session, wire, length-zeros, zeros-IsByte,
}

abbrev nothing_sent : Peer
nothing_sent = ([], [])

session-IsSession : IsSession session
session-IsSession = record {
  tx_room = length-zeros 536;
  rx_room = length-zeros 536;
  rx_bytes = zeros-IsByte 536;
  attached = λ e. cc;
  attached_registered = λ e. refl;
  tx_ready = λ e. cc;
  rx_ready = λ e. cc;
  handle_set = λ e z. cc;
}

-- A session that has just been closed by its destructor.
abbrev pub fresh : Session
fresh = record session { attached = false; state = Session.closed; handle = 0 }

pub fresh-IsSession : IsSession fresh
fresh-IsSession = record {
  tx_room = length-zeros 536;
  rx_room = length-zeros 536;
  rx_bytes = zeros-IsByte 536;
  attached = λ e. cc;
  attached_registered = λ e. cc;
  tx_ready = λ e. cc;
  rx_ready = λ e. cc;
  handle_set = λ e z. cc;
}

-- A registration in flight, with all of its request sent but two bytes.
abbrev opening : Session
opening = record session {
  state = Session.registering;
  handle = 0;
  wire = record (wire 536) { tx_len = 28; tx_sent = 26 };
}

opening-IsSession : IsSession opening
opening-IsSession = record {
  tx_room = length-zeros 536;
  rx_room = length-zeros 536;
  rx_bytes = zeros-IsByte 536;
  attached = λ e. refl;
  attached_registered = λ e. cc;
  tx_ready =
      λ e. record { tx_room = length-zeros 536; tx_fits = omega arith; sent_fits = omega arith };
  rx_ready = λ e. record {
    rx_room = length-zeros 536;
    rx_bytes = zeros-IsByte 536;
    rx_fits = omega arith;
    expected_fits = omega arith;
    header_first = λ h. refl;
    body_next = λ h. absurd (omega arith);
  };
  handle_set = λ e z. cc;
}

abbrev seven : List ℕ
seven = 7 ∷ []

-- A platform that has one byte for every read and takes one byte of every write.
abbrev pub one_byte : Platform ℕ
one_byte = record {
  socket = λ w. (pos 3, w);
  get_flags = λ w fd. (pos 0, w);
  set_nonblocking = λ w fd flags. (pos 0, w);
  connect = λ w fd ip port. (pos 0, w);
  select_writable = λ w fd. (pos 1, w);
  socket_error = λ w fd. (pos 0, pos 0, w);
  recv = λ w fd len. (pos (length (take len seven)), take len seven, w);
  send = λ w fd bs. (pos (length (take 1 bs)), w);
  close_socket = λ w fd. w;
  errno = λ w. e_would_block;
  millis = λ w. (1000, w);
  esp_random = λ w. (7, w);
}

pos_inj : (m n : ℕ) → pos m ≡ pos n → m ≡ n
pos_inj m n e = cc

one_taken : (len : ℕ) (bs : List ℕ) → length (take len bs) ≤ len
one_taken zero bs = omega arith
one_taken (suc len) [] = omega arith
one_taken (suc len) (b ∷ bs) = omega (arith, one_taken len bs)

all_held : (len : ℕ) (bs : List ℕ) → length (take len bs) ≤ length bs
all_held zero bs = omega arith
all_held (suc len) [] = omega arith
all_held (suc len) (b ∷ bs) = omega (arith, all_held len bs)

seven-IsByte : (len : ℕ) → All IsByte (take len seven)
seven-IsByte zero = tt
seven-IsByte (suc zero) = (omega arith, tt)
seven-IsByte (suc (suc len)) = (omega arith, tt)

pub one_byte-IsPlatform : IsPlatform one_byte
one_byte-IsPlatform = record {
  recv_fits =
      λ w fd len n e. omega (arith, one_taken len seven, pos_inj (length (take len seven)) n e);
  recv_length = λ w fd len n e. pos_inj (length (take len seven)) n e;
  recv_bytes = λ w fd len. seven-IsByte len;
  send_fits = λ w fd bs n e. omega (arith, all_held 1 bs, pos_inj (length (take 1 bs)) n e);
  millis_u32 = λ w. omega arith;
  random_u32 = λ w. omega arith;
}

run-IsSession_example :
    IsSession
      (run peer (polled ∷ shut ∷ aborted ∷ opened 1000 ∷ polled ∷ []) opening nothing_sent).0
run-IsSession_example =
    run-IsSession peer peer-IsTransport (polled ∷ shut ∷ aborted ∷ opened 1000 ∷ polled ∷ [])
      opening nothing_sent opening-IsSession
