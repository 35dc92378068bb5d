-- ===== src/Tests/Bench.antt =====
-- A transport and objects to run the examples on: the peer is a list of bytes that it has been sent
-- and a list of bytes that it has still to send.
use esp32_control_logix.Base.{
  ℕ, zero, suc, ◌%◌, ◌≤◌, ◌≡◌, refl, sym, ap, ◌∙◌, true, false, none, List, [], ◌∷◌, ◌++◌, length,
  take, drop, replicate, length-replicate, take_all, take-append-drop, All, arith,
}
use esp32_control_logix.Base.Int.{pos}
use esp32_control_logix.Status.{pending, ok, not_ready}
use esp32_control_logix.Encapsulation.{IsByte}
use esp32_control_logix.Transport.{Transport, IsTransport, Streams}
use esp32_control_logix.Network.{Network}
use esp32_control_logix.Wire.{Wire}
use esp32_control_logix.Message
use esp32_control_logix.Message.{Message, Slice}
use esp32_control_logix.Session
use esp32_control_logix.Session.{Session}
use esp32_control_logix.Tag
use esp32_control_logix.Tag.{Tag}
use esp32_control_logix.Connection
use esp32_control_logix.Connection.{Connection}
use esp32_control_logix.PlcClient
use esp32_control_logix.PlcClient.{PlcClient, Slot}

-- The numbers as bytes.
abbrev pub bytes : List ℕ → List ℕ
bytes [] = []
bytes (x ∷ xs) = (x % 256) ∷ bytes xs

bytes-take : (n : ℕ) (xs : List ℕ) → bytes (take n xs) ≡ take n (bytes xs)
bytes-take zero xs = refl
bytes-take (suc n) [] = refl
bytes-take (suc n) (x ∷ xs) = ap (◌∷◌ (x % 256)) (bytes-take n xs)

pub bytes-append : (xs ys : List ℕ) → bytes (xs ++ ys) ≡ bytes xs ++ bytes ys
bytes-append [] ys = refl
bytes-append (x ∷ xs) ys = ap (◌∷◌ (x % 256)) (bytes-append xs ys)

bytes-IsByte : (xs : List ℕ) → All IsByte (bytes xs)
bytes-IsByte [] = tt
bytes-IsByte (x ∷ xs) = (omega arith, bytes-IsByte xs)

length-bytes : (xs : List ℕ) → length (bytes xs) ≡ length xs
length-bytes [] = refl
length-bytes (x ∷ xs) = ap suc (length-bytes xs)

length-take_le : (n : ℕ) (xs : List ℕ) → length (take n xs) ≤ n
length-take_le zero xs = omega arith
length-take_le (suc n) [] = omega arith
length-take_le (suc n) (x ∷ xs) = omega (arith, length-take_le n xs)

pub zeros-IsByte : (n : ℕ) → All IsByte (replicate n 0)
zeros-IsByte zero = tt
zeros-IsByte (suc n) = (omega arith, zeros-IsByte n)

-- The bytes sent and the bytes to be read.
abbrev pub Peer : Type 0
Peer = List ℕ × List ℕ

abbrev pub zeros : ℕ → List ℕ
zeros n = replicate n 0

pub length-zeros : (n : ℕ) → length (zeros n) ≡ n
length-zeros n = length-replicate n _

-- A transport that takes all it is given and gives all it has, at time 1000.
abbrev pub peer : Transport Peer
peer = record {
  connected = λ w. true;
  write = λ w bs. (pos (length bs), (w.0 ++ bs, w.1));
  read = λ w len. (pos (length (take len w.1)), bytes (take len w.1), (w.0, drop len w.1));
  millis = λ w. (1000, w);
  random = λ w. (7, w);
}

pub pos_inj : (m n : ℕ) → pos m ≡ pos n → m ≡ n
pos_inj m n e = cc

pub peer-IsTransport : IsTransport peer
peer-IsTransport = record {
  write_fits = λ w bs n e. omega (arith, pos_inj (length bs) n e);
  read_fits =
      λ w len n e. omega (arith, pos_inj (length (take len w.1)) n e, length-take_le len w.1);
  read_length = λ w len n e. length-bytes (take len w.1) ∙ pos_inj (length (take len w.1)) n e;
  read_bytes = λ w len. bytes-IsByte (take len w.1);
  millis_u32 = λ w. omega arith;
  random_u32 = λ w. omega arith;
}

unfoldable pub peer-Streams : Streams peer
peer-Streams = record {
  sent = λ w. w.0;
  unread = λ w. bytes w.1;
  write_sends =
      λ w bs n e. ap (◌++◌ w.0) (sym (take_all n bs (omega (arith, pos_inj (length bs) n e))));
  write_fails = λ w bs n e. cc;
  read_takes = λ w len n e.
      sym (bytes-append (take len w.1) (drop len w.1)) ∙ ap bytes (take-append-drop len w.1);
  read_fails = λ w len n e. cc;
}

-- Buffers of `cap` zero bytes, between two frames.
abbrev pub wire : ℕ → Wire
wire cap = record {
  tx = replicate cap 0;
  tx_len = 0;
  tx_sent = 0;
  rx = replicate cap 0;
  rx_len = 0;
  rx_expected = 24;
}

-- An `ExplicitMessage` before its first exchange.
abbrev pub message : Message
message = record {
  attached = false;
  state = Message.idle;
  deadline = 0;
  context = 1;
  sent_context = 0;
  wire = wire 296;
  reply_service = 0;
  result_code = 0;
  response = none;
  response_len = 0;
}

-- A session that is registered, with time until 5000.
abbrev pub session : Session
session = record {
  attached = true;
  state = Session.registered;
  handle = 42;
  deadline = 5000;
  context = 1;
  wire = wire 536;
}

abbrev pub tag : Tag
tag = record {
  state = Tag.idle;
  payload = replicate 256 0;
  payload_len = 0;
  data_type = 0;
  result_code = 0;
}

-- Two free slots.
abbrev pub slot : Slot
slot = record { tag = tag; in_use = false; name = []; element_count = 0; prev_status = not_ready }

-- A client on a registered session.
abbrev pub client : PlcClient
client = record {
  session = session;
  msg = message;
  state = PlcClient.ready;
  remote_ip = 1;
  remote_port = 44818;
  want_connect = false;
  connect_timeout = 5000;
  deadline = 5000;
  slots = slot ∷ slot ∷ [];
  tag_callback = true;
  state_callback = true;
  calls = [];
}

-- A network that is up; the configuration is a number.
abbrev pub network : Network ℕ Peer
network = record {
  transport = peer;
  eth_begin = λ w cfg. (pending, w);
  eth_poll = λ w. (ok, w);
  eth_ready = λ w. true;
  eth_local_ip = λ w. record { o0 = 192; o1 = 168; o2 = 1; o3 = 50 };
  eth_subnet_mask = λ w. record { o0 = 255; o1 = 255; o2 = 255; o3 = 0 };
  tcp_connect = λ w ip port timeout_ms. (pending, w);
  tcp_poll = λ w. (ok, w);
  tcp_close = λ w. w;
}

-- A connection that is not open.
abbrev pub connection : Connection
connection = record {
  fwd = message;
  attached = false;
  state = Connection.idle;
  ot_conn_id = 0;
  to_conn_id = 0;
  sequence = 0;
  tag_name = [];
  wire = wire 302;
  reply_service = 0;
  result_code = 0;
  response = none;
  response_len = 0;
  deadline = 0;
  context = 1;
  sent_context = 0;
  sent_sequence = 0;
}
