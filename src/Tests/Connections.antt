-- ===== src/Tests/Connections.antt =====
-- Examples on the connection.
use esp32_control_logix.Base.{ℕ, true, ◌≡◌, refl, some, List, [], ◌∷◌, ◌++◌, arith}
use esp32_control_logix.Status.{ok, timeout}
use esp32_control_logix.Encapsulation.{decode_header, get_u16, get_u32, get_u64, get_u64_loop}
use esp32_control_logix.Packet.{Item, items_bytes}
use esp32_control_logix.Connection.Response.{parse_connected_response}
use esp32_control_logix.Connection.Answer.{IsAnswerFrame, parse_connected_response-accepts}
use esp32_control_logix.Transport.{expired}
use esp32_control_logix.Message.{Slice}
use esp32_control_logix.Connection
use esp32_control_logix.Connection.{Connection}
use esp32_control_logix.Connection.Calls.{poll}
use esp32_control_logix.Connection.Exchange.{IsConnection}
use esp32_control_logix.Connection.Progress.{SendProgress, poll-SendProgress}
use esp32_control_logix.Connection.Run.{Call, opened, sent, shut, polled, run, run-IsConnection}
use esp32_control_logix.Tests.Bench.{
  Peer, peer, peer-IsTransport, connection, wire, zeros, length-zeros, zeros-IsByte,
}
use esp32_control_logix.Tests.Messages.{message-IsMessage}

abbrev nothing_sent : Peer
nothing_sent = ([], [])

pub connection-IsConnection : IsConnection connection
connection-IsConnection = record {
  forward = message-IsMessage;
  tx_room = length-zeros 302;
  rx_room = length-zeros 302;
  rx_bytes = zeros-IsByte 302;
  attached = λ e. cc;
  tx_ready = λ e. cc;
  rx_ready = λ e. cc;
  answered = tt;
}

-- Two whole words of path and two bytes of data.
abbrev pub path : Slice
path = record { bytes = some (0x20 ∷ 0x6b ∷ 0x25 ∷ 0x00 ∷ []); len = 4 }

abbrev pub payload : Slice
payload = record { bytes = some (1 ∷ 0 ∷ []); len = 2 }

-- An open, two polls, a request, a poll and a close.
abbrev calls : List Call
calls =
    opened 42 (some (84 ∷ 97 ∷ 103 ∷ [])) 1000
    ∷ polled
    ∷ polled
    ∷ sent 42 0x4c path payload 1000
    ∷ polled
    ∷ shut 42 1000
    ∷ []

run-IsConnection_example : IsConnection (run peer calls connection nothing_sent).0
run-IsConnection_example =
    run-IsConnection peer peer-IsTransport calls connection nothing_sent connection-IsConnection

-- The connection once it is open.
abbrev pub open_one : Connection
open_one = record connection { state = Connection.open_state; ot_conn_id = 7; to_conn_id = 9 }

pub open_one-IsConnection : IsConnection open_one
open_one-IsConnection = record {
  forward = message-IsMessage;
  tx_room = length-zeros 302;
  rx_room = length-zeros 302;
  rx_bytes = zeros-IsByte 302;
  attached = λ e. cc;
  tx_ready = λ e. cc;
  rx_ready = λ e. cc;
  answered = tt;
}

-- The header, interface handle, timeout and item count of an answer.
abbrev start : List ℕ
start =
    0x70 ∷ 0 ∷ 30 ∷ 0 ∷ 42 ∷ 0 ∷ 0 ∷ 0 ∷ 0 ∷ 0 ∷ 0 ∷ 0 ∷ 1 ∷ 0 ∷ 0 ∷ 0 ∷ 0 ∷ 0 ∷ 0 ∷ 0 ∷ 0 ∷ 0 ∷ 0
    ∷ 0 ∷ 0 ∷ 0 ∷ 0 ∷ 0 ∷ 0 ∷ 0 ∷ 2 ∷ 0 ∷ []

-- The connection 9, and behind the sequence number 5 a tag of type DINT that holds 7.
abbrev items : List Item
items =
    record { kind = 0xa1; content = 9 ∷ 0 ∷ 0 ∷ 0 ∷ [] }
    ∷ record { kind = 0xb1; content = 5 ∷ 0 ∷ 0xcc ∷ 0 ∷ 0 ∷ 0 ∷ 0xc4 ∷ 0 ∷ 7 ∷ 0 ∷ [] }
    ∷ []

abbrev answered : Connection
answered = record open_one {
  sent_context = 1;
  sent_sequence = 5;
  wire = record (wire 302) {
    rx = start ++ (items_bytes items ++ zeros 248);
    rx_len = 54;
    rx_expected = 54;
  };
}

answered-IsAnswerFrame : IsAnswerFrame answered items
unfolding decode_header get_u16 get_u32 get_u64 get_u64_loop
answered-IsAnswerFrame = record {
  command = refl;
  status = refl;
  context = refl;
  item_count = refl;
  items_fit = omega arith;
  before = start;
  before_length = refl;
  behind = zeros 248;
  buffer = refl;
  whole = refl;
  small = omega arith;
}

parse_connected_response-accepts_example : parse_connected_response answered ≡ (
  ok,
  record answered { reply_service = 0xcc; result_code = 0; response = some 50; response_len = 4 },
)
unfolding get_u16 get_u32
parse_connected_response-accepts_example =
    parse_connected_response-accepts answered items 44 10 answered-IsAnswerFrame refl refl
      (omega arith)

-- The characters of `Tag`.
abbrev pub tag_name : List ℕ
tag_name = 84 ∷ 97 ∷ 103 ∷ []

-- A request in flight, with one byte of it sent.
abbrev flying : Connection
flying = record open_one {
  attached = true;
  state = Connection.sending;
  deadline = 2000;
  wire = record (wire 302) { tx_len = 54; tx_sent = 1 };
}

flying-IsConnection : IsConnection flying
flying-IsConnection = record {
  forward = message-IsMessage;
  tx_room = length-zeros 302;
  rx_room = length-zeros 302;
  rx_bytes = zeros-IsByte 302;
  attached = λ e. refl;
  tx_ready =
      λ e. record { tx_room = length-zeros 302; tx_fits = omega arith; sent_fits = omega arith };
  rx_ready = λ e. record {
    rx_room = length-zeros 302;
    rx_bytes = zeros-IsByte 302;
    rx_fits = omega arith;
    expected_fits = omega arith;
    header_first = λ h. refl;
    body_next = λ h. absurd (omega arith);
  };
  answered = tt;
}

poll-SendProgress_example :
    SendProgress flying (poll peer flying nothing_sent).0 (poll peer flying nothing_sent).1
    × (expired 1000 2000 ≡ true → (poll peer flying nothing_sent).0 ≡ timeout)
poll-SendProgress_example =
    poll-SendProgress peer peer-IsTransport flying nothing_sent flying-IsConnection refl
