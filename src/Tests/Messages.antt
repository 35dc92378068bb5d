-- ===== src/Tests/Messages.antt =====
-- Examples on the `ExplicitMessage`, the connection and the tag.
use esp32_control_logix.Base.{◌≡◌, refl, true, none, some, [], ◌∷◌, take, arith}
use esp32_control_logix.Status.{pending, timeout}
use esp32_control_logix.Transport.{deadline_after, expired}
use esp32_control_logix.Message
use esp32_control_logix.Message.{Message, Slice, abort, send, poll, parse_response, is_sending}
use esp32_control_logix.Message.Run.{stay, call, started, polled, aborted, Run-IsMessage}
use esp32_control_logix.Message.Request.{request_frame}
use esp32_control_logix.Message.Response.{Parsed, parse_response-Parsed}
use esp32_control_logix.Message.Exchange.{IsMessage}
use esp32_control_logix.Message.Progress.{Progress, send_request, poll-Progress}
use esp32_control_logix.Connection
use esp32_control_logix.Connection.{Connection}
use esp32_control_logix.Connection.Response.{parse_connected_response}
use esp32_control_logix.Connection.Identity
use esp32_control_logix.Connection.Identity.{parse_connected_response-Parsed}
use esp32_control_logix.Tag.Access.RoundTrip.{IsTag}
use esp32_control_logix.Tag.Access.{get_string, set_string}
use esp32_control_logix.Tag.Access.Strings.{get_string-set_string}
use esp32_control_logix.Tests.Bench.{
  Peer, peer, peer-IsTransport, message, wire, tag, length-zeros, zeros-IsByte,
}

-- Get Attribute All of the Identity object.
abbrev pub path : Slice
path = record { bytes = some (0x20 ∷ 0x01 ∷ 0x24 ∷ 0x01 ∷ []); len = 4 }

abbrev pub payload : Slice
payload = record { bytes = none; len = 0 }

abbrev nothing_sent : Peer
nothing_sent = ([], [])

pub message-IsMessage : IsMessage message
message-IsMessage = record {
  tx_room = length-zeros 296;
  rx_room = length-zeros 296;
  rx_bytes = zeros-IsByte 296;
  attached = λ e. cc;
  tx_ready = λ e. cc;
  rx_ready = λ e. cc;
  answered = λ e. cc;
}

-- The exchange in flight.
abbrev sent : Message
sent = (send peer message nothing_sent 42 0x01 path payload 1000).1

send_request_example :
    let (st, m', w') = send peer message nothing_sent 42 0x01 path payload 1000 in
    (st ≡ pending)
    × (m'.state ≡ Message.sending)
    × (take m'.wire.tx_len m'.wire.tx ≡ request_frame 42 1 0x01 path payload)
    × (m'.wire.tx_sent ≡ 0)
    × (m'.sent_context ≡ 1)
    × (m'.deadline ≡ deadline_after 1000 1000)
send_request_example =
    send_request peer message nothing_sent 42 0x01 path payload 1000 message-IsMessage refl refl
      (record { path_whole = refl; payload_whole = refl; even = refl; small = omega arith })

-- A message in flight, with one byte of its request sent.
abbrev flying : Message
flying = record message {
  attached = true;
  state = Message.sending;
  deadline = 2000;
  wire = record (wire 296) { tx_len = 46; tx_sent = 1 };
}

flying-IsMessage : IsMessage flying
flying-IsMessage = record {
  tx_room = length-zeros 296;
  rx_room = length-zeros 296;
  rx_bytes = zeros-IsByte 296;
  attached = λ e. refl;
  tx_ready =
      λ e. record { tx_room = length-zeros 296; tx_fits = omega arith; sent_fits = omega arith };
  rx_ready = λ e. record {
    rx_room = length-zeros 296;
    rx_bytes = zeros-IsByte 296;
    rx_fits = omega arith;
    expected_fits = omega arith;
    header_first = λ h. refl;
    body_next = λ h. absurd (omega arith);
  };
  answered = λ e. cc;
}

Run-IsMessage_example :
    let (_, m1, w1) = send peer message nothing_sent 42 0x01 path payload 1000 in
    IsMessage (abort (poll peer m1 w1).1)
Run-IsMessage_example =
    Run-IsMessage peer peer-IsTransport
      (call (started 42 0x01 path payload 1000) (call polled (call aborted stay))) message-IsMessage

poll-Progress_example :
    Progress flying (poll peer flying nothing_sent).0 (poll peer flying nothing_sent).1
    × (expired 1000 2000 ≡ true → (poll peer flying nothing_sent).0 ≡ timeout)
poll-Progress_example =
    poll-Progress peer peer-IsTransport flying nothing_sent flying-IsMessage refl

-- A frame of 40 bytes that was received.
abbrev answered : Message
answered = record message { wire = record (wire 296) { rx_len = 40; rx_expected = 40 } }

parse_response-Parsed_example : Parsed answered (parse_response answered)
parse_response-Parsed_example = parse_response-Parsed answered (omega arith) (omega arith)

-- A connection that has received 50 bytes.
abbrev connection : Connection
connection = record {
  fwd = message;
  attached = true;
  state = Connection.sending;
  ot_conn_id = 7;
  to_conn_id = 9;
  sequence = 3;
  tag_name = [];
  wire = record (wire 302) { rx_len = 50; rx_expected = 50 };
  reply_service = 0;
  result_code = 0;
  response = none;
  response_len = 0;
  deadline = 5000;
  context = 2;
  sent_context = 1;
  sent_sequence = 2;
}

parse_connected_response-Parsed_example :
    Identity.Parsed connection (parse_connected_response connection)
parse_connected_response-Parsed_example =
    parse_connected_response-Parsed connection (omega arith) (omega arith)

tag-IsTag : IsTag tag
tag-IsTag = record { payload_length = length-zeros 256; payload_bytes = zeros-IsByte 256 }

-- Three characters read into a buffer of three.
get_string-set_string_example :
    get_string (set_string tag (some (65 ∷ 66 ∷ 67 ∷ []))) (some (1 ∷ 2 ∷ 3 ∷ [])) 3
    ≡ (2, some (65 ∷ 66 ∷ 0 ∷ []))
get_string-set_string_example =
    get_string-set_string tag (65 ∷ 66 ∷ 67 ∷ []) tag-IsTag (omega arith) (1 ∷ 2 ∷ 3 ∷ []) 3
      (omega arith) (omega arith)
