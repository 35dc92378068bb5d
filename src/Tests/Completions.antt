-- ===== src/Tests/Completions.antt =====
-- Examples on exchanges that the peer of the bench answers.
use esp32_control_logix.Base.{
  ℕ, ◌+◌, ◌%◌, ◌^◌, ◌≡◌, refl, ap, ◌∙◌, true, List, [], ◌∷◌, ◌++◌, arith,
}
use esp32_control_logix.Encapsulation.{u16_bytes}
use esp32_control_logix.Transport.{deadline_after, expired}
use esp32_control_logix.Transport.Deadline.{expired-deadline_after}
use esp32_control_logix.Wire.{read_response}
use esp32_control_logix.Wire.Delivery.{Delivered, read_response-Delivered}
use esp32_control_logix.Message
use esp32_control_logix.Message.{Message, send}
use esp32_control_logix.Message.Request.{request_frame}
use esp32_control_logix.Message.Reply.{FitsReply, response_frame, response_frame-IsFrame}
use esp32_control_logix.Message.Completion.{Answered, send-fresh, poll-send}
use esp32_control_logix.Message.Progress.{IsRequest}
use esp32_control_logix.Encapsulation.{get_u16, get_u32, decode_header}
use esp32_control_logix.Encapsulation.Header.{header_bytes}
use esp32_control_logix.Session
use esp32_control_logix.Session.{open_session}
use esp32_control_logix.Session.Packets.{register_packet}
use esp32_control_logix.Session.Completion.{IsGrant, IsGranted, poll-open_session}
use esp32_control_logix.Tests.Sessions.{fresh, fresh-IsSession}
use esp32_control_logix.Tests.Bench.{bytes, message, wire}
use esp32_control_logix.Tests.Messages.{path, payload, message-IsMessage}
use esp32_control_logix.Tests.Wires.{ready}
use esp32_control_logix.Tcp.{tcp_transport}
use esp32_control_logix.Tcp.Ready.{tcp_stream}
use esp32_control_logix.Tests.Lines.{
  Line, lines, lines-Sockets, line, line-IsTransport, line-IsReady, established, established-IsLive,
  line-unread,
}

-- The clock starts again 10 ms after the call.
expired-deadline_after_example :
    expired ((4294967286 + 30) % 2 ^ 32) (deadline_after 4294967286 25) ≡ true
expired-deadline_after_example =
    expired-deadline_after 4294967286 25 30 (omega arith) (omega arith) (omega arith)

-- Two values of one byte, under the context of the first request, and a byte of the next frame.
abbrev pub reply : List ℕ
reply = response_frame 42 1 0xcc 0 (u16_bytes 0xc2 ++ (5 ∷ 6 ∷ []))

pub reply-FitsReply : FitsReply 42 1 0xcc 0 (u16_bytes 0xc2 ++ (5 ∷ 6 ∷ []))
reply-FitsReply = record {
  session_u32 = omega arith;
  context_u64 = omega arith;
  service_u8 = omega arith;
  code_u8 = omega arith;
  payload_u8 = omega arith;
  payload_room = omega arith;
}

abbrev pub answering : Line
answering = established ([], reply ++ (9 ∷ []))

read_response-Delivered_example :
    Delivered
      (tcp_stream lines lines-Sockets)
      reply
      (9 ∷ [])
      (read_response line 272 (wire 296) answering)
unfolding tcp_stream lines-Sockets tcp_transport
read_response-Delivered_example =
    read_response-Delivered line line-IsTransport (tcp_stream lines lines-Sockets)
      line-IsReady.reads 272 reply (9 ∷ [])
      (response_frame-IsFrame 42 1 0xcc 0 (u16_bytes 0xc2 ++ (5 ∷ 6 ∷ [])) reply-FitsReply)
      (wire 296) answering ready refl (established-IsLive _)

identity : IsRequest path payload
identity = record { path_whole = refl; payload_whole = refl; even = refl; small = omega arith }

poll-send_example :
    let (st, m1, w1) = send line message answering 42 0x01 path payload 1000 in
    let (st2, m2, w2) = Message.poll line m1 w1 in
    Answered 0xcc 0 (u16_bytes 0xc2 ++ (5 ∷ 6 ∷ [])) st2 m2
    × (w2.1.0 ≡ request_frame 42 1 0x01 path payload)
    × (bytes w2.1.1 ≡ 9 ∷ [])
unfolding tcp_stream lines-Sockets tcp_transport
poll-send_example =
    poll-send line line-IsTransport (tcp_stream lines lines-Sockets) line-IsReady 42 1 0xcc 0
      (u16_bytes 0xc2 ++ (5 ∷ 6 ∷ [])) (9 ∷ []) reply-FitsReply message answering 42 0x01 path
      payload 1000 message-IsMessage (established-IsLive _) refl refl refl identity refl
      (line-unread _ _
        ∙ ap (λ (s : Line). bytes s.1.1)
            (send-fresh line message answering 42 0x01 path payload 1000 refl refl identity).1)

-- The grant of a session under the handle 7.
abbrev pub granted : List ℕ
granted =
    header_bytes
      (record { command = 0x65; length = 4; session = 7; status = 0; context = 1; options = 0 })
    ++ (1 ∷ 0 ∷ 0 ∷ 0 ∷ [])

pub granted-IsGrant : IsGrant 7 granted
unfolding decode_header get_u16 get_u32
granted-IsGrant = record {
  framed = record { size = refl; small = omega arith };
  command = refl;
  status = refl;
  long = omega arith;
  names = refl;
  not_null = λ e. omega (arith, e);
}

abbrev pub granting : Line
granting = established ([], granted)

poll-open_session_example :
    let (st, s1, w1) = open_session line fresh granting 2000 in
    let (st2, s2, w2) = Session.poll line s1 w1 in
    IsGranted 7 st2 s2 × (w2.1.0 ≡ register_packet 1) × (bytes w2.1.1 ≡ [])
unfolding tcp_stream lines-Sockets tcp_transport open_session
poll-open_session_example =
    poll-open_session 7 granted granted-IsGrant line line-IsTransport
      (tcp_stream lines lines-Sockets) line-IsReady [] fresh granting 2000 fresh-IsSession
      (established-IsLive _) refl (λ e. cc) (λ e. cc) refl (line-unread _ _)
