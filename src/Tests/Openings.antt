-- ===== src/Tests/Openings.antt =====
-- Examples on a connection that the peer of the bench opens and answers.
use esp32_control_logix.Base.{ℕ, ◌≡◌, ◌≢◌, refl, ap, ◌∙◌, some, List, [], ◌∷◌, ◌++◌, arith}
use esp32_control_logix.Message.Reply.{FitsReply, response_frame}
use esp32_control_logix.Message.Progress.{IsRequest}
use esp32_control_logix.Connection.Calls.{send, open_connection, poll}
use esp32_control_logix.Connection.Request.{unit_frame}
use esp32_control_logix.Connection.Reply.{FitsAnswer, answer_packet}
use esp32_control_logix.Connection.Completion.{Answered, send-fresh, poll-send_unit}
use esp32_control_logix.Connection.Forward.{open_frame}
use esp32_control_logix.Connection.Opening.{
  IsOpen, asked_id, grant, open-clock, poll-open_connection,
}
use esp32_control_logix.Tests.Bench.{bytes, connection}
use esp32_control_logix.Tests.Connections.{
  path, payload, open_one, open_one-IsConnection, connection-IsConnection, tag_name,
}
use esp32_control_logix.Tcp.{tcp_transport}
use esp32_control_logix.Tcp.Ready.{tcp_stream}
use esp32_control_logix.Tests.Lines.{
  Line, lines, lines-Sockets, line, line-IsTransport, line-IsReady, established, established-IsLive,
  line-unread,
}

-- The answer to the first request on the connection, and a byte of the next frame.
abbrev answering : Line
answering = established ([], answer_packet 42 1 9 0 0xcc 0 (5 ∷ 6 ∷ []) ++ (8 ∷ []))

answering-FitsAnswer : FitsAnswer 42 1 9 0 0xcc 0 (5 ∷ 6 ∷ [])
answering-FitsAnswer = record {
  session_u32 = omega arith;
  context_u64 = omega arith;
  to_u32 = omega arith;
  sequence_u16 = omega arith;
  service_u8 = omega arith;
  code_u8 = omega arith;
  payload_u8 = omega arith;
  payload_room = omega arith;
}

whole-IsRequest : IsRequest path payload
whole-IsRequest = record {
  path_whole = refl;
  payload_whole = refl;
  even = refl;
  small = omega arith;
}

poll-send_unit_example :
    let (st, c1, w1) = send line open_one answering 42 0x4c path payload 1000 in
    let (st2, c2, w2) = poll line c1 w1 in
    Answered 0xcc 0 (5 ∷ 6 ∷ []) st2 c2
    × (w2.1.0 ≡ unit_frame 42 1 7 0 0x4c path payload)
    × (bytes w2.1.1 ≡ 8 ∷ [])
unfolding tcp_stream lines-Sockets tcp_transport
poll-send_unit_example =
    poll-send_unit line line-IsTransport (tcp_stream lines lines-Sockets) line-IsReady 42 1 9 0 0xcc
      0 (5 ∷ 6 ∷ []) (8 ∷ []) answering-FitsAnswer open_one answering 42 0x4c path payload 1000
      open_one-IsConnection (established-IsLive _) refl refl refl refl whole-IsRequest refl
      (line-unread _ _
        ∙ ap (λ (s : Line). bytes s.1.1)
            (send-fresh line open_one answering 42 0x4c path payload 1000 refl whole-IsRequest).1)

-- The grant of a connection: the O->T id 7 that was asked for, the T->O id 9, and ten bytes.
abbrev rest : List ℕ
rest = 1 ∷ 0 ∷ 1 ∷ 0 ∷ 3 ∷ 0 ∷ 0 ∷ 0 ∷ 0 ∷ 0 ∷ []

abbrev granting : Line
granting = established ([], response_frame 42 1 0xd4 0 (grant 7 9 rest))

granting-FitsReply : FitsReply 42 1 0xd4 0 (grant 7 9 rest)
granting-FitsReply = record {
  session_u32 = omega arith;
  context_u64 = omega arith;
  service_u8 = omega arith;
  code_u8 = omega arith;
  payload_u8 = omega arith;
  payload_room = omega arith;
}

poll-open_connection_example :
    let (st, c1, w2) = open_connection line connection granting 42 (some tag_name) 1000 in
    let (st2, c2, w3) = poll line c1 w2 in
    (asked_id 7 ≢ 0)
    × IsOpen 7 9 st2 c2
    × (w3.1.0 ≡ open_frame 42 1 7 tag_name)
    × (bytes w3.1.1 ≡ [])
unfolding tcp_stream lines-Sockets tcp_transport
poll-open_connection_example =
    poll-open_connection line line-IsTransport (tcp_stream lines lines-Sockets) line-IsReady
      connection granting 42 tag_name 1000 connection-IsConnection (established-IsLive _) refl refl
      refl (omega arith) 42 0xd4 9 rest [] (omega arith) (λ e. omega (arith, e)) (omega arith)
      granting-FitsReply refl
      (line-unread _ _
        ∙ ap (λ (s : Line). bytes s.1.1)
            (open-clock line connection granting 42 tag_name 1000 connection-IsConnection refl refl
              refl (omega arith)))
