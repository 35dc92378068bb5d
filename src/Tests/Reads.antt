-- ===== src/Tests/Reads.antt =====
-- Examples on the tags and the connection of a client whose peer answers.
use esp32_control_logix.Base.{
  ◌≡◌, refl, ap, ◌∙◌, false, true, some, [], ◌∷◌, length, length-store, store, replicate, arith,
}
use esp32_control_logix.Base.Int.{pos}
use esp32_control_logix.Status.{pending}
use esp32_control_logix.Transport.{expired}
use esp32_control_logix.Message.Reply.{FitsReply, response_frame}
use esp32_control_logix.Cip.{data_type_element_size}
use esp32_control_logix.Encapsulation.{get_u32}
use esp32_control_logix.Session.{open_session}
use esp32_control_logix.Session.Packets.{register_packet}
use esp32_control_logix.Tag
use esp32_control_logix.Tag.Packets.{read_frame}
use esp32_control_logix.Tag.Completion.{IsRead, read-begins, poll-read}
use esp32_control_logix.PlcClient.{PlcClient, Slot, used_slot}
use esp32_control_logix.PlcClient.Tags.{read}
use esp32_control_logix.Tag.{Tag}
use esp32_control_logix.Tag.Written.{IsWritten, write_frame, write-clock, poll-write}
use esp32_control_logix.PlcClient
use esp32_control_logix.PlcClient.Link.{poll}
use esp32_control_logix.PlcClient.Link.Opening.{IsUp, connecting-opens, poll-IsUp}
use esp32_control_logix.PlcClient.Link.Completion.{CanRead, HasRead, read-clock, poll-read_tag}
use esp32_control_logix.Tests.Sessions.{fresh, fresh-IsSession}
use esp32_control_logix.Tests.Clients.{tag_name}
use esp32_control_logix.Tests.Bench.{client, slot, tag, bytes, message, length-zeros}
use esp32_control_logix.Tests.Messages.{message-IsMessage}
use esp32_control_logix.Tests.Completions.{
  answering, reply-FitsReply, granted, granting, granted-IsGrant,
}
use esp32_control_logix.Tcp.{tcp_transport}
use esp32_control_logix.Tcp.Ready.{tcp_stream}
use esp32_control_logix.Tests.Lines.{
  Line, lines, lines-Sockets, line, line-IsTransport, line-IsReady, established, established-IsLive,
  line-unread, line_network,
}
use esp32_control_logix.Tcp

poll-read_example :
    let (st, tag1, m1, w1) = Tag.read line tag message answering 42 (some tag_name) 2 1000 in
    let (st2, tag2, m2, w2) = Tag.poll line tag1 m1 w1 in
    IsRead 0xc2 (5 ∷ 6 ∷ []) st2 tag2
    × (w2.1.0 ≡ read_frame 42 1 tag_name 2)
    × (bytes w2.1.1 ≡ 9 ∷ [])
unfolding tcp_stream lines-Sockets tcp_transport
poll-read_example =
    poll-read line line-IsTransport (tcp_stream lines lines-Sockets) line-IsReady tag message
      answering 42 tag_name 2 1000 (established-IsLive _) refl (length-zeros 256) (omega arith)
      message-IsMessage refl refl 42 0xcc 0xc2 (5 ∷ 6 ∷ []) (9 ∷ []) (omega arith) reply-FitsReply
      refl
      (line-unread _ _
        ∙ ap (λ (s : Line). bytes s.1.1)
            (read-begins line tag message answering 42 tag_name 2 1000 refl (omega arith)
              message-IsMessage refl refl).1)

-- A ready client with one tag, which is not read yet.
abbrev named_slot : Slot
named_slot = record slot { in_use = true; name = tag_name; element_count = 2 }

abbrev named_client : PlcClient
named_client = record client { slots = named_slot ∷ slot ∷ [] }

named-CanRead : CanRead line named_client answering (pos 0) named_slot
unfolding used_slot tcp_transport
named-CanRead = record {
  is_up = refl;
  quiet = ((refl, refl), ((refl, refl), tt));
  message = message-IsMessage;
  free = refl;
  connected = refl;
  names = refl;
  room = length-zeros 256;
  name_fits = omega arith;
}

poll-read_tag_example :
    let (st, c1, w1) = read line named_client answering (pos 0) 1000 in
    let (st2, c2, w2) = poll line_network c1 w1 in
    (st ≡ pending)
    × HasRead named_client (pos 0) 0xc2 (5 ∷ 6 ∷ []) st2 c2
    × (w2.1.0 ≡ read_frame 42 1 tag_name 2)
    × (bytes w2.1.1 ≡ 9 ∷ [])
unfolding tcp_stream lines-Sockets tcp_transport
poll-read_tag_example =
    poll-read_tag line_network line-IsTransport (tcp_stream lines lines-Sockets) line-IsReady
      named_client answering (pos 0) named_slot 1000 named-CanRead (established-IsLive _) 42 0xcc
      0xc2 (5 ∷ 6 ∷ []) (9 ∷ []) (omega arith) reply-FitsReply refl
      (line-unread _ _
        ∙ ap (λ (s : Line). bytes s.1.1)
            (read-clock line_network named_client answering (pos 0) named_slot 1000 named-CanRead))

-- The same tag with two SINT values to write, and the answer to the request.
abbrev loaded : Tag
loaded = record tag { payload = store (replicate 256 0) 0 (7 ∷ 8 ∷ []); data_type = 0xc2 }

abbrev acknowledging : Line
acknowledging = established ([], response_frame 42 1 0xcd 0 [])

acknowledged : FitsReply 42 1 0xcd 0 []
acknowledged = record {
  session_u32 = omega arith;
  context_u64 = omega arith;
  service_u8 = omega arith;
  code_u8 = omega arith;
  payload_u8 = tt;
  payload_room = omega arith;
}

loaded-length : length loaded.payload ≡ 256
loaded-length = length-store (replicate 256 0) 0 (7 ∷ 8 ∷ []) ∙ length-zeros 256

loaded-write_length : Tag.write_length loaded 2 ≡ some 2
unfolding Tag.write_length get_u32 data_type_element_size
loaded-write_length = refl

poll-write_example :
    let (st, tag1, m1, w1) =
      Tag.write line loaded message acknowledging 42 (some tag_name) 2 1000 in
    let (st2, tag2, m2, w2) = Tag.poll line tag1 m1 w1 in
    IsWritten loaded st2 tag2
    × (w2.1.0 ≡ write_frame 42 1 tag_name 2 0xc2 (7 ∷ 8 ∷ []))
    × (bytes w2.1.1 ≡ [])
unfolding tcp_stream lines-Sockets tcp_transport
poll-write_example =
    poll-write line line-IsTransport (tcp_stream lines lines-Sockets) line-IsReady loaded message
      acknowledging 42 tag_name 2 2 1000 (established-IsLive _) refl (λ e. omega (arith, e))
      loaded-length loaded-write_length (omega arith) (omega arith) message-IsMessage refl refl 42
      0xcd [] acknowledged refl
      (line-unread _ _
        ∙ ap (λ (s : Line). bytes s.1.1)
            (write-clock line loaded message acknowledging 42 tag_name 2 2 1000 refl
              (λ e. omega (arith, e)) loaded-length loaded-write_length (omega arith) (omega arith)
              message-IsMessage refl refl))

-- A client that waits for the TCP connection, with its session closed.
abbrev waiting_client : PlcClient
waiting_client = record client { session = fresh; state = PlcClient.connecting }

-- The same connection before `TcpConnection::poll` finds that it is established.
abbrev connecting_line : Line
connecting_line = (record granting.0 { state = pending }, granting.1)

waiting_client-opens :
    let (st, s, w3) = open_session line fresh granting 4000 in
    poll line_network waiting_client connecting_line
    ≡ (pending, record waiting_client { session = s; state = PlcClient.registering }, w3)
unfolding open_session tcp_transport Tcp.poll
waiting_client-opens =
    connecting-opens line_network waiting_client connecting_line granting refl refl refl refl

waiting-deadline :
    expired 1000 (poll line_network waiting_client connecting_line).1.session.deadline ≡ false
unfolding open_session tcp_transport Tcp.poll
waiting-deadline = ap (λ r. expired 1000 r.1.session.deadline) waiting_client-opens

waiting-world : (poll line_network waiting_client connecting_line).2 ≡ granting
unfolding open_session tcp_transport Tcp.poll
waiting-world = ap (λ r. r.2) waiting_client-opens

poll-IsUp_example :
    let (st, c1, w3) = poll line_network waiting_client connecting_line in
    let (st2, c2, w5) = poll line_network c1 w3 in
    (st ≡ pending)
    × IsUp 7 waiting_client st2 c2
    × (w5.1.0 ≡ register_packet 1)
    × (bytes w5.1.1 ≡ [])
unfolding tcp_stream lines-Sockets tcp_transport Tcp.poll
poll-IsUp_example =
    poll-IsUp line_network line-IsTransport (tcp_stream lines lines-Sockets) line-IsReady
      waiting_client connecting_line granting 7 granted [] refl refl refl (established-IsLive _)
      refl fresh-IsSession (λ e. cc) (λ e. cc) granted-IsGrant refl waiting-deadline
      (line-unread _ _ ∙ ap (λ (s : Line). bytes s.1.1) waiting-world)
