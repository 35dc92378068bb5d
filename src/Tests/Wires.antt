-- ===== src/Tests/Wires.antt =====
-- Examples on the loops, the encapsulation header, the symbolic segment and the transport.
use esp32_control_logix.Base.{
  ℕ, ◌+◌, ◌≤◌, ◌≡◌, refl, ◌%◌, some, List, [], ◌∷◌, ◌++◌, take, drop, arith,
}
use esp32_control_logix.Encapsulation.{
  EncapsulationHeader, header_size, encode_header, decode_header,
}
use esp32_control_logix.Encapsulation.Header.{decode_header-encode_header, IsHeader}
use esp32_control_logix.Cip.{append_symbolic}
use esp32_control_logix.Cip.Symbolic.{append_symbolic-read, read_symbolic}
use esp32_control_logix.Wire.{Wire, unsent, write_pending, read_response}
use esp32_control_logix.Wire.Framing.{IsReceiving, Read, read_response-Read}
use esp32_control_logix.Wire.Conservation.{incoming, write_pending-outgoing, read_response-incoming}
use esp32_control_logix.Tests.Bench.{
  Peer, peer, peer-IsTransport, peer-Streams, wire, zeros, length-zeros, zeros-IsByte,
}

-- Four bytes to send, one of them sent.
abbrev outgoing : Wire
outgoing = record (wire 296) { tx_len = 4; tx_sent = 1 }

-- An empty frame, a header alone, and the first bytes of the next one.
abbrev frames : Peer
frames = ([], 0x65 ∷ 0 ∷ zeros 24)

pub ready : IsReceiving 272 (wire 296)
ready = record {
  rx_room = length-zeros 296;
  rx_bytes = zeros-IsByte 296;
  rx_fits = omega arith;
  expected_fits = omega arith;
  header_first = λ h. refl;
  body_next = λ h. absurd (omega arith);
}

read_response-Read_example : Read 272 (wire 296) (read_response peer 272 (wire 296) frames)
read_response-Read_example = read_response-Read peer peer-IsTransport 272 (wire 296) frames ready

write_pending-outgoing_example :
    (write_pending peer outgoing frames).2.0 ++ unsent (write_pending peer outgoing frames).1
    ≡ 0 ∷ 0 ∷ 0 ∷ []
unfolding peer-Streams
write_pending-outgoing_example = write_pending-outgoing peer peer-Streams outgoing frames

read_response-incoming_example :
    incoming peer-Streams
      (read_response peer 272 (wire 296) frames).1
      (read_response peer 272 (wire 296) frames).2
    ≡ incoming peer-Streams (wire 296) frames
read_response-incoming_example =
    read_response-incoming peer peer-IsTransport peer-Streams 272 (wire 296) frames ready

-- The header of a RegisterSession request.
abbrev register_header : EncapsulationHeader
register_header = record {
  command = 0x65;
  length = 4;
  session = 0xdeadbeef;
  status = 0;
  context = 0x0123456789abcdef;
  options = 0;
}

register_header-IsHeader : IsHeader register_header
register_header-IsHeader = record {
  command_u16 = omega arith;
  length_u16 = omega arith;
  session_u32 = omega arith;
  status_u32 = omega arith;
  context_u64 = omega arith;
  options_u32 = omega arith;
}

decode_header-encode_header_example :
    let buf = zeros 32 in
    (decode_header (encode_header buf 3 register_header) 3 ≡ register_header)
    × (take 3 (encode_header buf 3 register_header) ≡ take 3 buf)
    × (drop (3 + header_size) (encode_header buf 3 register_header) ≡ drop (3 + header_size) buf)
decode_header-encode_header_example =
    decode_header-encode_header (zeros 32) 3 register_header (zeros-IsByte 32) (omega arith)
      register_header-IsHeader

abbrev tag_name : List ℕ
tag_name = 84 ∷ 97 ∷ 103 ∷ []

append_symbolic-read_example :
    let (buf', total) = append_symbolic (zeros 128) 1 tag_name in
    (read_symbolic (drop 1 buf') ≡ some (tag_name, drop (1 + total) (zeros 128)))
    × (total % 2 ≡ 0)
    × (total ≤ 122)
append_symbolic-read_example =
    append_symbolic-read (zeros 128) 1 tag_name (omega arith) (omega arith)
