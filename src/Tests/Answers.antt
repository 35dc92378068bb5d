-- ===== src/Tests/Answers.antt =====
-- An answer of a controller: a tag of type DINT that holds 7.
use esp32_control_logix.Base.{ℕ, ◌≡◌, refl, some, List, [], ◌∷◌, ◌++◌, arith}
use esp32_control_logix.Status.{ok}
use esp32_control_logix.Encapsulation.{decode_header, get_u16, get_u32, get_u64, get_u64_loop}
use esp32_control_logix.Packet.{Item, items_bytes}
use esp32_control_logix.Message.{Message, parse_response}
use esp32_control_logix.Message.Answer.{IsReply, parse_response-IsReply}
use esp32_control_logix.Tests.Bench.{message, wire, zeros}

-- The header, interface handle, timeout and item count.
abbrev start : List ℕ
start =
    0x6f ∷ 0 ∷ 24 ∷ 0 ∷ 42 ∷ 0 ∷ 0 ∷ 0 ∷ 0 ∷ 0 ∷ 0 ∷ 0 ∷ 1 ∷ 0 ∷ 0 ∷ 0 ∷ 0 ∷ 0 ∷ 0 ∷ 0 ∷ 0 ∷ 0 ∷ 0
    ∷ 0 ∷ 0 ∷ 0 ∷ 0 ∷ 0 ∷ 0 ∷ 0 ∷ 2 ∷ 0 ∷ []

abbrev items : List Item
items =
    record { kind = 0; content = [] }
    ∷ record { kind = 0xb2; content = 0xcc ∷ 0 ∷ 0 ∷ 0 ∷ 0xc4 ∷ 0 ∷ 7 ∷ 0 ∷ [] }
    ∷ []

abbrev answered : Message
answered = record message {
  sent_context = 1;
  wire = record (wire 296) {
    rx = start ++ (items_bytes items ++ zeros 248);
    rx_len = 48;
    rx_expected = 48;
  };
}

answered-IsReply : IsReply answered items
unfolding decode_header get_u16 get_u32 get_u64 get_u64_loop
answered-IsReply = record {
  command = refl;
  status = refl;
  context = refl;
  item_count = refl;
  items_fit = omega arith;
  before = start;
  before_length = refl;
  behind = zeros 248;
  buffer = refl;
  whole = refl;
  small = omega arith;
}

parse_response-IsReply_example : parse_response answered ≡ (
  ok,
  record answered { reply_service = 0xcc; result_code = 0; response = some 44; response_len = 4 },
)
parse_response-IsReply_example =
    parse_response-IsReply answered items 40 8 answered-IsReply refl (omega arith)
