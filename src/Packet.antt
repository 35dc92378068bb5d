-- ===== src/Packet.antt =====
-- The wire format as data: encapsulation frames around lists of CPF items, and CIP requests. The
-- program has no such type; the buffers that it fills and reads are compared with these.
pub mod Frame
use esp32_control_logix.Base.{ℕ, ◌/◌, List, [], ◌∷◌, ◌++◌, length}
use esp32_control_logix.Encapsulation.{
  EncapsulationHeader, u16_bytes, u32_bytes, command_code, Command,
}
use esp32_control_logix.Encapsulation.Header.{header_bytes}
use esp32_control_logix.Cip.{CpfItemType, item_code}

pub record Item : Type 0 where
  pub kind : ℕ
  pub content : List ℕ

abbrev pub item : CpfItemType → List ℕ → Item
item kind content = record { kind = item_code kind; content = content }

abbrev pub item_bytes : Item → List ℕ
item_bytes i = u16_bytes i.kind ++ (u16_bytes (length i.content) ++ i.content)

abbrev pub items_bytes : List Item → List ℕ
items_bytes [] = []
items_bytes (i ∷ is) = item_bytes i ++ items_bytes is

-- Interface handle 0, timeout 0, item count, items.
abbrev pub body_bytes : List Item → List ℕ
body_bytes is = u32_bytes 0 ++ (u16_bytes 0 ++ (u16_bytes (length is) ++ items_bytes is))

abbrev pub frame_header : Command → ℕ → ℕ → List ℕ → EncapsulationHeader
frame_header command session context body = record {
  command = command_code command;
  length = length body;
  session = session;
  status = 0;
  context = context;
  options = 0;
}

abbrev pub frame : Command → ℕ → ℕ → List Item → List ℕ
frame command session context is =
    header_bytes (frame_header command session context (body_bytes is)) ++ body_bytes is

-- A CIP request: service, path size in words, path, data.
abbrev pub cip_request : ℕ → List ℕ → List ℕ → List ℕ
cip_request service path payload = service ∷ (length path / 2) ∷ path ++ payload
