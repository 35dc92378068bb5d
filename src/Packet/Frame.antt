-- ===== src/Packet/Frame.antt =====
-- A packet as the bytes of a frame, and what a receive buffer that holds it reads as.
use mathlib.Core.Path.{transport}
use esp32_control_logix.Base.{
  ℕ, ◌^◌, ◌≤◌, ◌<◌, ◌≡◌, refl, sym, ap, ◌∙◌, List, [], ◌∷◌, ◌++◌, length, take, drop,
  take-append-drop, store, All, arith,
}
use esp32_control_logix.Encapsulation.{
  IsByte, Command, command_code, EncapsulationHeader, u16_bytes, u32_bytes, get_u16, encode_header,
  decode_header,
}
use esp32_control_logix.Encapsulation.Header.{
  IsHeader, header_bytes, header_bytes-IsByte, encode_header-eq-store, decode_header-encode_header,
}
use esp32_control_logix.Encapsulation.Words.{get_u16-u16_bytes}
use esp32_control_logix.Packet.{Item, item_bytes, items_bytes, body_bytes, frame_header, frame}
use esp32_control_logix.Wire.Delivery.{IsFrame}

pub All-append {ℓ κ} :
    {A : Type ℓ} (P : A → Type κ) (xs ys : List A) → All P xs → All P ys → All P (xs ++ ys)
All-append P [] ys h k = k
All-append P (x ∷ xs) ys h k = (h.0, All-append P xs ys h.1 k)

store_same : (xs ys : List ℕ) → store (xs ++ ys) 0 xs ≡ xs ++ ys
store_same [] [] = refl
store_same [] (y ∷ ys) = refl
store_same (x ∷ xs) ys = ap (◌∷◌ x) (store_same xs ys)

-- The header at the front of a packet is read back.
decode_header-header_bytes :
    (h : EncapsulationHeader) (rest : List ℕ)
    → IsHeader h
    → All IsByte (header_bytes h ++ rest)
    → decode_header (header_bytes h ++ rest) 0 ≡ h
decode_header-header_bytes h rest v bytes =
    let whole = header_bytes h ++ rest in
    let same : encode_header whole 0 h ≡ whole =
      encode_header-eq-store whole 0 h ∙ store_same (header_bytes h) rest in
    ap (λ (b : List ℕ). decode_header b 0) (sym same)
    ∙ (decode_header-encode_header whole 0 h bytes (omega arith) v).0

command_code-u16 : (c : Command) → command_code c < 2 ^ 16
command_code-u16 c = ground arith

-- The numbers of a packet fit their fields, its contents are bytes, and its body has its place in
-- the buffer.
pub record FitsFrame (max_body : ℕ) (command : Command) (session context : ℕ) (items : List Item)
    : Type 0 where
  pub session_u32 : session < 2 ^ 32
  pub context_u64 : context < 2 ^ 64
  pub contents : All (λ i. All IsByte i.content) items
  pub room : length (body_bytes items) ≤ max_body
  pub small : max_body < 2 ^ 16

items_bytes-IsByte :
    (items : List Item) → All (λ i. All IsByte i.content) items → All IsByte (items_bytes items)
items_bytes-IsByte [] h = tt
items_bytes-IsByte (i ∷ is) h =
    let own : All IsByte (item_bytes i) =
      All-append IsByte (u16_bytes i.kind ++ u16_bytes (length i.content)) i.content (omega arith)
        h.0 in
    All-append IsByte (item_bytes i) (items_bytes is) own (items_bytes-IsByte is h.1)

module _ (max_body : ℕ) (command : Command) (session context : ℕ) (items : List Item)
    (v : FitsFrame max_body command session context items) where
  abbrev header : EncapsulationHeader
  header = frame_header command session context (body_bytes items)

  header-IsHeader : IsHeader header
  header-IsHeader = record {
    command_u16 = command_code-u16 command;
    length_u16 = omega (arith, v.room, v.small);
    session_u32 = v.session_u32;
    status_u32 = omega arith;
    context_u64 = v.context_u64;
    options_u32 = omega arith;
  }

  frame-IsByte : All IsByte (frame command session context items)
  frame-IsByte =
      let head = u32_bytes 0 ++ (u16_bytes 0 ++ u16_bytes (length items)) in
      let body =
        All-append IsByte head (items_bytes items) (omega arith)
          (items_bytes-IsByte items v.contents) in
      All-append IsByte (header_bytes header) (body_bytes items) (header_bytes-IsByte header) body

  pub frame-IsFrame : IsFrame max_body (frame command session context items)
  frame-IsFrame =
      let h = decode_header-header_bytes header (body_bytes items) header-IsHeader frame-IsByte in
      record {
        size = omega (arith, ap EncapsulationHeader.length h);
        small = omega (arith, v.room);
      }

  -- A buffer whose first `n` bytes are the packet: the header and the item count are read, and the
  -- items lie behind the first 32 bytes.
  module _ (rx : List ℕ) (n : ℕ) (bytes : All IsByte rx)
      (holds : take n rx ≡ frame command session context items) where
    pub frame-held : rx ≡ frame command session context items ++ drop n rx
    frame-held = sym (take-append-drop n rx) ∙ ap (λ xs. xs ++ drop n rx) holds

    pub frame-header : decode_header rx 0 ≡ header
    frame-header =
        let there : All IsByte (header_bytes header ++ (body_bytes items ++ drop n rx)) =
          transport (ap (λ xs. All IsByte xs) frame-held) bytes in
        ap (λ xs. decode_header xs 0) frame-held
        ∙ decode_header-header_bytes header (body_bytes items ++ drop n rx) header-IsHeader there

    abbrev front : List ℕ
    front = header_bytes header ++ (u32_bytes 0 ++ u16_bytes 0)

    pub frame-item_count : length items < 2 ^ 16 → get_u16 rx 30 ≡ length items
    frame-item_count few =
        ap (λ xs. get_u16 xs 30) frame-held
        ∙ get_u16-u16_bytes front (items_bytes items ++ drop n rx) (length items) few

    pub frame-items :
        (before : List ℕ) × (length before ≡ 32) × (rx ≡ before ++ (items_bytes items ++ drop n rx))
    frame-items = (front ++ u16_bytes (length items), refl, frame-held)
