-- ===== src/Message/Answer.antt =====
-- The answers that `parseResponse` accepts: every packet that is well formed.
use esp32_control_logix.Base.{
  ℕ, ◌+◌, ◌-◌, ◌%◌, ◌^◌, ◌≤◌, ◌<◌, ◌≡◌, refl, sym, ap, ◌∙◌, Option, none, some, List, [], ◌∷◌, ◌++◌,
  append_assoc, length, length-append, All, ◌==◌, if◌then◌else◌, arith,
}
use esp32_control_logix.Status.{ok}
use esp32_control_logix.Encapsulation.{
  u16_bytes, header_size, command_code, send_rr_data, byte_at, get_u16, decode_header,
}
use esp32_control_logix.Encapsulation.Words.{get_u16-u16_bytes}
use esp32_control_logix.Cip.{item_code, unconnected_data}
use esp32_control_logix.Packet.{Item, item_bytes, items_bytes}
use esp32_control_logix.Message.{Message, find_item, parse_response}

-- The numbers of an item fit their fields.
abbrev pub IsItem : Item → Type 0
IsItem i = (i.kind < 2 ^ 16) × (length i.content < 2 ^ 16)

-- The place and the length of the content of the last unconnected data item, where the first of
-- the items stands at `p`; `found` where there is none.
abbrev pub last_data : ℕ → List Item → Option (ℕ × ℕ) → Option (ℕ × ℕ)
last_data p [] found = found
last_data p (i ∷ is) found =
    last_data (p + 4 + length i.content) is
      (if i.kind == item_code unconnected_data then some (p + 4, length i.content) else found)

length-item_bytes : (i : Item) → length (item_bytes i) ≡ 4 + length i.content
length-item_bytes i = omega arith

module _ (rx pre rest : List ℕ) (p : ℕ) (i : Item) where
  pub kind_read :
      rx ≡ pre ++ (item_bytes i ++ rest) → p ≡ length pre → IsItem i → get_u16 rx p ≡ i.kind
  kind_read e at v =
      let behind = u16_bytes (length i.content) ++ i.content ++ rest in
      let there =
        ap (λ (xs : List ℕ). pre ++ xs)
          (append_assoc (u16_bytes i.kind) (u16_bytes (length i.content) ++ i.content) rest) in
      rw (at, e ∙ there) (get_u16-u16_bytes pre _ i.kind v.0)

  pub length_read :
      rx ≡ pre ++ (item_bytes i ++ rest)
      → p ≡ length pre
      → IsItem i
      → get_u16 rx (p + 2) ≡ length i.content
  length_read e at v =
      let kind = u16_bytes i.kind in
      let size : p + 2 ≡ length (pre ++ kind) = omega (arith, length-append pre kind, at) in
      let whole : rx ≡ (pre ++ kind) ++ (u16_bytes (length i.content) ++ (i.content ++ rest)) =
        e ∙ sym (append_assoc pre kind (u16_bytes (length i.content) ++ (i.content ++ rest))) in
      ap (get_u16 rx) size
      ∙ ap (λ (b : List ℕ). get_u16 b (length (pre ++ kind))) whole
      ∙ get_u16-u16_bytes (pre ++ kind) (i.content ++ rest) (length i.content) v.1

-- The loop over the items finds the last unconnected data item.
find_item-items :
    (items : List Item) (rx pre rest : List ℕ) (p remaining : ℕ) (found : Option (ℕ × ℕ))
    → All IsItem items
    → rx ≡ pre ++ (items_bytes items ++ rest)
    → p ≡ length pre
    → remaining ≡ length (items_bytes items)
    → find_item (length items) rx p remaining found ≡ some (last_data p items found)
unfolding find_item
find_item-items [] rx pre rest p remaining found v e at left = refl
find_item-items (i ∷ is) rx pre rest p remaining found v e at left =
    let found' =
      if i.kind == item_code unconnected_data then some (p + 4, length i.content) else found in
    let here : rx ≡ pre ++ (item_bytes i ++ (items_bytes is ++ rest)) =
      e ∙ ap (λ (xs : List ℕ). pre ++ xs) (append_assoc (item_bytes i) (items_bytes is) rest) in
    let next : rx ≡ (pre ++ item_bytes i) ++ (items_bytes is ++ rest) =
      here ∙ sym (append_assoc pre (item_bytes i) (items_bytes is ++ rest)) in
    let size = length-append (item_bytes i) (items_bytes is) in
    let at' : p + 4 + length i.content ≡ length (pre ++ item_bytes i) =
      omega (arith, length-append pre (item_bytes i), at) in
    let left' : remaining - 4 - length i.content ≡ length (items_bytes is) =
      omega (arith, size, left) in
    let kind = kind_read rx pre (items_bytes is ++ rest) p i here at v.0 in
    let len = length_read rx pre (items_bytes is ++ rest) p i here at v.0 in
    let later =
      find_item-items is rx (pre ++ item_bytes i) rest (p + 4 + length i.content)
        (remaining - 4 - length i.content) found' v.1 next at' left' in
    rw (kind, len) (ground (arith, size, left, later))

-- A message that has received a whole packet of items: the answer to its last request.
pub record IsReply (m : Message) (items : List Item) : Type 0 where
  pub command : (decode_header m.wire.rx 0).command ≡ command_code send_rr_data
  pub status : (decode_header m.wire.rx 0).status ≡ 0
  pub context : (decode_header m.wire.rx 0).context ≡ m.sent_context
  pub item_count : get_u16 m.wire.rx 30 ≡ length items
  pub items_fit : All IsItem items
  pub before : List ℕ
  pub before_length : length before ≡ 32
  pub behind : List ℕ
  pub buffer : m.wire.rx ≡ before ++ (items_bytes items ++ behind)
  pub whole : m.wire.rx_len ≡ 32 + length (items_bytes items)
  pub small : m.wire.rx_len < 2 ^ 32

-- If the bytes received are a successful SendRRData packet with the context of the last request, of
-- any number of items, and the last unconnected data item stands at `cip` and has at least 4 bytes,
-- then `parseResponse` returns `Ok`, and gives out the reply service, the result code and the data
-- of that item.
pub parse_response-IsReply :
    (m : Message) (items : List Item) (cip len : ℕ)
    → IsReply m items
    → last_data 32 items none ≡ some (cip, len)
    → 4 ≤ len
    → parse_response m ≡ (
      ok,
      record m {
        reply_service = byte_at m.wire.rx cip;
        result_code = byte_at m.wire.rx (cip + 2);
        response = some (cip + 4);
        response_len = len - 4;
      },
    )
unfolding parse_response
parse_response-IsReply m items cip len v last fits =
    let left : (m.wire.rx_len + 2 ^ 32 - header_size) % 2 ^ 32 - 8 ≡ length (items_bytes items) =
      omega (arith, v.whole, v.small) in
    let found =
      find_item-items items m.wire.rx v.before v.behind 32
        ((m.wire.rx_len + 2 ^ 32 - header_size) % 2 ^ 32 - 8) none v.items_fit v.buffer
        (sym v.before_length) left in
    let size : m.wire.rx_len ≡ 32 + length (items_bytes items) = v.whole in
    ground (arith, v.command, v.status, v.context, v.item_count, v.small, size, found, last, left)
