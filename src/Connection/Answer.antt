-- ===== src/Connection/Answer.antt =====
-- The answers that `parseConnectedResponse` accepts: every packet that is well formed.
use esp32_control_logix.Base.{
  ℕ, ◌+◌, ◌-◌, ◌%◌, ◌^◌, ◌≤◌, ◌<◌, ◌≡◌, refl, sym, ap, ◌∙◌, Bool-cases, Option-cases, inl, inr,
  true, Option, none, some, List, [], ◌∷◌, ◌++◌, append_assoc, length, length-append, All, ltb,
  ◌==◌, if◌then◌else◌, arith,
}
use esp32_control_logix.Status.{ok}
use esp32_control_logix.Encapsulation.{
  u16_bytes, header_size, command_code, send_unit_data, byte_at, get_u16, get_u32, decode_header,
}
use esp32_control_logix.Encapsulation.Words.{get_u32-append, get_u32-append_front}
use esp32_control_logix.Cip.{item_code, connected_address, connected_data}
use esp32_control_logix.Packet.{Item, item_bytes, items_bytes}
use esp32_control_logix.Message.Answer.{IsItem, kind_read, length_read}
use esp32_control_logix.Connection.{Connection}
use esp32_control_logix.Connection.Response.{
  Found, nothing_found, take_item, find_items, parse_connected_response,
}

-- What an item adds to the items found, where its content stands at `p`; an address item has at
-- least four bytes.
abbrev pub seen : ℕ → Item → Found → Option Found
seen p i found =
    if i.kind == item_code connected_address
    then (if ltb (length i.content) 4
        then none
        else some (record found { conn_id = get_u32 i.content 0; have_conn_id = true }))
    else if i.kind == item_code connected_data
    then some (record found { conn_data = some p; conn_data_len = length i.content })
    else some found

-- The last address and the last data among the items, the first of which stands at `p`.
abbrev pub all_seen : ℕ → List Item → Found → Option Found
all_seen p [] found = some found
all_seen p (i ∷ is) found =
    let rest = λ (found' : Found). all_seen (p + 4 + length i.content) is found' in
    elim (seen (p + 4) i found) [ none ↦ none | some found' ↦ rest found' ]

module _ (rx pre rest : List ℕ) (p : ℕ) (i : Item) where
  id_read :
      rx ≡ pre ++ (item_bytes i ++ rest)
      → p ≡ length pre
      → 4 ≤ length i.content
      → get_u32 rx (p + 4) ≡ get_u32 i.content 0
  id_read e at h =
      let head = u16_bytes i.kind ++ u16_bytes (length i.content) in
      let size : p + 4 ≡ length (pre ++ head) = omega (arith, length-append pre head, at) in
      let whole : rx ≡ (pre ++ head) ++ (i.content ++ rest) =
        e ∙ sym (append_assoc pre head (i.content ++ rest)) in
      ap (get_u32 rx) size
      ∙ ap (λ (b : List ℕ). get_u32 b (length (pre ++ head))) whole
      ∙ get_u32-append (pre ++ head) (i.content ++ rest)
      ∙ get_u32-append_front i.content rest h

  take_item-seen :
      (found : Found)
      → rx ≡ pre ++ (item_bytes i ++ rest)
      → p ≡ length pre
      → take_item rx i.kind (length i.content) (p + 4) found ≡ seen (p + 4) i found
  unfolding take_item
  take_item-seen found e at = elim (Bool-cases (ltb (length i.content) 4)) [
    | inl short ↦ ground (arith, short)
    | inr long ↦ let id = id_read e at (ground (arith, long)) in ground (arith, long, id)
  ]

-- The loop over the items finds the last address and the last data.
find_items-all_seen :
    (items : List Item) (rx pre rest : List ℕ) (p remaining : ℕ) (found : Found)
    → All IsItem items
    → rx ≡ pre ++ (items_bytes items ++ rest)
    → p ≡ length pre
    → remaining ≡ length (items_bytes items)
    → find_items (length items) rx p remaining found ≡ all_seen p items found
unfolding find_items
find_items-all_seen [] rx pre rest p remaining found v e at left = refl
find_items-all_seen (i ∷ is) rx pre rest p remaining found v e at left =
    let here : rx ≡ pre ++ (item_bytes i ++ (items_bytes is ++ rest)) =
      e ∙ ap (λ (xs : List ℕ). pre ++ xs) (append_assoc (item_bytes i) (items_bytes is) rest) in
    let next : rx ≡ (pre ++ item_bytes i) ++ (items_bytes is ++ rest) =
      here ∙ sym (append_assoc pre (item_bytes i) (items_bytes is ++ rest)) in
    let size = length-append (item_bytes i) (items_bytes is) in
    let at' : p + 4 + length i.content ≡ length (pre ++ item_bytes i) =
      omega (arith, length-append pre (item_bytes i), at) in
    let left' : remaining - 4 - length i.content ≡ length (items_bytes is) =
      omega (arith, size, left) in
    let kind = kind_read rx pre (items_bytes is ++ rest) p i here at v.0 in
    let len = length_read rx pre (items_bytes is ++ rest) p i here at v.0 in
    let taken = take_item-seen rx pre (items_bytes is ++ rest) p i found here at in
    let later = λ (found' : Found).
      find_items-all_seen is rx (pre ++ item_bytes i) rest (p + 4 + length i.content)
        (remaining - 4 - length i.content) found' v.1 next at' left' in
    elim (Option-cases (seen (p + 4) i found)) [
      | inl bad ↦ ground (arith, size, left, kind, len, taken, bad)
      | inr (found', good) ↦ ground (arith, size, left, kind, len, taken, good, later found')
    ]

-- A connection that has received a whole packet of items, under the context of its last request.
pub record IsAnswerFrame (c : Connection) (items : List Item) : Type 0 where
  pub command : (decode_header c.wire.rx 0).command ≡ command_code send_unit_data
  pub status : (decode_header c.wire.rx 0).status ≡ 0
  pub context : (decode_header c.wire.rx 0).context ≡ c.sent_context
  pub item_count : get_u16 c.wire.rx 30 ≡ length items
  pub items_fit : All IsItem items
  pub before : List ℕ
  pub before_length : length before ≡ 32
  pub behind : List ℕ
  pub buffer : c.wire.rx ≡ before ++ (items_bytes items ++ behind)
  pub whole : c.wire.rx_len ≡ 32 + length (items_bytes items)
  pub small : c.wire.rx_len < 2 ^ 32

-- If the bytes received are a successful SendUnitData packet with the context of the last request,
-- of any number of items, whose last address item names the T->O id of the connection, and whose
-- last data item, of `len` bytes at `p`, starts with the sequence number of the last request and
-- has room for the head of an answer behind it, then `parseConnectedResponse` returns `Ok`, and
-- gives out the reply service, the result code and the data of that item.
pub parse_connected_response-accepts :
    (c : Connection) (items : List Item) (p len : ℕ)
    → IsAnswerFrame c items
    → all_seen 32 items nothing_found
      ≡ some (record {
        conn_id = c.to_conn_id;
        have_conn_id = true;
        conn_data = some p;
        conn_data_len = len;
      })
    → get_u16 c.wire.rx p ≡ c.sent_sequence
    → 6 ≤ len
    → parse_connected_response c ≡ (
      ok,
      record c {
        reply_service = byte_at c.wire.rx (p + 2);
        result_code = byte_at c.wire.rx (p + 4);
        response = some (p + 6);
        response_len = len - 6;
      },
    )
unfolding parse_connected_response
parse_connected_response-accepts c items p len v last sequence fits =
    let left : (c.wire.rx_len + 2 ^ 32 - header_size) % 2 ^ 32 - 8 ≡ length (items_bytes items) =
      omega (arith, v.whole, v.small) in
    let found =
      find_items-all_seen items c.wire.rx v.before v.behind 32
        ((c.wire.rx_len + 2 ^ 32 - header_size) % 2 ^ 32 - 8) nothing_found v.items_fit v.buffer
        (sym v.before_length) left in
    let size : c.wire.rx_len ≡ 32 + length (items_bytes items) = v.whole in
    let at_code : p + 2 + 2 ≡ p + 4 = omega arith in
    let at_data : p + 2 + 4 ≡ p + 6 = omega arith in
    let data_len : len - 2 - 4 ≡ len - 6 = omega arith in
    ground (
      arith, v.command, v.status, v.context, v.item_count, v.small, size, found, last, left,
      sequence, at_code, at_data, data_len,
    )
