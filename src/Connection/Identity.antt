-- ===== src/Connection/Identity.antt =====
-- What `parseConnectedResponse` accepts, and what it finds.
use mathlib.Core.Option
use esp32_control_logix.Base.{
  ℕ, zero, suc, ◌+◌, ◌-◌, ◌^◌, ◌≤◌, ◌<◌, ◌≡◌, ◌⊎◌, inl, inr, true, Option, none, some, List, ltb,
  ◌==◌, Bool-cases, Option-cases, arith,
}
use esp32_control_logix.Status.{Status, ok, error}
use esp32_control_logix.Encapsulation.{
  EncapsulationHeader, header_size, command_code, send_unit_data, get_u16, decode_header,
}
use esp32_control_logix.Cip.{item_code, connected_address, connected_data}
use esp32_control_logix.Message.{body_length_of}
use esp32_control_logix.Message.Response.{Within}
use esp32_control_logix.Connection.{Connection}
use esp32_control_logix.Connection.Response.{
  Found, take_item, find_items, nothing_found, finish_data, parse_connected_response,
}

abbrev place_of : Found → Option (ℕ × ℕ)
place_of f = Option.map (λ p. (p, f.conn_data_len)) f.conn_data

abbrev FoundWithin : ℕ → Option Found → Type 0
FoundWithin limit none = Unit {0}
FoundWithin limit (some f) = Within limit (place_of f)

take_item-FoundWithin :
    (rx : List ℕ) (type len p limit : ℕ) (f : Found)
    → p + len ≤ limit
    → Within limit (place_of f)
    → FoundWithin limit (take_item rx type len p f)
unfolding take_item
take_item-FoundWithin rx type len p limit f h i =
    elim (Bool-cases (type == item_code connected_address)) [
      | inl e ↦ elim (Bool-cases (ltb len 4)) [ inl k ↦ ground arith | inr k ↦ ground arith ]
      | inr e ↦ elim (Bool-cases (type == item_code connected_data)) [
        | inl k ↦ ground arith
        | inr k ↦ ground arith
      ]
    ]

-- The loop finds no data past the bytes it is given, whatever they are.
find_items-FoundWithin :
    (items : ℕ) (rx : List ℕ) (p remaining limit : ℕ) (found : Found)
    → p + remaining ≡ limit
    → Within limit (place_of found)
    → FoundWithin limit (find_items items rx p remaining found)
unfolding find_items
find_items-FoundWithin zero rx p remaining limit found e h = h
find_items-FoundWithin (suc items) rx p remaining limit found e h =
    elim (Bool-cases (ltb remaining 4)) [
      | inl short ↦ ground arith
      | inr header ↦ elim (Bool-cases (ltb (remaining - 4) len)) [
        | inl long ↦ ground arith
        | inr fits ↦
            let next : p + 4 + len + (remaining - 4 - len) ≡ limit = ground arith in
            let place : p + 4 + len ≤ limit = ground arith in
            let taken = take_item-FoundWithin rx (get_u16 rx p) len (p + 4) limit found place h in
            elim (Option-cases (take_item rx (get_u16 rx p) len (p + 4) found)) [
              | inl none_taken ↦ ground arith
              | inr (found', some_taken) ↦ ground (
                arith,
                some_taken,
                taken,
                find_items-FoundWithin items rx (p + 4 + len) (remaining - 4 - len) limit found'
                    next,
              )
            ]
      ]
    ]
  where
    len : ℕ
    len = get_u16 rx (p + 2)

-- What the accessors give out after `Ok`: the frame answers the request last sent, on this
-- connection, and the data lie inside the bytes received.
pub record IsAnswer (c c' : Connection) : Type 0 where
  pub command : (decode_header c.wire.rx 0).command ≡ command_code send_unit_data
  pub status : (decode_header c.wire.rx 0).status ≡ 0
  pub context : (decode_header c.wire.rx 0).context ≡ c.sent_context
  pub found : Found
  pub items :
      find_items (get_u16 c.wire.rx 30) c.wire.rx 32 (body_length_of c.wire - 8) nothing_found
      ≡ some found
  pub connection : (found.have_conn_id ≡ true) × (found.conn_id ≡ c.to_conn_id)
  pub data_at : ℕ
  pub data_found : found.conn_data ≡ some data_at
  pub sequence : get_u16 c.wire.rx data_at ≡ c.sent_sequence
  pub response : c'.response ≡ some (data_at + 6)
  pub response_len : data_at + 6 + c'.response_len ≤ c.wire.rx_len
  pub only_answer : c' ≡ record c {
    reply_service = c'.reply_service;
    result_code = c'.result_code;
    response = c'.response;
    response_len = c'.response_len;
  }

abbrev pub Parsed : Connection → Status × Connection → Type 0
Parsed c out = ((out.0 ≡ ok) × IsAnswer c out.1) ⊎ (out ≡ (error, c))

finish_data-Parsed :
    (c : Connection) (found : Found) (p : ℕ)
    → find_items (get_u16 c.wire.rx 30) c.wire.rx 32 (body_length_of c.wire - 8) nothing_found
      ≡ some found
    → found.have_conn_id ≡ true
    → found.conn_data ≡ some p
    → p + found.conn_data_len ≤ c.wire.rx_len
    → (decode_header c.wire.rx 0).command ≡ command_code send_unit_data
    → (decode_header c.wire.rx 0).status ≡ 0
    → (decode_header c.wire.rx 0).context ≡ c.sent_context
    → Parsed c (finish_data c found.conn_id p found.conn_data_len)
finish_data-Parsed c found p e id at within hc hs hx = elim (Bool-cases (ltb len 4)) [
  | inl short ↦ inr (ground arith)
  | inr long ↦ elim (Bool-cases (found.conn_id == c.to_conn_id)) [
    | inr other ↦ inr (ground arith)
    | inl ours ↦ elim (Bool-cases (get_u16 c.wire.rx p == c.sent_sequence)) [
      | inr stale ↦ inr (ground arith)
      | inl fresh ↦ elim (Bool-cases (ltb (len - 2) 4)) [
        | inl no_reply ↦ inr (ground arith)
        | inr reply ↦ inl (
          ground arith,
          record {
            command = hc;
            status = hs;
            context = hx;
            found = found;
            items = e;
            connection = (id, ground arith);
            data_at = p;
            data_found = at;
            sequence = ground arith;
            response = ground arith;
            response_len = ground arith;
            only_answer = ground arith;
          },
        )
      ]
    ]
  ]
]
  where
    len : ℕ
    len = found.conn_data_len

-- `parseConnectedResponse` returns `Ok` only for a successful SendUnitData frame that carries the
-- context and the sequence number of the request last sent and the T->O id of this connection;
-- the response data then lie inside the bytes received. Otherwise it returns `Error` and changes
-- nothing. The condition is that a whole header was received.
pub parse_connected_response-Parsed :
    (c : Connection)
    → header_size ≤ c.wire.rx_len
    → c.wire.rx_len < 2 ^ 32
    → Parsed c (parse_connected_response c)
unfolding parse_connected_response
parse_connected_response-Parsed c h small =
    elim (Bool-cases (h'.command == command_code send_unit_data)) [
      | inr other ↦ inr (ground arith)
      | inl ours ↦ elim (Bool-cases (h'.status == 0)) [
        | inr bad ↦ inr (ground arith)
        | inl good ↦ elim (Bool-cases (h'.context == c.sent_context)) [
          | inr stale ↦ inr (ground arith)
          | inl fresh ↦ elim (Bool-cases (ltb left 8)) [
            | inl short ↦ inr (ground arith)
            | inr full ↦ elim (Option-cases (find_items items rx 32 (left - 8) nothing_found)) [
              | inl e ↦ inr (ground (arith, e))
              | inr (found, e) ↦
                  let place : 32 + (left - 8) ≡ c.wire.rx_len = ground arith in
                  let inside =
                    find_items-FoundWithin items rx 32 (left - 8) c.wire.rx_len nothing_found place
                      tt in
                  elim (Option-cases found.conn_data) [
                    | inl no_data ↦ inr (ground (arith, e))
                    | inr (p, at) ↦ elim (Bool-cases found.have_conn_id) [
                      | inr no_id ↦ inr (ground (arith, e, at))
                      | inl id ↦
                          let within : p + found.conn_data_len ≤ c.wire.rx_len =
                            ground (arith, inside) in
                          let parsed =
                            finish_data-Parsed c found p e id at within (ground arith)
                              (ground arith) (ground arith) in
                          ground (arith, e, at, parsed)
                    ]
                  ]
            ]
          ]
        ]
      ]
    ]
  where
    h' : EncapsulationHeader
    h' = decode_header c.wire.rx 0

    left : ℕ
    left = body_length_of c.wire

    rx : List ℕ
    rx = c.wire.rx

    items : ℕ
    items = get_u16 c.wire.rx 30
