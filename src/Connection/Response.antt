-- ===== src/Connection/Response.antt =====
-- `parseConnectedResponse`: the items of a SendUnitData packet, and the answer in them.
use esp32_control_logix.Base.{
  ℕ, zero, suc, ◌+◌, ◌-◌, Bool, true, false, not, ◌||◌, Option, none, some, List, ltb, ◌==◌,
  if◌then◌else◌,
}
use esp32_control_logix.Status.{Status, ok, error}
use esp32_control_logix.Encapsulation.{
  header_size, command_code, send_unit_data, byte_at, get_u16, get_u32, decode_header,
}
use esp32_control_logix.Cip.{item_code, connected_address, connected_data}
use esp32_control_logix.Message.{body_length_of}
use esp32_control_logix.Connection.{Connection}

-- The items found so far: `connId` with `haveConnId`, and `connData` with `connDataLen`.
pub record Found : Type 0 where
  pub conn_id : ℕ
  pub have_conn_id : Bool
  pub conn_data : Option ℕ
  pub conn_data_len : ℕ

-- One item that lies in the bytes left; `none` is the early return of `Status::Error`.
unfoldable pub take_item : List ℕ → ℕ → ℕ → ℕ → Found → Option Found
take_item rx type len p found =
    if type == item_code connected_address
    then (if ltb len 4
        then none
        else some (record found { conn_id = get_u32 rx p; have_conn_id = true }))
    else if type == item_code connected_data
    then some (record found { conn_data = some p; conn_data_len = len })
    else some found

unfoldable pub find_items : ℕ → List ℕ → ℕ → ℕ → Found → Option Found
find_items zero rx p remaining found = some found
find_items (suc items) rx p remaining found =
    let len = get_u16 rx (p + 2) in
    let next = take_item rx (get_u16 rx p) len (p + 4) found in
    let rest = λ (found' : Found). find_items items rx (p + 4 + len) (remaining - 4 - len) found' in
    if ltb remaining 4
    then none
    else if ltb (remaining - 4) len
    then none
    else elim next [ none ↦ none | some found' ↦ rest found' ]

abbrev pub nothing_found : Found
nothing_found = record { conn_id = 0; have_conn_id = false; conn_data = none; conn_data_len = 0 }

-- The end of `parseConnectedResponse`, from the connected data at `p`.
abbrev pub finish_data : Connection → ℕ → ℕ → ℕ → Status × Connection
finish_data c conn_id p len =
    let rx = c.wire.rx in
    let cip = p + 2 in
    if ltb len 4
    then (error, c)
    else if not (conn_id == c.to_conn_id)
    then (error, c)
    else if not (get_u16 rx p == c.sent_sequence)
    then (error, c)
    else if ltb (len - 2) 4
    then (error, c)
    else (
      ok,
      record c {
        reply_service = byte_at rx cip;
        result_code = byte_at rx (cip + 2);
        response = some (cip + 4);
        response_len = len - 2 - 4;
      },
    )

abbrev pub finish_connected : Connection → Option Found → Status × Connection
finish_connected c none = (error, c)
finish_connected c (some found) =
    if not found.have_conn_id then (error, c) else (elim found.conn_data [
      | none ↦ (error, c)
      | some p ↦ finish_data c found.conn_id p found.conn_data_len
    ])

unfoldable pub parse_connected_response : Connection → Status × Connection
parse_connected_response c =
    let rx = c.wire.rx in
    let h = decode_header rx 0 in
    let body = header_size in
    let body_len = body_length_of c.wire in
    if not (h.command == command_code send_unit_data) || not (h.status == 0)
    then (error, c)
    else if not (h.context == c.sent_context)
    then (error, c)
    else if ltb body_len 8
    then (error, c)
    else finish_connected c
        (find_items (get_u16 rx (body + 6)) rx (body + 8) (body_len - 8) nothing_found)
