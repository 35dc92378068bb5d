-- ===== src/Connection/Calls.antt =====
-- The operations of a `Connection`.
use esp32_control_logix.Base.{
  ℕ, ◌+◌, ◌-◌, ◌%◌, ◌^◌, true, not, ◌||◌, Option, none, some, List, length, take, ltb, leb, ◌==◌,
  if◌then◌else◌,
}
use esp32_control_logix.Status.{Status, pending, ok, busy, not_ready, timeout, invalid_arg, error}
use esp32_control_logix.Encapsulation.{header_size, get_u32}
use esp32_control_logix.Transport.{Transport, deadline_after, expired}
use esp32_control_logix.Wire.{Wire, write_pending, read_response}
use esp32_control_logix.Message.{
  Message, Slice, bad_request, cip_length, request_header, put_cip, body_length_of,
}
use esp32_control_logix.Message
use esp32_control_logix.Connection.{
  max_body, tag_name_size, State, idle, opening, open_state, sending, closing, closed, failed,
  Connection, manager_path, open_data, close_data, slice_of, put_unit,
}
use esp32_control_logix.Connection.Response.{parse_connected_response}

module _ {W : Type 0} (t : Transport W) where
  -- `if (st != Status::Pending) return st; state_ = next; return Status::Pending;`
  abbrev pub forwarded : Connection → State → Status × Message × W → Status × Connection × W
  forwarded c next (pending, m, w) = (pending, record c { fwd = m; state = next }, w)
  forwarded c next (st, m, w) = (st, record c { fwd = m }, w)

  unfoldable pub start_open : Connection → W → ℕ → List ℕ → ℕ → Status × Connection × W
  unfolding open_data
  start_open c w session name timeout_ms =
      let (r, w') = t.random w in
      let ot = if r == 0 then 1 else r in
      let c' : Connection = record c {
        ot_conn_id = ot;
        to_conn_id = 0;
        tag_name = take (tag_name_size - 1) name;
      } in
      forwarded c' opening (
        Message.send t c'.fwd w' session 0x54 manager_path (slice_of (open_data ot c'.tag_name))
          timeout_ms)

  unfoldable pub open_connection :
      Connection → W → ℕ → Option (List ℕ) → ℕ → Status × Connection × W
  open_connection c w session none timeout_ms = (invalid_arg, c, w)
  open_connection c w session (some name) timeout_ms =
      let started = start_open c w session name timeout_ms in
      if leb tag_name_size (length name) then (invalid_arg, c, w) else (elim c.state [
        | opening ↦ (busy, c, w)
        | sending ↦ (busy, c, w)
        | closing ↦ (busy, c, w)
        | _ ↦ started
      ])

  unfoldable pub start_close : Connection → W → ℕ → ℕ → Status × Connection × W
  unfolding close_data
  start_close c w session timeout_ms = forwarded c closing (
      Message.send t c.fwd w session 0x4e manager_path (slice_of (close_data c.tag_name))
        timeout_ms)

  unfoldable pub close : Connection → W → ℕ → ℕ → Status × Connection × W
  close c w session timeout_ms = elim c.state [
    | open_state ↦ start_close c w session timeout_ms
    | _ ↦ (not_ready, c, w)
  ]

  unfoldable pub start_send : Connection → W → ℕ → ℕ → Slice → Slice → ℕ → Status × Connection × W
  start_send c w session service path payload timeout_ms =
      if bad_request path payload
      then (invalid_arg, c, w)
      else (let (now, w') = t.millis w in
          let wire : Wire = record c.wire {
            tx = put_unit c.wire.tx session c.context c.ot_conn_id c.sequence service path payload;
            tx_len = header_size + 22 + cip_length path payload;
            tx_sent = 0;
            rx_len = 0;
            rx_expected = header_size;
          } in
          (
            pending,
            record c {
              attached = true;
              wire = wire;
              sent_context = c.context;
              sent_sequence = c.sequence;
              context = (c.context + 1) % 2 ^ 64;
              sequence = (c.sequence + 1) % 2 ^ 16;
              deadline = deadline_after now timeout_ms;
              state = sending;
            },
            w',
          ))

  unfoldable pub send : Connection → W → ℕ → ℕ → Slice → Slice → ℕ → Status × Connection × W
  send c w session service path payload timeout_ms = elim c.state [
    | open_state ↦ start_send c w session service path payload timeout_ms
    | _ ↦ (not_ready, c, w)
  ]

  -- `fwd_.data()`, as an offset; it is not null once `poll` returned `Ok`.
  abbrev pub response_offset : Message → ℕ
  response_offset m = elim m.response [ none ↦ 0 | some p ↦ p ]

  -- The end of `pollOpening`, on the Forward Open response.
  unfoldable pub finish_open : Connection → Status × Connection
  finish_open c =
      let rx = c.fwd.wire.rx in
      let p = response_offset c.fwd in
      let ot = get_u32 rx p in
      let to = get_u32 rx (p + 4) in
      if not (c.fwd.result_code == 0) || ltb c.fwd.response_len 12
      then (error, record c { state = failed })
      else if ot == 0 || to == 0
      then (error, record c { state = failed })
      else if not (ot == c.ot_conn_id)
      then (error, record c { state = failed })
      else (ok, record c { to_conn_id = to; state = open_state })

  abbrev pub opening_polled : Connection → Status × Message × W → Status × Connection × W
  opening_polled c (pending, m, w) = (pending, record c { fwd = m }, w)
  opening_polled c (ok, m, w) = let (st, c') = finish_open (record c { fwd = m }) in (st, c', w)
  opening_polled c (st, m, w) = (st, record c { fwd = m; state = failed }, w)

  unfoldable pub poll_opening : Connection → W → Status × Connection × W
  unfolding finish_open
  poll_opening c w = opening_polled c (Message.poll t c.fwd w)

  abbrev pub closing_polled : Connection → Status × Message × W → Status × Connection × W
  closing_polled c (pending, m, w) = (pending, record c { fwd = m }, w)
  closing_polled c (ok, m, w) = (ok, record c { fwd = m; state = closed }, w)
  closing_polled c (st, m, w) = (st, record c { fwd = m; state = failed }, w)

  unfoldable pub poll_closing : Connection → W → Status × Connection × W
  poll_closing c w = closing_polled c (Message.poll t c.fwd w)

  -- `state_ = (st == Status::Ok) ? State::Open : State::Failed;`
  abbrev pub settle : Status × Connection → W → Status × Connection × W
  settle (ok, c) w = (ok, record c { state = open_state }, w)
  settle (st, c) w = (st, record c { state = failed }, w)

  abbrev pub after_read : Connection → Status × Wire × W → Status × Connection × W
  after_read c (ok, b, w) = settle (parse_connected_response (record c { wire = b })) w
  after_read c (pending, b, w) = (pending, record c { wire = b }, w)
  after_read c (st, b, w) = (st, record c { wire = b; state = failed }, w)

  abbrev pub after_write : Connection → Status × Wire × W → Status × Connection × W
  after_write c (ok, b, w) = after_read (record c { wire = b }) (read_response t max_body b w)
  after_write c (pending, b, w) = (pending, record c { wire = b }, w)
  after_write c (st, b, w) = (st, record c { wire = b; state = failed }, w)

  unfoldable pub poll_sending : Connection → W → Status × Connection × W
  poll_sending c w =
      let (now, w') = t.millis w in
      if expired now c.deadline
      then (timeout, record c { state = failed }, w')
      else after_write c (write_pending t c.wire w')

  unfoldable pub poll : Connection → W → Status × Connection × W
  poll c w = elim c.state [
    | opening ↦ poll_opening c w
    | sending ↦ poll_sending c w
    | closing ↦ poll_closing c w
    | open_state ↦ (ok, c, w)
    | closed ↦ (Status.closed, c, w)
    | failed ↦ (error, c, w)
    | idle ↦ (not_ready, c, w)
  ]
