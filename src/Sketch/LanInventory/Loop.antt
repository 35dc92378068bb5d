-- ===== src/Sketch/LanInventory/Loop.antt =====
-- The steps of the scan: `setup` and `loop`.
use esp32_control_logix.Base.{◌+◌, false, not, ◌||◌, some, ltb, leb, if◌then◌else◌}
use esp32_control_logix.Status.{Status, ok, timeout, error, closed}
use esp32_control_logix.Address.{number, same}
use esp32_control_logix.Cip.Codes.{service_code, get_attribute_single}
use esp32_control_logix.Network.{Network}
use esp32_control_logix.Session
use esp32_control_logix.Session.{Session}
use esp32_control_logix.Message
use esp32_control_logix.Message.{Message, Slice}
use esp32_control_logix.Tag
use esp32_control_logix.Tag.{Tag}
use esp32_control_logix.PlcClient.Tags.{is_pending}
use esp32_control_logix.Sketch.LanInventory.{
  eip_port, scan_timeout_ms, session_timeout_ms, message_timeout_ms, no_identity,
  identity_attribute_count, Phase, wait_ethernet, scan, connect, register, query, close, done,
  Inventory, local_gateway, next_host, network_of, broadcast_of, attribute, identity_path,
  attribute_data, mode_name, response_offset, load_attribute,
}

module _ {C W : Type 0} (net : Network C W) where
  open net use {
    transport as t, eth_begin, eth_poll, eth_local_ip, eth_subnet_mask, tcp_connect, tcp_poll,
    tcp_close,
  }

  -- `phase = …; phaseStarted = millis();`
  abbrev enter : Inventory → Phase → W → Inventory × W
  enter l phase w =
      let (now, w') = t.millis w in (record l { phase = phase; phase_started = now }, w')

  -- `setup`, with the configuration that it fills in; `gateway` is `cfg.gateway`.
  pub setup : Inventory → W → C → Inventory × W
  setup l w cfg =
      let (st, w1) = eth_begin w cfg in
      let (now, w2) = t.millis w1 in
      (
        record l {
          gateway = local_gateway;
          phase = elim st [ error ↦ done | _ ↦ l.phase ];
          phase_started = now;
        },
        w2,
      )

  abbrev query_sent : Inventory → Status × Message × W → Inventory × W
  query_sent l r = (record l { msg = r.1; step_started = is_pending r.0 }, r.2)

  abbrev mode_sent : Inventory → Status × Tag × Message × W → Inventory × W
  mode_sent l r = (record l { tag = r.1; msg = r.2; step_started = is_pending r.0 }, r.3)

  unfoldable pub start_query : Inventory → W → Inventory × W
  start_query l w =
      if ltb l.query_index identity_attribute_count
      then query_sent l (
          Message.send t l.msg w l.session.handle (service_code get_attribute_single) identity_path
            (attribute_data (attribute l)) message_timeout_ms)
      else mode_sent l
          (Tag.read t l.tag l.msg w l.session.handle (some mode_name) 1 message_timeout_ms)

  unfoldable pub finish_query : Inventory → W → Inventory × W
  unfolding load_attribute
  finish_query l w =
      let loaded =
        load_attribute (attribute l) l.id l.msg.wire.rx (response_offset l.msg)
          l.msg.response_len in
      let l1 : Inventory = record l {
        id = if ltb l.query_index identity_attribute_count then loaded else l.id;
        query_index = l.query_index + 1;
        step_started = false;
      } in
      let closing : Inventory = record l1 { session = (Session.close l1.session).1 } in
      if ltb identity_attribute_count l1.query_index then enter closing close w else (l1, w)

  -- `session.abort(); tcp.close(); phase = Phase::Scan;`
  abbrev drop_device : Inventory → W → Inventory × W
  drop_device l w = (record l { session = Session.abort l.session; phase = scan }, tcp_close w)

  abbrev pub ethernet_polled : Inventory → Status × W → Inventory × W
  ethernet_polled l (ok, w) =
      let ip = eth_local_ip w in
      let mask = eth_subnet_mask w in
      enter
        (record l {
          network = network_of ip mask;
          broadcast = broadcast_of ip mask;
          current_ip = network_of ip mask;
        })
        scan w
  ethernet_polled l (error, w) = (record l { phase = done }, w)
  ethernet_polled l (st, w) = (l, w)

  -- `case Phase::Scan`.
  unfoldable pub scan_step : Inventory → W → Inventory × W
  scan_step l w =
      let (more, ip) = next_host l.current_ip in
      let l1 : Inventory = record l { current_ip = ip } in
      if not more || same ip l.broadcast
      then (record l1 { phase = done }, w)
      else if same ip l.gateway || same ip (eth_local_ip w)
      then (l1, w)
      else enter l1 connect (tcp_connect w (number ip) eip_port scan_timeout_ms).1

  abbrev pub connect_polled : Inventory → Status × W → Inventory × W
  connect_polled l (ok, w) =
      let (st, s, w') = Session.open_session t l.session w session_timeout_ms in
      enter (record l { session = s }) register w'
  connect_polled l (timeout, w) = (record l { phase = scan }, tcp_close w)
  connect_polled l (error, w) = (record l { phase = scan }, tcp_close w)
  connect_polled l (closed, w) = (record l { phase = scan }, tcp_close w)
  connect_polled l (st, w) = (l, w)

  abbrev pub register_polled : Inventory → Status × Session × W → Inventory × W
  register_polled l (ok, s, w) =
      enter (record l { session = s; id = no_identity; query_index = 0; step_started = false })
        query w
  register_polled l (timeout, s, w) = drop_device (record l { session = s }) w
  register_polled l (error, s, w) = drop_device (record l { session = s }) w
  register_polled l (st, s, w) = (record l { session = s }, w)

  -- A failed query of the mode is finished like a good one; any other drops the device.
  abbrev query_failed : Inventory → W → Inventory × W
  query_failed l w =
      if leb identity_attribute_count l.query_index then finish_query l w else drop_device l w

  abbrev pub query_polled : Inventory → Status → W → Inventory × W
  query_polled l ok w = finish_query l w
  query_polled l timeout w = query_failed l w
  query_polled l error w = query_failed l w
  query_polled l closed w = query_failed l w
  query_polled l st w = (l, w)

  -- `case Phase::Query`.
  unfoldable pub query_step : Inventory → W → Inventory × W
  unfolding finish_query
  query_step l w =
      let (mode_st, tag, mode_msg, mode_w) = Tag.poll t l.tag l.msg w in
      let (msg_st, msg, msg_w) = Message.poll t l.msg w in
      if not l.step_started
      then start_query l w
      else if leb identity_attribute_count l.query_index
      then query_polled (record l { tag = tag; msg = mode_msg }) mode_st mode_w
      else query_polled (record l { msg = msg }) msg_st msg_w

  abbrev pub close_polled : Inventory → Status × Session × W → Inventory × W
  close_polled l (ok, s, w) =
      (record l { session = s; found = l.found + 1; phase = scan }, tcp_close w)
  close_polled l (closed, s, w) =
      (record l { session = s; found = l.found + 1; phase = scan }, tcp_close w)
  close_polled l (timeout, s, w) = drop_device (record l { session = s; found = l.found + 1 }) w
  close_polled l (error, s, w) = drop_device (record l { session = s; found = l.found + 1 }) w
  close_polled l (st, s, w) = (record l { session = s }, w)

  unfoldable pub loop : Inventory → W → Inventory × W
  loop l w = elim l.phase [
    | wait_ethernet ↦ ethernet_polled l (eth_poll w)
    | scan ↦ scan_step l w
    | connect ↦ connect_polled l (tcp_poll w)
    | register ↦ register_polled l (Session.poll t l.session w)
    | query ↦ query_step l w
    | close ↦ close_polled l (Session.poll t l.session w)
    | done ↦ (l, w)
  ]
