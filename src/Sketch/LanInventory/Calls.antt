-- ===== src/Sketch/LanInventory/Calls.antt =====
-- What the steps of the scan call: the calls of `tcp.connect`, and what the other calls leave true of
-- the state behind the network.
use esp32_control_logix.Base.{
  ℕ, ◌≡◌, ◌≢◌, refl, ap, ◌∙◌, sym, List, [], ◌∷◌, ◌++◌, append-nil, some, arith,
}
use esp32_control_logix.Status.{Status, ok, timeout, error, closed}
use esp32_control_logix.Address.{Address, number}
use esp32_control_logix.Network.{Network}
use esp32_control_logix.Wire.Kept.{IsKept}
use esp32_control_logix.Cip.Codes.{service_code, get_attribute_single}
use esp32_control_logix.Session
use esp32_control_logix.Session.{Session}
use esp32_control_logix.Session.Kept.{open_session-keeps, poll-keeps}
use esp32_control_logix.Message
use esp32_control_logix.Message.Kept
use esp32_control_logix.Tag
use esp32_control_logix.Tag.Kept.{tag_poll-keeps, tag_read-keeps}
use esp32_control_logix.Sketch.LanInventory.{
  Inventory, Phase, scan, connect, register, query, close, done, wait_ethernet, eip_port,
  scan_timeout_ms, message_timeout_ms, identity_path, attribute_data, attribute, mode_name,
  next_host,
}
use esp32_control_logix.Sketch.LanInventory.Loop.{
  start_query, finish_query, connect_polled, register_polled, query_polled, query_step,
  close_polled, scan_step, loop,
}

-- The address, the port and the timeout of a call of `tcp.connect`.
abbrev pub Dial : Type 0
Dial = ℕ × ℕ × ℕ

-- The same network, which also writes down every call of `tcp.connect`.
abbrev pub logged : {C W : Type 0} → Network C W → Network C (W × List Dial)
logged net = record {
  transport = record {
    connected = λ s. net.transport.connected s.0;
    write = λ s bs. let (n, w) = net.transport.write s.0 bs in (n, (w, s.1));
    read = λ s len. let (n, bytes, w) = net.transport.read s.0 len in (n, bytes, (w, s.1));
    millis = λ s. let (now, w) = net.transport.millis s.0 in (now, (w, s.1));
    random = λ s. let (r, w) = net.transport.random s.0 in (r, (w, s.1));
  };
  eth_begin = λ s cfg. let (st, w) = net.eth_begin s.0 cfg in (st, (w, s.1));
  eth_poll = λ s. let (st, w) = net.eth_poll s.0 in (st, (w, s.1));
  eth_ready = λ s. net.eth_ready s.0;
  eth_local_ip = λ s. net.eth_local_ip s.0;
  eth_subnet_mask = λ s. net.eth_subnet_mask s.0;
  tcp_connect = λ s ip port timeout_ms.
      let (st, w) = net.tcp_connect s.0 ip port timeout_ms in
      (st, (w, s.1 ++ ((ip, port, timeout_ms) ∷ [])));
  tcp_poll = λ s. let (st, w) = net.tcp_poll s.0 in (st, (w, s.1));
  tcp_close = λ s. (net.tcp_close s.0, s.1);
}

-- Every call of the transport and of the TCP connection keeps `on`; while it holds, the interface
-- has the address `self`.
pub record Stays {C W : Type 0} (net : Network C W) (self : Address) (on : W → Type 0)
    : Type 0 where
  pub transport_keeps : IsKept net.transport on
  pub connect_keeps :
      (w : W) (ip port timeout_ms : ℕ) → on w → on (net.tcp_connect w ip port timeout_ms).1
  pub poll_keeps : (w : W) → on w → on (net.tcp_poll w).1
  pub close_keeps : (w : W) → on w → on (net.tcp_close w)
  pub has_address : (w : W) → on w → net.eth_local_ip w ≡ self

module _ {C W : Type 0} (net : Network C W) {on : W → Type 0} (k : IsKept net.transport on)
    (polls : (w : W) → on w → on (net.tcp_poll w).1)
    (closes : (w : W) → on w → on (net.tcp_close w)) where
  open net use {transport as t, tcp_poll, tcp_close}

  connect_polled-keeps : (l : Inventory) (r : Status × W) → on r.1 → on (connect_polled net l r).1
  connect_polled-keeps l (ok, w) o =
      let opened = open_session-keeps t k l.session w _ o in k.millis_keeps _ opened
  connect_polled-keeps l (timeout, w) o = closes w o
  connect_polled-keeps l (error, w) o = closes w o
  connect_polled-keeps l (closed, w) o = closes w o
  connect_polled-keeps l (st, w) o = o

  register_polled-keeps :
      (l : Inventory) (r : Status × Session × W) → on r.2 → on (register_polled net l r).1
  register_polled-keeps l (ok, s, w) o = k.millis_keeps w o
  register_polled-keeps l (timeout, s, w) o = closes w o
  register_polled-keeps l (error, s, w) o = closes w o
  register_polled-keeps l (st, s, w) o = o

  close_polled-keeps :
      (l : Inventory) (r : Status × Session × W) → on r.2 → on (close_polled net l r).1
  close_polled-keeps l (ok, s, w) o = closes w o
  close_polled-keeps l (closed, s, w) o = closes w o
  close_polled-keeps l (timeout, s, w) o = closes w o
  close_polled-keeps l (error, s, w) o = closes w o
  close_polled-keeps l (st, s, w) o = o

  start_query-keeps : (l : Inventory) (w : W) → on w → on (start_query net l w).1
  unfolding start_query
  start_query-keeps l w o = ground (
    arith,
    Message.Kept.send-keeps t k l.msg w l.session.handle (service_code get_attribute_single)
        identity_path (attribute_data (attribute l)) message_timeout_ms o,
    tag_read-keeps t k l.tag l.msg w l.session.handle (some mode_name) 1 message_timeout_ms o,
  )

  finish_query-keeps : (l : Inventory) (w : W) → on w → on (finish_query net l w).1
  unfolding finish_query
  finish_query-keeps l w o = ground (arith, o, k.millis_keeps w o)

  query_polled-keeps : (l : Inventory) (st : Status) (w : W) → on w → on (query_polled net l st w).1
  query_polled-keeps l ok w o = finish_query-keeps l w o
  query_polled-keeps l timeout w o = ground (arith, finish_query-keeps l w o, closes w o)
  query_polled-keeps l error w o = ground (arith, finish_query-keeps l w o, closes w o)
  query_polled-keeps l closed w o = ground (arith, finish_query-keeps l w o, closes w o)
  query_polled-keeps l st w o = o

  query_step-keeps : (l : Inventory) (w : W) → on w → on (query_step net l w).1
  unfolding query_step
  query_step-keeps l w o =
      let (mode_st, tag, mode_msg, mode_w) = Tag.poll t l.tag l.msg w in
      let (msg_st, msg, msg_w) = Message.poll t l.msg w in
      let mode =
        query_polled-keeps (record l { tag = tag; msg = mode_msg }) mode_st mode_w
          (tag_poll-keeps t k l.tag l.msg w o) in
      let identity =
        query_polled-keeps (record l { msg = msg }) msg_st msg_w
          (Message.Kept.poll-keeps t k l.msg w o) in
      ground (arith, start_query-keeps l w o, mode, identity)

  -- A `loop` in a phase after the scan.
  pub loop-keeps :
      (p : Phase) (l : Inventory) (w : W)
      → l.phase ≡ p
      → p ≢ scan
      → p ≢ wait_ethernet
      → on w
      → on (loop net l w).1
  unfolding loop
  loop-keeps scan l w e no_scan started o = absurd (no_scan refl)
  loop-keeps wait_ethernet l w e no_scan started o = absurd (started refl)
  loop-keeps connect l w e no_scan started o =
      ground (arith, e, connect_polled-keeps l (tcp_poll w) (polls w o))
  loop-keeps register l w e no_scan started o = ground (
    arith,
    e,
    register_polled-keeps l (Session.poll t l.session w) (poll-keeps t k l.session w o),
  )
  loop-keeps query l w e no_scan started o = ground (arith, e, query_step-keeps l w o)
  loop-keeps close l w e no_scan started o =
      ground
        (arith, e, close_polled-keeps l (Session.poll t l.session w) (poll-keeps t k l.session w o))
  loop-keeps done l w e no_scan started o = ground (arith, e, o)

-- The addresses that a step from `scan` to `connect` is meant to probe.
abbrev pub probe : Inventory → Inventory → List ℕ
probe l l' = elim l.phase [
  | scan ↦ elim l'.phase [ connect ↦ number l'.current_ip ∷ [] | _ ↦ [] ]
  | _ ↦ []
]

-- A call of `tcp.connect` for every address: the port of EtherNet/IP, and the timeout of the scan.
abbrev pub dials : List ℕ → List Dial
dials [] = []
dials (ip ∷ ips) = (ip, eip_port, scan_timeout_ms) ∷ dials ips

pub dials-append : (xs ys : List ℕ) → dials (xs ++ ys) ≡ dials xs ++ dials ys
dials-append [] ys = refl
dials-append (x ∷ xs) ys = ap (λ ds. (x, eip_port, scan_timeout_ms) ∷ ds) (dials-append xs ys)

module _ {C W : Type 0} (net : Network C W) (self : Address) {on : W → Type 0}
    (k : Stays net self on) where
  -- The state `on`, and the calls written down so far.
  abbrev At : List Dial → W × List Dial → Type 0
  At log s = on s.0 × (s.1 ≡ log)

  At-IsKept : (log : List Dial) → IsKept (logged net).transport (At log)
  At-IsKept log = record {
    write_keeps = λ s bs o. (k.transport_keeps.write_keeps s.0 bs o.0, o.1);
    read_keeps = λ s len o. (k.transport_keeps.read_keeps s.0 len o.0, o.1);
    millis_keeps = λ s o. (k.transport_keeps.millis_keeps s.0 o.0, o.1);
    random_keeps = λ s o. (k.transport_keeps.random_keeps s.0 o.0, o.1);
  }

  scan_step-At :
      (l : Inventory) (s : W × List Dial)
      → on s.0
      → l.phase ≡ scan
      → let r = scan_step (logged net) l s in At (s.1 ++ dials (probe l r.0)) r.1
  unfolding scan_step
  scan_step-At l s o e =
      let ip = number (next_host l.current_ip).1 in
      let dialled = k.connect_keeps s.0 ip eip_port scan_timeout_ms o in
      let timed =
        k.transport_keeps.millis_keeps (net.tcp_connect s.0 ip eip_port scan_timeout_ms).1
          dialled in
      ground (arith, e, o, timed, append-nil s.1)

  -- A `loop` in another phase makes no call.
  other-At :
      (l : Inventory) (s : W × List Dial)
      → l.phase ≢ scan
      → l.phase ≢ wait_ethernet
      → on s.0
      → let r = loop (logged net) l s in At (s.1 ++ dials (probe l r.0)) r.1
  other-At l s no_scan started o =
      let r = loop (logged net) l s in
      let silent : probe l r.0 ≡ [] = ground (arith, no_scan) in
      let kept =
        loop-keeps (logged net) (At-IsKept s.1) (λ s' h. (k.poll_keeps s'.0 h.0, h.1))
          (λ s' h. (k.close_keeps s'.0 h.0, h.1)) l.phase l s refl no_scan started (o, refl) in
      (kept.0, kept.1 ∙ sym (append-nil s.1) ∙ ap (λ ips. s.1 ++ dials ips) (sym silent))

  -- A `loop` of a scan that has started calls `tcp.connect` for the addresses that it is to probe,
  -- and for no other.
  pub loop-At :
      (p : Phase) (l : Inventory) (s : W × List Dial)
      → l.phase ≡ p
      → p ≢ wait_ethernet
      → on s.0
      → let r = loop (logged net) l s in At (s.1 ++ dials (probe l r.0)) r.1
  unfolding loop
  loop-At scan l s e started o = ground (arith, e, scan_step-At l s o e)
  loop-At wait_ethernet l s e started o = absurd (started refl)
  loop-At p l s e started o = other-At l s (λ f. cc) (λ f. cc) o
