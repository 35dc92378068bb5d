-- ===== src/Session.antt =====
-- src/eip/Session: RegisterSession and UnregisterSession over a transport. `attached` says that
-- `conn_` is not null.
pub mod Kept
pub mod Lifecycle
pub mod Outcomes
pub mod Packets
pub mod Completion
pub mod Run
use esp32_control_logix.Base.{
  ℕ, ◌+◌, ◌<◌, Bool, true, false, not, ◌||◌, List, store, ltb, ◌==◌, if◌then◌else◌,
}
use esp32_control_logix.Status.{Status, pending, ok, busy, not_ready, timeout, error}
use esp32_control_logix.Encapsulation.{
  EncapsulationHeader, header_size, Command, command_code, register_session, unregister_session,
  put_u16, encode_header, decode_header,
}
use esp32_control_logix.Transport.{Transport, deadline_after, expired}
use esp32_control_logix.Wire.{Wire, write_pending, read_response}

-- `kMaxBodySize`.
abbrev pub max_body : ℕ
max_body = 512

pub data State : Type 0 where
  idle registering registered unregistering closed failed : State

pub record Session : Type 0 where
  pub attached : Bool
  pub state : State
  pub handle : ℕ
  pub deadline : ℕ
  pub context : ℕ
  pub wire : Wire

-- The destructor does the same.
unfoldable pub abort : Session → Session
abort s = record s {
  attached = false;
  state = closed;
  handle = 0;
  wire = record s.wire { tx_len = 0; tx_sent = 0; rx_len = 0; rx_expected = 0 };
}

abbrev pub session_header : Command → ℕ → ℕ → ℕ → EncapsulationHeader
session_header command length session context = record {
  command = command_code command;
  length = length;
  session = session;
  status = 0;
  context = context;
  options = 0;
}

unfoldable pub start_register : Session → Status × Session
start_register s =
    let t1 = encode_header s.wire.tx 0 (session_header register_session 4 0 s.context) in
    let t2 = put_u16 t1 header_size 1 in
    let t3 = put_u16 t2 (header_size + 2) 0 in
    (
      pending,
      record s {
        wire = record s.wire {
          tx = t3;
          tx_len = header_size + 4;
          tx_sent = 0;
          rx_len = 0;
          rx_expected = header_size;
        };
        state = registering;
      },
    )

unfoldable pub start_unregister : Session → Status × Session
start_unregister s =
    let t1 = encode_header s.wire.tx 0 (session_header unregister_session 0 s.handle s.context) in
    (
      pending,
      record s {
        wire = record s.wire {
          tx = t1;
          tx_len = header_size;
          tx_sent = 0;
          rx_len = 0;
          rx_expected = header_size;
        };
        state = unregistering;
      },
    )

unfoldable pub close : Session → Status × Session
unfolding start_unregister abort
close s = elim s.state [
  | registered ↦ start_unregister s
  | registering ↦ (busy, s)
  | unregistering ↦ (busy, s)
  | _ ↦ (ok, abort s)
]

-- The end of `pollRegistering`, on the response in the buffer.
unfoldable pub finish_register : Session → Status × Session
finish_register s =
    let h = decode_header s.wire.rx 0 in
    if not (h.command == command_code register_session) || not (h.status == 0) || ltb h.length 4
    then (error, record s { state = failed })
    else if h.session == 0
    then (error, record s { handle = h.session; state = failed })
    else (ok, record s { handle = h.session; state = registered })

module _ {W : Type 0} (t : Transport W) where
  unfoldable pub open_session : Session → W → ℕ → Status × Session × W
  unfolding start_register
  open_session s w timeout_ms =
      let (now, w') = t.millis w in
      let started =
        start_register (record s { attached = true; deadline = deadline_after now timeout_ms }) in
      let begin : Status × Session × W =
        if not (t.connected w) then (not_ready, s, w) else (started.0, started.1, w') in
      elim s.state [ registering ↦ (busy, s, w) | registered ↦ (busy, s, w) | _ ↦ begin ]

  abbrev registered_read : Session → Status × Wire × W → Status × Session × W
  registered_read s (ok, b, w) =
      let (st, s') = finish_register (record s { wire = b }) in (st, s', w)
  registered_read s (pending, b, w) = (pending, record s { wire = b }, w)
  registered_read s (st, b, w) = (st, record s { wire = b; state = failed }, w)

  -- A failed write is returned as it is: the state stays, unlike after a failed read.
  abbrev registered_write : Session → Status × Wire × W → Status × Session × W
  registered_write s (ok, b, w) =
      registered_read (record s { wire = b }) (read_response t max_body b w)
  registered_write s (st, b, w) = (st, record s { wire = b }, w)

  unfoldable pub poll_registering : Session → W → Status × Session × W
  unfolding finish_register
  poll_registering s w =
      let (now, w') = t.millis w in
      if expired now s.deadline
      then (timeout, record s { state = failed }, w')
      else registered_write s (write_pending t s.wire w')

  abbrev unregistered_read : Session → Status × Wire × W → Status × Session × W
  unregistered_read s (ok, b, w) = (ok, record s { wire = b; state = closed }, w)
  unregistered_read s (pending, b, w) = (pending, record s { wire = b }, w)
  unregistered_read s (st, b, w) = (st, record s { wire = b; state = failed }, w)

  abbrev unregistered_write : Session → Status × Wire × W → Status × Session × W
  unregistered_write s (ok, b, w) =
      unregistered_read (record s { wire = b }) (read_response t max_body b w)
  unregistered_write s (st, b, w) = (st, record s { wire = b }, w)

  unfoldable pub poll_unregistering : Session → W → Status × Session × W
  poll_unregistering s w =
      let (now, w') = t.millis w in
      if expired now s.deadline
      then (timeout, record s { state = failed }, w')
      else unregistered_write s (write_pending t s.wire w')

  unfoldable pub poll : Session → W → Status × Session × W
  poll s w = elim s.state [
    | registering ↦ poll_registering s w
    | unregistering ↦ poll_unregistering s w
    | registered ↦ (ok, s, w)
    | closed ↦ (Status.closed, s, w)
    | failed ↦ (error, s, w)
    | idle ↦ (not_ready, s, w)
  ]
