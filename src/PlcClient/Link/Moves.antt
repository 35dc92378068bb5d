-- ===== src/PlcClient/Link/Moves.antt =====
-- The states of the client as a machine: where one `poll` can lead, what it returns there, and the
-- callback that it makes.
use mathlib.Core.Path.{transport}
use esp32_control_logix.Base.{
  ◌≡◌, refl, sym, ap, ◌∙◌, inl, inr, Bool, true, false, List, [], ◌∷◌, ◌++◌, append-nil, Bool-cases,
  if◌then◌else◌, arith,
}
use esp32_control_logix.Status.{Status, pending, ok, not_ready, timeout, error}
use esp32_control_logix.Transport.{deadline_after, expired}
use esp32_control_logix.Network.{Network}
use esp32_control_logix.Session
use esp32_control_logix.Session.{Session}
use esp32_control_logix.PlcClient.{
  PlcClient, State, idle, ethernet, connecting, registering, ready, disconnecting, failed, Call,
  state_changed, notify,
}
use esp32_control_logix.PlcClient.Tags.{is_pending, Sweep, sweep}
use esp32_control_logix.PlcClient.Tags.Calls.{state_calls, state_calls-append, sweep-no_state_call}
use esp32_control_logix.PlcClient.Link.{
  start_connect, poll_ethernet, session_opened, tcp_polled, poll_connecting, session_polled,
  poll_registering, finish_sweep, poll_ready, close_polled, poll_disconnecting, poll,
}

-- The client is on its way to a session.
abbrev pub is_trying : State → Bool
is_trying ethernet = true
is_trying connecting = true
is_trying registering = true
is_trying st = false

abbrev pub is_waiting : State → Bool
is_waiting disconnecting = true
is_waiting st = is_trying st

-- The table: the state before, the state after, the status returned and the callbacks on the state.
pub data Moves : State → State → Status → List Call → Type 0 where
  waits : {s : State} → is_waiting s ≡ true → Moves s s pending []
  linked : Moves ethernet ethernet ok []
  starts : Moves ethernet connecting pending []
  opens : Moves connecting registering pending []
  comes_up : Moves registering ready ok (state_changed ok ∷ [])
  serves : Moves ready ready ok []
  is_lost : Moves ready idle Status.closed (state_changed Status.closed ∷ [])
  leaves : Moves disconnecting idle ok (state_changed Status.closed ∷ [])
  fails :
      {s : State} {st : Status} → is_trying s ≡ true → is_pending st ≡ false → Moves s failed st []
  is_dead : Moves failed failed error []
  rests : Moves idle idle not_ready []

-- A `poll` from the state `s` that follows the table, and makes the callbacks of the table, if one
-- is set, after those made before.
abbrev pub Follows : {W : Type 0} → State → PlcClient → Status × PlcClient × W → Type 0
Follows s c r =
    (made : List Call) × Moves s r.1.state r.0 made
    × (state_calls r.1.calls ≡ state_calls c.calls ++ (if c.state_callback then made else []))

-- No callback is made.
no_call :
    (c : PlcClient)
    → state_calls c.calls ≡ state_calls c.calls ++ (if c.state_callback then [] else [])
no_call c = ground (arith, append-nil (state_calls c.calls))

notify-calls :
    (c : PlcClient) (st : Status)
    → state_calls (notify c st).calls
      ≡ state_calls c.calls ++ (if c.state_callback then state_changed st ∷ [] else [])
unfolding notify
notify-calls c st =
    ground
      (arith, append-nil (state_calls c.calls), state_calls-append c.calls (state_changed st ∷ []))

notify-state : (c : PlcClient) (st : Status) → (notify c st).state ≡ c.state
unfolding notify
notify-state c st = ground arith

module _ {C W : Type 0} (net : Network C W) where
  open net use {transport as t, eth_poll, tcp_connect, tcp_poll}

  start_connect-Follows :
      (c c' : PlcClient) (r : Status × W)
      → c'.calls ≡ c.calls
      → Follows ethernet c (start_connect net c' r)
  unfolding start_connect
  start_connect-Follows c c' (pending, w) e = ([], starts, ap state_calls e ∙ no_call c)
  start_connect-Follows c c' (st, w) e = ([], fails refl refl, ap state_calls e ∙ no_call c)

  ethernet-Follows :
      (c : PlcClient) (r : Status × W)
      → c.state ≡ ethernet
      → Follows ethernet c (poll_ethernet net c r)
  unfolding poll_ethernet
  ethernet-Follows c (ok, w) e = elim (Bool-cases c.want_connect) [
    | inl wanted ↦
        let c' : PlcClient = record c {
          want_connect = false;
          deadline = deadline_after (t.millis w).0 c.connect_timeout;
        } in
        rw wanted (start_connect-Follows c c' _ refl)
    | inr unwanted ↦ rw (unwanted, e) ([], linked, no_call c)
  ]
  ethernet-Follows c (error, w) e = ([], fails refl refl, no_call c)
  ethernet-Follows c (st, w) e = ([], rw e (waits refl), no_call c)

  session_opened-Follows :
      (c : PlcClient) (r : Status × Session × W) → Follows connecting c (session_opened net c r)
  session_opened-Follows c (pending, s, w) = ([], opens, no_call c)
  session_opened-Follows c (st, s, w) = ([], fails refl refl, no_call c)

  tcp_polled-Follows :
      (c : PlcClient) (r : Status × W)
      → c.state ≡ connecting
      → Follows connecting c (tcp_polled net c r)
  tcp_polled-Follows c (ok, w) e = session_opened-Follows c _
  tcp_polled-Follows c (timeout, w) e = ([], fails refl refl, no_call c)
  tcp_polled-Follows c (error, w) e = ([], fails refl refl, no_call c)
  tcp_polled-Follows c (st, w) e = ([], rw e (waits refl), no_call c)

  connecting-Follows :
      (c : PlcClient) (w : W)
      → c.state ≡ connecting
      → Follows connecting c (poll_connecting net c w)
  unfolding poll_connecting
  connecting-Follows c w e = elim (Bool-cases (expired (t.millis w).0 c.deadline)) [
    | inl late ↦ rw late ([], fails refl refl, no_call c)
    | inr early ↦ rw early (tcp_polled-Follows c (tcp_poll (t.millis w).1) e)
  ]

  session_polled-Follows :
      (c : PlcClient) (r : Status × Session × W)
      → c.state ≡ registering
      → Follows registering c (session_polled net c r)
  session_polled-Follows c (ok, s, w) e =
      let up : PlcClient = record c { session = s; state = ready } in
      (state_changed ok ∷ [], rw (notify-state up ok) comes_up, notify-calls up ok)
  session_polled-Follows c (timeout, s, w) e = ([], fails refl refl, no_call c)
  session_polled-Follows c (error, s, w) e = ([], fails refl refl, no_call c)
  session_polled-Follows c (st, s, w) e = ([], rw e (waits refl), no_call c)

  registering-Follows :
      (c : PlcClient) (w : W)
      → c.state ≡ registering
      → Follows registering c (poll_registering net c w)
  unfolding poll_registering
  registering-Follows c w e = elim (Bool-cases (expired (t.millis w).0 c.deadline)) [
    | inl late ↦ rw late ([], fails refl refl, no_call c)
    | inr early ↦ rw early (session_polled-Follows c (Session.poll t c.session (t.millis w).1) e)
  ]

  close_polled-Follows :
      (c : PlcClient) (r : Status × Session × W)
      → c.state ≡ disconnecting
      → Follows disconnecting c (close_polled net c r)
  close_polled-Follows c (ok, s, w) e =
      let down : PlcClient = record c { session = s; state = idle } in
      (
        state_changed Status.closed ∷ [],
        rw (notify-state down Status.closed) leaves,
        notify-calls down Status.closed,
      )
  close_polled-Follows c (Status.closed, s, w) e =
      let down : PlcClient = record c { session = s; state = idle } in
      (
        state_changed Status.closed ∷ [],
        rw (notify-state down Status.closed) leaves,
        notify-calls down Status.closed,
      )
  close_polled-Follows c (st, s, w) e = ([], rw e (waits refl), no_call c)

  finish_sweep-Follows :
      (c : PlcClient) (r : Sweep W)
      → c.state ≡ ready
      → state_calls r.calls ≡ []
      → Follows ready c (finish_sweep net c r)
  unfolding finish_sweep
  finish_sweep-Follows c r e none_made =
      let kept : state_calls (c.calls ++ r.calls) ≡ state_calls c.calls =
        state_calls-append c.calls r.calls
        ∙ ap (λ ks. state_calls c.calls ++ ks) none_made
        ∙ append-nil (state_calls c.calls) in
      let swept : PlcClient = record c {
        slots = r.slots;
        msg = r.msg;
        calls = c.calls ++ r.calls;
      } in
      let down : PlcClient = record swept { session = Session.abort c.session; state = idle } in
      elim (Bool-cases r.disconnected) [
        | inl gone ↦ rw gone (
          state_changed Status.closed ∷ [],
          rw (notify-state down Status.closed) is_lost,
          notify-calls down Status.closed
              ∙ ap (λ ks. ks ++ (if c.state_callback then state_changed Status.closed ∷ [] else []))
                  kept,
        )
        | inr still ↦ rw (still, e) ([], serves, kept ∙ no_call c)
      ]

  -- The body of `poll` in a given state.
  abbrev poll_at : State → PlcClient → W → Status × PlcClient × W
  poll_at ethernet c w = poll_ethernet net c (eth_poll w)
  poll_at connecting c w = poll_connecting net c w
  poll_at registering c w = poll_registering net c w
  poll_at ready c w = poll_ready net c w
  poll_at disconnecting c w = poll_disconnecting net c w
  poll_at failed c w = (error, c, w)
  poll_at idle c w = (not_ready, c, w)

  poll-poll_at : (c : PlcClient) (w : W) → poll net c w ≡ poll_at c.state c w
  unfolding poll
  poll-poll_at c w = ground arith

  poll_at-Follows :
      (st : State) (c : PlcClient) (w : W) → c.state ≡ st → Follows st c (poll_at st c w)
  unfolding poll_ready poll_disconnecting
  poll_at-Follows ethernet c w e = ethernet-Follows c (eth_poll w) e
  poll_at-Follows connecting c w e = connecting-Follows c w e
  poll_at-Follows registering c w e = registering-Follows c w e
  poll_at-Follows ready c w e =
      finish_sweep-Follows c (sweep t c.tag_callback 0 c.slots c.msg w) e
        (sweep-no_state_call t c.tag_callback 0 c.slots c.msg w)
  poll_at-Follows disconnecting c w e = close_polled-Follows c (Session.poll t c.session w) e
  poll_at-Follows failed c w e = ([], rw e is_dead, no_call c)
  poll_at-Follows idle c w e = ([], rw e rests, no_call c)

  -- The `poll` of a client, in every state and over every network, follows the table: it goes from
  -- no network over the TCP connection and the registration to ready, and leaves out none of them;
  -- it goes from each of the first three to failed, and never leaves that; it goes from ready to
  -- idle only with `Closed`, and from disconnecting to idle only with `Ok`. It returns `Pending`
  -- only where the client is on its way to a session or disconnecting. If a state callback is set,
  -- it calls it once when the client becomes ready (`Ok`) and once when the client becomes idle
  -- (`Closed`), and otherwise never.
  pub poll-Follows : (c : PlcClient) (w : W) → Follows c.state c (poll net c w)
  poll-Follows c w =
      transport (ap (Follows c.state c) (sym (poll-poll_at c w))) (poll_at-Follows c.state c w refl)
