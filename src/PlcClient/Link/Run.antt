-- ===== src/PlcClient/Link/Run.antt =====
-- Runs of a client: the calls that a sketch makes, in any order, and what holds after all of them.
use esp32_control_logix.Base.{ℕ, ◌≡◌, Option, some, List, arith}
use esp32_control_logix.Base.Int.{ℤ}
use esp32_control_logix.Status.{Status}
use esp32_control_logix.Network.{Network}
use esp32_control_logix.Tag.{Tag}
use esp32_control_logix.PlcClient.{PlcClient, Slot, notify, used_slot, with_slot, index}
use esp32_control_logix.PlcClient.Tags.{create_tag, destroy_tag, abort_tag, read, write}
use esp32_control_logix.PlcClient.Tags.Single.{
  IsSingle, busy_count-set, used_slot-get_elem?, sweep-Together, read-IsSingle, write-IsSingle,
  create_tag-IsSingle, destroy_tag-IsSingle, abort_tag-IsSingle,
}
use esp32_control_logix.PlcClient.Link.{
  begin, connect, disconnect, poll, start_connect, poll_ethernet, poll_connecting, poll_registering,
  finish_sweep, poll_ready, poll_disconnecting,
}

-- The slots and the shared message are the same.
abbrev Keeps : PlcClient → PlcClient → Type 0
Keeps c c' = (c'.slots ≡ c.slots) × (c'.msg ≡ c.msg)

Keeps-IsSingle : (c c' : PlcClient) → Keeps c c' → IsSingle c → IsSingle c'
Keeps-IsSingle c c' k v = ground (arith, k, v)

module _ {C W : Type 0} (net : Network C W) where
  open net use {transport as t, eth_begin, eth_poll, eth_ready, tcp_connect, tcp_poll, tcp_close}

  start_connect-Keeps : (c : PlcClient) (r : Status × W) → Keeps c (start_connect net c r).1
  unfolding start_connect
  start_connect-Keeps c (st, w) = ground arith

  connect-Keeps :
      (c : PlcClient) (w : W) (ip port timeout_ms : ℕ)
      → Keeps c (connect net c w ip port timeout_ms).1
  unfolding connect start_connect
  connect-Keeps c w ip port timeout_ms = ground arith

  disconnect-Keeps : (c : PlcClient) (w : W) → Keeps c (disconnect net c w).1
  unfolding disconnect
  disconnect-Keeps c w = ground arith

  ethernet-Keeps : (c : PlcClient) (r : Status × W) → Keeps c (poll_ethernet net c r).1
  unfolding poll_ethernet start_connect
  ethernet-Keeps c (st, w) = ground arith

  connecting-Keeps : (c : PlcClient) (w : W) → Keeps c (poll_connecting net c w).1
  unfolding poll_connecting
  connecting-Keeps c w = ground arith

  registering-Keeps : (c : PlcClient) (w : W) → Keeps c (poll_registering net c w).1
  unfolding poll_registering notify
  registering-Keeps c w = ground arith

  disconnecting-Keeps : (c : PlcClient) (w : W) → Keeps c (poll_disconnecting net c w).1
  unfolding poll_disconnecting notify
  disconnecting-Keeps c w = ground arith

  ready-IsSingle : (c : PlcClient) (w : W) → IsSingle c → IsSingle (poll_ready net c w).1
  unfolding poll_ready finish_sweep notify
  ready-IsSingle c w v =
      ground (arith, sweep-Together t c.tag_callback 0 c.slots c.msg w (omega (arith, v)), v)

  -- If the slots with an operation in flight, free slots included, are as many as the exchanges of
  -- the one shared message, then they still are after a `poll` in any state.
  pub poll-IsSingle : (c : PlcClient) (w : W) → IsSingle c → IsSingle (poll net c w).1
  unfolding poll
  poll-IsSingle c w v = ground (
    arith,
    ethernet-Keeps c (eth_poll w),
    connecting-Keeps c w,
    registering-Keeps c w,
    disconnecting-Keeps c w,
    ready-IsSingle c w v,
    v,
  )

  -- One call of the sketch, on the client and on the world, or a change of the data of a tag that
  -- it holds: the accessors change the buffer, its length and its type only.
  pub data Step : PlcClient → W → PlcClient → W → Type 0 where
    begun : {c : PlcClient} {w : W} (cfg : C) → Step c w (begin net c w cfg).1 (begin net c w cfg).2
    connected :
        {c : PlcClient} {w : W} (ip port timeout_ms : ℕ)
        → Step c w (connect net c w ip port timeout_ms).1 (connect net c w ip port timeout_ms).2
    disconnected : {c : PlcClient} {w : W} → Step c w (disconnect net c w).1 (disconnect net c w).2
    polled : {c : PlcClient} {w : W} → Step c w (poll net c w).1 (poll net c w).2
    tag_created :
        {c : PlcClient} {w : W} (name : Option (List ℕ)) (n : ℕ)
        → Step c w (create_tag c name n).1 w
    tag_destroyed : {c : PlcClient} {w : W} (h : ℤ) → Step c w (destroy_tag c h).1 w
    tag_aborted : {c : PlcClient} {w : W} (h : ℤ) → Step c w (abort_tag c h).1 w
    tag_read :
        {c : PlcClient} {w : W} (h : ℤ) (timeout_ms : ℕ)
        → Step c w (read t c w h timeout_ms).1 (read t c w h timeout_ms).2
    tag_written :
        {c : PlcClient} {w : W} (h : ℤ) (timeout_ms : ℕ)
        → Step c w (write t c w h timeout_ms).1 (write t c w h timeout_ms).2
    edited :
        {c : PlcClient} {w : W} (h : ℤ) (s : Slot) (tag : Tag)
        → used_slot c.slots h ≡ some s
        → tag.state ≡ s.tag.state
        → Step c w (with_slot c h (record s { tag = tag })) w

  -- Any number of calls.
  pub data Run : PlcClient → W → PlcClient → W → Type 0 where
    stay : {c : PlcClient} {w : W} → Run c w c w
    call : {c c1 c2 : PlcClient} {w w1 w2 : W} → Step c w c1 w1 → Run c1 w1 c2 w2 → Run c w c2 w2

  step-IsSingle :
      {c : PlcClient} {w : W} {c' : PlcClient} {w' : W} → Step c w c' w' → IsSingle c → IsSingle c'
  unfolding begin
  step-IsSingle {c} {w} (begun cfg) v = v
  step-IsSingle {c} {w} (connected ip port timeout_ms) v =
      Keeps-IsSingle c (connect net c w ip port timeout_ms).1 (connect-Keeps c w ip port timeout_ms)
        v
  step-IsSingle {c} {w} disconnected v =
      Keeps-IsSingle c (disconnect net c w).1 (disconnect-Keeps c w) v
  step-IsSingle {c} {w} polled v = poll-IsSingle c w v
  step-IsSingle {c} {w} (tag_created name n) v = create_tag-IsSingle c name n v
  step-IsSingle {c} {w} (tag_destroyed h) v = destroy_tag-IsSingle c h v
  step-IsSingle {c} {w} (tag_aborted h) v = abort_tag-IsSingle c h v
  step-IsSingle {c} {w} (tag_read h timeout_ms) v = read-IsSingle t c w h timeout_ms v
  step-IsSingle {c} {w} (tag_written h timeout_ms) v = write-IsSingle t c w h timeout_ms v
  step-IsSingle {c} {w} (edited h s tag e same) v =
      let at = (used_slot-get_elem? c.slots h s e).0 in
      ground (arith, busy_count-set c.slots (index h) s (record s { tag = tag }) at, same, v)

  -- After any run of calls from a client whose slots with an operation in flight, free slots
  -- included, are as many as the exchanges of its one shared message (none or one), they still are:
  -- at most one operation is under way, and one is exactly when the message is in flight.
  pub Run-IsSingle : {c c' : PlcClient} {w w' : W} → Run c w c' w' → IsSingle c → IsSingle c'
  Run-IsSingle stay v = v
  Run-IsSingle (call s r) v = Run-IsSingle r (step-IsSingle s v)
