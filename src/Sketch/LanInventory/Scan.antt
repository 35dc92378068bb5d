-- ===== src/Sketch/LanInventory/Scan.antt =====
-- One `loop` of the scan: what moves the current address, and when an address is probed.
use esp32_control_logix.Base.{
  ℕ, ◌+◌, ◌-◌, ◌^◌, ◌≤◌, ◌<◌, ◌≡◌, ◌≢◌, Bool, true, false, if◌then◌else◌, arith,
}
use esp32_control_logix.Base.Masks.{bit_and-le, bit_or-complement, le-bit_or}
use esp32_control_logix.Status.{Status, ok, timeout, error, closed}
use esp32_control_logix.Address.{Address, number}
use esp32_control_logix.Address.Order.{IsAddress}
use esp32_control_logix.Network.{Network}
use esp32_control_logix.Session.{Session}
use esp32_control_logix.Message
use esp32_control_logix.Tag
use esp32_control_logix.Sketch.LanInventory.{
  Inventory, Phase, wait_ethernet, connect, register, query, close, done, network_of, broadcast_of,
}
use esp32_control_logix.Sketch.LanInventory.Loop.{
  connect_polled, register_polled, query_polled, query_step, start_query, finish_query,
  close_polled,
}

octet_lem :
    (a m : ℕ)
    → a < 2 ^ 8
    → m < 2 ^ 8
    → let low = Prim.Native.Nat.bit_and a m in
      let high = Prim.Native.Nat.bit_or a (255 - m) in
      (high ≡ low + (255 - m)) × (low ≤ a) × (a ≤ high) × (high < 2 ^ 8)
octet_lem a m h g =
    let b = le-bit_or 8 a (255 - m) h (omega arith) in
    (bit_or-complement 8 a m h g, bit_and-le 8 a m h, b.0, b.1)

-- For an address and a mask, whatever the mask is, the two ends are addresses, the address lies
-- between them, and they lie as far apart as the mask leaves values: a /24 has 255.
pub subnet-bounds :
    (ip mask : Address)
    → IsAddress ip
    → IsAddress mask
    → let first = network_of ip mask in
      let last = broadcast_of ip mask in
      IsAddress first
      × IsAddress last
      × (number first ≤ number ip)
      × (number ip ≤ number last)
      × (number last ≡ number first + (2 ^ 32 - 1 - number mask))
unfolding network_of broadcast_of number
subnet-bounds ip mask v w =
    let b0 = octet_lem ip.o0 mask.o0 v.octet0 w.octet0 in
    let b1 = octet_lem ip.o1 mask.o1 v.octet1 w.octet1 in
    let b2 = octet_lem ip.o2 mask.o2 v.octet2 w.octet2 in
    let b3 = octet_lem ip.o3 mask.o3 v.octet3 w.octet3 in omega (arith, b0, b1, b2, b3, v, w)

abbrev pub is_done : Phase → Bool
is_done done = true
is_done p = false

-- The scan is under way, or has ended at the broadcast address.
pub record IsScan (l : Inventory) : Type 0 where
  pub started : l.phase ≢ wait_ethernet
  pub above_zero : 0 < number l.broadcast
  pub current_address : IsAddress l.current_ip
  pub broadcast_address : IsAddress l.broadcast
  pub gateway_address : IsAddress l.gateway
  pub before_end : l.phase ≢ done → number l.current_ip < number l.broadcast
  pub at_end : l.phase ≡ done → number l.current_ip ≡ number l.broadcast

-- The last address that the scan has dealt with.
abbrev pub reached : Inventory → ℕ
reached l = number l.current_ip - (if is_done l.phase then 1 else 0)

-- A step that leaves the addresses alone and does not end the scan.
pub record Keeps (l l' : Inventory) : Type 0 where
  pub same_current : l'.current_ip ≡ l.current_ip
  pub same_broadcast : l'.broadcast ≡ l.broadcast
  pub same_gateway : l'.gateway ≡ l.gateway
  pub not_done : l'.phase ≢ done
  pub still_started : l'.phase ≢ wait_ethernet

module _ {C W : Type 0} (net : Network C W) where
  open net use {transport as t, eth_local_ip, tcp_connect, tcp_poll}

  pub connect-Keeps :
      (l : Inventory) (r : Status × W) → l.phase ≡ connect → Keeps l (connect_polled net l r).0
  connect-Keeps l (ok, w) e = ground arith
  connect-Keeps l (timeout, w) e = ground arith
  connect-Keeps l (error, w) e = ground arith
  connect-Keeps l (closed, w) e = ground arith
  connect-Keeps l (st, w) e = ground arith

  pub register-Keeps :
      (l : Inventory) (r : Status × Session × W)
      → l.phase ≡ register
      → Keeps l (register_polled net l r).0
  register-Keeps l (ok, s, w) e = ground arith
  register-Keeps l (timeout, s, w) e = ground arith
  register-Keeps l (error, s, w) e = ground arith
  register-Keeps l (st, s, w) e = ground arith

  pub close-Keeps :
      (l : Inventory) (r : Status × Session × W)
      → l.phase ≡ close
      → Keeps l (close_polled net l r).0
  close-Keeps l (ok, s, w) e = ground arith
  close-Keeps l (timeout, s, w) e = ground arith
  close-Keeps l (error, s, w) e = ground arith
  close-Keeps l (closed, s, w) e = ground arith
  close-Keeps l (st, s, w) e = ground arith

  start_query-Keeps : (l : Inventory) (w : W) → l.phase ≡ query → Keeps l (start_query net l w).0
  unfolding start_query
  start_query-Keeps l w e = ground arith

  finish_query-Keeps : (l : Inventory) (w : W) → l.phase ≡ query → Keeps l (finish_query net l w).0
  unfolding finish_query
  finish_query-Keeps l w e = ground arith

  query_polled-Keeps :
      (l : Inventory) (st : Status) (w : W) → l.phase ≡ query → Keeps l (query_polled net l st w).0
  query_polled-Keeps l ok w e = finish_query-Keeps l w e
  query_polled-Keeps l timeout w e = ground (arith, finish_query-Keeps l w e)
  query_polled-Keeps l error w e = ground (arith, finish_query-Keeps l w e)
  query_polled-Keeps l closed w e = ground (arith, finish_query-Keeps l w e)
  query_polled-Keeps l st w e = ground arith

  pub query-Keeps : (l : Inventory) (w : W) → l.phase ≡ query → Keeps l (query_step net l w).0
  unfolding query_step
  query-Keeps l w e =
      let (mode_st, tag, mode_msg, mode_w) = Tag.poll t l.tag l.msg w in
      let (msg_st, msg, msg_w) = Message.poll t l.msg w in
      let started = start_query-Keeps l w e in
      let mode = query_polled-Keeps (record l { tag = tag; msg = mode_msg }) mode_st mode_w e in
      let identity = query_polled-Keeps (record l { msg = msg }) msg_st msg_w e in
      ground (arith, started, mode, identity)
