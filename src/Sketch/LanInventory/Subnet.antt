-- ===== src/Sketch/LanInventory/Subnet.antt =====
-- A whole scan, from the moment that the interface is ready.
use esp32_control_logix.Base.{
  ℕ, suc, ◌+◌, ◌-◌, ◌^◌, ◌≤◌, ◌<◌, ◌≡◌, refl, ap, ◌∙◌, List, [], ◌++◌, arith,
}
use esp32_control_logix.Status.{Status, ok, error}
use esp32_control_logix.Address.{Address, number}
use esp32_control_logix.Address.Order.{IsAddress}
use esp32_control_logix.Network.{Network}
use esp32_control_logix.Sketch.LanInventory.{
  Inventory, wait_ethernet, scan, done, network_of, broadcast_of,
}
use esp32_control_logix.Sketch.LanInventory.Loop.{ethernet_polled, loop}
use esp32_control_logix.Sketch.LanInventory.Scan.{IsScan, reached, subnet-bounds}
use esp32_control_logix.Sketch.LanInventory.Calls.{Dial, logged, Stays, dials}
use esp32_control_logix.Sketch.LanInventory.Probes.{targets, after, after-targets}

module _ {C W : Type 0} (net : Network C W) (self : Address) {on : W → Type 0}
    (k : Stays net self on) where
  open net use {eth_poll}

  -- The first `loop` calls nothing of the TCP connection.
  ethernet_polled-on :
      (l : Inventory) (r : Status × (W × List Dial))
      → on r.1.0
      → let s' = (ethernet_polled (logged net) l r).1 in on s'.0 × (s'.1 ≡ r.1.1)
  ethernet_polled-on l (ok, (w, log)) o = (k.transport_keeps.millis_keeps w o, refl)
  ethernet_polled-on l (error, (w, log)) o = (o, refl)
  ethernet_polled-on l (st, (w, log)) o = (o, refl)

  first_loop-on :
      (l : Inventory) (w : W)
      → l.phase ≡ wait_ethernet
      → (eth_poll w).0 ≡ ok
      → on (eth_poll w).1
      → let s' = (loop (logged net) l (w, [])).1 in on s'.0 × (s'.1 ≡ [])
  unfolding loop
  first_loop-on l w e up o =
      ground (arith, e, ethernet_polled-on l ((eth_poll w).0, ((eth_poll w).1, [])) o)

module _ {C W : Type 0} (net : Network C W) (self mask : Address) where
  open net use {transport as t, eth_poll, eth_local_ip, eth_subnet_mask}

  -- The scan starts below the broadcast address, unless the mask leaves one address only.
  start-IsScan :
      (l : Inventory) (r : Status × W)
      → r.0 ≡ ok
      → eth_local_ip r.1 ≡ self
      → eth_subnet_mask r.1 ≡ mask
      → IsAddress self
      → IsAddress mask
      → number mask < 2 ^ 32 - 1
      → IsAddress l.gateway
      → let l' = (ethernet_polled net l r).0 in
        IsScan l'
        × (reached l' ≡ number (network_of self mask))
        × (l'.broadcast ≡ broadcast_of self mask)
        × (l'.gateway ≡ l.gateway)
        × (l'.phase ≡ scan)
  start-IsScan l (ok, w) up at_self at_mask is_self is_mask wide is_gateway =
      let (first, last, low, high, apart) = subnet-bounds self mask is_self is_mask in
      let below : number (network_of self mask) < number (broadcast_of self mask) =
        omega (arith, apart, wide) in
      ground (arith, first, last, below, at_self, at_mask)
  start-IsScan l (st, w) up at_self at_mask is_self is_mask wide is_gateway = cc

  first-loop :
      (l : Inventory) (w : W)
      → l.phase ≡ wait_ethernet
      → (eth_poll w).0 ≡ ok
      → eth_local_ip (eth_poll w).1 ≡ self
      → eth_subnet_mask (eth_poll w).1 ≡ mask
      → IsAddress self
      → IsAddress mask
      → number mask < 2 ^ 32 - 1
      → IsAddress l.gateway
      → let l' = (loop net l w).0 in
        IsScan l'
        × (reached l' ≡ number (network_of self mask))
        × (l'.broadcast ≡ broadcast_of self mask)
        × (l'.gateway ≡ l.gateway)
  unfolding loop
  first-loop l w e up at_self at_mask is_self is_mask wide is_gateway =
      ground
        (arith, e, start-IsScan l (eth_poll w) up at_self at_mask is_self is_mask wide is_gateway)

module _ {C W : Type 0} (net : Network C W) (self mask : Address) {on : W → Type 0}
    (k : Stays net self on) where
  open net use {eth_poll, eth_subnet_mask}

  -- From the moment that the interface is ready, with a mask of less than 32 bits and an address
  -- that it keeps: in `n` loops of the scan `tcp.connect` is called, with the port of EtherNet/IP
  -- and the timeout of the scan, for the addresses from the network address on, up to the one
  -- reached, each once and in order, without the network address, the gateway and the interface's
  -- own, and it is not called otherwise; the broadcast address is never reached, and when the scan
  -- is done, every address below it has been.
  pub subnet-probed :
      (n : ℕ) (l : Inventory) (w : W)
      → l.phase ≡ wait_ethernet
      → (eth_poll w).0 ≡ ok
      → on (eth_poll w).1
      → eth_subnet_mask (eth_poll w).1 ≡ mask
      → IsAddress self
      → IsAddress mask
      → number mask < 2 ^ 32 - 1
      → IsAddress l.gateway
      → let first = number (network_of self mask) in
        let last = number (broadcast_of self mask) in
        let (l', s') = after (logged net) (suc n) l (w, []) in
        (s'.1 ≡ dials (targets (number l.gateway) (number self) first (reached l' - first)))
        × (first ≤ reached l')
        × (reached l' < last)
        × (l'.phase ≡ done → reached l' + 1 ≡ last)
  unfolding after
  subnet-probed n l w e up o at_mask is_self is_mask wide is_gateway =
      let (l1, s1) = loop (logged net) l (w, []) in
      let first = number (network_of self mask) in
      let at_self = k.has_address (eth_poll w).1 o in
      let (started, at_first, same_last, same_gateway) =
        first-loop (logged net) self mask l (w, []) e up at_self at_mask is_self is_mask wide
          is_gateway in
      let (o1, silent) = first_loop-on net self k l w e up o in
      let (all, above, below, at_end) = after-targets net self k n l1 s1 is_self o1 started in
      let far = reached (after (logged net) n l1 s1).0 in
      let last : number l1.broadcast ≡ number (broadcast_of self mask) = ap number same_last in
      (
        all
            ∙ ap
                (λ (log : List Dial).
                  log
                  ++ dials
                      (targets (number l1.gateway) (number self) (reached l1) (far - reached l1)))
                silent
            ∙ ap
                (λ (a : Address).
                  dials (targets (number a) (number self) (reached l1) (far - reached l1)))
                same_gateway
            ∙ ap (λ (v : ℕ). dials (targets (number l.gateway) (number self) v (far - v))) at_first,
        omega (arith, above, at_first),
        omega (arith, below, last),
        λ d. at_end d ∙ last,
      )
