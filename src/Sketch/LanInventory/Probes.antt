-- ===== src/Sketch/LanInventory/Probes.antt =====
-- The addresses that a run of the scan probes.
use esp32_control_logix.Base.{
  ℕ, zero, suc, ◌+◌, ◌-◌, ◌≤◌, ◌<◌, ◌≡◌, ◌≢◌, ◌⊎◌, inl, inr, refl, sym, ap, ◌∙◌, true, ◌||◌, List,
  [], ◌∷◌, ◌++◌, append-nil, append_assoc, ◌==◌, if◌then◌else◌, arith,
}
use esp32_control_logix.Address.{Address, number}
use esp32_control_logix.Address.Order.{IsAddress, same-number, number-lt}
use esp32_control_logix.Network.{Network}
use esp32_control_logix.Session
use esp32_control_logix.Sketch.LanInventory.{
  Inventory, Phase, wait_ethernet, scan, connect, register, query, close, done, next_host,
}
use esp32_control_logix.Sketch.LanInventory.Loop.{scan_step, loop}
use esp32_control_logix.Sketch.LanInventory.Calls.{
  Dial, logged, Stays, probe, dials, dials-append, loop-At,
}
use esp32_control_logix.Sketch.LanInventory.Hosts.{next_host-IsAddress, next_host-number}
use esp32_control_logix.Sketch.LanInventory.Scan.{
  IsScan, reached, Keeps, connect-Keeps, register-Keeps, query-Keeps, close-Keeps,
}

-- The `n` addresses after `v`, in order, without the gateway and the sketch's own.
abbrev pub targets : ℕ → ℕ → ℕ → ℕ → List ℕ
targets gateway self v zero = []
targets gateway self v (suc n) =
    let rest = targets gateway self (v + 1) n in
    if v + 1 == gateway || v + 1 == self then rest else (v + 1) ∷ rest

targets-append : (g s v m n : ℕ) → targets g s v (m + n) ≡ targets g s v m ++ targets g s (v + m) n
targets-append g s v zero n =
    let start : zero + n ≡ n = omega arith in
    let same_start : v ≡ v + zero = omega arith in
    ap (targets g s v) start ∙ ap (λ (k : ℕ). targets g s k n) same_start
targets-append g s v (suc m) n =
    let len : suc m + n ≡ suc (m + n) = omega arith in
    let place : v + 1 + m ≡ v + suc m = omega arith in
    let shift = ap (targets g s v) len in
    let deeper = ap (λ (k : ℕ). targets g s k n) place in
    ground (arith, shift, deeper, targets-append g s (v + 1) m n)

-- What a step adds.
abbrev pub Advances : ℕ → ℕ → Inventory → Inventory → Type 0
Advances gateway self l l' =
    ((reached l' ≡ reached l) × (probe l l' ≡ []))
    ⊎ ((reached l' ≡ reached l + 1) × (probe l l' ≡ targets gateway self (reached l) 1))

Keeps-step :
    (g s : ℕ) (l l' : Inventory)
    → IsScan l
    → l.phase ≢ scan
    → l.phase ≢ done
    → Keeps l l'
    → IsScan l' × Advances g s l l' × (l'.broadcast ≡ l.broadcast) × (l'.gateway ≡ l.gateway)
Keeps-step g s l l' v no_scan no_done k =
    (ground arith, ground arith, k.same_broadcast, k.same_gateway)

-- What `IsScan` says of the address reached.
reached-lt :
    (p : Phase) (l : Inventory)
    → l.phase ≡ p
    → IsScan l
    → (reached l < number l.broadcast) × (l.phase ≡ done → reached l + 1 ≡ number l.broadcast)
reached-lt done l e v =
    let last : reached l + 1 ≡ number l.broadcast = ground (arith, v.at_end e, v.above_zero) in
    (omega (arith, last), λ d. last)
reached-lt p l e v =
    let open_end : l.phase ≢ done = λ d. cc in
    let below = v.before_end open_end in (ground (arith, below, open_end), λ d. absurd (open_end d))

-- A step, and the steps after it.
advance-append :
    (g s : ℕ) (l l1 : Inventory) (r : ℕ) (ps : List ℕ)
    → Advances g s l l1
    → ps ≡ targets g s (reached l1) (r - reached l1)
    → reached l1 ≤ r
    → (probe l l1 ++ ps ≡ targets g s (reached l) (r - reached l)) × (reached l ≤ r)
advance-append g s l l1 r ps (inl (same_place, none_probed)) e h =
    let keep : probe l l1 ++ ps ≡ ps = ap (λ (xs : List ℕ). xs ++ ps) none_probed in
    let place = ap (λ (v : ℕ). targets g s v (r - v)) same_place in
    (keep ∙ e ∙ place, omega (arith, same_place, h))
advance-append g s l l1 r ps (inr (moved, first)) e h =
    let split = targets-append g s (reached l) 1 (r - reached l1) in
    let count : 1 + (r - reached l1) ≡ r - reached l = omega (arith, moved, h) in
    let both : probe l l1 ++ ps
        ≡ targets g s (reached l) 1 ++ targets g s (reached l + 1) (r - reached l1) =
      cc in
    (both ∙ sym split ∙ ap (targets g s (reached l)) count, omega (arith, moved, h))

module _ {C W : Type 0} (net : Network C W) (self : Address) where
  open net use {transport as t, eth_local_ip, tcp_connect, tcp_poll}

  scan_lem :
      (l : Inventory) (w : W)
      → IsAddress self
      → eth_local_ip w ≡ self
      → IsScan l
      → l.phase ≡ scan
      → let l' = (scan_step net l w).0 in
        IsScan l'
        × Advances (number l.gateway) (number self) l l'
        × (l'.broadcast ≡ l.broadcast)
        × (l'.gateway ≡ l.gateway)
  unfolding scan_step
  scan_lem l w is_self at_self v e =
      let ip = (next_host l.current_ip).1 in
      let (counted, more) = next_host-number l.current_ip v.current_address in
      let is_ip = next_host-IsAddress l.current_ip v.current_address in
      let below : number l.current_ip < number l.broadcast = v.before_end (λ d. cc) in
      let small = number-lt l.broadcast v.broadcast_address in
      let going : (next_host l.current_ip).0 ≡ true = ground (arith, more, below, small) in
      let next : number ip ≡ number l.current_ip + 1 = ground (arith, counted, going) in
      ground (
        arith,
        going,
        next,
        is_ip,
        below,
        same-number ip l.broadcast is_ip v.broadcast_address,
        same-number ip l.gateway is_ip v.gateway_address,
        same-number ip self is_ip is_self,
      )

  -- One `loop`, in any phase.
  loop_lem :
      (p : Phase) (l : Inventory) (w : W)
      → l.phase ≡ p
      → IsAddress self
      → eth_local_ip w ≡ self
      → IsScan l
      → let l' = (loop net l w).0 in
        IsScan l'
        × Advances (number l.gateway) (number self) l l'
        × (l'.broadcast ≡ l.broadcast)
        × (l'.gateway ≡ l.gateway)
  unfolding loop
  loop_lem scan l w e is_self at_self v = ground (arith, scan_lem l w is_self at_self v e)
  loop_lem connect l w e is_self at_self v =
      let k = connect-Keeps net l (tcp_poll w) e in
      ground (arith, Keeps-step (number l.gateway) (number self) l _ v (λ d. cc) (λ d. cc) k)
  loop_lem register l w e is_self at_self v =
      let k = register-Keeps net l (Session.poll t l.session w) e in
      ground (arith, Keeps-step (number l.gateway) (number self) l _ v (λ d. cc) (λ d. cc) k)
  loop_lem query l w e is_self at_self v =
      let k = query-Keeps net l w e in
      ground (arith, Keeps-step (number l.gateway) (number self) l _ v (λ d. cc) (λ d. cc) k)
  loop_lem close l w e is_self at_self v =
      let k = close-Keeps net l (Session.poll t l.session w) e in
      ground (arith, Keeps-step (number l.gateway) (number self) l _ v (λ d. cc) (λ d. cc) k)
  loop_lem done l w e is_self at_self v = ground arith
  loop_lem wait_ethernet l w e is_self at_self v = absurd (v.started e)

module _ {C W : Type 0} (net : Network C W) where
  -- The state after `n` loops.
  unfoldable pub after : ℕ → Inventory → W → Inventory × W
  after zero l w = (l, w)
  after (suc n) l w = let (l', w') = loop net l w in after n l' w'

module _ {C W : Type 0} (net : Network C W) (self : Address) {on : W → Type 0}
    (k : Stays net self on) where
  -- In any run of a scan that has started, while the interface keeps its address: the calls of
  -- `tcp.connect` are, each once and in order, for the addresses after the one reached at the start
  -- and up to the one reached at the end, without the gateway and the interface's own. No address
  -- from the broadcast address on is reached, and when the scan is done, all below it are.
  pub after-targets :
      (n : ℕ) (l : Inventory) (s : W × List Dial)
      → IsAddress self
      → on s.0
      → IsScan l
      → let (l', s') = after (logged net) n l s in
        (s'.1
          ≡ s.1
            ++ dials
                (targets (number l.gateway) (number self) (reached l) (reached l' - reached l)))
        × (reached l ≤ reached l')
        × (reached l' < number l.broadcast)
        × (l'.phase ≡ done → reached l' + 1 ≡ number l.broadcast)
  unfolding after
  after-targets zero l s is_self o v =
      let none_left : zero ≡ reached l - reached l = omega arith in
      let (below, at_end) = reached-lt l.phase l refl v in
      (
        sym (append-nil s.1)
            ∙ ap (λ (d : ℕ). s.1 ++ dials (targets (number l.gateway) (number self) (reached l) d))
                none_left,
        omega arith,
        below,
        at_end,
      )
  after-targets (suc n) l s is_self o v =
      let (l1, s1) = loop (logged net) l s in
      let start : l.phase ≢ wait_ethernet = λ e. v.started e in
      let (o1, called) = loop-At net self k l.phase l s refl start o in
      let at_self = k.has_address s.0 o in
      let (v1, moved, same_b, same_g) =
        loop_lem (logged net) self l.phase l s refl is_self at_self v in
      let (rest, up, below, at_end) = after-targets n l1 s1 is_self o1 v1 in
      let far = reached (after (logged net) n l1 s1).0 in
      let gone = targets (number l.gateway) (number self) (reached l1) (far - reached l1) in
      let aimed =
        ap
          (λ (a : Address).
            s1.1 ++ dials (targets (number a) (number self) (reached l1) (far - reached l1)))
          same_g in
      let (all, above) =
        advance-append (number l.gateway) (number self) l l1 far gone moved refl up in
      let same_end : number l1.broadcast ≡ number l.broadcast = ap number same_b in
      (
        rest
            ∙ aimed
            ∙ ap (λ (log : List Dial). log ++ dials gone) called
            ∙ append_assoc s.1 (dials (probe l l1)) (dials gone)
            ∙ ap (λ (ds : List Dial). s.1 ++ ds) (sym (dials-append (probe l l1) gone))
            ∙ ap (λ (ips : List ℕ). s.1 ++ dials ips) all,
        above,
        omega (arith, below, same_end),
        λ d. at_end d ∙ same_end,
      )
