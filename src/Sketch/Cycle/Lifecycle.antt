-- ===== src/Sketch/Cycle/Lifecycle.antt =====
-- The session through the phases.
use esp32_control_logix.Base.{ℕ, zero, suc, ◌≡◌, ◌≢◌, ◌⊎◌, refl, Bool, true, arith}
use esp32_control_logix.Status.{Status, ok, timeout, error}
use esp32_control_logix.Network.{Network}
use esp32_control_logix.Session
use esp32_control_logix.Session.{Session, State}
use esp32_control_logix.Session.Outcomes.{
  is_registered, is_free, is_opening, is_closing, Opened, Closing, poll-Opened, poll-Closing,
  open_session-is_opening, close-is_closing,
}
use esp32_control_logix.Sketch.Cycle.{
  Cycle, Phase, wait_ethernet, connect, open_session, operate, close_session, retry_wait,
  ethernet_polled, connect_polled, session_polled, close_polled, retry_step, loop, after,
}

abbrev pub permits : Phase → State → Bool
permits wait_ethernet st = is_free st
permits connect st = is_free st
permits open_session st = is_opening st
permits operate st = is_registered st
permits close_session st = is_closing st
permits retry_wait st = true

-- The invariant: the session is in a state that fits the phase, and in the phase that uses its
-- handle it is registered, with a handle other than 0.
pub record IsCycle {D : Type 0} (l : Cycle D) : Type 0 where
  pub fits : permits l.phase l.session.state ≡ true
  pub handle_set : l.phase ≡ operate → l.session.handle ≢ 0

-- What `start` may do: its own variables change.
pub record Starts {D W : Type 0} (start : Cycle D → W → Cycle D × W) : Type 0 where
  pub same_session : (l : Cycle D) (w : W) → (start l w).0.session ≡ l.session

-- What the sketch's step in `operate` may do: stay, give up, or close the session.
abbrev pub Worked : {D : Type 0} → Cycle D → Cycle D → Type 0
Worked l l' =
    ((l'.phase ≡ operate) × (l'.session ≡ l.session))
    ⊎ (l'.phase ≡ retry_wait)
    ⊎ ((l'.phase ≡ close_session) × (l'.session ≡ (Session.close l.session).1))

pub record Works {D W : Type 0} (step : Cycle D → W → Cycle D × W) : Type 0 where
  pub worked : (l : Cycle D) (w : W) → l.phase ≡ operate → Worked l (step l w).0

-- Any number of loops.
pub after-IsCycle :
    {D W : Type 0} (one : Cycle D → W → Cycle D × W)
    → ((l : Cycle D) (w : W) → IsCycle l → IsCycle (one l w).0)
    → (n : ℕ) (l : Cycle D) (w : W) → IsCycle l
    → IsCycle (after one n l w).0
unfolding after
after-IsCycle one keeps zero l w v = v
after-IsCycle one keeps (suc n) l w v =
    let (l', w') = one l w in after-IsCycle one keeps n l' w' (keeps l w v)

module _ {C W D : Type 0} (net : Network C W) where
  open net use {transport as t, tcp_poll, eth_poll}

  ethernet_polled-IsCycle :
      (cfg : C) (l : Cycle D) (r : Status × W)
      → l.phase ≡ wait_ethernet
      → IsCycle l
      → IsCycle (ethernet_polled net cfg l r).0
  unfolding ethernet_polled
  ethernet_polled-IsCycle cfg l (ok, w) e v = ground arith
  ethernet_polled-IsCycle cfg l (error, w) e v = ground arith
  ethernet_polled-IsCycle cfg l (st, w) e v = ground arith

  connect_polled-IsCycle :
      (l : Cycle D) (r : Status × W)
      → l.phase ≡ connect
      → IsCycle l
      → IsCycle (connect_polled net l r).0
  unfolding connect_polled
  connect_polled-IsCycle l (ok, w) e v =
      ground (arith, open_session-is_opening t l.session w 5000, v.fits)
  connect_polled-IsCycle l (timeout, w) e v = ground arith
  connect_polled-IsCycle l (error, w) e v = ground arith
  connect_polled-IsCycle l (st, w) e v = ground arith

  session_polled-IsCycle :
      (start : Cycle D → W → Cycle D × W) (l : Cycle D) (r : Status × Session × W)
      → Starts start
      → l.phase ≡ open_session
      → Opened r.0 r.1
      → IsCycle (session_polled net start l r).0
  unfolding session_polled
  session_polled-IsCycle start l (ok, s, w) h e o =
      ground (arith, h.same_session (record l { session = s }) w)
  session_polled-IsCycle start l (timeout, s, w) h e o = ground arith
  session_polled-IsCycle start l (error, s, w) h e o = ground arith
  session_polled-IsCycle start l (st, s, w) h e o = ground arith

  close_polled-IsCycle :
      (l : Cycle D) (r : Status × Session × W)
      → l.phase ≡ close_session
      → Closing r.0 r.1
      → IsCycle (close_polled net l r).0
  unfolding close_polled
  close_polled-IsCycle l (ok, s, w) e o = ground arith
  close_polled-IsCycle l (timeout, s, w) e o = ground arith
  close_polled-IsCycle l (error, s, w) e o = ground arith
  close_polled-IsCycle l (st, s, w) e o = ground arith

  retry_step-IsCycle : (l : Cycle D) (w : W) → l.phase ≡ retry_wait → IsCycle (retry_step net l w).0
  unfolding retry_step Session.abort
  retry_step-IsCycle l w e = ground arith

  Worked-IsCycle : (l l' : Cycle D) → l.phase ≡ operate → IsCycle l → Worked l l' → IsCycle l'
  Worked-IsCycle l l' e v o = ground (arith, v, close-is_closing l.session)

  module _ (cfg : C) (start step : Cycle D → W → Cycle D × W) where
    phase-IsCycle :
        (p : Phase) (l : Cycle D) (w : W)
        → l.phase ≡ p
        → Starts start
        → Works step
        → IsCycle l
        → IsCycle (loop net cfg start step l w).0
    unfolding loop
    phase-IsCycle wait_ethernet l w e h g v =
        ground (arith, ethernet_polled-IsCycle cfg l (eth_poll w) e v)
    phase-IsCycle connect l w e h g v = ground (arith, connect_polled-IsCycle l (tcp_poll w) e v)
    phase-IsCycle open_session l w e h g v =
        let r = Session.poll t l.session w in
        let opening : is_opening l.session.state ≡ true = ground (arith, v.fits) in
        ground (arith, session_polled-IsCycle start l r h e (poll-Opened t l.session w opening))
    phase-IsCycle operate l w e h g v =
        ground (arith, Worked-IsCycle l (step l w).0 e v (g.worked l w e))
    phase-IsCycle close_session l w e h g v =
        let closing : is_closing l.session.state ≡ true = ground (arith, v.fits) in
        ground (
          arith,
          close_polled-IsCycle l (Session.poll t l.session w) e
              (poll-Closing t l.session w closing),
        )
    phase-IsCycle retry_wait l w e h g v = ground (arith, retry_step-IsCycle l w e)

    -- One `loop` of a sketch.
    pub loop-IsCycle :
        Starts start
        → Works step
        → (l : Cycle D) (w : W) → IsCycle l
        → IsCycle (loop net cfg start step l w).0
    loop-IsCycle h g l w v = phase-IsCycle l.phase l w refl h g v
