-- ===== src/PlcClient/Tags/Reading.antt =====
-- The sweep in which the one operation in flight ends.
use esp32_control_logix.Base.{
  ℕ, zero, suc, ◌+◌, ◌≡◌, refl, true, false, Bool, some, List, [], ◌∷◌, get_elem?, set, All,
  Bool-cases, inl, inr, arith,
}
use esp32_control_logix.Base.Int.{ℤ}
use esp32_control_logix.Status.{ok}
use esp32_control_logix.Transport.{Transport}
use esp32_control_logix.Message.{Message}
use esp32_control_logix.Tag.{Tag, is_busy, max_data_size}
use esp32_control_logix.Tag
use esp32_control_logix.PlcClient.{PlcClient, Slot, is_ready, used_slot, any_tag_busy, with_slot}
use esp32_control_logix.PlcClient.Tags.{Sweep, is_pending, visit, sweep, read}

-- A slot with no operation in flight and no callback to make.
abbrev pub IsQuiet : Slot → Type 0
IsQuiet s = (is_busy s.tag.state ≡ false) × (is_pending s.prev_status ≡ false)

-- A sweep that leaves the message and the world as given, and makes no call.
abbrev pub Silent : {W : Type 0} → Sweep W → Message → W → Type 0
Silent r m w = (r.msg ≡ m) × (r.world ≡ w) × (r.disconnected ≡ false) × (r.calls ≡ [])

module _ {W : Type 0} (t : Transport W) (callback : Bool) where
  visit-quiet :
      (i : ℕ) (s : Slot) (m : Message) (w : W)
      → IsQuiet s
      → (x : Slot) × (visit t callback i s m w
          ≡ record { slots = x ∷ []; msg = m; world = w; disconnected = false; calls = [] })
  unfolding visit Tag.poll
  visit-quiet i s m w q =
      let st = (Tag.poll t s.tag m w).0 in
      elim (Bool-cases s.in_use) [
        | inl used ↦ (record s { prev_status = st }, ground (arith, used, q))
        | inr free ↦ (s, ground (arith, free, q))
      ]

  sweep-quiet :
      (i : ℕ) (ss : List Slot) (m : Message) (w : W)
      → All IsQuiet ss
      → Silent (sweep t callback i ss m w) m w
  unfolding sweep
  sweep-quiet i [] m w q = (refl, refl, refl, refl)
  sweep-quiet i (s ∷ ss) m w q =
      let (x, first) = visit-quiet i s m w q.0 in
      ground (arith, first, sweep-quiet (i + 1) ss m w q.1)

  -- The one slot with an operation that ends in this sweep.
  visit-done :
      (i : ℕ) (s : Slot) (m : Message) (w : W)
      → s.in_use ≡ true
      → is_pending s.prev_status ≡ false
      → let (st, tag, m1, w1) = Tag.poll t s.tag m w in
        st ≡ ok
        → visit t callback i s m w ≡ record {
          slots = record s { tag = tag; prev_status = ok } ∷ [];
          msg = m1;
          world = w1;
          disconnected = false;
          calls = [];
        }
  unfolding visit
  visit-done i s m w used q e = ground (arith, used, q, e)

  pub sweep-done :
      (i k : ℕ) (ss : List Slot) (s s' : Slot) (m : Message) (w : W)
      → All IsQuiet ss
      → get_elem? ss k ≡ some s
      → s'.in_use ≡ true
      → is_pending s'.prev_status ≡ false
      → let (st, tag, m1, w1) = Tag.poll t s'.tag m w in
        let r = sweep t callback i (set ss k s') m w in
        st ≡ ok
        → Silent r m1 w1 × (get_elem? r.slots k ≡ some (record s' { tag = tag; prev_status = ok }))
  unfolding sweep
  sweep-done i k [] s s' m w q e used p = absurd cc
  sweep-done i zero (x ∷ xs) s s' m w q e used p = λ done.
      let (_, _, m1, w1) = Tag.poll t s'.tag m w in
      ground (arith, visit-done i s' m w used p done, sweep-quiet (i + 1) xs m1 w1 q.1)
  sweep-done i (suc k) (x ∷ xs) s s' m w q e used p = λ done.
      let (y, first) = visit-quiet i x m w q.0 in
      let later = sweep-done (i + 1) k xs s s' m w q.1 e used p done in ground (arith, first, later)

module _ {W : Type 0} (t : Transport W) where
  -- A read of a tag in use that starts.
  pub read-started_slot :
      (c : PlcClient) (w : W) (h : ℤ) (s : Slot) (timeout_ms : ℕ)
      → used_slot c.slots h ≡ some s
      → is_ready c ≡ true
      → any_tag_busy c.slots ≡ false
      → let (st, tag1, m1, w1) =
          Tag.read t s.tag c.msg w c.session.handle (some s.name) s.element_count timeout_ms in
        read t c w h timeout_ms
        ≡ (st, with_slot (record c { msg = m1 }) h (record s { tag = tag1 }), w1)
  unfolding read
  read-started_slot c w h s timeout_ms e up free = ground (arith, e, up, free)
