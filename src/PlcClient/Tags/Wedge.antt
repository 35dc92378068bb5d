-- ===== src/PlcClient/Tags/Wedge.antt =====
-- A tag that is destroyed while its operation is in flight leaves the shared message in flight,
-- and then nobody polls it.
use esp32_control_logix.Base.{
  ℕ, zero, suc, ◌+◌, ◌≤◌, ◌≡◌, ◌≢◌, refl, inl, inr, Bool, true, false, ◌&&◌, ◌||◌, some, List, [],
  ◌∷◌, ◌++◌, get_elem?, set, Option-cases, arith, ◌∙◌,
}
use esp32_control_logix.Base.Int.{ℤ}
use esp32_control_logix.Status.{pending}
use esp32_control_logix.Transport.{Transport}
use esp32_control_logix.Message.{Message, is_sending}
use esp32_control_logix.Tag.{Tag, is_busy}
use esp32_control_logix.Tag
use esp32_control_logix.Tag.Exchange.{read-blocked, write-blocked}
use esp32_control_logix.PlcClient.{PlcClient, Slot, used_slot, any_tag_busy, index}
use esp32_control_logix.PlcClient.Tags.{visit, sweep, destroy_tag, read, write}
use esp32_control_logix.PlcClient.Tags.Single.{
  IsSingle, busy_count, used_slot-get_elem?, busy_bit-le,
}

none_busy : (ss : List Slot) → busy_count ss ≡ 0 → any_tag_busy ss ≡ false
unfolding any_tag_busy
none_busy [] e = refl
none_busy (s ∷ ss) e = ground (arith, none_busy ss)

freed-any_tag_busy :
    (ss : List Slot) (i : ℕ) (s : Slot)
    → get_elem? ss i ≡ some s
    → is_busy s.tag.state ≡ true
    → busy_count ss ≤ 1
    → any_tag_busy (set ss i (record s { in_use = false })) ≡ false
unfolding any_tag_busy
freed-any_tag_busy [] i s e b h = cc
freed-any_tag_busy (x ∷ xs) zero s e b h =
    let rest : busy_count xs ≡ 0 = ground arith in ground (arith, none_busy xs rest)
freed-any_tag_busy (x ∷ xs) (suc i) s e b h =
    let there : 1 ≤ busy_count xs = ground (arith, busy_bit-le xs i s e) in
    let here : is_busy x.tag.state ≡ false = ground arith in
    ground (arith, freed-any_tag_busy xs i s e b (omega (arith, h)))

-- No allocated tag is busy, and yet the shared message is in flight.
pub record IsWedged (c : PlcClient) : Type 0 where
  pub no_tag : any_tag_busy c.slots ≡ false
  pub in_flight : is_sending c.msg.state ≡ true

-- Under the invariant `IsSingle`, `destroyTag` of a tag in use with an operation in flight leaves
-- the client wedged: the message is in flight, and no tag in use is busy.
pub destroy_tag-IsWedged :
    (c : PlcClient) (h : ℤ) (s : Slot)
    → IsSingle c
    → used_slot c.slots h ≡ some s
    → is_busy s.tag.state ≡ true
    → IsWedged (destroy_tag c h).1
unfolding destroy_tag
destroy_tag-IsWedged c h s v e b =
    let at = (used_slot-get_elem? c.slots h s e).0 in
    let some_busy = busy_bit-le c.slots (index h) s at in
    let flies : is_sending c.msg.state ≡ true = ground (arith, some_busy) in
    let few : busy_count c.slots ≤ 1 = ground arith in
    let freed = freed-any_tag_busy c.slots (index h) s at b few in ground (arith, e, freed, flies)

module _ {W : Type 0} (t : Transport W) where
  -- On a wedged client `read` never returns `Pending`, whatever the handle: no read is started.
  pub read-IsWedged :
      (c : PlcClient) (w : W) (h : ℤ) (timeout_ms : ℕ)
      → IsWedged c
      → (read t c w h timeout_ms).0 ≢ pending
  unfolding read
  read-IsWedged c w h timeout_ms v = elim (Option-cases (used_slot c.slots h)) [
    | inl e ↦ ground (arith, e)
    | inr (s, e) ↦ ground (
      arith,
      e,
      read-blocked t s.tag c.msg w c.session.handle (some s.name) s.element_count timeout_ms
          v.in_flight,
    )
  ]

  -- On a wedged client `write` never returns `Pending`, whatever the handle: no write is started.
  pub write-IsWedged :
      (c : PlcClient) (w : W) (h : ℤ) (timeout_ms : ℕ)
      → IsWedged c
      → (write t c w h timeout_ms).0 ≢ pending
  unfolding write
  write-IsWedged c w h timeout_ms v = elim (Option-cases (used_slot c.slots h)) [
    | inl e ↦ ground (arith, e)
    | inr (s, e) ↦ ground (
      arith,
      e,
      write-blocked t s.tag c.msg w c.session.handle (some s.name) s.element_count timeout_ms
          v.in_flight,
    )
  ]

module _ {W : Type 0} (t : Transport W) (callback : Bool) where
  visit-idle :
      (i : ℕ) (s : Slot) (m : Message) (w : W)
      → s.in_use && is_busy s.tag.state ≡ false
      → let r = visit t callback i s m w in
        (r.msg ≡ m) × (any_tag_busy r.slots ≡ false) × (r.world ≡ w)
  unfolding visit any_tag_busy Tag.poll
  visit-idle i s m w e = ground arith

  any_tag_busy-append :
      (xs ys : List Slot) → any_tag_busy (xs ++ ys) ≡ any_tag_busy xs || any_tag_busy ys
  unfolding any_tag_busy
  any_tag_busy-append [] ys = refl
  any_tag_busy-append (x ∷ xs) ys = ground (arith, any_tag_busy-append xs ys)

  -- When no tag in use is busy, the loop over the tags in `poll` leaves the message and the
  -- transport as they are, and no tag in use busy: it never polls a message in flight.
  pub sweep-idle :
      (i : ℕ) (ss : List Slot) (m : Message) (w : W)
      → any_tag_busy ss ≡ false
      → let r = sweep t callback i ss m w in
        (r.msg ≡ m) × (any_tag_busy r.slots ≡ false) × (r.world ≡ w)
  unfolding sweep any_tag_busy
  sweep-idle i [] m w e = (refl, e, refl)
  sweep-idle i (s ∷ ss) m w e =
      let here : s.in_use && is_busy s.tag.state ≡ false = ground arith in
      let there : any_tag_busy ss ≡ false = ground arith in
      let first = visit t callback i s m w in
      let now = visit-idle i s m w here in
      let rest = sweep-idle (i + 1) ss first.msg first.world there in
      let later = sweep t callback (i + 1) ss first.msg first.world in
      let joined = any_tag_busy-append first.slots later.slots in
      (rest.0 ∙ now.0, ground (arith, joined, now.1, rest.1), rest.2 ∙ now.2)
