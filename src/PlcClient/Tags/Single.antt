-- ===== src/PlcClient/Tags/Single.antt =====
-- One operation at a time: the tags with an operation in flight, free slots included, are as many
-- as the exchanges of the shared message.
use esp32_control_logix.Base.{
  ℕ, zero, suc, ◌+◌, ◌≤◌, ◌≡◌, inl, inr, Bool, true, false, Option, some, List, [], ◌∷◌, ◌++◌,
  get_elem?, set, take, ◌-◌, Option-cases, arith,
}
use esp32_control_logix.Base.Int.{ℤ, pos, negsuc, ℤ-cases}
use esp32_control_logix.Status.{Status, not_ready}
use esp32_control_logix.Transport.{Transport}
use esp32_control_logix.Message.{Message, is_sending}
use esp32_control_logix.Message
use esp32_control_logix.Message.Flight.{flight}
use esp32_control_logix.Tag.{Tag, is_busy}
use esp32_control_logix.Tag
use esp32_control_logix.Tag.Exchange.{
  busy_bit, Together, read-Together, write-Together, poll-Together,
}
use esp32_control_logix.PlcClient.{PlcClient, Slot, used_slot, find_free_tag, index, max_tag_name}
use esp32_control_logix.PlcClient.Tags.{
  visit, sweep, create_tag, destroy_tag, abort_tag, tag_called, read, write,
}

abbrev pub busy_count : List Slot → ℕ
busy_count [] = 0
busy_count (s ∷ ss) = busy_bit s.tag + busy_count ss

-- The invariant.
abbrev pub IsSingle : PlcClient → Type 0
IsSingle c = busy_count c.slots ≡ flight c.msg

pub busy_count-set :
    (slots : List Slot) (i : ℕ) (s s' : Slot)
    → get_elem? slots i ≡ some s
    → busy_count (set slots i s') + busy_bit s.tag ≡ busy_count slots + busy_bit s'.tag
busy_count-set [] i s s' e = cc
busy_count-set (x ∷ xs) zero s s' e = ground arith
busy_count-set (x ∷ xs) (suc i) s s' e = omega (arith, busy_count-set xs i s s' e)

-- A handle that names a slot in use names an element of the list.
pub used_slot-get_elem? :
    (slots : List Slot) (h : ℤ) (s : Slot)
    → used_slot slots h ≡ some s
    → (get_elem? slots (index h) ≡ some s) × (s.in_use ≡ true)
unfolding used_slot
used_slot-get_elem? slots (negsuc n) s e = cc
used_slot-get_elem? slots (pos h) s e = ground arith

module _ {W : Type 0} (t : Transport W) where
  tag_called-IsSingle :
      (c : PlcClient) (h : ℤ) (s : Slot) (r : Status × Tag × Message × W)
      → IsSingle c
      → get_elem? c.slots (index h) ≡ some s
      → Together s.tag c.msg r
      → IsSingle (tag_called t c h s r).1
  tag_called-IsSingle c h s (st, tag, m, w) v e p =
      omega (arith, busy_count-set c.slots (index h) s (record s { tag = tag }) e, p, v)

  -- A `read` keeps the invariant, whatever it returns.
  pub read-IsSingle :
      (c : PlcClient) (w : W) (h : ℤ) (timeout_ms : ℕ)
      → IsSingle c
      → IsSingle (read t c w h timeout_ms).1
  unfolding read
  read-IsSingle c w h timeout_ms v = elim (Option-cases (used_slot c.slots h)) [
    | inl e ↦ ground (arith, e)
    | inr (s, e) ↦
        let r =
          Tag.read t s.tag c.msg w c.session.handle (some s.name) s.element_count timeout_ms in
        let moved =
          read-Together t s.tag c.msg w c.session.handle (some s.name) s.element_count timeout_ms in
        let called = tag_called-IsSingle c h s r v (used_slot-get_elem? c.slots h s e).0 moved in
        ground (arith, e, called)
  ]

  pub write-IsSingle :
      (c : PlcClient) (w : W) (h : ℤ) (timeout_ms : ℕ)
      → IsSingle c
      → IsSingle (write t c w h timeout_ms).1
  unfolding write
  write-IsSingle c w h timeout_ms v = elim (Option-cases (used_slot c.slots h)) [
    | inl e ↦ ground (arith, e)
    | inr (s, e) ↦
        let r =
          Tag.write t s.tag c.msg w c.session.handle (some s.name) s.element_count timeout_ms in
        let moved =
          write-Together t s.tag c.msg w c.session.handle (some s.name) s.element_count
            timeout_ms in
        let called = tag_called-IsSingle c h s r v (used_slot-get_elem? c.slots h s e).0 moved in
        ground (arith, e, called)
  ]

pub busy_bit-le :
    (slots : List Slot) (i : ℕ) (s : Slot)
    → get_elem? slots i ≡ some s
    → busy_bit s.tag ≤ busy_count slots
busy_bit-le [] i s e = cc
busy_bit-le (x ∷ xs) zero s e = ground arith
busy_bit-le (x ∷ xs) (suc i) s e = omega (arith, busy_bit-le xs i s e)

pub destroy_tag-IsSingle : (c : PlcClient) (h : ℤ) → IsSingle c → IsSingle (destroy_tag c h).1
unfolding destroy_tag
destroy_tag-IsSingle c h v = elim (Option-cases (used_slot c.slots h)) [
  | inl e ↦ ground (arith, e)
  | inr (s, e) ↦
      let at = used_slot-get_elem? c.slots h s e in
      ground (arith, e, busy_count-set c.slots (index h) s (record s { in_use = false }) at.0)
]

pub abort_tag-IsSingle : (c : PlcClient) (h : ℤ) → IsSingle c → IsSingle (abort_tag c h).1
unfolding abort_tag Tag.abort Message.abort
abort_tag-IsSingle c h v = elim (Option-cases (used_slot c.slots h)) [
  | inl e ↦ ground (arith, e)
  | inr (s, e) ↦
      let at = (used_slot-get_elem? c.slots h s e).0 in
      let s' : Slot = record s { tag = (Tag.abort s.tag c.msg).0; prev_status = not_ready } in
      ground
        (arith, e, busy_count-set c.slots (index h) s s' at, busy_bit-le c.slots (index h) s at)
]

-- The slot that `createTag` takes keeps its `Tag`.
pub create_tag-IsSingle :
    (c : PlcClient) (name : Option (List ℕ)) (n : ℕ) → IsSingle c → IsSingle (create_tag c name n).1
unfolding create_tag
create_tag-IsSingle c name n v = elim (ℤ-cases (find_free_tag c.slots)) [
  | inr (k, full) ↦ ground (arith, full)
  | inl (h, free) ↦ elim (Option-cases (get_elem? c.slots h)) [
    | inl e ↦ ground (arith, free, e)
    | inr (s, e) ↦
        let s' : Slot = record s {
          name = take (max_tag_name - 1) (Tag.characters name);
          element_count = n;
          prev_status = not_ready;
          in_use = true;
        } in
        ground (arith, free, e, busy_count-set c.slots h s s' e)
  ]
]

busy_count-append : (xs ys : List Slot) → busy_count (xs ++ ys) ≡ busy_count xs + busy_count ys
busy_count-append [] ys = omega arith
busy_count-append (x ∷ xs) ys = omega (arith, busy_count-append xs ys)

flight-le : (m : Message) → flight m ≤ 1
flight-le m = ground arith

module _ {W : Type 0} (t : Transport W) (callback : Bool) where
  visit-Together :
      (i : ℕ) (s : Slot) (m : Message) (w : W)
      → (is_busy s.tag.state ≡ true → flight m ≡ 1)
      → let r = visit t callback i s m w in
        busy_count r.slots + flight m ≡ busy_bit s.tag + flight r.msg
  unfolding visit
  visit-Together i s m w h = ground (arith, poll-Together t s.tag m w h)

  only :
      (s : Slot) (others : ℕ) (m : Message)
      → is_busy s.tag.state ≡ true
      → busy_bit s.tag + others ≤ flight m
      → flight m ≤ 1
      → flight m ≡ 1
  only s others m b h k = ground arith

  pub sweep-Together :
      (i : ℕ) (ss : List Slot) (m : Message) (w : W)
      → busy_count ss ≤ flight m
      → let r = sweep t callback i ss m w in
        busy_count r.slots + flight m ≡ busy_count ss + flight r.msg
  unfolding sweep
  sweep-Together i [] m w h = omega arith
  sweep-Together i (s ∷ ss) m w h =
      let first = visit t callback i s m w in
      let alone = λ (b : is_busy s.tag.state ≡ true). only s (busy_count ss) m b h (flight-le m) in
      let one = visit-Together i s m w alone in
      let rest = sweep-Together (i + 1) ss first.msg first.world (omega (arith, one, h)) in
      let last = sweep t callback (i + 1) ss first.msg first.world in
      omega (arith, one, rest, busy_count-append first.slots last.slots)
