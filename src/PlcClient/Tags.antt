-- ===== src/PlcClient/Tags.antt =====
-- The tag registry of `PlcClient` and the operations on a tag.

pub mod Pool
pub mod Calls
pub mod Reading
pub mod Single
pub mod Wedge
use esp32_control_logix.Base.{
  ℕ, ◌+◌, ◌-◌, ◌<◌, Bool, true, false, not, ◌&&◌, ◌||◌, Option, none, some, List, [], ◌∷◌, ◌++◌,
  length, take, get_elem?, ltb, leb, ◌==◌, if◌then◌else◌,
}
use esp32_control_logix.Base.Int.{ℤ, pos, negsuc}
use esp32_control_logix.Status.{
  Status, pending, ok, busy, not_ready, no_memory, invalid_arg, to_int, closed,
}
use esp32_control_logix.Transport.{Transport}
use esp32_control_logix.Message.{Message}
use esp32_control_logix.Tag.{Tag}
use esp32_control_logix.Tag
use esp32_control_logix.PlcClient.{
  PlcClient, Slot, Call, tag_done, max_tag_name, find_free_tag, any_tag_busy, used_slot, index,
  with_slot, is_ready,
}

-- `name == nullptr || name[0] == 0 || strlen(name) >= kMaxTagName`.
abbrev bad_tag_name : Option (List ℕ) → Bool
bad_tag_name none = true
bad_tag_name (some name) = length name == 0 || leb max_tag_name (length name)

-- The slot is written; the `Tag` object in it stays as the last user left it.
pub create_tag : PlcClient → Option (List ℕ) → ℕ → ℤ × PlcClient
create_tag c name element_count =
    if bad_tag_name name then (to_int invalid_arg, c) else (elim (find_free_tag c.slots) [
      | negsuc n ↦ (to_int no_memory, c)
      | pos h ↦ elim (get_elem? c.slots h) [
        | none ↦ (to_int no_memory, c)
        | some s ↦ (
          pos h,
          with_slot c (pos h) (record s {
            name = take (max_tag_name - 1) (Tag.characters name);
            element_count = element_count;
            prev_status = not_ready;
            in_use = true;
          }),
        )
      ]
    ])

pub destroy_tag : PlcClient → ℤ → Status × PlcClient
destroy_tag c h = elim (used_slot c.slots h) [
  | none ↦ (invalid_arg, c)
  | some s ↦ (ok, with_slot c h (record s { in_use = false }))
]

pub tag_status : PlcClient → ℤ → Status
tag_status c h = elim (used_slot c.slots h) [ none ↦ invalid_arg | some s ↦ Tag.status s.tag ]

-- `none` is `nullptr`.
pub tag_of : PlcClient → ℤ → Option Tag
tag_of c h = elim (used_slot c.slots h) [ none ↦ none | some s ↦ some s.tag ]

pub abort_tag : PlcClient → ℤ → Status × PlcClient
abort_tag c h = elim (used_slot c.slots h) [
  | none ↦ (invalid_arg, c)
  | some s ↦
      let (tag, m) = Tag.abort s.tag c.msg in
      (ok, with_slot (record c { msg = m }) h (record s { tag = tag; prev_status = not_ready }))
]

module _ {W : Type 0} (t : Transport W) where
  abbrev tag_called : PlcClient → ℤ → Slot → Status × Tag × Message × W → Status × PlcClient × W
  tag_called c h s r = (r.0, with_slot (record c { msg = r.2 }) h (record s { tag = r.1 }), r.3)

  pub read : PlcClient → W → ℤ → ℕ → Status × PlcClient × W
  read c w h timeout_ms = elim (used_slot c.slots h) [
    | none ↦ (invalid_arg, c, w)
    | some s ↦
        if not (is_ready c)
        then (not_ready, c, w)
        else if any_tag_busy c.slots
        then (busy, c, w)
        else tag_called c h s
            (Tag.read t s.tag c.msg w c.session.handle (some s.name) s.element_count timeout_ms)
  ]

  pub write : PlcClient → W → ℤ → ℕ → Status × PlcClient × W
  write c w h timeout_ms = elim (used_slot c.slots h) [
    | none ↦ (invalid_arg, c, w)
    | some s ↦
        if not (is_ready c)
        then (not_ready, c, w)
        else if any_tag_busy c.slots
        then (busy, c, w)
        else tag_called c h s
            (Tag.write t s.tag c.msg w c.session.handle (some s.name) s.element_count timeout_ms)
  ]

-- `st == Status::Closed`, and `st != Status::Pending` after a `prev` that was `Pending`.
abbrev pub is_closed : Status → Bool
is_closed closed = true
is_closed st = false

abbrev pub is_pending : Status → Bool
is_pending pending = true
is_pending st = false

-- What a sweep over the slots leaves: the slots, the shared message, the transport, whether a tag
-- saw the connection closed, and the callbacks made.
pub record Sweep (W : Type 0) : Type 0 where
  pub slots : List Slot
  pub msg : Message
  pub world : W
  pub disconnected : Bool
  pub calls : List Call

module _ {W : Type 0} (t : Transport W) (callback : Bool) where
  -- The body of the loop in `poll`, at index `i`; the result holds one slot.
  pub visit : ℕ → Slot → Message → W → Sweep W
  visit i s m w =
      let (st, tag, m', w') = Tag.poll t s.tag m w in
      if not s.in_use
      then record { slots = s ∷ []; msg = m; world = w; disconnected = false; calls = [] }
      else record {
        slots = record s { tag = tag; prev_status = st } ∷ [];
        msg = m';
        world = w';
        disconnected = is_closed st;
        calls =
            if is_pending s.prev_status && not (is_pending st) && callback
            then tag_done i st ∷ []
            else [];
      }

  pub sweep : ℕ → List Slot → Message → W → Sweep W
  sweep i [] m w = record { slots = []; msg = m; world = w; disconnected = false; calls = [] }
  sweep i (s ∷ ss) m w =
      let first = visit i s m w in
      let rest = sweep (i + 1) ss first.msg first.world in
      record {
        slots = first.slots ++ rest.slots;
        msg = rest.msg;
        world = rest.world;
        disconnected = first.disconnected || rest.disconnected;
        calls = first.calls ++ rest.calls;
      }
