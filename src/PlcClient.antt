-- ===== src/PlcClient.antt =====
-- src/PlcClient: the client's data, its tag pool, and the helpers of its operations. The arrays
-- `tags_`, `inUse_`, `tagNames_`, `tagElemCount_` and `tagPrevStatus_` are one list of slots. A
-- callback that is called is an entry of `calls`; what the sketch does in it is not modelled.
pub mod Tags
pub mod Link
use esp32_control_logix.Base.{
  ℕ, zero, suc, ◌+◌, ◌<◌, Bool, true, false, not, ◌&&◌, ◌||◌, Option, none, some, List, [], ◌∷◌,
  ◌++◌, length, get_elem?, set, ltb, leb, ◌==◌, if◌then◌else◌,
}
use esp32_control_logix.Base.Int.{ℤ, pos, negsuc}
use esp32_control_logix.Status.{Status}
use esp32_control_logix.Session.{Session}
use esp32_control_logix.Message.{Message}
use esp32_control_logix.Tag.{Tag}
use esp32_control_logix.Tag

-- `kMaxTagName`.
abbrev pub max_tag_name : ℕ
max_tag_name = 64

pub data State : Type 0 where
  idle ethernet connecting registering ready disconnecting failed : State

pub record Slot : Type 0 where
  pub tag : Tag
  pub in_use : Bool
  pub name : List ℕ
  pub element_count : ℕ
  pub prev_status : Status

pub data Call : Type 0 where
  tag_done : ℕ → Status → Call
  state_changed : Status → Call

pub record PlcClient : Type 0 where
  pub session : Session
  pub msg : Message
  pub state : State
  pub remote_ip : ℕ
  pub remote_port : ℕ
  pub want_connect : Bool
  pub connect_timeout : ℕ
  pub deadline : ℕ
  pub slots : List Slot
  pub tag_callback : Bool
  pub state_callback : Bool
  pub calls : List Call

-- `if (stateCallback_) stateCallback_(status, stateUserData_);`
pub notify : PlcClient → Status → PlcClient
notify c st =
    if c.state_callback then record c { calls = c.calls ++ (state_changed st ∷ []) } else c

pub set_tag_callback : PlcClient → Bool → PlcClient
set_tag_callback c cb = record c { tag_callback = cb }

pub set_state_callback : PlcClient → Bool → PlcClient
set_state_callback c cb = record c { state_callback = cb }

-- The loop of `findFreeTag`, from index `i` on; -1 when no slot is free.
free_from : ℕ → List Slot → ℤ
free_from i [] = negsuc 0
free_from i (s ∷ ss) = if not s.in_use then pos i else free_from (i + 1) ss

pub find_free_tag : List Slot → ℤ
unfolding free_from
find_free_tag slots = free_from 0 slots

unfoldable pub any_tag_busy : List Slot → Bool
any_tag_busy [] = false
any_tag_busy (s ∷ ss) = (s.in_use && Tag.is_busy s.tag.state) || any_tag_busy ss

unfoldable pub tag_count : List Slot → ℕ
tag_count [] = 0
tag_count (s ∷ ss) = (if s.in_use then 1 else 0) + tag_count ss

-- The slot of a handle for which `validHandle` holds.
unfoldable pub used_slot : List Slot → ℤ → Option Slot
used_slot slots (negsuc n) = none
used_slot slots (pos h) = elim (get_elem? slots h) [
  | none ↦ none
  | some s ↦ if s.in_use then some s else none
]

-- The array index of a handle.
abbrev pub index : ℤ → ℕ
index (pos h) = h
index (negsuc n) = 0

abbrev pub with_slot : PlcClient → ℤ → Slot → PlcClient
with_slot c h s = record c { slots = set c.slots (index h) s }

-- `session_.handle()`, for the client.
abbrev pub session_handle : PlcClient → ℕ
session_handle c = c.session.handle

abbrev pub is_ready : PlcClient → Bool
is_ready c = elim c.state [ ready ↦ true | _ ↦ false ]
