-- ===== src/Sketch/LanInventory.antt =====
-- examples/LanInventory/LanInventory.ino: the scan of the local subnet for EtherNet/IP devices. The
-- globals are one record; `network` is the sketch's variable, and `net` the library that it calls.
pub mod Calls
pub mod Loop
pub mod Hosts
pub mod Scan
pub mod Probes
pub mod Subnet
use Prim.Native.Nat.{bit_and, bit_or}
use esp32_control_logix.Base.{
  ℕ, ◌+◌, ◌-◌, ◌<◌, Bool, true, false, not, ◌||◌, Option, none, some, List, [], ◌∷◌, take, drop,
  replicate, get_or, store, ltb, leb, ◌==◌, if◌then◌else◌,
}
use esp32_control_logix.Status.{Status, pending, ok, timeout, error, closed}
use esp32_control_logix.Address.{Address, number, same}
use esp32_control_logix.Encapsulation.{byte_at, get_u16, get_u32}
use esp32_control_logix.Cip.{append_class, append_instance, append_attribute}
use esp32_control_logix.Cip.Codes.{
  service_code, get_attribute_single, identity_vendor_id, identity_device_type,
  identity_product_code, identity_revision, identity_status, identity_serial_number,
  identity_product_name, identity_state,
}
use esp32_control_logix.Network.{Network}
use esp32_control_logix.Session
use esp32_control_logix.Session.{Session}
use esp32_control_logix.Message
use esp32_control_logix.Message.{Message, Slice}
use esp32_control_logix.Tag
use esp32_control_logix.Tag.{Tag}
use esp32_control_logix.PlcClient.Tags.{is_pending}

-- `LOCAL_GATEWAY`.
abbrev pub local_gateway : Address
local_gateway = record { o0 = 192; o1 = 168; o2 = 1; o3 = 1 }

abbrev pub eip_port : ℕ
eip_port = 44818

abbrev pub scan_timeout_ms : ℕ
scan_timeout_ms = 100

abbrev pub session_timeout_ms : ℕ
session_timeout_ms = 1000

abbrev pub message_timeout_ms : ℕ
message_timeout_ms = 1000

pub record Identity : Type 0 where
  pub vendor : ℕ
  pub device_type : ℕ
  pub product_code : ℕ
  pub rev_major : ℕ
  pub rev_minor : ℕ
  pub status : ℕ
  pub serial : ℕ
  pub product_name : List ℕ
  pub device_state : ℕ

abbrev pub no_identity : Identity
no_identity = record {
  vendor = 0;
  device_type = 0;
  product_code = 0;
  rev_major = 0;
  rev_minor = 0;
  status = 0;
  serial = 0;
  product_name = replicate 64 0;
  device_state = 0;
}

abbrev pub identity_attributes : List ℕ
identity_attributes =
    identity_vendor_id ∷ identity_device_type ∷ identity_product_code ∷ identity_revision
    ∷ identity_status ∷ identity_serial_number ∷ identity_product_name ∷ identity_state ∷ []

abbrev pub identity_attribute_count : ℕ
identity_attribute_count = 8

pub data Phase : Type 0 where
  wait_ethernet scan connect register query close done : Phase

pub record Inventory : Type 0 where
  pub session : Session
  pub msg : Message
  pub tag : Tag
  pub phase : Phase
  pub phase_started : ℕ
  pub network : Address
  pub broadcast : Address
  pub current_ip : Address
  pub gateway : Address
  pub found : ℕ
  pub query_index : ℕ
  pub step_started : Bool
  pub id : Identity

-- `nextHost`, with its loop over the octets written out.
unfoldable pub next_host : Address → Bool × Address
next_host ip =
    if ltb ip.o3 255
    then (true, record ip { o3 = ip.o3 + 1 })
    else if ltb ip.o2 255
    then (true, record ip { o2 = ip.o2 + 1; o3 = 0 })
    else if ltb ip.o1 255
    then (true, record ip { o1 = ip.o1 + 1; o2 = 0; o3 = 0 })
    else if ltb ip.o0 255
    then (true, record { o0 = ip.o0 + 1; o1 = 0; o2 = 0; o3 = 0 })
    else (false, record { o0 = 0; o1 = 0; o2 = 0; o3 = 0 })

-- `ip[i] & mask[i]` and `ip[i] | uint8_t(~mask[i])`.
pub network_of : Address → Address → Address
network_of ip mask = record {
  o0 = bit_and ip.o0 mask.o0;
  o1 = bit_and ip.o1 mask.o1;
  o2 = bit_and ip.o2 mask.o2;
  o3 = bit_and ip.o3 mask.o3;
}

pub broadcast_of : Address → Address → Address
broadcast_of ip mask = record {
  o0 = bit_or ip.o0 (255 - mask.o0);
  o1 = bit_or ip.o1 (255 - mask.o1);
  o2 = bit_or ip.o2 (255 - mask.o2);
  o3 = bit_or ip.o3 (255 - mask.o3);
}

-- The attribute of the current query.
abbrev pub attribute : Inventory → ℕ
attribute l = get_or identity_attributes l.query_index 0

-- The local `path` and `data`.
abbrev pub identity_path : Slice
identity_path =
    let (p1, n1) = append_class (replicate 4 0) 0 1 in
    let (p2, n2) = append_instance p1 n1 1 in record { bytes = some p2; len = n1 + n2 }

abbrev pub attribute_data : ℕ → Slice
attribute_data attr = record { bytes = some (append_attribute (replicate 2 0) 0 attr).0; len = 2 }

-- The characters of "ControllerInfo.Mode".
abbrev pub mode_name : List ℕ
mode_name =
    67 ∷ 111 ∷ 110 ∷ 116 ∷ 114 ∷ 111 ∷ 108 ∷ 108 ∷ 101 ∷ 114 ∷ 73 ∷ 110 ∷ 102 ∷ 111 ∷ 46 ∷ 77 ∷ 111
    ∷ 100 ∷ 101 ∷ []

-- `msg.data()`, as an offset.
abbrev pub response_offset : Message → ℕ
response_offset m = elim m.response [ none ↦ 0 | some p ↦ p ]

-- The name is cut to the 64 bytes of the field, with its end.
abbrev store_name : Identity → List ℕ → ℕ → ℕ → Identity
store_name id rx p n =
    let c = if ltb n 63 then n else 63 in
    if n == 0 then id else record id {
      product_name = store (store id.product_name 0 (take c (drop p rx))) c (0 ∷ []);
    }

-- The `switch` of `finishQuery`.
unfoldable pub load_attribute : ℕ → Identity → List ℕ → ℕ → ℕ → Identity
load_attribute attr id rx p n =
    if attr == identity_vendor_id
    then (if leb 2 n then record id { vendor = get_u16 rx p } else id)
    else if attr == identity_device_type
    then (if leb 2 n then record id { device_type = get_u16 rx p } else id)
    else if attr == identity_product_code
    then (if leb 2 n then record id { product_code = get_u16 rx p } else id)
    else if attr == identity_revision
    then (if leb 2 n
        then record id { rev_major = byte_at rx p; rev_minor = byte_at rx (p + 1) }
        else id)
    else if attr == identity_status
    then (if leb 2 n then record id { status = get_u16 rx p } else id)
    else if attr == identity_serial_number
    then (if leb 4 n then record id { serial = get_u32 rx p } else id)
    else if attr == identity_product_name
    then store_name id rx p n
    else if attr == identity_state
    then (if leb 1 n then record id { device_state = byte_at rx p } else id)
    else id
