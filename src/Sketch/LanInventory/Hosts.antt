-- ===== src/Sketch/LanInventory/Hosts.antt =====
-- `nextHost` counts: the addresses in order are their numbers in order.
use esp32_control_logix.Base.{◌+◌, ◌^◌, ◌≡◌, ltb, if◌then◌else◌, arith}
use esp32_control_logix.Address.{Address, number}
use esp32_control_logix.Address.Order.{IsAddress}
use esp32_control_logix.Sketch.LanInventory.{next_host}

pub next_host-IsAddress : (ip : Address) → IsAddress ip → IsAddress (next_host ip).1
unfolding next_host
next_host-IsAddress ip v = ground arith

-- Read as 32-bit numbers, `nextHost` adds one to the address and returns true, or finds that it is
-- 255.255.255.255, returns false and leaves 0.0.0.0.
pub next_host-number :
    (ip : Address)
    → IsAddress ip
    → (number (next_host ip).1 ≡ (if (next_host ip).0 then number ip + 1 else 0))
      × ((next_host ip).0 ≡ ltb (number ip + 1) (2 ^ 32))
unfolding next_host number
next_host-number ip v = ground arith
