-- ===== src/Address/Order.antt =====
-- An address is its number.
use esp32_control_logix.Base.{◌^◌, ◌<◌, ◌≡◌, true, ◌↔◌, ◌==◌, arith}
use esp32_control_logix.Address.{Address, number, same}

pub record IsAddress (a : Address) : Type 0 where
  pub octet0 : a.o0 < 2 ^ 8
  pub octet1 : a.o1 < 2 ^ 8
  pub octet2 : a.o2 < 2 ^ 8
  pub octet3 : a.o3 < 2 ^ 8

pub number-lt : (a : Address) → IsAddress a → number a < 2 ^ 32
unfolding number
number-lt a v = omega arith

pub number-eq : (a b : Address) → IsAddress a → IsAddress b → number a ≡ number b → a ≡ b
unfolding number
number-eq a b v w e = ground arith

pub same_iff : (a b : Address) → (same a b ≡ true) ↔ (a ≡ b)
unfolding same
same_iff a b = ground arith

-- Two addresses are compared as their numbers are.
pub same-number : (a b : Address) → IsAddress a → IsAddress b → same a b ≡ (number a == number b)
unfolding number same
same-number a b v w = ground arith
