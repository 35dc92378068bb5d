-- ===== src/Transport/Deadline.antt =====
-- Deadlines on the 32-bit millisecond clock, which starts again at 0 after 2^32 ms.
use esp32_control_logix.Base.{
  ℕ, ◌+◌, ◌-◌, ◌%◌, ◌^◌, ◌≤◌, ◌<◌, ◌≡◌, inl, inr, leb, Bool-cases, arith,
}
use esp32_control_logix.Transport.{deadline_after, expired}

-- For a timeout of at most 2^31 ms, at any time less than 2^31 ms after the deadline was set, the
-- deadline has passed exactly when `timeout` ms have gone by, also where the clock started again in between.
pub expired-deadline_after :
    (now timeout e : ℕ)
    → now < 2 ^ 32
    → timeout ≤ 2 ^ 31
    → e < 2 ^ 31
    → expired ((now + e) % 2 ^ 32) (deadline_after now timeout) ≡ leb timeout e
expired-deadline_after now timeout e h k l = elim (Bool-cases (leb timeout e)) [
  | inl late ↦
      let past : timeout ≤ e = ground arith in
      let small : ((now + e) % 2 ^ 32 + 2 ^ 32 - (now + timeout) % 2 ^ 32) % 2 ^ 32 < 2 ^ 31 =
        omega arith in
      ground (arith, small)
  | inr early ↦
      let ahead : e < timeout = ground arith in
      let large : 2 ^ 31 ≤ ((now + e) % 2 ^ 32 + 2 ^ 32 - (now + timeout) % 2 ^ 32) % 2 ^ 32 =
        omega arith in
      ground (arith, large)
]
