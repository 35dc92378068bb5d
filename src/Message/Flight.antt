-- ===== src/Message/Flight.antt =====
-- When an exchange is in flight, before and after each operation.
use esp32_control_logix.Base.{
  ℕ, ◌-◌, ◌≡◌, ◌≢◌, refl, ◌⊎◌, inl, inr, Bool, true, Option, none, some, if◌then◌else◌, Bool-cases,
  arith,
}
use esp32_control_logix.Status.{Status, pending, ok}
use esp32_control_logix.Encapsulation.{get_u16}
use esp32_control_logix.Transport.{Transport, expired}
use esp32_control_logix.Wire.{Outcome, write_pending}
use esp32_control_logix.Message.{
  Message, Slice, receiving, is_sending, bad_request, send, settle, after_read, after_write,
  poll_exchange, poll, parse_response, finish_response, find_item, body_length_of,
}

-- 1 while an exchange is in flight.
abbrev pub bit : Bool → ℕ
bit b = if b then 1 else 0

abbrev pub flight : Message → ℕ
flight m = bit (is_sending m.state)

module _ {W : Type 0} (t : Transport W) where
  -- `send` returns `Pending` exactly when it starts an exchange; otherwise the state stays.
  pub send-flight :
      (m : Message) (w : W) (session service : ℕ) (path payload : Slice) (timeout_ms : ℕ)
      → let (st, m', w') = send t m w session service path payload timeout_ms in
        ((st ≡ pending) × (flight m ≡ 0) × (flight m' ≡ 1))
        ⊎ ((st ≢ pending) × (m'.state ≡ m.state))
  unfolding send
  send-flight m w session service path payload timeout_ms = elim (Bool-cases (is_sending m.state)) [
    | inl taken ↦ inr (ground arith, ground arith)
    | inr free ↦ elim (Bool-cases (t.connected w)) [
      | inr down ↦ inr (ground arith, ground arith)
      | inl up ↦ elim (Bool-cases (bad_request path payload)) [
        | inl bad ↦ inr (ground arith, ground arith)
        | inr good ↦ inl (ground arith, ground arith, ground arith)
      ]
    ]
  ]

  -- After a `poll` in flight: `Pending` and in flight, or another status and no more in flight.
  abbrev Polled : Status × Message × W → Type 0
  Polled r = ((r.0 ≡ pending) × (flight r.1 ≡ 1)) ⊎ ((r.0 ≢ pending) × (flight r.1 ≡ 0))

  settle-Polled : (out : Status × Message) (w : W) → out.0 ≢ pending → Polled (settle t out w)
  settle-Polled (ok, m) w h = inr (ground arith, ground arith)
  settle-Polled (st, m) w h = inr (ground arith, ground arith)

  finish-ne-pending :
      (m : Message) (found : Option (Option (ℕ × ℕ))) → (finish_response m found).0 ≢ pending
  finish-ne-pending m none = λ e. cc
  finish-ne-pending m (some none) = λ e. cc
  finish-ne-pending m (some (some (p, len))) = ground arith

  parse-ne-pending : (m : Message) → (parse_response m).0 ≢ pending
  unfolding parse_response
  parse-ne-pending m =
      let rx = m.wire.rx in
      ground (
        arith,
        finish-ne-pending m (find_item (get_u16 rx 30) rx 32 (body_length_of m.wire - 8) none),
      )

  after_read-Polled :
      (m : Message) (out : Outcome W) → m.state ≡ receiving → Polled (after_read t m out)
  after_read-Polled m (ok, b, w) e = settle-Polled _ w (parse-ne-pending (record m { wire = b }))
  after_read-Polled m (pending, b, w) e = inl (ground arith, ground arith)
  after_read-Polled m (st, b, w) e = inr (ground arith, ground arith)

  after_write-Polled :
      (m : Message) (out : Outcome W) → is_sending m.state ≡ true → Polled (after_write t m out)
  after_write-Polled m (ok, b, w) e = after_read-Polled (record m { state = receiving }) _ refl
  after_write-Polled m (pending, b, w) e = inl (ground arith, ground arith)
  after_write-Polled m (st, b, w) e = inr (ground arith, ground arith)

  -- A `poll` of an exchange in flight returns `Pending` and leaves it in flight, or returns another
  -- status and leaves none in flight.
  pub poll-flight : (m : Message) (w : W) → is_sending m.state ≡ true → Polled (poll t m w)
  unfolding poll poll_exchange
  poll-flight m w e =
      let later = after_write-Polled m (write_pending t m.wire (t.millis w).1) e in
      elim (Bool-cases (expired (t.millis w).0 m.deadline)) [
        | inl late ↦ inr (ground arith, ground arith)
        | inr early ↦ ground (arith, later)
      ]
