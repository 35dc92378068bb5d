-- ===== src/Wire.antt =====
-- The transmit and receive buffers of `Session`, `ExplicitMessage` and `Connection`, and the loops
-- `writePending` and `readResponse`, which stand in each of the three classes with the same text
-- but for the bound on the body.
pub mod Loops
pub mod Sending
pub mod Framing
pub mod Conservation
pub mod Ready
pub mod Delivery
pub mod Kept
use esp32_control_logix.Base.{
  ℕ, zero, suc, ◌+◌, ◌-◌, ◌≤◌, ◌<◌, Bool, true, false, List, take, drop, store, ltb, ◌==◌,
  if◌then◌else◌,
}
use esp32_control_logix.Base.Int.{pos, negsuc}
use esp32_control_logix.Status.{Status, pending, ok, error, of_int}
use esp32_control_logix.Encapsulation.{header_size, decode_header}
use esp32_control_logix.Transport.{Transport}

pub record Wire : Type 0 where
  pub tx : List ℕ
  pub tx_len : ℕ
  pub tx_sent : ℕ
  pub rx : List ℕ
  pub rx_len : ℕ
  pub rx_expected : ℕ

-- `tx_ + txSent_`, of length `txLen_ - txSent_`.
abbrev pub unsent : Wire → List ℕ
unsent b = take (b.tx_len - b.tx_sent) (drop b.tx_sent b.tx)

-- `rxLen_ += n` once `read` has put `n` bytes at `rx_ + rxLen_`.
abbrev pub received : Wire → List ℕ → ℕ → Wire
received b bs n = record b { rx = store b.rx b.rx_len bs; rx_len = b.rx_len + n }

-- `h.length` of the header in the receive buffer.
abbrev pub body_length : Wire → ℕ
body_length b = (decode_header b.rx 0).length

-- What `writePending` and `readResponse` return, with the buffers and the transport they leave.
abbrev pub Outcome : Type 0 → Type 0
Outcome W = Status × Wire × W

module _ {W : Type 0} (t : Transport W) where
  -- One round of the loop of `writePending`; `again` is the rest of the loop.
  pub write_round : (Wire → W → Outcome W) → Wire → W → Outcome W
  write_round again b w = elim (ltb b.tx_sent b.tx_len) [
    | true ↦ elim (t.write w (unsent b)).0 [
      | pos zero ↦ (pending, b, (t.write w (unsent b)).1)
      | pos (suc n) ↦ again (record b { tx_sent = b.tx_sent + suc n }) (t.write w (unsent b)).1
      | negsuc n ↦ (of_int (negsuc n), b, (t.write w (unsent b)).1)
    ]
    | false ↦ (ok, b, w)
  ]

  -- The first argument bounds the rounds; a round that goes on moves a byte at least.
  write_loop : ℕ → Wire → W → Outcome W
  unfolding write_round
  write_loop zero b w = (ok, b, w)
  write_loop (suc rounds) b w = write_round (write_loop rounds) b w

  pub write_pending : Wire → W → Outcome W
  unfolding write_loop
  write_pending b w = write_loop (b.tx_len - b.tx_sent) b w

-- The end of a round of `readResponse` that got bytes: at a complete header the length of the body
-- is read from it and bounded.
abbrev pub read_on : {W : Type 0} → ℕ → (Wire → W → Outcome W) → Wire → W → Outcome W
read_on max_body again b w = elim (b.rx_len == header_size) [
  | true ↦ elim (ltb max_body (body_length b)) [
    | true ↦ (error, b, w)
    | false ↦ again (record b { rx_expected = header_size + body_length b }) w
  ]
  | false ↦ again b w
]

-- The rounds left: before the header is complete the body is still to come.
abbrev pub rounds_left : ℕ → Wire → ℕ
rounds_left max_body b =
    b.rx_expected - b.rx_len + (if ltb b.rx_len header_size then max_body else 0)

module _ {W : Type 0} (t : Transport W) (max_body : ℕ) where
  -- One round of the loop of `readResponse`.
  pub read_round : (Wire → W → Outcome W) → Wire → W → Outcome W
  read_round again b w = elim (ltb b.rx_len b.rx_expected) [
    | true ↦
        let r = t.read w (b.rx_expected - b.rx_len) in
        elim r.0 [
          | pos zero ↦ (pending, b, r.2)
          | pos (suc n) ↦ read_on max_body again (received b r.1 (suc n)) r.2
          | negsuc n ↦ (of_int (negsuc n), b, r.2)
        ]
    | false ↦ (ok, b, w)
  ]

  read_loop : ℕ → Wire → W → Outcome W
  unfolding read_round
  read_loop zero b w = (ok, b, w)
  read_loop (suc rounds) b w = read_round (read_loop rounds) b w

  pub read_response : Wire → W → Outcome W
  unfolding read_loop
  read_response b w = read_loop (rounds_left max_body b) b w
