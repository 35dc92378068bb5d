-- ===== src/Wire/Kept.antt =====
-- What the calls on a transport leave true of the state behind it, the exchange of frames does too.
use esp32_control_logix.Base.{ℕ, zero, suc, ◌+◌, ◌-◌, List, arith}
use esp32_control_logix.Base.Int.{sign, nothing, count, code}
use esp32_control_logix.Transport.{Transport}
use esp32_control_logix.Wire.{
  Wire, unsent, received, body_length, write_loop, write_pending, rounds_left, read_loop,
  read_response,
}
use esp32_control_logix.Encapsulation.{header_size}

-- Every call on the transport keeps `on`.
pub record IsKept {W : Type 0} (t : Transport W) (on : W → Type 0) : Type 0 where
  pub write_keeps : (w : W) (bs : List ℕ) → on w → on (t.write w bs).1
  pub read_keeps : (w : W) (len : ℕ) → on w → on (t.read w len).2
  pub millis_keeps : (w : W) → on w → on (t.millis w).1
  pub random_keeps : (w : W) → on w → on (t.random w).1

module _ {W : Type 0} (t : Transport W) {on : W → Type 0} (k : IsKept t on) where
  write_loop-keeps : (rounds : ℕ) (b : Wire) (w : W) → on w → on (write_loop t rounds b w).2
  unfolding write_loop
  write_loop-keeps zero b w o = o
  write_loop-keeps (suc rounds) b w o =
      let kept = k.write_keeps w (unsent b) o in
      elim (sign (t.write w (unsent b)).0) [
        | nothing e ↦ ground (arith, o, kept)
        | count i e ↦
            let c : Wire = record b { tx_sent = b.tx_sent + suc i } in
            ground (arith, o, write_loop-keeps rounds c (t.write w (unsent b)).1 kept)
        | code i e ↦ ground (arith, o, kept)
      ]

  pub write_pending-keeps : (b : Wire) (w : W) → on w → on (write_pending t b w).2
  unfolding write_pending
  write_pending-keeps b w o = write_loop-keeps (b.tx_len - b.tx_sent) b w o

  module _ (max_body : ℕ) where
    read_loop-keeps :
        (rounds : ℕ) (b : Wire) (w : W) → on w → on (read_loop t max_body rounds b w).2
    unfolding read_loop
    read_loop-keeps zero b w o = o
    read_loop-keeps (suc rounds) b w o =
        let rd = t.read w (b.rx_expected - b.rx_len) in
        let kept = k.read_keeps w (b.rx_expected - b.rx_len) o in
        elim (sign rd.0) [
          | nothing e ↦ ground (arith, o, kept)
          | count i e ↦
              let c : Wire = received b rd.1 (suc i) in
              let d : Wire = record c { rx_expected = header_size + body_length c } in
              ground (
                arith,
                o,
                kept,
                read_loop-keeps rounds c rd.2 kept,
                read_loop-keeps rounds d rd.2 kept,
              )
          | code i e ↦ ground (arith, o, kept)
        ]

    pub read_response-keeps : (b : Wire) (w : W) → on w → on (read_response t max_body b w).2
    unfolding read_response
    read_response-keeps b w o = read_loop-keeps (rounds_left max_body b) b w o
