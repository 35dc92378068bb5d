-- ===== src/Wire/Loops.antt =====
-- The bounds on the rounds are enough: the two functions solve the equations of their loops.
use esp32_control_logix.Base.{ℕ, zero, suc, ◌+◌, ◌-◌, ◌≤◌, ◌≡◌, refl, ◌∙◌, arith}
use esp32_control_logix.Base.Int.{sign, nothing, count, code}
use esp32_control_logix.Encapsulation.{header_size}
use esp32_control_logix.Transport.{Transport}
use esp32_control_logix.Wire.{
  Wire, unsent, received, body_length, write_round, write_loop, write_pending, rounds_left,
  read_round, read_loop, read_response,
}

module _ {W : Type 0} (t : Transport W) where
  write_loop_rounds :
      (m n : ℕ) (b : Wire) (w : W)
      → b.tx_len - b.tx_sent ≤ m
      → b.tx_len - b.tx_sent ≤ n
      → write_loop t m b w ≡ write_loop t n b w
  unfolding write_loop
  write_loop_rounds zero zero b w h k = refl
  write_loop_rounds zero (suc n) b w h k = ground arith
  write_loop_rounds (suc m) zero b w h k = ground arith
  write_loop_rounds (suc m) (suc n) b w h k = elim (sign (t.write w (unsent b)).0) [
    | nothing e ↦ ground arith
    | count i e ↦ ground (
      arith,
      write_loop_rounds m n (record b { tx_sent = b.tx_sent + suc i }) (t.write w (unsent b)).1,
    )
    | code i e ↦ ground arith
  ]

  -- `writePending` is its loop: while bytes are unsent, it does one round and goes on, for every
  -- buffer and every transport.
  pub write_pending-loop :
      (b : Wire) (w : W) → write_pending t b w ≡ write_round t (write_pending t) b w
  unfolding write_pending write_round
  write_pending-loop b w =
      let left = b.tx_len - b.tx_sent in
      write_loop_rounds left (suc left) b w (omega arith) (omega arith)
      ∙ elim (sign (t.write w (unsent b)).0) [
        | nothing e ↦ ground arith
        | count i e ↦
            let b' : Wire = record b { tx_sent = b.tx_sent + suc i } in
            ground
              (arith, write_loop_rounds left (b'.tx_len - b'.tx_sent) b' (t.write w (unsent b)).1)
        | code i e ↦ ground arith
      ]

module _ {W : Type 0} (t : Transport W) (max_body : ℕ) where
  read_loop_rounds :
      (m n : ℕ) (b : Wire) (w : W)
      → rounds_left max_body b ≤ m
      → rounds_left max_body b ≤ n
      → read_loop t max_body m b w ≡ read_loop t max_body n b w
  unfolding read_loop
  read_loop_rounds zero zero b w h k = refl
  read_loop_rounds zero (suc n) b w h k = ground arith
  read_loop_rounds (suc m) zero b w h k = ground arith
  read_loop_rounds (suc m) (suc n) b w h k =
      let r = t.read w (b.rx_expected - b.rx_len) in
      elim (sign r.0) [
        | nothing e ↦ ground arith
        | count i e ↦
            let b' : Wire = received b r.1 (suc i) in
            ground (
              arith,
              read_loop_rounds m n b' r.2,
              read_loop_rounds m n (record b' { rx_expected = header_size + body_length b' }) r.2,
            )
        | code i e ↦ ground arith
      ]

  -- `readResponse` is its loop: while bytes of the frame are missing, it does one round and goes on,
  -- for every buffer and every transport.
  pub read_response-loop :
      (b : Wire) (w : W)
      → read_response t max_body b w ≡ read_round t max_body (read_response t max_body) b w
  unfolding read_response read_round
  read_response-loop b w =
      let left = rounds_left max_body b in
      let r = t.read w (b.rx_expected - b.rx_len) in
      read_loop_rounds left (suc left) b w (omega arith) (omega arith) ∙ elim (sign r.0) [
        | nothing e ↦ ground arith
        | count i e ↦
            let b' : Wire = received b r.1 (suc i) in
            let b'' : Wire = record b' { rx_expected = header_size + body_length b' } in
            ground (
              arith,
              read_loop_rounds left (rounds_left max_body b') b' r.2,
              read_loop_rounds left (rounds_left max_body b'') b'' r.2,
            )
        | code i e ↦ ground arith
      ]
