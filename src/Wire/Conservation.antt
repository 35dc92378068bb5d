-- ===== src/Wire/Conservation.antt =====
-- No byte is lost, repeated or reordered between the buffers and the stream, however the transport
-- splits what it moves.
use esp32_control_logix.Base.{
  ℕ, zero, suc, ◌+◌, ◌-◌, ◌≤◌, ◌≡◌, refl, sym, ap, ◌∙◌, List, [], ◌∷◌, ◌++◌, append-nil,
  append_assoc, length, take, drop, drop-drop, drop-take, take-append-drop, store, take-store,
  arith,
}
use esp32_control_logix.Base.Int.{pos, sign, nothing, count, code}
use esp32_control_logix.Encapsulation.{header_size}
use esp32_control_logix.Transport.{Transport, IsTransport, Streams}
use esp32_control_logix.Wire.{
  Wire, unsent, received, body_length, write_loop, write_pending, rounds_left, read_loop,
  read_response,
}
use esp32_control_logix.Wire.Framing.{IsReceiving, received-IsReceiving, headed-IsReceiving}

unsent-advance :
    (b : Wire) (n : ℕ) → unsent (record b { tx_sent = b.tx_sent + n }) ≡ drop n (unsent b)
unsent-advance b n =
    ap (take (b.tx_len - (b.tx_sent + n))) (sym (drop-drop b.tx_sent n b.tx))
    ∙ ap (λ k. take k (drop n (drop b.tx_sent b.tx))) less
    ∙ sym (drop-take n (b.tx_len - b.tx_sent) (drop b.tx_sent b.tx))
  where
    less : b.tx_len - (b.tx_sent + n) ≡ b.tx_len - b.tx_sent - n
    less = omega arith

module _ {W : Type 0} (t : Transport W) (s : Streams t) where
  write_loop-outgoing :
      (rounds : ℕ) (b : Wire) (w : W)
      → s.sent (write_loop t rounds b w).2 ++ unsent (write_loop t rounds b w).1
        ≡ s.sent w ++ unsent b
  unfolding write_loop
  write_loop-outgoing zero b w = refl
  write_loop-outgoing (suc rounds) b w = elim (sign (t.write w (unsent b)).0) [
    | nothing e ↦ ground (arith, s.write_sends w (unsent b) 0, append-nil (s.sent w))
    | count i e ↦
        let w' = (t.write w (unsent b)).1 in
        let b' : Wire = record b { tx_sent = b.tx_sent + suc i } in
        let moved : s.sent w' ++ unsent b' ≡ s.sent w ++ unsent b =
          ap (λ p. p ++ unsent b') (s.write_sends w (unsent b) (suc i) e)
          ∙ append_assoc (s.sent w) (take (suc i) (unsent b)) (unsent b')
          ∙ ap (λ p. s.sent w ++ (take (suc i) (unsent b) ++ p)) (unsent-advance b (suc i))
          ∙ ap (◌++◌ (s.sent w)) (take-append-drop (suc i) (unsent b)) in
        ground (arith, write_loop-outgoing rounds b' w', moved)
    | code i e ↦ ground (arith, s.write_fails w (unsent b) i)
  ]

  -- What the peer has got, followed by what is still to be sent, stays the same through a call of
  -- `writePending` over a transport that is a byte stream, whatever it returns.
  pub write_pending-outgoing :
      (b : Wire) (w : W)
      → s.sent (write_pending t b w).2 ++ unsent (write_pending t b w).1 ≡ s.sent w ++ unsent b
  unfolding write_pending
  write_pending-outgoing b w = write_loop-outgoing (b.tx_len - b.tx_sent) b w

empty_of_length : (xs : List ℕ) → length xs ≡ 0 → xs ≡ []
empty_of_length [] e = refl
empty_of_length (x ∷ xs) e = absurd (omega arith)

-- What was received, followed by what is not read yet.
abbrev pub incoming : {W : Type 0} {t : Transport W} → Streams t → Wire → W → List ℕ
incoming s b w = take b.rx_len b.rx ++ s.unread w

module _ {W : Type 0} (t : Transport W) (v : IsTransport t) (s : Streams t) (max_body : ℕ) where
  pub received-incoming :
      (b : Wire) (w : W) (n : ℕ)
      → IsReceiving max_body b
      → (t.read w (b.rx_expected - b.rx_len)).0 ≡ pos n
      → let r = t.read w (b.rx_expected - b.rx_len) in
        incoming s (received b r.1 n) r.2 ≡ incoming s b w
  received-incoming b w n h e =
      let r = t.read w (b.rx_expected - b.rx_len) in
      let size : length r.1 ≡ n = v.read_length w (b.rx_expected - b.rx_len) n e in
      let fits : n ≤ b.rx_expected - b.rx_len = v.read_fits w (b.rx_expected - b.rx_len) n e in
      let stored : take (b.rx_len + n) (store b.rx b.rx_len r.1) ≡ take b.rx_len b.rx ++ r.1 =
        ap (λ (k : ℕ). take (b.rx_len + k) (store b.rx b.rx_len r.1)) (sym size)
        ∙ take-store b.rx b.rx_len r.1 (omega (arith, h.rx_room, h.rx_fits, h.expected_fits)) in
      ap (λ p. p ++ s.unread r.2) stored
      ∙ append_assoc (take b.rx_len b.rx) r.1 (s.unread r.2)
      ∙ ap (◌++◌ (take b.rx_len b.rx)) (s.read_takes w (b.rx_expected - b.rx_len) n e)

  pub idle-incoming :
      (b : Wire) (w : W)
      → (t.read w (b.rx_expected - b.rx_len)).0 ≡ pos 0
      → s.unread (t.read w (b.rx_expected - b.rx_len)).2 ≡ s.unread w
  idle-incoming b w e =
      let r = t.read w (b.rx_expected - b.rx_len) in
      let none_read : r.1 ≡ [] =
        empty_of_length r.1 (v.read_length w (b.rx_expected - b.rx_len) 0 e) in
      ap (λ p. p ++ s.unread r.2) (sym none_read) ∙ s.read_takes w (b.rx_expected - b.rx_len) 0 e

  read_loop-incoming :
      (rounds : ℕ) (b : Wire) (w : W)
      → IsReceiving max_body b
      → rounds_left max_body b ≤ rounds
      → incoming s (read_loop t max_body rounds b w).1 (read_loop t max_body rounds b w).2
        ≡ incoming s b w
  unfolding read_loop
  read_loop-incoming zero b w h k = refl
  read_loop-incoming (suc rounds) b w h k =
      let r = t.read w (b.rx_expected - b.rx_len) in
      elim (sign r.0) [
        | nothing e ↦ ground (arith, idle-incoming b w e)
        | count i e ↦
            let fits : b.rx_len + suc i ≤ b.rx_expected =
              omega (arith, h.rx_fits, v.read_fits w (b.rx_expected - b.rx_len) (suc i) e) in
            let bytes = v.read_bytes w (b.rx_expected - b.rx_len) in
            let c : Wire = received b r.1 (suc i) in
            let d : Wire = record c { rx_expected = header_size + body_length c } in
            let moved : incoming s c r.2 ≡ incoming s b w = received-incoming b w (suc i) h e in
            ground (
              arith,
              moved,
              received-IsReceiving max_body b r.1 i h bytes fits,
              headed-IsReceiving max_body b r.1 i h bytes,
              read_loop-incoming rounds c r.2,
              read_loop-incoming rounds d r.2,
            )
        | code i e ↦ ground (arith, s.read_fails w (b.rx_expected - b.rx_len) i)
      ]

  -- What was received, followed by what is not read yet, stays the same through a call of
  -- `readResponse` that starts between two rounds, over a transport that is a byte stream and keeps
  -- its contract, whatever it returns.
  pub read_response-incoming :
      (b : Wire) (w : W)
      → IsReceiving max_body b
      → incoming s (read_response t max_body b w).1 (read_response t max_body b w).2
        ≡ incoming s b w
  unfolding read_response
  read_response-incoming b w h = read_loop-incoming (rounds_left max_body b) b w h (omega arith)
