-- ===== src/Wire/Ready.antt =====
-- A transport that is live: it has room for what is written and hands over what there is to read;
-- `writePending` over it.
use mathlib.Core.Path.{transport}
use esp32_control_logix.Base.{
  ℕ, zero, suc, ◌+◌, ◌-◌, ◌≤◌, ◌<◌, ◌≡◌, refl, sym, ap, ◌∙◌, inl, inr, List, [], ◌++◌, append-nil,
  length, length-take, length-drop, take, drop, ltb, Bool-cases, arith,
}
use esp32_control_logix.Base.Int.{pos, sign, nothing, count, code}
use esp32_control_logix.Status.{ok}
use esp32_control_logix.Transport.{Transport, IsTransport, Streams}
use esp32_control_logix.Wire.{Wire, unsent, write_loop, write_pending}
use esp32_control_logix.Wire.Sending.{IsSending, write_pending-Wrote}
use esp32_control_logix.Wire.Conservation.{write_pending-outgoing}

-- The states `on` of a byte stream in which a read moves a byte at least where there is one to read,
-- and ends in such a state. In the others, and where nothing is there to read, it may return 0 or a
-- status.
pub record IsReadable {W : Type 0} {t : Transport W} (s : Streams t) (on : W → Type 0)
    : Type 0 where
  pub read_moves :
      (w : W) (len : ℕ)
      → on w
      → 0 < len
      → 0 < length (s.unread w)
      → (n : ℕ) × ((t.read w len).0 ≡ pos (suc n))
  pub read_on : (w : W) (len : ℕ) → on w → 0 < len → 0 < length (s.unread w) → on (t.read w len).2

-- The states in which a write, too, moves a byte at least, and which the clock and the random
-- numbers keep; reading, the clock and the random numbers send nothing.
pub record IsReady {W : Type 0} {t : Transport W} (s : Streams t) (on : W → Type 0) : Type 0 where
  pub reads : IsReadable s on
  pub write_moves :
      (w : W) (bs : List ℕ) → on w → 0 < length bs → (n : ℕ) × ((t.write w bs).0 ≡ pos (suc n))
  pub write_on : (w : W) (bs : List ℕ) → on w → 0 < length bs → on (t.write w bs).1
  pub millis_on : (w : W) → on w → on (t.millis w).1
  pub random_on : (w : W) → on w → on (t.random w).1
  pub read_keeps : (w : W) (len : ℕ) → s.sent (t.read w len).2 ≡ s.sent w
  pub millis_sent : (w : W) → s.sent (t.millis w).1 ≡ s.sent w
  pub random_sent : (w : W) → s.sent (t.random w).1 ≡ s.sent w

-- A call that only reads the clock keeps the states in which the stream moves.
pub clock-keeps :
    {W : Type 0} {t : Transport W} {s : Streams t} {on : W → Type 0} (r : IsReady s on) (w w' : W)
    → w' ≡ (t.millis w).1
    → on w
    → on w'
clock-keeps {on = on} r w w' e o = transport (ap on (sym e)) (r.millis_on w o)

minus_zero : (n : ℕ) → n - 0 ≡ n
minus_zero n = omega arith

-- Of a frame of which nothing is sent, all is unsent.
pub unsent_whole : (b : Wire) → b.tx_sent ≡ 0 → unsent b ≡ take b.tx_len b.tx
unsent_whole b e =
    ap (λ (k : ℕ). take (b.tx_len - k) (drop k b.tx)) e
    ∙ ap (λ (k : ℕ). take k b.tx) (minus_zero b.tx_len)

module _ {W : Type 0} (t : Transport W) (v : IsTransport t) (s : Streams t) {on : W → Type 0}
    (r : IsReady s on) where
  write_loop-ok :
      (rounds : ℕ) (b : Wire) (w : W)
      → b.tx_len ≤ length b.tx
      → on w
      → let out = write_loop t rounds b w in (out.0 ≡ ok) × on out.2
  unfolding write_loop
  write_loop-ok zero b w h o = (refl, o)
  write_loop-ok (suc rounds) b w h o = elim (Bool-cases (ltb b.tx_sent b.tx_len)) [
    | inr all ↦ ground (arith, o)
    | inl part ↦
        let left : length (unsent b) ≡ b.tx_len - b.tx_sent = omega (
          arith,
          length-take (b.tx_len - b.tx_sent) (drop b.tx_sent b.tx),
          length-drop b.tx_sent b.tx,
        ) in
        let some_left : 0 < length (unsent b) = ground (arith, left) in
        let (n, e) = r.write_moves w (unsent b) o some_left in
        let o' = r.write_on w (unsent b) o some_left in
        ground (
          arith,
          e,
          write_loop-ok rounds (record b { tx_sent = b.tx_sent + suc n }) (t.write w (unsent b)).1 h
              o',
        )
  ]

  -- The rest of the frame goes out in one call.
  pub write_pending-ready :
      (room : ℕ) (b : Wire) (w : W)
      → IsSending room b
      → on w
      → let out = write_pending t b w in
        (out.0 ≡ ok)
        × (out.1 ≡ record b { tx_sent = b.tx_len })
        × (s.sent out.2 ≡ s.sent w ++ unsent b)
        × on out.2
  unfolding write_pending
  write_pending-ready room b w h o =
      let out = write_pending t b w in
      let wrote = write_pending-Wrote t v b w h.sent_fits in
      let (done, o') =
        write_loop-ok (b.tx_len - b.tx_sent) b w (omega (arith, h.tx_fits, h.tx_room)) o in
      let all : out.1.tx_sent ≡ b.tx_len = wrote.ok_complete done in
      let end : out.1 ≡ record b { tx_sent = b.tx_len } =
        wrote.only_sent ∙ ap (λ (k : ℕ). record b { tx_sent = k }) all in
      let over : b.tx_len - b.tx_len ≡ 0 = omega arith in
      let none_left : unsent out.1 ≡ [] =
        ap unsent end ∙ ap (λ (k : ℕ). take k (drop b.tx_len b.tx)) over in
      (
        done,
        end,
        sym (append-nil (s.sent out.2))
            ∙ ap (λ xs. s.sent out.2 ++ xs) (sym none_left)
            ∙ write_pending-outgoing t s b w,
        o',
      )

module _ {W : Type 0} (t : Transport W) (s : Streams t)
    (keeps : (w : W) (bs : List ℕ) → s.unread (t.write w bs).1 ≡ s.unread w) where
  write_loop-unread :
      (rounds : ℕ) (b : Wire) (w : W) → s.unread (write_loop t rounds b w).2 ≡ s.unread w
  unfolding write_loop
  write_loop-unread zero b w = refl
  write_loop-unread (suc rounds) b w =
      let kept = keeps w (unsent b) in
      elim (sign (t.write w (unsent b)).0) [
        | nothing e ↦ ground (arith, kept)
        | count i e ↦
            let b' : Wire = record b { tx_sent = b.tx_sent + suc i } in
            ground (arith, kept, write_loop-unread rounds b' (t.write w (unsent b)).1)
        | code i e ↦ ground (arith, kept)
      ]

  -- Where a write leaves what is to be read alone, so does `writePending`.
  pub write_pending-unread : (b : Wire) (w : W) → s.unread (write_pending t b w).2 ≡ s.unread w
  unfolding write_pending
  write_pending-unread b w = write_loop-unread (b.tx_len - b.tx_sent) b w
