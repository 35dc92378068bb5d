-- ===== src/Wire/Sending.antt =====
-- `writePending` stays inside the frame that it sends.
use esp32_control_logix.Base.{
  ℕ, zero, suc, ◌+◌, ◌-◌, ◌≤◌, ◌<◌, ◌≡◌, ◌≢◌, length, drop, length-take, arith,
}
use esp32_control_logix.Base.Int.{negsuc, sign, nothing, count, code}
use esp32_control_logix.Status.{ok, pending, of_int}
use esp32_control_logix.Transport.{Transport, IsTransport}
use esp32_control_logix.Wire.{Wire, Outcome, unsent, write_loop, write_pending}

-- The frame to send lies in the transmit buffer, of `cap` bytes.
pub record IsSending (cap : ℕ) (b : Wire) : Type 0 where
  pub tx_room : length b.tx ≡ cap
  pub tx_fits : b.tx_len ≤ cap
  pub sent_fits : b.tx_sent ≤ b.tx_len

-- What `writePending` may change, and what its status means.
pub record Wrote {W : Type 0} (b : Wire) (out : Outcome W) : Type 0 where
  pub only_sent : out.1 ≡ record b { tx_sent = out.1.tx_sent }
  pub onward : b.tx_sent ≤ out.1.tx_sent
  pub sent_fits : out.1.tx_sent ≤ b.tx_len
  pub ok_complete : out.0 ≡ ok → out.1.tx_sent ≡ b.tx_len
  pub pending_partial : out.0 ≡ pending → out.1.tx_sent < b.tx_len

pub of_int-failure : (n : ℕ) → (of_int (negsuc n) ≢ ok) × (of_int (negsuc n) ≢ pending)
of_int-failure zero = ((λ e. cc), λ e. cc)
of_int-failure (suc zero) = ((λ e. cc), λ e. cc)
of_int-failure (suc (suc zero)) = ((λ e. cc), λ e. cc)
of_int-failure (suc (suc (suc zero))) = ((λ e. cc), λ e. cc)
of_int-failure (suc (suc (suc (suc zero)))) = ((λ e. cc), λ e. cc)
of_int-failure (suc (suc (suc (suc (suc n))))) = ((λ e. cc), λ e. cc)

length-unsent : (b : Wire) → length (unsent b) ≤ b.tx_len - b.tx_sent
length-unsent b = omega (arith, length-take (b.tx_len - b.tx_sent) (drop b.tx_sent b.tx))

module _ {W : Type 0} (t : Transport W) (v : IsTransport t) where
  write_loop-Wrote :
      (rounds : ℕ) (b : Wire) (w : W)
      → b.tx_sent ≤ b.tx_len
      → b.tx_len - b.tx_sent ≤ rounds
      → Wrote b (write_loop t rounds b w)
  unfolding write_loop
  write_loop-Wrote zero b w h k = ground arith
  write_loop-Wrote (suc rounds) b w h k = elim (sign (t.write w (unsent b)).0) [
    | nothing e ↦ ground arith
    | count i e ↦
        let b' : Wire = record b { tx_sent = b.tx_sent + suc i } in
        ground (
          arith,
          length-unsent b,
          v.write_fits w (unsent b) (suc i),
          write_loop-Wrote rounds b' (t.write w (unsent b)).1,
        )
    | code i e ↦ ground (arith, of_int-failure i)
  ]

  -- From a buffer whose sent part lies in its frame, and over a transport that keeps its contract,
  -- `writePending` never passes the end of the frame, and changes nothing but `txSent_`. It returns
  -- `Ok` only when all is sent, and `Pending` only while bytes are left.
  pub write_pending-Wrote :
      (b : Wire) (w : W) → b.tx_sent ≤ b.tx_len → Wrote b (write_pending t b w)
  unfolding write_pending
  write_pending-Wrote b w h = write_loop-Wrote (b.tx_len - b.tx_sent) b w h (omega arith)
