-- ===== src/Sketch/ReliabilityDemo/Exhaust.antt =====
-- The phase `Exhaust` fills the pool.
use esp32_control_logix.Base.{ℕ, zero, suc, ◌+◌, ◌≡◌, ◌⊎◌, inl, inr, refl, ◌∙◌, some, length, arith}
use esp32_control_logix.Base.Int.{ℤ, pos, negsuc}
use esp32_control_logix.Network.{Network}
use esp32_control_logix.PlcClient.{PlcClient, tag_count}
use esp32_control_logix.PlcClient.Tags.{create_tag}
use esp32_control_logix.PlcClient.Tags.Pool.{Created, create_tag-Created, tag_count-le}
use esp32_control_logix.Sketch.TagReadWrite.{test_dint}
use esp32_control_logix.Sketch.ReliabilityDemo.{
  Demo, exhaust, read, tag_created, exhaust_step, loop,
}

module _ {C W : Type 0} (net : Network C W) where
  -- The state after `n` loops.
  pub after : ℕ → Demo → W → Demo × W
  after zero l w = (l, w)
  after (suc n) l w = let (l', w') = loop net l w in after n l' w'

  tag_created-exhaust :
      (l : Demo) (w : W) (r : ℤ × PlcClient)
      → l.phase ≡ exhaust
      → Created l.plc r
      → let l' = (tag_created net l r w).0 in
        ((l'.phase ≡ exhaust)
          × (tag_count l'.plc.slots ≡ tag_count l.plc.slots + 1)
          × (length l'.plc.slots ≡ length l.plc.slots))
        ⊎ ((l'.phase ≡ read) × (tag_count l.plc.slots ≡ length l.plc.slots))
  tag_created-exhaust l w (pos h, c) e (inl (k, at_k, f, more, same)) = inl (e, more, same)
  tag_created-exhaust l w (pos h, c) e (inr (none_left, same, all)) = cc
  tag_created-exhaust l w (negsuc n, c) e (inl (k, at_k, f, more, same)) = cc
  tag_created-exhaust l w (negsuc n, c) e (inr (none_left, same, all)) = inr (refl, all)

  loop-exhaust :
      (l : Demo) (w : W)
      → l.phase ≡ exhaust
      → let l' = (loop net l w).0 in
        ((l'.phase ≡ exhaust)
          × (tag_count l'.plc.slots ≡ tag_count l.plc.slots + 1)
          × (length l'.plc.slots ≡ length l.plc.slots))
        ⊎ ((l'.phase ≡ read) × (tag_count l.plc.slots ≡ length l.plc.slots))
  unfolding loop exhaust_step
  loop-exhaust l w e =
      let made = create_tag-Created l.plc (some test_dint) 1 refl in
      ground (arith, e, tag_created-exhaust l w (create_tag l.plc (some test_dint) 1) e made)

  -- From the phase `Exhaust`, with `n` slots free, the sketch is still in that phase after `n` loops,
  -- with every slot in use, and after one loop more it has gone on to read.
  pub exhaust-read :
      (n : ℕ) (l : Demo) (w : W)
      → l.phase ≡ exhaust
      → tag_count l.plc.slots + n ≡ length l.plc.slots
      → let (full, w1) = after n l w in
        (full.phase ≡ exhaust)
        × (tag_count full.plc.slots ≡ length l.plc.slots)
        × ((loop net full w1).0.phase ≡ read)
  unfolding after
  exhaust-read zero l w e room =
      let bound = tag_count-le (loop net l w).0.plc.slots in
      let full : tag_count l.plc.slots ≡ length l.plc.slots = omega (arith, room) in
      (
        e,
        full,
        elim (loop-exhaust l w e) [
          | inl (same, more, size) ↦ absurd (omega (arith, full, more, size, bound))
          | inr (moved, all) ↦ moved
        ],
      )
  exhaust-read (suc n) l w e room = elim (loop-exhaust l w e) [
    | inl (same, more, size) ↦
        let (l', w') = loop net l w in
        let (still, full, moved) = exhaust-read n l' w' same (omega (arith, room, more, size)) in
        (still, full ∙ size, moved)
    | inr (moved, all) ↦ absurd (omega (arith, room, all))
  ]
