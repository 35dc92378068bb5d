-- ===== src/Sketch/Runs.antt =====
-- Runs of the four sketches that share their phases.
use esp32_control_logix.Base.{ℕ}
use esp32_control_logix.Network.{Network}
use esp32_control_logix.Sketch.Cycle.{after}
use esp32_control_logix.Sketch.Cycle.Lifecycle.{IsCycle, after-IsCycle}
use esp32_control_logix.Sketch.EipSession
use esp32_control_logix.Sketch.EipSession.{EipSession}
use esp32_control_logix.Sketch.IdentityQuery
use esp32_control_logix.Sketch.IdentityQuery.{IdentityQuery}
use esp32_control_logix.Sketch.TagReadWrite
use esp32_control_logix.Sketch.TagReadWrite.{TagReadWrite}
use esp32_control_logix.Sketch.ConnectedTagReadWrite
use esp32_control_logix.Sketch.ConnectedTagReadWrite.{ConnectedTagReadWrite}

module _ {C W : Type 0} (net : Network C W) (cfg : C) where
  -- In any run of any of the four sketches, over any network, the session is in a state that fits
  -- the phase: it is idle or closed when the sketch waits for Ethernet or connects, so that `open`
  -- does not find it busy; it is registered, with a handle other than 0, in the phase that uses its
  -- handle; and it is never left registered once the sketch has gone on to close it.
  pub sketches-IsCycle :
      (n : ℕ) (e : EipSession) (i : IdentityQuery) (r : TagReadWrite) (c : ConnectedTagReadWrite)
      (w : W)
      → IsCycle e
      → IsCycle i
      → IsCycle r
      → IsCycle c
      → IsCycle (after (EipSession.loop net cfg) n e w).0
        × IsCycle (after (IdentityQuery.loop net cfg) n i w).0
        × IsCycle (after (TagReadWrite.loop net cfg) n r w).0
        × IsCycle (after (ConnectedTagReadWrite.loop net cfg) n c w).0
  sketches-IsCycle n e i r c w ve vi vr vc = (
    after-IsCycle (EipSession.loop net cfg) (EipSession.keeps-IsCycle net cfg) n e w ve,
    after-IsCycle (IdentityQuery.loop net cfg) (IdentityQuery.keeps-IsCycle net cfg) n i w vi,
    after-IsCycle (TagReadWrite.loop net cfg) (TagReadWrite.keeps-IsCycle net cfg) n r w vr,
    after-IsCycle (ConnectedTagReadWrite.loop net cfg) (ConnectedTagReadWrite.keeps-IsCycle net cfg)
        n c w vc,
  )
