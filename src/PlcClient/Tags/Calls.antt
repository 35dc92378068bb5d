-- ===== src/PlcClient/Tags/Calls.antt =====
-- The callbacks that a sweep over the tags makes.
use esp32_control_logix.Base.{ℕ, ◌+◌, ◌≡◌, refl, ap, ◌∙◌, Bool, List, [], ◌∷◌, ◌++◌, arith}
use esp32_control_logix.Transport.{Transport}
use esp32_control_logix.Message.{Message}
use esp32_control_logix.PlcClient.{Slot, Call, tag_done, state_changed}
use esp32_control_logix.PlcClient.Tags.{visit, sweep}

-- The calls of the state callback.
abbrev pub state_calls : List Call → List Call
state_calls [] = []
state_calls (tag_done i st ∷ ks) = state_calls ks
state_calls (state_changed st ∷ ks) = state_changed st ∷ state_calls ks

pub state_calls-append :
    (xs ys : List Call) → state_calls (xs ++ ys) ≡ state_calls xs ++ state_calls ys
state_calls-append [] ys = refl
state_calls-append (tag_done i st ∷ ks) ys = state_calls-append ks ys
state_calls-append (state_changed st ∷ ks) ys =
    ap (◌∷◌ (state_changed st)) (state_calls-append ks ys)

module _ {W : Type 0} (t : Transport W) (callback : Bool) where
  visit-no_state_call :
      (i : ℕ) (s : Slot) (m : Message) (w : W) → state_calls (visit t callback i s m w).calls ≡ []
  unfolding visit
  visit-no_state_call i s m w = ground arith

  -- A sweep makes no call of the state callback.
  pub sweep-no_state_call :
      (i : ℕ) (ss : List Slot) (m : Message) (w : W)
      → state_calls (sweep t callback i ss m w).calls ≡ []
  unfolding sweep
  sweep-no_state_call i [] m w = refl
  sweep-no_state_call i (s ∷ ss) m w =
      let first = visit t callback i s m w in
      let rest = sweep t callback (i + 1) ss first.msg first.world in
      state_calls-append first.calls rest.calls
      ∙ ap (λ ks. ks ++ state_calls rest.calls) (visit-no_state_call i s m w)
      ∙ sweep-no_state_call (i + 1) ss first.msg first.world
