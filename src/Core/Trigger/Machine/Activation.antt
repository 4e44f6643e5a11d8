-- ===== src/Core/Trigger/Machine/Activation.antt =====
-- What `Trigger_activate` and `Trigger_deactivate` leave.
use se_scope_target.Prelude.{
  ℕ, zero, suc, ◌≡◌, refl, Bool, true, false, List, [], ◌∷◌, map, some, arith, get_elem?,
}
use se_scope_target.SeLib.Core.{CoreLib}
use se_scope_target.Core.Channel.{Channel}
use se_scope_target.Core.Channel
use se_scope_target.Core.Trigger.{
  trigger_idle, trigger_detecting, Rig, trigger_clear, stop_channels_and_timestamp, reset_buffers,
  safe_channel_states, restore, restore_channel_states,
}
use se_scope_target.Core.Trigger.Machine.{activate, deactivate}

module _ {F B S I : Type 0} (L : CoreLib F B S I) where
  pub deactivate_lem :
      (k : Rig F B S I)
      → ((deactivate L k).trigger.state ≡ trigger_idle)
        × ((deactivate L k).trigger.channel_is_running ≡ map (Channel.is_running L) k.channels)
        × ((deactivate L k).channels ≡ map (λ c. (Channel.set_state_stopped L c).0) k.channels)
  unfolding deactivate safe_channel_states stop_channels_and_timestamp
  deactivate_lem k = (refl, refl, refl)

  pub activate_lem :
      (k : Rig F B S I)
      → ((activate L k).trigger.state ≡ trigger_detecting)
        × ((activate L k).trigger.poll_is_triggered ≡ false)
        × ((activate L k).channels
            ≡ map (Channel.clear L) (restore L k.trigger.channel_is_running k.channels))
  unfolding activate restore_channel_states reset_buffers trigger_clear
  activate_lem k = (refl, refl, refl)

  is_running-set_running :
      (c : Channel F B S)
      → Channel.is_running L c ≡ true
      → Channel.is_running L (Channel.set_state_running L c).0 ≡ true
  unfolding Channel.is_running Channel.set_state_running
  is_running-set_running c r = ground arith

  -- A channel that runs goes on running when the flags are put back.
  pub restore-is_running :
      (rs : List Bool) (cs : List (Channel F B S)) (i : ℕ) (c : Channel F B S)
      → get_elem? cs i ≡ some c
      → Channel.is_running L c ≡ true
      → (d : Channel F B S) × (get_elem? (restore L rs cs) i ≡ some d)
        × (Channel.is_running L d ≡ true)
  unfolding restore
  restore-is_running [] cs i c e r = (c, e, r)
  restore-is_running (x ∷ rs) [] i c e r = ground arith
  restore-is_running (true ∷ rs) (x ∷ cs) zero c e r =
      ((Channel.set_state_running L x).0, refl, ground (arith, is_running-set_running c))
  restore-is_running (false ∷ rs) (x ∷ cs) zero c e r = (x, refl, ground arith)
  restore-is_running (x ∷ rs) (y ∷ cs) (suc i) c e r = restore-is_running rs cs i c e r
