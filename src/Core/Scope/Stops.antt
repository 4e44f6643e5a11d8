-- ===== src/Core/Scope/Stops.antt =====
-- What starting and stopping a channel does to the whole scope.
use se_scope_target.Prelude.{
  ℕ, zero, suc, ◌<◌, ◌≡◌, refl, subst, ap, sym, ◌∙◌, true, false, List, [], ◌∷◌, map, some, arith,
  length, get_elem?-map, get_elem?_bound, get_elem?_total, All, ◌⊎◌, get_elem?, set,
  get_elem?-set_self,
}
use se_scope_target.SeLib.Core.{CoreLib}
use se_scope_target.Core.Channel.{Channel}
use se_scope_target.Core.Channel
use se_scope_target.Core.Timestamper
use se_scope_target.Core.Trigger.{Rig}
use se_scope_target.Core.Trigger.Machine
use se_scope_target.Core.Scope.{
  Scope, set_channel_running, set_channel_stopped, activated, deactivated, with_channel,
}
use se_scope_target.Core.Trigger.{restore, trigger_idle, trigger_detecting}
use se_scope_target.ScopeTypes.{
  ChannelState, channel_none, channel_init, channel_stopped, channel_running,
}
use se_scope_target.Core.Scope.{some_channel_is_running, all_channels_are_stopped}
use se_scope_target.Core.Trigger.Machine.Activation.{
  deactivate_lem, activate_lem, restore-is_running,
}

module _ {F B S I : Type 0} (L : CoreLib F B S I) where
  abbrev Off : List (Channel F B S) → Type 0
  Off cs = All (λ c. Channel.is_running L c ≡ false) cs

  some_channel_is_running-Off :
      (cs : List (Channel F B S)) → Off cs → some_channel_is_running L cs ≡ false
  unfolding some_channel_is_running
  some_channel_is_running-Off [] h = refl
  some_channel_is_running-Off (c ∷ cs) (h, hs) = ground (arith, some_channel_is_running-Off cs hs)

  some_channel_is_running-get :
      (cs : List (Channel F B S)) (i : ℕ) (c : Channel F B S)
      → get_elem? cs i ≡ some c
      → Channel.is_running L c ≡ true
      → some_channel_is_running L cs ≡ true
  unfolding some_channel_is_running
  some_channel_is_running-get [] i c e r = ground arith
  some_channel_is_running-get (x ∷ cs) zero c e r = ground arith
  some_channel_is_running-get (x ∷ cs) (suc i) c e r =
      ground (arith, some_channel_is_running-get cs i c e r)

  Off-set :
      (cs : List (Channel F B S)) (i : ℕ) (c : Channel F B S)
      → Off cs
      → Channel.is_running L c ≡ false
      → Off (set cs i c)
  Off-set [] i c h e = tt
  Off-set (x ∷ cs) zero c (h, hs) e = (e, hs)
  Off-set (x ∷ cs) (suc i) c (h, hs) e = (h, Off-set cs i c hs e)

  is_running-stopped :
      (c : Channel F B S) → Channel.is_running L (Channel.set_state_stopped L c).0 ≡ false
  unfolding Channel.is_running Channel.set_state_stopped
  is_running-stopped c = by_state c.state refl
    where
      by_state :
          (x : ChannelState)
          → c.state ≡ x
          → Channel.is_running L (Channel.set_state_stopped L c).0 ≡ false
      by_state channel_none e = ground arith
      by_state channel_init e = ground arith
      by_state channel_stopped e = ground arith
      by_state channel_running e = ground arith

  Off-flags :
      (cs : List (Channel F B S)) → Off cs → All (λ b. b ≡ false) (map (Channel.is_running L) cs)
  Off-flags [] h = tt
  Off-flags (c ∷ cs) (h, hs) = (h, Off-flags cs hs)

  Off-deactivated :
      (s : Scope F B S I) (k : Rig F B S I)
      → Off k.channels
      → let s' = deactivated L s k in
        (s'.scope_is_ready_to_run ≡ false)
        × (s'.rig.trigger.state ≡ trigger_idle)
        × All (λ b. b ≡ false) s'.rig.trigger.channel_is_running
  unfolding deactivated all_channels_are_stopped
  Off-deactivated s k off =
      let k' = record k { timestamper = Timestamper.set_state_stopped L.ints k.timestamper } in
      let (idle, saved, _) = deactivate_lem L k' in
      let flags = Off-flags k.channels off in
      let kept : All (λ b. b ≡ false) (Machine.deactivate L k').trigger.channel_is_running =
        subst (All (λ b. b ≡ false)) (sym saved) flags in
      let q = some_channel_is_running-Off k.channels off in ground arith

  -- `Scope_setChannelStopped` on any channel, when no channel is running at that moment, as while the
  -- trigger waits for its data to be read or is paused: the whole scope stops, and the flags by which
  -- the trigger would have set the other channels running again are all cleared.
  pub set_channel_stopped_paused :
      (s : Scope F B S I) (id : ℕ)
      → id < length s.rig.channels
      → All (λ c. Channel.is_running L c ≡ false) s.rig.channels
      → let s' = set_channel_stopped L s id in
        (s'.scope_is_ready_to_run ≡ false)
        × (s'.rig.trigger.state ≡ trigger_idle)
        × All (λ b. b ≡ false) s'.rig.trigger.channel_is_running
  unfolding set_channel_stopped
  set_channel_stopped_paused s id h off =
      let (c, e) = get_elem?_total s.rig.channels id h in
      let d = (Channel.set_state_stopped L c).0 in
      let off' = Off-set s.rig.channels id d off (is_running-stopped c) in
      let facts = Off-deactivated s (with_channel L s.rig id d) off' in ground arith

  -- A channel that is running or stopped.
  abbrev Startable : Channel F B S → Type 0
  Startable c = (c.state ≡ channel_stopped) ⊎ (c.state ≡ channel_running)

  is_running-started :
      (c : Channel F B S)
      → Startable c
      → Channel.is_running L (Channel.set_state_running L c).0 ≡ true
  unfolding Channel.is_running Channel.set_state_running
  is_running-started c h = ground arith

  -- Both buffers are empty.
  pub Empty : Channel F B S → Type 0
  Empty c = (L.ring.contents c.poll_buffer ≡ []) × (L.ring.contents c.swap_buffer ≡ [])

  cleared : (cs : List (Channel F B S)) → All Empty (map (Channel.clear L) cs)
  unfolding Channel.clear Empty
  cleared [] = tt
  cleared (c ∷ cs) =
      ((L.ring.contents-clear c.poll_buffer, L.ring.contents-clear c.swap_buffer), cleared cs)

  is_running-clear :
      (c : Channel F B S) → Channel.is_running L (Channel.clear L c) ≡ Channel.is_running L c
  unfolding Channel.is_running Channel.clear
  is_running-clear c = refl

  -- What `activated` leaves when the channel `id` runs.
  activated_running :
      (s : Scope F B S I) (k : Rig F B S I) (id : ℕ) (c : Channel F B S)
      → get_elem? k.channels id ≡ some c
      → Channel.is_running L c ≡ true
      → let s' = activated L s k in
        (s'.scope_is_ready_to_run ≡ true)
        × (s'.rig.trigger.state ≡ trigger_detecting)
        × All Empty s'.rig.channels
        × (d : Channel F B S) × (get_elem? s'.rig.channels id ≡ some d)
        × (Channel.is_running L d ≡ true)
  unfolding activated all_channels_are_stopped
  activated_running s k id c e r =
      let k' = record k { timestamper = Timestamper.set_state_running L.ints k.timestamper } in
      let flags = k.trigger.channel_is_running in
      let (detecting, _, channels) = activate_lem L k' in
      let (d, at, runs) = restore-is_running L flags k.channels id c e r in
      let moved = get_elem?-map (Channel.clear L) (restore L flags k.channels) id in
      let q = some_channel_is_running-get k.channels id c e r in
      let empty = cleared (restore L flags k.channels) in
      let ready : activated L s k
          ≡ record s { rig = Machine.activate L k'; scope_is_ready_to_run = true } =
        ground arith in
      let same = ap (λ (x : Scope F B S I). x.rig.channels) ready ∙ channels in
      (
        ap (λ (x : Scope F B S I). x.scope_is_ready_to_run) ready,
        ap (λ (x : Scope F B S I). x.rig.trigger.state) ready ∙ detecting,
        subst (All Empty) (sym same) empty,
        Channel.clear L d,
        ap (λ cs. get_elem? cs id) same ∙ (moved ∙ ground arith),
        is_running-clear d ∙ runs,
      )

  -- `Scope_setChannelRunning` on a channel that has an address starts the whole scope: it is ready to
  -- run, the trigger detects, all buffers of all channels are empty, and the channel runs.
  pub set_channel_running_lem :
      (s : Scope F B S I) (id : ℕ) (c : Channel F B S)
      → get_elem? s.rig.channels id ≡ some c
      → (c.state ≡ channel_stopped) ⊎ (c.state ≡ channel_running)
      → let s' = set_channel_running L s id in
        (s'.scope_is_ready_to_run ≡ true)
        × (s'.rig.trigger.state ≡ trigger_detecting)
        × All Empty s'.rig.channels
        × (d : Channel F B S) × (get_elem? s'.rig.channels id ≡ some d)
        × (Channel.is_running L d ≡ true)
  unfolding set_channel_running
  set_channel_running_lem s id c e h =
      let d = (Channel.set_state_running L c).0 in
      let k = with_channel L s.rig id d in
      let at : get_elem? k.channels id ≡ some d =
        get_elem?-set_self s.rig.channels id d (get_elem?_bound s.rig.channels id c e) in
      let facts = activated_running s k id d at (is_running-started c h) in
      let same : set_channel_running L s id ≡ activated L s k = ground arith in
      subst
        (λ (x : Scope F B S I).
          (x.scope_is_ready_to_run ≡ true)
          × (x.rig.trigger.state ≡ trigger_detecting)
          × All Empty x.rig.channels
          × (d : Channel F B S) × (get_elem? x.rig.channels id ≡ some d)
          × (Channel.is_running L d ≡ true))
        (sym same) facts
