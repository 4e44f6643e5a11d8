-- ===== src/Core/Scope/Keeping.antt =====
-- What the operations of a sound scope keep: it stays sound, with its channels.
use se_scope_target.Prelude.{
  ℕ, ◌<◌, ◌≡◌, true, false, map, arith, length, length-map, Option-cases, inl, inr, ◌↔◌, Returns,
  Returns-cases, get_elem?, length-set,
}
use se_scope_target.ScopeTypes.{TriggerConfiguration, DataType}
use se_scope_target.SeLib.Core.{CoreLib}
use se_scope_target.Core.Channel.{Channel}
use se_scope_target.Core.Channel
use se_scope_target.Core.Timestamper
use se_scope_target.Core.Trigger.{Rig}
use se_scope_target.Core.Trigger.Machine.Invariant.{
  IsSound, trigger_clear-Keeps, configure-Keeps, activate-Keeps, deactivate-Keeps,
}
use se_scope_target.Core.Trigger.Machine
use se_scope_target.Core.Scope.{
  Scope, configure_channel, configure_trigger, configure_timestamp_increment, set_channel_running,
  set_channel_stopped, activated, deactivated, clear, with_channel,
}

module _ {F B S I : Type 0} (L : CoreLib F B S I) where
  -- Sound, with as many channels as before.
  abbrev pub Keeps : Scope F B S I → Scope F B S I → Type 0
  Keeps s s' = IsSound L s'.rig × (length s'.rig.channels ≡ length s.rig.channels)

  pub configure_channel-Keeps :
      (s : Scope F B S I) (id address : ℕ) (type : DataType)
      → IsSound L s.rig
      → Keeps s (configure_channel L s id address type)
  unfolding configure_channel
  configure_channel-Keeps s id address type v = elim (Option-cases (get_elem? s.rig.channels id)) [
    | inl e ↦ ground arith
    | inr (c, e) ↦
        ground (arith, length-set s.rig.channels id (Channel.set_poll_address L c address type))
  ]

  pub configure_trigger-Keeps :
      (s : Scope F B S I) (conf : TriggerConfiguration F)
      → IsSound L s.rig
      → Returns (Keeps s) (configure_trigger L s conf)
  unfolding configure_trigger
  configure_trigger-Keeps s conf v =
      let (r, e, w) =
        Returns-cases
          (λ r.
            IsSound L r.0
            × (length r.0.channels ≡ length s.rig.channels)
            × ((r.1 ≡ true) ↔ ((conf.mode < 3) × (conf.channel_id < length s.rig.channels)))
            × ((r.1 ≡ false) → r.0 ≡ s.rig))
          (Machine.configure L s.rig conf) (configure-Keeps L s.rig conf v) in
      ground arith

  with_channel-IsSound :
      (k : Rig F B S I) (id : ℕ) (c : Channel F B S)
      → IsSound L k
      → IsSound L (with_channel L k id c)
        × (length (with_channel L k id c).channels ≡ length k.channels)
  with_channel-IsSound k id c v = ground (arith, length-set k.channels id c)

  activated-Keeps :
      (s : Scope F B S I) (k : Rig F B S I)
      → IsSound L k
      → length k.channels ≡ length s.rig.channels
      → Keeps s (activated L s k)
  unfolding activated
  activated-Keeps s k v n =
      let k' = record k { timestamper = Timestamper.set_state_running L.ints k.timestamper } in
      let w : IsSound L k' = ground arith in ground (arith, activate-Keeps L k' w)

  deactivated-Keeps :
      (s : Scope F B S I) (k : Rig F B S I)
      → IsSound L k
      → length k.channels ≡ length s.rig.channels
      → Keeps s (deactivated L s k)
  unfolding deactivated
  deactivated-Keeps s k v n =
      let k' = record k { timestamper = Timestamper.set_state_stopped L.ints k.timestamper } in
      let w : IsSound L k' = ground arith in ground (arith, deactivate-Keeps L k' w)

  pub set_channel_running-Keeps :
      (s : Scope F B S I) (id : ℕ) → IsSound L s.rig → Keeps s (set_channel_running L s id)
  unfolding set_channel_running
  set_channel_running-Keeps s id v = elim (Option-cases (get_elem? s.rig.channels id)) [
    | inl e ↦ ground arith
    | inr (c, e) ↦
        let c' = (Channel.set_state_running L c).0 in
        let (w, n) = with_channel-IsSound s.rig id c' v in
        ground (arith, activated-Keeps s (with_channel L s.rig id c') w n)
  ]

  pub set_channel_stopped-Keeps :
      (s : Scope F B S I) (id : ℕ) → IsSound L s.rig → Keeps s (set_channel_stopped L s id)
  unfolding set_channel_stopped
  set_channel_stopped-Keeps s id v = elim (Option-cases (get_elem? s.rig.channels id)) [
    | inl e ↦ ground arith
    | inr (c, e) ↦
        let c' = (Channel.set_state_stopped L c).0 in
        let (w, n) = with_channel-IsSound s.rig id c' v in
        ground (arith, deactivated-Keeps s (with_channel L s.rig id c') w n)
  ]

  pub clear-Keeps : (s : Scope F B S I) → IsSound L s.rig → Keeps s (clear L s)
  unfolding clear
  clear-Keeps s v =
      let k' = record s.rig {
        channels = map (Channel.clear L) s.rig.channels;
        timestamper = Timestamper.clear L.ints s.rig.timestamper;
      } in
      let w : IsSound L k' = ground (arith, length-map (Channel.clear L) s.rig.channels) in
      ground (arith, trigger_clear-Keeps L k' w, length-map (Channel.clear L) s.rig.channels)

  pub increment-Keeps :
      (s : Scope F B S I) (n : ℕ) → IsSound L s.rig → Keeps s (configure_timestamp_increment L s n)
  unfolding configure_timestamp_increment
  increment-Keeps s n v = ground arith
