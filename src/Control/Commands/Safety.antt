-- ===== src/Control/Commands/Safety.antt =====
-- What commands leave of the scope's soundness.
use se_scope_target.Prelude.{
  ℕ, ◌≤◌, ◌≡◌, ◌≢◌, refl, ◌∙◌, List, [], ◌∷◌, map, arith, length, ◌⊎◌, Returns,
}
use se_scope_target.SeLib.Core.{CoreLib}
use se_scope_target.ScopeTypes.{
  MessageType, TriggerConfiguration, ChannelState, channel_none, channel_init, channel_running,
  channel_stopped, cf_running,
}
use se_scope_target.Core.Trigger.Machine.Invariant.{IsSound}
use se_scope_target.Core.Scope.{Scope, configure_channel}
use se_scope_target.Core.Scope.Safety.{poll-Keeps}
use se_scope_target.Core.Scope.Keeping.{
  Keeps, configure_channel-Keeps, configure_trigger-Keeps, set_channel_running-Keeps,
  set_channel_stopped-Keeps, clear-Keeps, increment-Keeps,
}
use se_scope_target.Control.Commands.{
  Unpacker, RunningEntry, AddrEntry, Commands, entries, set_running_attributes, running_entry,
  parse_addr, parse_running, parse_t_inc, parse_trigger, run_addr, change_state, run_running,
  run_poll, run_trigger, dispatch,
}

module _ {F B S I : Type 0} (L : CoreLib F B S I) where
  Keeps-trans : (s t u : Scope F B S I) → Keeps L s t → Keeps L t u → Keeps L s u
  Keeps-trans s t u (v, n) (w, m) = (w, m ∙ n)

  run_addr-Keeps :
      (amount : ℕ) (s : Scope F B S I) (es : List AddrEntry)
      → IsSound L s.rig
      → Keeps L s (run_addr L amount s es).0
  unfolding run_addr
  run_addr-Keeps amount s [] v = (v, refl)
  run_addr-Keeps amount s (e ∷ es) v =
      let s' = configure_channel L s e.changed_channel e.new_address e.type in
      let kept = configure_channel-Keeps L s e.changed_channel e.new_address e.type v in
      let rest =
        Keeps-trans s s' (run_addr L amount s' es).0 kept (run_addr-Keeps amount s' es kept.0) in
      ground arith

  change_state-Keeps :
      (s : Scope F B S I) (e : RunningEntry) → IsSound L s.rig → Keeps L s (change_state L s e)
  unfolding change_state
  change_state-Keeps s e v = by_state e.new_state refl
    where
      by_state : (x : ChannelState) → e.new_state ≡ x → Keeps L s (change_state L s e)
      by_state channel_none p = ground arith
      by_state channel_init p = ground arith
      by_state channel_stopped p = ground (arith, set_channel_stopped-Keeps L s e.changed_channel v)
      by_state channel_running p = ground (arith, set_channel_running-Keeps L s e.changed_channel v)

  run_running-Keeps :
      (amount : ℕ) (s : Scope F B S I) (es : List RunningEntry)
      → IsSound L s.rig
      → Keeps L s (run_running L amount s es).0
  unfolding run_running
  run_running-Keeps amount s [] v = (v, refl)
  run_running-Keeps amount s (e ∷ es) v =
      let s' = change_state L s e in
      let kept = change_state-Keeps s e v in
      let rest =
        Keeps-trans s s' (run_running L amount s' es).0 kept
          (run_running-Keeps amount s' es kept.0) in
      ground arith

  run_poll-Keeps :
      (s : Scope F B S I) (memory : ℕ → ℕ) (now : ℕ)
      → IsSound L s.rig
      → Returns (λ r. Keeps L s r.0) (run_poll L s memory now)
  unfolding run_poll
  run_poll-Keeps s memory now v = let kept = poll-Keeps L s memory now v in ground arith

  run_trigger-Keeps :
      (s : Scope F B S I) (conf : TriggerConfiguration F)
      → IsSound L s.rig
      → Returns (λ r. Keeps L s r.0) (run_trigger L s conf)
  unfolding run_trigger
  run_trigger-Keeps s conf v = let kept = configure_trigger-Keeps L s conf v in ground arith

  -- A message of any type, with any content, on a sound scope: unless it starts or stops more channels
  -- than there are, its command returns, and the scope stays sound, with its channels.
  pub dispatch-Keeps :
      (c : Commands F) (u : Unpacker F) (s : Scope F B S I) (memory : ℕ → ℕ) (now : ℕ)
      (type : MessageType)
      → IsSound L s.rig
      → (type ≢ cf_running) ⊎ (u.cf_running_get_amount ≤ c.amount_of_channels)
      → Returns
          (λ r. IsSound L r.1.rig × (length r.1.rig.channels ≡ length s.rig.channels))
          (dispatch L c u s memory now type)
  unfolding dispatch parse_running
  dispatch-Keeps c u s memory now type v h =
      let a = parse_addr c u in
      let t = parse_trigger c u in
      let i = parse_t_inc c u in
      let r =
        set_running_attributes c
          (map running_entry (entries u.cf_running_get_channel 0 u.cf_running_get_amount)) in
      let polled = run_poll-Keeps s memory now v in
      let triggered = run_trigger-Keeps s t.trigger_config v in
      ground (
        arith,
        run_running-Keeps r.amount_of_channels s r.running_config v,
        run_addr-Keeps a.amount_of_channels s a.addr_config v,
        increment-Keeps L s i.time_increment v,
        clear-Keeps L s v,
      )
