-- ===== src/Core/Scope/Addresses.antt =====
-- The operations of a scope never let a channel run that has no address of those that were configured.
use se_scope_target.Prelude.{
  ℕ, ◌≡◌, refl, Bool, true, List, [], ◌∷◌, map, Option, some, arith, Option-cases, inl, inr,
  get_elem?,
}
use se_scope_target.ScopeTypes.{TriggerConfiguration, MessageType, DataType}
use se_scope_target.SeLib.Core.{CoreLib}
use se_scope_target.Core.Channel.{Channel}
use se_scope_target.Core.Channel
use se_scope_target.Core.Channel.Faults.{AllReadable, poll_keeps_address}
use se_scope_target.Core.Timestamper
use se_scope_target.Core.Trigger.{Trigger, Rig}
use se_scope_target.Core.Trigger.Machine
use se_scope_target.Core.Trigger.Machine.Addresses.{
  IsBacked, AllBacked, map-AllBacked, set-AllBacked, get-IsBacked, stopped-IsBacked,
  running-IsBacked, clear-IsBacked, run-AllBacked, configure-channels, activate-AllBacked,
  deactivate-AllBacked, create-AllBacked, trigger_clear-AllBacked,
}
use se_scope_target.Core.Scope.{
  Scope, sample, poll, configure_channel, configure_trigger, configure_timestamp_increment,
  set_channel_running, set_channel_stopped, activated, deactivated, clear, create, with_channel,
}

module _ {F B S I : Type 0} (L : CoreLib F B S I) (IsReadable : ℕ → Type 0) where
  abbrev Backed : List (Channel F B S) → Type 0
  Backed = AllBacked L IsReadable

  created_channels :
      (size : ℕ) (raws : List (Channel F B S)) → Backed (map (λ c. Channel.create L c size) raws)
  unfolding Channel.create
  created_channels size [] = tt
  created_channels size (c ∷ cs) = (inl refl, created_channels size cs)

  pub scope_create-AllBacked :
      (size : ℕ) (raws : List (Channel F B S)) (raw : Trigger F)
      → Backed (create L size raws raw).rig.channels
  unfolding create
  scope_create-AllBacked size raws raw =
      create-AllBacked L IsReadable raw (map (λ c. Channel.create L c size) raws) size
        (Timestamper.create L.ints size) (created_channels size raws)

  polled-IsBacked :
      (memory : ℕ → ℕ) (c : Channel F B S)
      → IsBacked L IsReadable c
      → IsBacked L IsReadable (Channel.poll L c memory)
  polled-IsBacked memory c v = let (a, e) = poll_keeps_address L c memory in ground arith

  pub poll-AllBacked :
      (s : Scope F B S I) (r : Scope F B S I × Bool × List MessageType) (memory : ℕ → ℕ) (now : ℕ)
      → Backed s.rig.channels
      → poll L s memory now ≡ some r
      → Backed r.0.rig.channels
  unfolding poll sample
  poll-AllBacked s r memory now v e =
      let k = sample L s.rig memory now in
      let w =
        map-AllBacked L IsReadable (λ c. Channel.poll L c memory) (polled-IsBacked memory)
          s.rig.channels v in
      elim (Option-cases (Machine.run L k)) [
        | inl p ↦ ground arith
        | inr (m, p) ↦ ground (arith, run-AllBacked L IsReadable k m w p)
      ]

  pub configure_channel-AllBacked :
      (s : Scope F B S I) (id address : ℕ) (type : DataType)
      → Backed s.rig.channels
      → IsReadable address
      → Backed (configure_channel L s id address type).rig.channels
  unfolding configure_channel Channel.set_poll_address
  configure_channel-AllBacked s id address type v h =
      elim (Option-cases (get_elem? s.rig.channels id)) [
        | inl p ↦ ground arith
        | inr (c, p) ↦
            let w =
              set-AllBacked L IsReadable s.rig.channels id
                (Channel.set_poll_address L c address type) v (inr h) in
            ground arith
      ]

  pub configure_trigger-AllBacked :
      (s s' : Scope F B S I) (conf : TriggerConfiguration F)
      → Backed s.rig.channels
      → configure_trigger L s conf ≡ some s'
      → Backed s'.rig.channels
  unfolding configure_trigger
  configure_trigger-AllBacked s s' conf v e = elim (Option-cases (Machine.configure L s.rig conf)) [
    | inl p ↦ ground arith
    | inr (r, p) ↦ ground (arith, configure-channels L IsReadable s.rig conf r p)
  ]

  pub increment-AllBacked :
      (s : Scope F B S I) (n : ℕ)
      → Backed s.rig.channels
      → Backed (configure_timestamp_increment L s n).rig.channels
  unfolding configure_timestamp_increment
  increment-AllBacked s n v = v

  activated-AllBacked :
      (s : Scope F B S I) (k : Rig F B S I)
      → Backed k.channels
      → Backed (activated L s k).rig.channels
  unfolding activated
  activated-AllBacked s k v =
      let k' = record k { timestamper = Timestamper.set_state_running L.ints k.timestamper } in
      ground (arith, activate-AllBacked L IsReadable k' v)

  deactivated-AllBacked :
      (s : Scope F B S I) (k : Rig F B S I)
      → Backed k.channels
      → Backed (deactivated L s k).rig.channels
  unfolding deactivated
  deactivated-AllBacked s k v =
      let k' = record k { timestamper = Timestamper.set_state_stopped L.ints k.timestamper } in
      ground (arith, deactivate-AllBacked L IsReadable k' v)

  pub set_channel_running-AllBacked :
      (s : Scope F B S I) (id : ℕ)
      → Backed s.rig.channels
      → Backed (set_channel_running L s id).rig.channels
  unfolding set_channel_running
  set_channel_running-AllBacked s id v = elim (Option-cases (get_elem? s.rig.channels id)) [
    | inl p ↦ ground arith
    | inr (c, p) ↦
        let c' = (Channel.set_state_running L c).0 in
        let b =
          running-IsBacked L IsReadable c (get-IsBacked L IsReadable s.rig.channels id c v p) in
        let w = set-AllBacked L IsReadable s.rig.channels id c' v b in
        ground (arith, activated-AllBacked s (with_channel L s.rig id c') w)
  ]

  pub set_channel_stopped-AllBacked :
      (s : Scope F B S I) (id : ℕ)
      → Backed s.rig.channels
      → Backed (set_channel_stopped L s id).rig.channels
  unfolding set_channel_stopped
  set_channel_stopped-AllBacked s id v = elim (Option-cases (get_elem? s.rig.channels id)) [
    | inl p ↦ ground arith
    | inr (c, p) ↦
        let c' = (Channel.set_state_stopped L c).0 in
        let b =
          stopped-IsBacked L IsReadable c (get-IsBacked L IsReadable s.rig.channels id c v p) in
        let w = set-AllBacked L IsReadable s.rig.channels id c' v b in
        ground (arith, deactivated-AllBacked s (with_channel L s.rig id c') w)
  ]

  pub clear-AllBacked :
      (s : Scope F B S I) → Backed s.rig.channels → Backed (clear L s).rig.channels
  unfolding clear
  clear-AllBacked s v =
      trigger_clear-AllBacked L IsReadable
        (record s.rig {
          channels = map (Channel.clear L) s.rig.channels;
          timestamper = Timestamper.clear L.ints s.rig.timestamper;
        })
        (map-AllBacked L IsReadable (Channel.clear L) (clear-IsBacked L IsReadable) s.rig.channels
          v)

  running_reads :
      (c : Channel F B S)
      → IsBacked L IsReadable c
      → Channel.is_running L c ≡ true
      → IsReadable c.poll_address
  unfolding Channel.is_running
  running_reads c v e = ground arith

  pub AllBacked-AllReadable :
      (memory : ℕ → Option ℕ) (cs : List (Channel F B S))
      → ((a : ℕ) → IsReadable a → (w : ℕ) × (memory a ≡ some w))
      → Backed cs
      → AllReadable L memory cs
  AllBacked-AllReadable memory [] h v = tt
  AllBacked-AllReadable memory (c ∷ cs) h (v, vs) =
      (λ e. h c.poll_address (running_reads c v e), AllBacked-AllReadable memory cs h vs)
