-- ===== src/Core/Trigger/Machine/Invariant.antt =====
-- Soundness of the trigger: its array indices and its stream pointer are valid.
use se_scope_target.Prelude.{
  ℕ, suc, ◌+◌, ◌<◌, ◌≡◌, refl, ap, Bool, true, false, not, ◌&&◌, List, [], ◌∷◌, Option, none, some,
  if◌then◌else◌, arith, length, length-map, get_elem?_total, ◌⊎◌, ◌↔◌, u32, Returns, Returns-cases,
  length-take, length-set, ℕ_discrete,
}
use se_scope_target.SeLib.Core.{CoreLib}
use se_scope_target.ScopeTypes.{TriggerConfiguration}
use se_scope_target.Core.Channel.{Channel}
use se_scope_target.Core.Channel
use se_scope_target.Core.Timestamper.{Timestamper}
use se_scope_target.Core.Timestamper
use se_scope_target.Core.Trigger.{
  TriggerState, Stop, Detecting, trigger_idle, trigger_detecting, trigger_fillup, trigger_cleanup,
  trigger_paused, stop_into_pause, stop_into_idle, detect_never, detect_normal, Trigger, Rig,
  set_state, trigger_clear, stop_channels_and_timestamp, reset_buffers, safe_channel_states,
  restore, restore_channel_states, active_channel, swap_all, swap_buffers, start,
}
use se_scope_target.Core.Trigger.Machine.{
  two, get_trigger_data, detect_samples, detect, filled_up, fill_up, stop_into, stop, run,
  config_sanity_check, write_config, configure, activate, deactivate, create,
}

module _ {F B S I : Type 0} (L : CoreLib F B S I) where
  -- The active channel exists, a strategy that reads samples has its stream, and the saved running
  -- flags are as many as the channels.
  pub record IsSound (k : Rig F B S I) : Type 0 where
    pub active : k.trigger.active_channel_id < length k.channels
    pub streaming :
        (k.trigger.active_strategy.detecting ≡ detect_never)
        ⊎ (k.trigger.stream ≡ some k.trigger.active_channel_id)
    pub saved : length k.trigger.channel_is_running ≡ length k.channels

  length-restore :
      (rs : List Bool) (cs : List (Channel F B S)) → length (restore L rs cs) ≡ length cs
  unfolding restore
  length-restore [] cs = refl
  length-restore (r ∷ rs) [] = refl
  length-restore (r ∷ rs) (c ∷ cs) = ap suc (length-restore rs cs)

  -- A result that is sound, with as many channels as before.
  abbrev Keeps : Rig F B S I → Rig F B S I → Type 0
  Keeps k k' = IsSound k' × (length k'.channels ≡ length k.channels)

  stop_channels-Keeps : (k : Rig F B S I) → IsSound k → Keeps k (stop_channels_and_timestamp L k)
  unfolding stop_channels_and_timestamp
  stop_channels-Keeps k v =
      ground (arith, length-map (λ c. (Channel.set_state_stopped L c).0) k.channels)

  safe_channel_states-Keeps : (k : Rig F B S I) → IsSound k → Keeps k (safe_channel_states L k)
  unfolding safe_channel_states
  safe_channel_states-Keeps k v = ground (arith, length-map (Channel.is_running L) k.channels)

  restore_channel_states-Keeps :
      (k : Rig F B S I) → IsSound k → Keeps k (restore_channel_states L k)
  unfolding restore_channel_states
  restore_channel_states-Keeps k v =
      ground (arith, length-restore k.trigger.channel_is_running k.channels)

  reset_buffers-Keeps : (k : Rig F B S I) → IsSound k → Keeps k (reset_buffers L k)
  unfolding reset_buffers
  reset_buffers-Keeps k v = ground (arith, length-map (Channel.clear L) k.channels)

  swap_all-Keeps : (k : Rig F B S I) → IsSound k → Keeps k (swap_all L k)
  unfolding swap_all
  swap_all-Keeps k v = ground (arith, length-map (Channel.swap_buffers L) k.channels)

  pub trigger_clear-Keeps : (k : Rig F B S I) → IsSound k → Keeps k (trigger_clear L k)
  unfolding trigger_clear
  trigger_clear-Keeps k v = ground arith

  start-Keeps : (k : Rig F B S I) → IsSound k → Keeps k (start L k)
  unfolding start
  start-Keeps k v = ground (arith, restore_channel_states-Keeps k v)

  -- A result of a step: there is one, it is sound, and it has as many channels as before.
  abbrev Steps : Rig F B S I → Option (Rig F B S I × Bool) → Type 0
  Steps k o = (r : Rig F B S I × Bool) × (o ≡ some r) × Keeps k r.0

  active_channel_total :
      (k : Rig F B S I) → IsSound k → (c : Channel F B S) × (active_channel L k ≡ some c)
  active_channel_total k v = get_elem?_total k.channels k.trigger.active_channel_id v.active

  swap_buffers-Steps : (k : Rig F B S I) → IsSound k → Steps k (swap_buffers L k)
  unfolding swap_buffers
  swap_buffers-Steps k v =
      let (c, e) = active_channel_total k v in
      let pending =
        Channel.swap_is_pending L c && Timestamper.swap_is_pending L.ints k.timestamper in
      (
        if pending then (swap_all L k, true) else (k, false),
        ground arith,
        ground (arith, swap_all-Keeps k v),
      )

  stop_into-Steps : (k : Rig F B S I) (x : TriggerState) → IsSound k → Steps k (stop_into L k x)
  unfolding stop_into
  stop_into-Steps k x v =
      let kept = stop_channels-Keeps k v in
      let (r, e, s) = swap_buffers-Steps (stop_channels_and_timestamp L k) kept.0 in
      (
        if not r.1 then (r.0, false) else (
          record r.0 { trigger = record r.0.trigger { state = x; fill_up_poll_count = 0 } },
          true,
        ),
        ground arith,
        ground arith,
      )

  stop-Steps : (k : Rig F B S I) → IsSound k → Steps k (stop L k)
  unfolding stop
  stop-Steps k v = by_stop k.trigger.active_strategy.stop refl
    where
      by_stop : (x : Stop) → k.trigger.active_strategy.stop ≡ x → Steps k (stop L k)
      by_stop stop_into_pause e =
          let (r, p, q) = stop_into-Steps k trigger_paused v in (r, ground arith, q)
      by_stop stop_into_idle e =
          let (r, p, q) = stop_into-Steps k trigger_idle v in (r, ground arith, q)

  filled_up-Keeps : (k : Rig F B S I) → IsSound k → Keeps k (filled_up L k)
  filled_up-Keeps k v = ground (arith, safe_channel_states-Keeps k v)

  fill_up-Keeps : (k : Rig F B S I) → IsSound k → Returns (Keeps k) (fill_up L k)
  unfolding fill_up
  fill_up-Keeps k v =
      let (c, e) = active_channel_total k v in
      let n = u32 (k.trigger.fill_up_poll_count + 1) in
      let k' = record k { trigger = record k.trigger { fill_up_poll_count = n } } in
      ground (arith, filled_up-Keeps k v, filled_up-Keeps k')

  two_lem :
      (xs : List F)
      → length xs ≡ 2
      → (x : F) × (y : F) × (two L xs ≡ some (x, y)) × (xs ≡ x ∷ y ∷ [])
  two_lem (x ∷ y ∷ []) h = (x, y, refl, refl)
  two_lem [] h = absurd (omega arith)
  two_lem (x ∷ []) h = absurd (omega arith)
  two_lem (x ∷ y ∷ z ∷ xs) h = absurd (omega arith)

  get_trigger_data-Keeps :
      (k : Rig F B S I)
      → IsSound k
      → k.trigger.stream ≡ some k.trigger.active_channel_id
      → Returns (λ r. Keeps k r.0) (get_trigger_data L k)
  unfolding get_trigger_data
  get_trigger_data-Keeps k v e =
      let (c, found) = active_channel_total k v in
      let r = L.stream.read c.stream 2 in
      elim (ℕ_discrete (L.stream.stream_length c.stream) 2) [
        | yes both ↦
            let fits = L.stream.read_fits c.stream 2 (omega arith) in
            let count : length r.1 ≡ 2 = omega (
              arith,
              ap length fits.0,
              length-take 2 (L.stream.contents c.stream),
              L.stream.stream_length_lem c.stream,
            ) in
            let (x, y, pair, _) = two_lem r.1 count in
            ground
              (arith, length-set k.channels k.trigger.active_channel_id (record c { stream = r.0 }))
        | no other ↦ ground arith
      ]

  detect_samples-Keeps :
      (k : Rig F B S I) (o : Option (F × F)) → IsSound k → Keeps k (detect_samples L k o)
  unfolding detect_samples
  detect_samples-Keeps k none v = (v, refl)
  detect_samples-Keeps k (some (old, new)) v = ground arith

  detect-Keeps : (k : Rig F B S I) → IsSound k → Returns (Keeps k) (detect L k)
  unfolding detect
  detect-Keeps k v = by_detecting k.trigger.active_strategy.detecting refl
    where
      by_detecting :
          (x : Detecting) → k.trigger.active_strategy.detecting ≡ x → Returns (Keeps k) (detect L k)
      by_detecting detect_never e = ground arith
      by_detecting detect_normal e =
          let streaming : k.trigger.stream ≡ some k.trigger.active_channel_id = ground arith in
          let (c, found) = active_channel_total k v in
          let (r, got, kept) =
            Returns-cases (λ (r : Rig F B S I × Option (F × F)). Keeps k r.0) (get_trigger_data L k)
              (get_trigger_data-Keeps k v streaming) in
          ground (arith, detect_samples-Keeps r.0 r.1 kept.0)

  -- A call of `Trigger_run` in a sound state does not fault: it returns, and its state is sound, with
  -- as many channels as before.
  pub run-Keeps :
      (k : Rig F B S I)
      → IsSound k
      → Returns (λ r. IsSound r.0 × (length r.0.channels ≡ length k.channels)) (run L k)
  unfolding run
  run-Keeps k v = by_state k.trigger.state refl
    where
      by_state :
          (x : TriggerState)
          → k.trigger.state ≡ x
          → Returns (λ r. IsSound r.0 × (length r.0.channels ≡ length k.channels)) (run L k)
      by_state trigger_idle e = ground arith
      by_state trigger_paused e =
          let kept = start-Keeps k v in ground (arith, trigger_clear-Keeps (start L k) kept.0)
      by_state trigger_detecting e =
          let (r, p, kept) = Returns-cases (Keeps k) (detect L k) (detect-Keeps k v) in ground arith
      by_state trigger_fillup e =
          let (r, p, kept) = Returns-cases (Keeps k) (fill_up L k) (fill_up-Keeps k v) in
          ground arith
      by_state trigger_cleanup e = let (r, p, kept) = stop-Steps k v in ground arith

  pub activate-Keeps : (k : Rig F B S I) → IsSound k → Keeps k (activate L k)
  unfolding activate
  activate-Keeps k v =
      let k1 = restore_channel_states L k in
      let s1 = restore_channel_states-Keeps k v in
      let k2 = set_state L k1 trigger_detecting in
      let s2 : IsSound k2 = ground arith in
      let s3 = reset_buffers-Keeps k2 s2 in
      ground (arith, trigger_clear-Keeps (reset_buffers L k2) s3.0)

  pub deactivate-Keeps : (k : Rig F B S I) → IsSound k → Keeps k (deactivate L k)
  unfolding deactivate
  deactivate-Keeps k v =
      let s1 = safe_channel_states-Keeps k v in
      ground (arith, stop_channels-Keeps (safe_channel_states L k) s1.0)

  -- `Trigger_configure` returns, takes exactly the configurations with a known mode for a channel that
  -- exists, leaves the state as it was on any other, and keeps the state sound.
  pub configure-Keeps :
      (k : Rig F B S I) (conf : TriggerConfiguration F)
      → IsSound k
      → Returns
          (λ r.
            IsSound r.0
            × (length r.0.channels ≡ length k.channels)
            × ((r.1 ≡ true) ↔ ((conf.mode < 3) × (conf.channel_id < length k.channels)))
            × ((r.1 ≡ false) → r.0 ≡ k))
          (configure L k conf)
  unfolding configure config_sanity_check write_config
  configure-Keeps k conf v = ground arith

  -- A trigger that is created over at least one channel is sound, whatever the memory held before.
  pub create-IsSound :
      (raw : Trigger F) (cs : List (Channel F B S)) (capacity : ℕ) (t : Timestamper I)
      → 0 < length cs
      → IsSound (create L raw cs capacity t)
  unfolding create deactivate trigger_clear safe_channel_states stop_channels_and_timestamp
  create-IsSound raw cs capacity t h = ground (
    arith,
    length-map (Channel.is_running L) cs,
    length-map (λ c. (Channel.set_state_stopped L c).0) cs,
  )

  pub length-create :
      (raw : Trigger F) (cs : List (Channel F B S)) (capacity : ℕ) (t : Timestamper I)
      → length (create L raw cs capacity t).channels ≡ length cs
  unfolding create deactivate trigger_clear safe_channel_states stop_channels_and_timestamp
  length-create raw cs capacity t = length-map (λ c. (Channel.set_state_stopped L c).0) cs
