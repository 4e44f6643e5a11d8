-- ===== src/Core/Trigger/Machine/Addresses.antt =====
-- What the trigger does to the addresses that channels sample: a channel has no address until one is
-- configured, and cannot run before.
use se_scope_target.Prelude.{
  ℕ, suc, zero, ◌≡◌, refl, Bool, List, [], ◌∷◌, map, Option, none, some, arith, All, Option-cases,
  Bool-cases, ◌⊎◌, inl, inr, get_elem?, set, true, false, ltb, ℕ_discrete, ◌/◌,
}
use se_scope_target.SeLib.Core.{CoreLib}
use se_scope_target.ScopeTypes.{channel_init, TriggerConfiguration}
use se_scope_target.Core.Channel.{Channel}
use se_scope_target.Core.Channel
use se_scope_target.Core.Timestamper.{Timestamper}
use se_scope_target.Core.Timestamper
use se_scope_target.Core.Trigger.{
  TriggerState, Stop, Detecting, trigger_idle, trigger_detecting, trigger_fillup, trigger_cleanup,
  trigger_paused, stop_into_pause, stop_into_idle, detect_never, detect_normal, Trigger, Rig,
  trigger_clear, stop_channels_and_timestamp, reset_buffers, safe_channel_states, restore,
  restore_channel_states, active_channel, swap_all, swap_buffers, start,
}
use se_scope_target.Core.Trigger.Machine.{
  two, get_trigger_data, detect_samples, detect, fill_up, stop_into, stop, run, write_config,
  configure, activate, deactivate, create,
}

module _ {F B S I : Type 0} (L : CoreLib F B S I) (IsReadable : ℕ → Type 0) where
  -- A channel that has not been configured, or has an address that can be read.
  abbrev pub IsBacked : Channel F B S → Type 0
  IsBacked c = (c.state ≡ channel_init) ⊎ IsReadable c.poll_address

  abbrev pub AllBacked : List (Channel F B S) → Type 0
  AllBacked cs = All IsBacked cs

  pub map-AllBacked :
      (f : Channel F B S → Channel F B S)
      → ((c : Channel F B S) → IsBacked c → IsBacked (f c))
      → (cs : List (Channel F B S)) → AllBacked cs
      → AllBacked (map f cs)
  map-AllBacked f h [] v = tt
  map-AllBacked f h (c ∷ cs) (v, w) = (h c v, map-AllBacked f h cs w)

  pub set-AllBacked :
      (cs : List (Channel F B S)) (i : ℕ) (c : Channel F B S)
      → AllBacked cs
      → IsBacked c
      → AllBacked (set cs i c)
  set-AllBacked [] i c v w = tt
  set-AllBacked (d ∷ cs) zero c (v, vs) w = (w, vs)
  set-AllBacked (d ∷ cs) (suc i) c (v, vs) w = (v, set-AllBacked cs i c vs w)

  pub get-IsBacked :
      (cs : List (Channel F B S)) (i : ℕ) (c : Channel F B S)
      → AllBacked cs
      → get_elem? cs i ≡ some c
      → IsBacked c
  get-IsBacked [] i c v e = ground arith
  get-IsBacked (d ∷ cs) zero c (v, vs) e = ground arith
  get-IsBacked (d ∷ cs) (suc i) c (v, vs) e = get-IsBacked cs i c vs e

  pub stopped-IsBacked :
      (c : Channel F B S) → IsBacked c → IsBacked (Channel.set_state_stopped L c).0
  unfolding Channel.set_state_stopped
  stopped-IsBacked c v = ground arith

  pub running-IsBacked :
      (c : Channel F B S) → IsBacked c → IsBacked (Channel.set_state_running L c).0
  unfolding Channel.set_state_running
  running-IsBacked c v = ground arith

  pub clear-IsBacked : (c : Channel F B S) → IsBacked c → IsBacked (Channel.clear L c)
  unfolding Channel.clear
  clear-IsBacked c v = v

  swapped-IsBacked : (c : Channel F B S) → IsBacked c → IsBacked (Channel.swap_buffers L c)
  unfolding Channel.swap_buffers
  swapped-IsBacked c v = v

  restore-AllBacked :
      (rs : List Bool) (cs : List (Channel F B S)) → AllBacked cs → AllBacked (restore L rs cs)
  unfolding restore
  restore-AllBacked [] cs v = v
  restore-AllBacked (r ∷ rs) [] v = tt
  restore-AllBacked (true ∷ rs) (c ∷ cs) (v, vs) =
      (running-IsBacked c v, restore-AllBacked rs cs vs)
  restore-AllBacked (false ∷ rs) (c ∷ cs) (v, vs) = (v, restore-AllBacked rs cs vs)

  stop_into-AllBacked :
      (k : Rig F B S I) (x : TriggerState) (r : Rig F B S I × Bool)
      → AllBacked k.channels
      → stop_into L k x ≡ some r
      → AllBacked r.0.channels
  unfolding stop_into swap_buffers swap_all stop_channels_and_timestamp
  stop_into-AllBacked k x r v e =
      let k1 = stop_channels_and_timestamp L k in
      let v1 =
        map-AllBacked (λ c. (Channel.set_state_stopped L c).0) stopped-IsBacked k.channels v in
      let v2 = map-AllBacked (Channel.swap_buffers L) swapped-IsBacked k1.channels v1 in
      elim (Option-cases (active_channel L k1)) [
        | inl p ↦ ground arith
        | inr (c, p) ↦ elim (Bool-cases (Channel.swap_is_pending L c)) [
          | inr q ↦ ground arith
          | inl q ↦ elim (Bool-cases (Timestamper.swap_is_pending L.ints k1.timestamper)) [
            | inl s ↦ ground arith
            | inr s ↦ ground arith
          ]
        ]
      ]

  get_trigger_data-AllBacked :
      (k : Rig F B S I) (r : Rig F B S I × Option (F × F))
      → AllBacked k.channels
      → get_trigger_data L k ≡ some r
      → AllBacked r.0.channels
  unfolding get_trigger_data
  get_trigger_data-AllBacked k r v e = elim (Option-cases k.trigger.stream) [
    | inl p ↦ ground arith
    | inr (id, p) ↦ elim (Option-cases (get_elem? k.channels id)) [
      | inl q ↦ ground arith
      | inr (c, q) ↦
          let read = L.stream.read c.stream 2 in
          let w =
            set-AllBacked k.channels id (record c { stream = read.0 }) v
              (get-IsBacked k.channels id c v q) in
          elim (ℕ_discrete (L.stream.stream_length c.stream) 2) [
            | no other ↦ ground arith
            | yes both ↦ elim (Option-cases (two L read.1)) [
              | inl m ↦ ground arith
              | inr (xy, m) ↦ ground arith
            ]
          ]
    ]
  ]

  detect_samples-channels :
      (k : Rig F B S I) (o : Option (F × F)) → (detect_samples L k o).channels ≡ k.channels
  unfolding detect_samples
  detect_samples-channels k none = refl
  detect_samples-channels k (some (old, new)) = ground arith

  detect-AllBacked :
      (k k' : Rig F B S I) → AllBacked k.channels → detect L k ≡ some k' → AllBacked k'.channels
  unfolding detect
  detect-AllBacked k k' v e = by_detecting k.trigger.active_strategy.detecting refl
    where
      by_detecting :
          (x : Detecting) → k.trigger.active_strategy.detecting ≡ x → AllBacked k'.channels
      by_detecting detect_never p = ground arith
      by_detecting detect_normal p = elim (Option-cases (active_channel L k)) [
        | inl q ↦ ground arith
        | inr (c, q) ↦
            elim (Bool-cases
              (ltb (Channel.amount_of_used_poll_data L c) (k.trigger.channel_capacity / 2))) [
                | inl early ↦ ground arith
                | inr late ↦ elim (Option-cases (get_trigger_data L k)) [
                  | inl g ↦ ground arith
                  | inr (r, g) ↦
                      let w = get_trigger_data-AllBacked k r v g in
                      ground (arith, detect_samples-channels r.0 r.1)
                ]
              ]
      ]

  fill_up-channels : (k k' : Rig F B S I) → fill_up L k ≡ some k' → k'.channels ≡ k.channels
  unfolding fill_up safe_channel_states
  fill_up-channels k k' e = elim (Option-cases (active_channel L k)) [
    | inl p ↦ ground arith
    | inr (c, p) ↦ ground arith
  ]

  start-AllBacked : (k : Rig F B S I) → AllBacked k.channels → AllBacked (start L k).channels
  unfolding start restore_channel_states
  start-AllBacked k v = ground (arith, restore-AllBacked k.trigger.channel_is_running k.channels v)

  pub run-AllBacked :
      (k : Rig F B S I) (r : Rig F B S I × Bool)
      → AllBacked k.channels
      → run L k ≡ some r
      → AllBacked r.0.channels
  unfolding run stop trigger_clear
  run-AllBacked k r v e = by_state k.trigger.state refl
    where
      by_state : (x : TriggerState) → k.trigger.state ≡ x → AllBacked r.0.channels
      by_state trigger_idle p = ground arith
      by_state trigger_paused p = ground (arith, start-AllBacked k v)
      by_state trigger_detecting p = elim (Option-cases (detect L k)) [
        | inl q ↦ ground arith
        | inr (k', q) ↦ ground (arith, detect-AllBacked k k' v q)
      ]
      by_state trigger_fillup p = elim (Option-cases (fill_up L k)) [
        | inl q ↦ ground arith
        | inr (k', q) ↦ ground (arith, fill_up-channels k k' q)
      ]
      by_state trigger_cleanup p = by_stop k.trigger.active_strategy.stop refl
        where
          by_stop : (x : Stop) → k.trigger.active_strategy.stop ≡ x → AllBacked r.0.channels
          by_stop stop_into_pause s = stop_into-AllBacked k trigger_paused r v (ground arith)
          by_stop stop_into_idle s = stop_into-AllBacked k trigger_idle r v (ground arith)

  pub configure-channels :
      (k : Rig F B S I) (conf : TriggerConfiguration F) (r : Rig F B S I × Bool)
      → configure L k conf ≡ some r
      → r.0.channels ≡ k.channels
  unfolding configure write_config
  configure-channels k conf r e = ground arith

  pub trigger_clear-AllBacked :
      (k : Rig F B S I) → AllBacked k.channels → AllBacked (trigger_clear L k).channels
  unfolding trigger_clear
  trigger_clear-AllBacked k v = v

  pub activate-AllBacked :
      (k : Rig F B S I) → AllBacked k.channels → AllBacked (activate L k).channels
  unfolding activate trigger_clear reset_buffers restore_channel_states
  activate-AllBacked k v =
      let rs = k.trigger.channel_is_running in
      map-AllBacked (Channel.clear L) clear-IsBacked (restore L rs k.channels)
        (restore-AllBacked rs k.channels v)

  pub deactivate-AllBacked :
      (k : Rig F B S I) → AllBacked k.channels → AllBacked (deactivate L k).channels
  unfolding deactivate safe_channel_states stop_channels_and_timestamp
  deactivate-AllBacked k v =
      map-AllBacked (λ c. (Channel.set_state_stopped L c).0) stopped-IsBacked k.channels v

  pub create-AllBacked :
      (raw : Trigger F) (cs : List (Channel F B S)) (capacity : ℕ) (t : Timestamper I)
      → AllBacked cs
      → AllBacked (create L raw cs capacity t).channels
  unfolding create trigger_clear deactivate safe_channel_states stop_channels_and_timestamp
  create-AllBacked raw cs capacity t v =
      map-AllBacked (λ c. (Channel.set_state_stopped L c).0) stopped-IsBacked cs v
