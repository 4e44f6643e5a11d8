-- ===== src/Core/Trigger/Machine.antt =====
-- The steps of the trigger's state machine, its configuration and its activation.
pub mod Invariant
pub mod Handover
pub mod Reports
pub mod Condition
pub mod Activation
pub mod Addresses
use se_scope_target.Prelude.{
  ℕ, zero, suc, ◌+◌, ◌-◌, ◌*◌, ◌/◌, ◌%◌, ◌^◌, ◌<◌, ◌≤◌, ◌≡◌, ◌≢◌, refl, subst, ap, sym, ◌∙◌,
  fun_ext, Bool, true, false, not, ◌||◌, ◌&&◌, List, [], ◌∷◌, ◌++◌, map, Option, none, some,
  if◌then◌else◌, arith, length, append-nil, append_assoc, length-append, Option-cases, Bool-cases,
  ◌⊎◌, inl, inr, ◌↔◌, u32, bool_eq, ltb, leb, concat, take_add, drop_add, ◌==◌, or_else, min, take,
  drop, length-take, length-drop, take-append-drop, take-append_ge, take-append_le, drop-append_ge,
  drop-append_le, take_of_length_le, take_last, take_last-append, drop_of_length_le, replicate,
  get_elem?, set, length-set, get_elem?-set_self, get_elem?-set_ne, dec_lt, ℕ_discrete, ==_iff,
}
use se_scope_target.SeLib.Core.{CoreLib}
use se_scope_target.ScopeTypes.{
  TriggerConfiguration, trigger_normal, trigger_continuous, trigger_oneshot,
}
use se_scope_target.Core.Channel.{Channel}
use se_scope_target.Core.Channel
use se_scope_target.Core.Timestamper.{Timestamper}
use se_scope_target.Core.Timestamper
use se_scope_target.Core.Trigger.{
  TriggerState, trigger_idle, trigger_detecting, trigger_fillup, trigger_cleanup, trigger_paused,
  start_never, start_when_paused, stop_into_pause, stop_into_idle, fill_up_till_channel_full,
  fill_up_if_triggered, detect_never, detect_normal, continuous, Trigger, Rig, ◌>>=◌,
  get_trigger_strategy, set_state, trigger_clear, stop_channels_and_timestamp, reset_buffers,
  safe_channel_states, restore_channel_states, active_channel, swap_buffers, start,
  check_current_data,
}

module _ {F B S I : Type 0} (L : CoreLib F B S I) where
  -- A read of two items.
  abbrev pub two : List F → Option (F × F)
  two (x ∷ y ∷ []) = some (x, y)
  two _ = none

  -- `getTriggerData`: the two samples, if the stream has exactly two.
  pub get_trigger_data : Rig F B S I → Option (Rig F B S I × Option (F × F))
  get_trigger_data k = k.trigger.stream >>= λ id. get_elem? k.channels id >>= λ c.
      if not (L.stream.stream_length c.stream == 2)
      then some (k, none)
      else let (s, xs) = L.stream.read c.stream 2 in
        two xs >>= λ xy.
        some (record k { channels = set k.channels id (record c { stream = s }) }, some xy)

  abbrev pub set_poll_triggered : Rig F B S I → Bool → Rig F B S I
  set_poll_triggered k b = record k { trigger = record k.trigger { poll_is_triggered = b } }

  -- The end of `detectNormal`, with the samples that it got.
  pub detect_samples : Rig F B S I → Option (F × F) → Rig F B S I
  unfolding check_current_data
  detect_samples k none = k
  detect_samples k (some (old, new)) =
      let k' = set_poll_triggered k (check_current_data L k.trigger old new) in
      if not k'.trigger.poll_is_triggered then k' else record k' {
        trigger = record k'.trigger {
          poll_trigger_index = Timestamper.current_time L.ints k'.timestamper;
          state = trigger_fillup;
        };
      }

  pub detect : Rig F B S I → Option (Rig F B S I)
  unfolding detect_samples get_trigger_data
  detect k = elim k.trigger.active_strategy.detecting [
    | detect_never ↦ some (set_state L (set_poll_triggered k false) trigger_fillup)
    | detect_normal ↦ active_channel L k >>= λ c.
        if ltb (Channel.amount_of_used_poll_data L c) (k.trigger.channel_capacity / 2)
        then some k
        else (get_trigger_data k >>= λ r. some (detect_samples r.0 r.1))
  ]

  abbrev pub filled_up : Rig F B S I → Rig F B S I
  filled_up k = set_state L (safe_channel_states L k) trigger_cleanup

  pub fill_up : Rig F B S I → Option (Rig F B S I)
  fill_up k = elim k.trigger.active_strategy.fill_up [
    | fill_up_till_channel_full ↦ active_channel L k >>= λ c. some (
        if ltb (Channel.amount_of_used_poll_data L c) k.trigger.channel_capacity
        then k
        else filled_up k)
    | fill_up_if_triggered ↦
        let n = u32 (k.trigger.fill_up_poll_count + 1) in
        let k' = record k { trigger = record k.trigger { fill_up_poll_count = n } } in
        active_channel L k' >>= λ c. some (
          if ltb (Channel.amount_of_used_poll_data L c) k'.trigger.channel_capacity
          then k'
          else if ltb n (k'.trigger.channel_capacity / 2)
          then k'
          else filled_up k')
  ]

  -- `stopIntoPause` and `stopIntoIdle` differ in the state that they end in.
  pub stop_into : Rig F B S I → TriggerState → Option (Rig F B S I × Bool)
  unfolding swap_buffers
  stop_into k x = swap_buffers L (stop_channels_and_timestamp L k) >>= λ r. some (
      if not r.1 then (r.0, false) else (
        record r.0 { trigger = record r.0.trigger { state = x; fill_up_poll_count = 0 } },
        true,
      ))

  pub stop : Rig F B S I → Option (Rig F B S I × Bool)
  stop k = elim k.trigger.active_strategy.stop [
    | stop_into_pause ↦ stop_into k trigger_paused
    | stop_into_idle ↦ stop_into k trigger_idle
  ]

  pub run : Rig F B S I → Option (Rig F B S I × Bool)
  run k = elim k.trigger.state [
    | trigger_idle ↦ some (k, false)
    | trigger_paused ↦ some (trigger_clear L (start L k), false)
    | trigger_detecting ↦ detect k >>= λ k'. some (k', false)
    | trigger_fillup ↦ fill_up k >>= λ k'. some (k', false)
    | trigger_cleanup ↦ stop k
  ]

  pub config_sanity_check : Rig F B S I → TriggerConfiguration F → Bool
  config_sanity_check k conf =
      if not (conf.mode == trigger_normal)
        && (not (conf.mode == trigger_continuous) && not (conf.mode == trigger_oneshot))
      then false
      else if leb (length k.channels) conf.channel_id
      then false
      else true

  pub write_config : Rig F B S I → TriggerConfiguration F → Option (Rig F B S I)
  write_config k conf = get_trigger_strategy conf.mode >>= λ strategy. some (record k {
    trigger = record k.trigger {
      level = conf.level;
      edge = conf.edge;
      mode = conf.mode;
      stream = some conf.channel_id;
      active_strategy = strategy;
      active_channel_id = conf.channel_id;
    };
  })

  pub configure : Rig F B S I → TriggerConfiguration F → Option (Rig F B S I × Bool)
  unfolding config_sanity_check write_config
  configure k conf =
      if not (config_sanity_check k conf)
      then some (k, false)
      else (write_config k conf >>= λ k'. some (k', true))

  pub activate : Rig F B S I → Rig F B S I
  unfolding trigger_clear reset_buffers restore_channel_states
  activate k =
      trigger_clear L (reset_buffers L (set_state L (restore_channel_states L k) trigger_detecting))

  pub deactivate : Rig F B S I → Rig F B S I
  unfolding stop_channels_and_timestamp safe_channel_states
  deactivate k =
      let k' = stop_channels_and_timestamp L (safe_channel_states L k) in
      record k' { trigger = record k'.trigger { state = trigger_idle; fill_up_poll_count = 0 } }

  -- `Trigger_create`; `raw` is what the allocated memory holds in the fields that it does not set.
  pub create : Trigger F → List (Channel F B S) → ℕ → Timestamper I → Rig F B S I
  unfolding deactivate trigger_clear
  create raw channels capacity timestamper = deactivate (
      trigger_clear L (record {
        channels = channels;
        timestamper = timestamper;
        trigger = record raw {
          channel_capacity = capacity;
          swap_is_triggered = false;
          poll_is_triggered = false;
          active_channel_id = 0;
          active_strategy = continuous;
        };
      }))
