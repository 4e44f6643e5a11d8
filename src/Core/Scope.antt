-- ===== src/Core/Scope.antt =====
-- src/Core/Scope.c: the channels, their timestamps and the trigger, driven by `Scope_poll`. The index
-- tests against `amountOfChannels` are those of `get_elem?` on the list of channels. A `none` result
-- is a fault in the trigger. The observer's calls are a list of message types.
pub mod Safety
pub mod Faults
pub mod Keeping
pub mod Addresses
pub mod Calls
pub mod Stops
pub mod Interface
mod Tests
use se_scope_target.Prelude.{
  ℕ, zero, suc, ◌+◌, ◌-◌, ◌*◌, ◌/◌, ◌%◌, ◌^◌, ◌<◌, ◌≤◌, ◌≡◌, ◌≢◌, refl, subst, ap, sym, ◌∙◌,
  fun_ext, Bool, true, false, not, ◌||◌, ◌&&◌, List, [], ◌∷◌, ◌++◌, map, Option, none, some,
  if◌then◌else◌, arith, length, append-nil, append_assoc, length-append, length-map, get_elem?-map,
  get_elem?_total, All, Option-cases, Bool-cases, ◌⊎◌, inl, inr, ◌↔◌, u8, u16, u32, bool_eq,
  Returns, Returns-cases, ltb, leb, concat, take_add, drop_add, ◌==◌, or_else, min, take, drop,
  length-take, length-drop, take-append-drop, take-append_ge, take-append_le, drop-append_ge,
  drop-append_le, take_of_length_le, take_last, take_last-append, drop_of_length_le, replicate,
  get_elem?, set, length-set, get_elem?-set_self, get_elem?-set_ne, dec_lt, ℕ_discrete, ==_iff,
}
use se_scope_target.SeLib.Core.{CoreLib}
use se_scope_target.ScopeTypes.{
  TriggerConfiguration, trigger_normal, trigger_continuous, trigger_oneshot, sc_data, sc_log,
  MessageType, DataType, TriggeredValues,
}
use se_scope_target.Core.Channel.{Channel}
use se_scope_target.Core.Channel
use se_scope_target.Core.Timestamper.{Timestamper}
use se_scope_target.Core.Timestamper
use se_scope_target.Core.Trigger.{
  TriggerState, trigger_idle, trigger_detecting, trigger_fillup, trigger_cleanup, trigger_paused,
  Strategy, start_never, start_when_paused, stop_into_pause, stop_into_idle,
  fill_up_till_channel_full, fill_up_if_triggered, detect_never, detect_normal, continuous, Trigger,
  Rig, ◌>>=◌, get_trigger_strategy, set_state, trigger_clear, stop_channels_and_timestamp,
  reset_buffers, safe_channel_states, restore, restore_channel_states, active_channel, swap_all,
  swap_buffers, start, check_current_data,
}
use se_scope_target.Core.Trigger.Machine

-- ScopePrivateData without the observer, to which `transmit` and `log` send.
pub record Scope (F B S I : Type 0) : Type 0 where
  pub rig : Rig F B S I
  pub channel_size : ℕ
  pub scope_is_running : Bool
  pub scope_is_ready_to_run : Bool

module _ {F B S I : Type 0} (L : CoreLib F B S I) where
  -- `Scope_create`; `raws` and `raw` are what the allocated memory holds in the fields that are not
  -- set, a channel each.
  pub create : ℕ → List (Channel F B S) → Trigger F → Scope F B S I
  create channel_size raws raw = record {
    rig =
        Machine.create L raw (map (λ c. Channel.create L c channel_size) raws) channel_size
          (Timestamper.create L.ints channel_size);
    channel_size = channel_size;
    scope_is_running = false;
    scope_is_ready_to_run = false;
  }

  abbrev pub get_amount_of_channels : Scope F B S I → ℕ
  get_amount_of_channels s = length s.rig.channels

  -- What the pack observer is told.
  abbrev pub transmit : List MessageType
  transmit = sc_data ∷ []

  abbrev pub log : List MessageType
  log = sc_log ∷ []

  -- One sample of all channels, at the time `now`.
  pub sample : Rig F B S I → (ℕ → ℕ) → ℕ → Rig F B S I
  sample k memory now = record k {
    timestamper = Timestamper.stamp L.ints k.timestamper now;
    channels = map (λ c. Channel.poll L c memory) k.channels;
  }

  -- `Scope_poll`: its result, and what the observer is told, where all addresses of running channels can
  -- be read and the observer is attached. The faults of both pointers are in Faults.
  pub poll : Scope F B S I → (ℕ → ℕ) → ℕ → Option (Scope F B S I × Bool × List MessageType)
  unfolding sample
  poll s memory now =
      if bool_eq s.scope_is_ready_to_run false
      then some (s, false, [])
      else let s' = record s { scope_is_running = true } in
        if bool_eq (Timestamper.update_elapsed_time L.ints s'.rig.timestamper now) false
        then some (s', true, [])
        else Machine.run L (sample s'.rig memory now) >>= λ r.
            some (record s' { rig = r.0 }, true, if r.1 then transmit else [])

  -- `Scope_configureChannel`
  pub configure_channel : Scope F B S I → ℕ → ℕ → DataType → Scope F B S I
  configure_channel s id address type = elim (get_elem? s.rig.channels id) [
    | none ↦ s
    | some c ↦ record s {
      rig = record s.rig {
        channels = set s.rig.channels id (Channel.set_poll_address L c address type);
      };
    }
  ]

  -- `configureTrigger` of the IScope interface.
  pub configure_trigger : Scope F B S I → TriggerConfiguration F → Option (Scope F B S I)
  configure_trigger s conf = Machine.configure L s.rig conf >>= λ r. some (record s { rig = r.0 })

  -- `Scope_configureTrigger`, which checks the channel first.
  pub checked_configure_trigger : Scope F B S I → TriggerConfiguration F → Option (Scope F B S I)
  checked_configure_trigger s conf =
      if leb (length s.rig.channels) conf.channel_id then some s else configure_trigger s conf

  pub configure_timestamp_increment : Scope F B S I → ℕ → Scope F B S I
  configure_timestamp_increment s n = record s {
    rig = record s.rig {
      timestamper = Timestamper.configure_timestamp_increment L.ints s.rig.timestamper n;
    };
  }

  -- The loop of `allChannelsAreStopped`.
  pub some_channel_is_running : List (Channel F B S) → Bool
  some_channel_is_running [] = false
  some_channel_is_running (c ∷ cs) =
      if Channel.is_running L c then true else some_channel_is_running cs

  pub all_channels_are_stopped : List (Channel F B S) → Bool
  unfolding some_channel_is_running
  all_channels_are_stopped cs = not (some_channel_is_running cs)

  abbrev pub with_channel : Rig F B S I → ℕ → Channel F B S → Rig F B S I
  with_channel k id c = record k { channels = set k.channels id c }

  -- The end of `Scope_setChannelRunning`.
  pub activated : Scope F B S I → Rig F B S I → Scope F B S I
  unfolding all_channels_are_stopped
  activated s k =
      if bool_eq (all_channels_are_stopped k.channels) false
      then record s {
        rig =
            Machine.activate L
              (record k { timestamper = Timestamper.set_state_running L.ints k.timestamper });
        scope_is_ready_to_run = true;
      }
      else record s { rig = k }

  pub set_channel_running : Scope F B S I → ℕ → Scope F B S I
  unfolding activated
  set_channel_running s id = elim (get_elem? s.rig.channels id) [
    | none ↦ s
    | some c ↦ activated s (with_channel s.rig id (Channel.set_state_running L c).0)
  ]

  -- The end of `Scope_setChannelStopped`.
  pub deactivated : Scope F B S I → Rig F B S I → Scope F B S I
  unfolding all_channels_are_stopped
  deactivated s k =
      if bool_eq (all_channels_are_stopped k.channels) true
      then record s {
        rig =
            Machine.deactivate L
              (record k { timestamper = Timestamper.set_state_stopped L.ints k.timestamper });
        scope_is_running = false;
        scope_is_ready_to_run = false;
      }
      else record s { rig = k }

  pub set_channel_stopped : Scope F B S I → ℕ → Scope F B S I
  unfolding deactivated
  set_channel_stopped s id = elim (get_elem? s.rig.channels id) [
    | none ↦ s
    | some c ↦ deactivated s (with_channel s.rig id (Channel.set_state_stopped L c).0)
  ]

  pub clear : Scope F B S I → Scope F B S I
  clear s = record s {
    rig = trigger_clear L (record s.rig {
      channels = map (Channel.clear L) s.rig.channels;
      timestamper = Timestamper.clear L.ints s.rig.timestamper;
    });
  }

  unfoldable pub get_trigger_data : Scope F B S I → TriggeredValues
  get_trigger_data s = record {
    is_triggered = s.rig.trigger.swap_is_triggered;
    trigger_timestamp = s.rig.trigger.swap_trigger_index;
    channel_id = s.rig.trigger.active_channel_id;
    mode = s.rig.trigger.mode;
  }

  unfoldable pub channel_has_to_be_packed : Scope F B S I → ℕ → Bool
  channel_has_to_be_packed s id = elim (get_elem? s.rig.channels id) [
    | none ↦ false
    | some c ↦ Channel.amount_of_used_swap_data L c == Channel.get_capacity L c
  ]

  -- `getChannelBuffer`: `none` is a null handle.
  unfoldable pub get_channel_buffer : Scope F B S I → ℕ → Option B
  get_channel_buffer s id = get_elem? s.rig.channels id >>= λ c. some c.swap_buffer
