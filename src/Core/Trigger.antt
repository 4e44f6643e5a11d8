-- ===== src/Core/Trigger.antt =====
-- src/Core/Trigger.c: a state machine that waits for the trigger condition, lets the buffers fill up,
-- and hands them over. The trigger works on the scope's own channels and timestamps, so each function
-- takes and returns all three. A `none` is a fault: an array index out of range, or a stream pointer
-- that was never set. The steps of the machine are in the module below.
pub mod Machine
use se_scope_target.Prelude.{
  ℕ, zero, suc, ◌+◌, ◌-◌, ◌*◌, ◌/◌, ◌%◌, ◌^◌, ◌<◌, ◌≤◌, ◌≡◌, ◌≢◌, refl, subst, ap, sym, ◌∙◌,
  fun_ext, Bool, true, false, not, ◌||◌, ◌&&◌, List, [], ◌∷◌, ◌++◌, map, Option, none, some,
  if◌then◌else◌, arith, length, append-nil, append_assoc, length-append, Option-cases, Bool-cases,
  ◌⊎◌, inl, inr, ◌↔◌, u32, bool_eq, ltb, leb, concat, take_add, drop_add, ◌==◌, or_else, min, take,
  drop, length-take, length-drop, take-append-drop, take-append_ge, take-append_le, drop-append_ge,
  drop-append_le, take_of_length_le, take_last, take_last-append, drop_of_length_le, replicate,
  get_elem?, set, length-set, get_elem?-set_self, get_elem?-set_ne, dec_lt, ℕ_discrete, ==_iff,
}
use se_scope_target.SeLib.Core.{CoreLib}
use se_scope_target.ScopeTypes.{
  TriggerConfiguration, trigger_normal, trigger_continuous, trigger_oneshot,
}
use se_scope_target.Core.Channel.{Channel}
use se_scope_target.Core.Channel
use se_scope_target.Core.Timestamper.{Timestamper}
use se_scope_target.Core.Timestamper

-- TRIGGER_STATES
pub data TriggerState : Type 0 where
  trigger_idle trigger_detecting trigger_fillup trigger_cleanup trigger_paused : TriggerState

-- The functions that TriggerStrategyStruct points to.
pub data Start : Type 0 where
  start_never start_when_paused : Start

pub data Stop : Type 0 where
  stop_into_pause stop_into_idle : Stop

pub data FillUp : Type 0 where
  fill_up_till_channel_full fill_up_if_triggered : FillUp

pub data Detecting : Type 0 where
  detect_never detect_normal : Detecting

pub record Strategy : Type 0 where
  pub start : Start
  pub stop : Stop
  pub fill_up : FillUp
  pub detecting : Detecting

abbrev pub continuous : Strategy
continuous = record {
  start = start_when_paused;
  stop = stop_into_pause;
  fill_up = fill_up_till_channel_full;
  detecting = detect_never;
}

abbrev pub normal : Strategy
normal = record {
  start = start_when_paused;
  stop = stop_into_pause;
  fill_up = fill_up_if_triggered;
  detecting = detect_normal;
}

abbrev pub oneshot : Strategy
oneshot = record {
  start = start_never;
  stop = stop_into_idle;
  fill_up = fill_up_if_triggered;
  detecting = detect_normal;
}

-- TriggerPrivateData. `stream` is the channel whose stream the pointer points to, if any;
-- `triggerIndexes` and `isTriggereds` are two fields each.
pub record Trigger (F : Type 0) : Type 0 where
  pub level : F
  pub edge : Bool
  pub poll_trigger_index : ℕ
  pub swap_trigger_index : ℕ
  pub stream : Option ℕ
  pub active_strategy : Strategy
  pub active_channel_id : ℕ
  pub poll_is_triggered : Bool
  pub swap_is_triggered : Bool
  pub channel_is_running : List Bool
  pub state : TriggerState
  pub mode : ℕ
  pub fill_up_poll_count : ℕ
  pub channel_capacity : ℕ

-- The state that a trigger and its scope share.
pub record Rig (F B S I : Type 0) : Type 0 where
  pub channels : List (Channel F B S)
  pub timestamper : Timestamper I
  pub trigger : Trigger F

infixl 5 ◌>>=◌
abbrev pub ◌>>=◌ {ℓ κ} : {A : Type ℓ} {B : Type κ} → Option A → (A → Option B) → Option B
none >>= f = none
some a >>= f = f a

-- `triggerStrategies[mode]`
abbrev pub get_trigger_strategy : ℕ → Option Strategy
get_trigger_strategy mode =
    if mode == trigger_continuous
    then some continuous
    else if mode == trigger_normal
    then some normal
    else if mode == trigger_oneshot
    then some oneshot
    else none

module _ {F B S I : Type 0} (L : CoreLib F B S I) where
  abbrev pub set_state : Rig F B S I → TriggerState → Rig F B S I
  set_state k x = record k { trigger = record k.trigger { state = x } }

  pub trigger_clear : Rig F B S I → Rig F B S I
  trigger_clear k = record k {
    trigger = record k.trigger {
      poll_is_triggered = false;
      poll_trigger_index = 0;
      fill_up_poll_count = 0;
    };
  }

  pub stop_channels_and_timestamp : Rig F B S I → Rig F B S I
  stop_channels_and_timestamp k = record k {
    channels = map (λ c. (Channel.set_state_stopped L c).0) k.channels;
    timestamper = Timestamper.set_state_stopped L.ints k.timestamper;
  }

  pub reset_buffers : Rig F B S I → Rig F B S I
  reset_buffers k = record k {
    channels = map (Channel.clear L) k.channels;
    timestamper = Timestamper.clear L.ints k.timestamper;
  }

  pub safe_channel_states : Rig F B S I → Rig F B S I
  safe_channel_states k = record k {
    trigger = record k.trigger { channel_is_running = map (Channel.is_running L) k.channels };
    timestamper = Timestamper.set_state_running L.ints k.timestamper;
  }

  -- The loop of `restoreChannelStates`.
  pub restore : List Bool → List (Channel F B S) → List (Channel F B S)
  restore [] cs = cs
  restore (r ∷ rs) [] = []
  restore (r ∷ rs) (c ∷ cs) = (if r then (Channel.set_state_running L c).0 else c) ∷ restore rs cs

  pub restore_channel_states : Rig F B S I → Rig F B S I
  restore_channel_states k = record k {
    channels = restore k.trigger.channel_is_running k.channels;
    timestamper = Timestamper.set_state_running L.ints k.timestamper;
  }

  abbrev pub active_channel : Rig F B S I → Option (Channel F B S)
  active_channel k = get_elem? k.channels k.trigger.active_channel_id

  -- Both buffers of all channels, and what goes with them.
  pub swap_all : Rig F B S I → Rig F B S I
  swap_all k = record k {
    channels = map (Channel.swap_buffers L) k.channels;
    timestamper = Timestamper.swap_buffers L.ints k.timestamper;
    trigger = record k.trigger {
      swap_is_triggered = k.trigger.poll_is_triggered;
      swap_trigger_index = k.trigger.poll_trigger_index;
    };
  }

  pub swap_buffers : Rig F B S I → Option (Rig F B S I × Bool)
  swap_buffers k = active_channel k >>= λ c. some (
      if not (Channel.swap_is_pending L c)
      then (k, false)
      else if not (Timestamper.swap_is_pending L.ints k.timestamper)
      then (k, false)
      else (swap_all k, true))

  pub start : Rig F B S I → Rig F B S I
  unfolding restore_channel_states
  start k = elim k.trigger.active_strategy.start [
    | start_never ↦ k
    | start_when_paused ↦ set_state (restore_channel_states k) trigger_detecting
  ]

  -- `checkCurrentData` on the older and the newer sample.
  pub check_current_data : Trigger F → F → F → Bool
  check_current_data t data_last data_current =
      let edge = L.float.less data_last data_current in
      if L.float.same data_current data_last
      then false
      else if not (bool_eq edge t.edge)
      then false
      else let lower = if edge then data_last else data_current in
        let higher = if edge then data_current else data_last in
        if L.float.less t.level lower || L.float.less higher t.level then false else true
