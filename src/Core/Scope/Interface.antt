-- ===== src/Core/Scope/Interface.antt =====
-- include/Scope/Scope/Core/IScope.h, by which the commands and the runners use a scope, and what Scope.c
-- fills it with.
use se_scope_target.Prelude.{ℕ, Bool, List, Option, some}
use se_scope_target.SeLib.Core.{CoreLib}
use se_scope_target.ScopeTypes.{MessageType, DataType, TriggerConfiguration, TriggeredValues}
use se_scope_target.Core.Trigger.{◌>>=◌}
use se_scope_target.Core.Scope.{Scope}
use se_scope_target.Core.Scope

-- Over the types of floats, of float ring buffers, of int streams and of the state of the scope.
pub record IScope (F B I T : Type 0) : Type 0 where
  -- With the memory, the reference counter, and what the observer is told.
  pub poll : T → (ℕ → ℕ) → ℕ → Option (T × List MessageType)
  pub set_time_increment : T → ℕ → T
  pub get_time_increment : T → ℕ
  pub get_timestamp : T → I
  pub clear : T → T
  pub configure_trigger : T → TriggerConfiguration F → Option T
  pub configure_channel_address : T → ℕ → ℕ → DataType → T
  pub transmit : T → List MessageType
  pub set_channel_running : T → ℕ → T
  pub set_channel_stopped : T → ℕ → T
  pub get_amount_of_channels : T → ℕ
  pub get_trigger_data : T → TriggeredValues
  pub channel_has_to_be_packed : T → ℕ → Bool
  pub get_channel_buffer : T → ℕ → Option B
  pub is_running : T → Bool
  pub is_ready_to_run : T → Bool

module _ {F B S I : Type 0} (L : CoreLib F B S I) where
  -- `Scope_getIScope`
  abbrev pub get_iscope : IScope F B I (Scope F B S I)
  get_iscope = record {
    poll = λ s memory now. Scope.poll L s memory now >>= λ r. some (r.0, r.2);
    set_time_increment = Scope.configure_timestamp_increment L;
    get_time_increment = λ s. s.rig.timestamper.time_increment;
    get_timestamp = λ s. s.rig.timestamper.swap_timestamps;
    clear = Scope.clear L;
    configure_trigger = Scope.configure_trigger L;
    configure_channel_address = λ s address id type. Scope.configure_channel L s id address type;
    transmit = λ s. Scope.transmit L;
    set_channel_running = Scope.set_channel_running L;
    set_channel_stopped = Scope.set_channel_stopped L;
    get_amount_of_channels = Scope.get_amount_of_channels L;
    get_trigger_data = Scope.get_trigger_data L;
    channel_has_to_be_packed = Scope.channel_has_to_be_packed L;
    get_channel_buffer = Scope.get_channel_buffer L;
    is_running = λ s. s.scope_is_running;
    is_ready_to_run = λ s. s.scope_is_ready_to_run;
  }
