-- ===== src/Core/Tests.antt =====
-- The theorems on the scope, the trigger and the channels at concrete inputs.
use se_scope_target.Prelude.{
  ℕ, ◌+◌, ◌^◌, ◌<◌, ◌≤◌, ◌≡◌, ◌≢◌, refl, Bool, Option, ◌==◌, true, false, [], ◌∷◌, map, none, some,
  if◌then◌else◌, arith, length, All, inl, inr, ◌↔◌, u32, ltb, leb, take_last, get_elem?,
}
use se_scope_target.SeLib.Models.{ListRing, list_core, list_create}
use se_scope_target.ScopeTypes.{
  TriggerConfiguration, trigger_normal, channel_stopped, channel_running, se_uint8, se_uint32,
}
use se_scope_target.Core.Channel.{Channel, cast_data_to_float}
use se_scope_target.Core.Channel
use se_scope_target.Core.Channel.Window.{poll_all, contents-poll_all}
use se_scope_target.Core.Timestamper.{Timestamper, timestamper_running, update_elapsed_time_lem}
use se_scope_target.Core.Timestamper
use se_scope_target.Core.Trigger.{
  trigger_idle, trigger_detecting, trigger_cleanup, trigger_paused, Trigger, Rig, normal,
  check_current_data,
}
use se_scope_target.Core.Trigger.Machine
use se_scope_target.Core.Trigger.Machine.Invariant.{IsSound}
use se_scope_target.Core.Trigger.Machine.Reports.{Waits, run_reports}
use se_scope_target.Core.Scope.Faults.{poll_faulting}
use se_scope_target.Core.Trigger.Machine.Handover.{
  HandedOver, IsFull, handed, run_hands_over, run_when_full,
}
use se_scope_target.Core.Trigger.Machine.Condition.{check_current_data_iff}
use se_scope_target.Core.Scope.{
  Scope, configure_channel, configure_trigger, create, set_channel_running, set_channel_stopped,
}
use se_scope_target.Core.Scope.Calls.{
  created, called, configures_channel, sets_running, Reached-Returns,
}
use se_scope_target.Core.Scope.Stops.{Empty, set_channel_running_lem, set_channel_stopped_paused}

abbrev pub memory : ℕ → ℕ
memory address = 500 + address

-- A running channel that samples bytes, with one of its three places filled.
abbrev byte_channel : Channel ℕ (ListRing ℕ) (ListRing ℕ)
byte_channel = record {
  poll_buffer = record { items = 7 ∷ []; room = 2 };
  swap_buffer = list_create 3;
  stream = list_create 4;
  state = channel_running;
  poll_data_type = se_uint8;
  poll_address = 1;
  old_trigger_data = 7;
}

contents-poll_all_example :
    (poll_all list_core byte_channel (memory ∷ memory ∷ memory ∷ [])).poll_buffer.items
    ≡ take_last 3
        (7 ∷ map (cast_data_to_float list_core byte_channel) (memory ∷ memory ∷ memory ∷ []))
contents-poll_all_example =
    contents-poll_all list_core byte_channel (memory ∷ memory ∷ memory ∷ []) refl

-- A full, stopped channel whose swap buffer is read out.
abbrev pub full_channel : Channel ℕ (ListRing ℕ) (ListRing ℕ)
full_channel = record {
  poll_buffer = record { items = 7 ∷ 8 ∷ []; room = 0 };
  swap_buffer = list_create 2;
  stream = list_create 4;
  state = channel_stopped;
  poll_data_type = se_uint32;
  poll_address = 1;
  old_trigger_data = 7;
}

-- A trigger that cleans up.
abbrev pub cleaning : Trigger ℕ
cleaning = record {
  level = 5;
  edge = true;
  poll_trigger_index = 3;
  swap_trigger_index = 0;
  stream = some 0;
  active_strategy = normal;
  active_channel_id = 0;
  poll_is_triggered = true;
  swap_is_triggered = false;
  channel_is_running = true ∷ [];
  state = trigger_cleanup;
  mode = trigger_normal;
  fill_up_poll_count = 2;
  channel_capacity = 2;
}

abbrev pub two_stamps : Timestamper (ListRing ℕ)
two_stamps = record {
  state = timestamper_running;
  time_increment = 10;
  poll_timestamps = record { items = 100 ∷ 110 ∷ []; room = 0 };
  swap_timestamps = list_create 2;
  last_timestamp = 110;
}

abbrev pub full_rig : Rig ℕ (ListRing ℕ) (ListRing ℕ) (ListRing ℕ)
full_rig = record { channels = full_channel ∷ []; timestamper = two_stamps; trigger = cleaning }

full_rig-IsFull : IsFull list_core full_rig full_channel
full_rig-IsFull = record {
  found = refl;
  full = refl;
  read_out = refl;
  stamps_full = refl;
  stamps_read_out = refl;
}

pub full_rig-IsSound : IsSound list_core full_rig
full_rig-IsSound = record { active = omega arith; streaming = inr refl; saved = refl }

run_reports_example :
    (k' : Rig ℕ (ListRing ℕ) (ListRing ℕ) (ListRing ℕ)) × (reports : Bool) × (Machine.run list_core
        full_rig
      ≡ some (k', reports))
    × ((reports ≡ true) ↔ IsFull list_core full_rig full_channel)
    × ((reports ≡ true) → HandedOver list_core full_rig k')
    × ((reports ≡ false) → Waits list_core full_rig k')
run_reports_example = run_reports list_core full_rig full_channel refl refl

run-full_rig :
    Machine.run list_core full_rig ≡ some (handed list_core full_rig trigger_paused, true)
run-full_rig = run_when_full list_core full_rig full_channel refl full_rig-IsFull

run_hands_over_example :
    (trigger_cleanup ≡ trigger_cleanup)
    × HandedOver list_core full_rig (handed list_core full_rig trigger_paused)
    × (c : Channel ℕ (ListRing ℕ) (ListRing ℕ)) × IsFull list_core full_rig c
run_hands_over_example =
    run_hands_over list_core full_rig (handed list_core full_rig trigger_paused) run-full_rig

check_current_data_iff_example :
    (check_current_data list_core cleaning 3 9 ≡ true) ↔ ((3 < 9) × (3 ≤ 5) × (5 ≤ 9))
check_current_data_iff_example =
    check_current_data_iff list_core (λ n. n) (λ a b. refl) (λ a b. refl) cleaning 3 9

update_elapsed_time_lem_example :
    Timestamper.update_elapsed_time (list_core.ints) two_stamps (u32 (110 + 25))
    ≡ (if ltb (110 + 25) (2 ^ 32) then leb 10 25 else false)
update_elapsed_time_lem_example =
    update_elapsed_time_lem list_core.ints two_stamps 25 (omega arith) (omega arith)

abbrev pub full_scope : Scope ℕ (ListRing ℕ) (ListRing ℕ) (ListRing ℕ)
full_scope = record {
  rig = full_rig;
  channel_size = 2;
  scope_is_running = true;
  scope_is_ready_to_run = true;
}

set_channel_stopped_paused_example :
    let s = set_channel_stopped list_core full_scope 0 in
    (s.scope_is_ready_to_run ≡ false)
    × (s.rig.trigger.state ≡ trigger_idle)
    × All (λ b. b ≡ false) s.rig.trigger.channel_is_running
unfolding Channel.is_running
set_channel_stopped_paused_example =
    set_channel_stopped_paused list_core full_scope 0 (omega arith) (refl, tt)

set_channel_running_lem_example :
    let s = set_channel_running list_core full_scope 0 in
    (s.scope_is_ready_to_run ≡ true)
    × (s.rig.trigger.state ≡ trigger_detecting)
    × All (Empty list_core) s.rig.channels
    × (d : Channel ℕ (ListRing ℕ) (ListRing ℕ)) × (get_elem? s.rig.channels 0 ≡ some d)
    × (Channel.is_running list_core d ≡ true)
set_channel_running_lem_example =
    set_channel_running_lem list_core full_scope 0 full_channel refl (inl refl)

abbrev on_channel : ℕ → TriggerConfiguration ℕ
on_channel id = record { level = 5; edge = true; mode = trigger_normal; channel_id = id }

-- A memory of one word, at address 100.
abbrev one_word : ℕ → Option ℕ
one_word a = if a == 100 then some 42 else none

abbrev started_at : ℕ → Scope ℕ (ListRing ℕ) (ListRing ℕ) (ListRing ℕ)
started_at address =
    set_channel_running list_core
      (configure_channel list_core (create list_core 2 (byte_channel ∷ []) cleaning) 0 address
        se_uint32)
      0

Reached-Returns_example :
    (length (started_at 100).rig.channels ≡ 1)
    × (poll_faulting list_core (started_at 100) one_word true 130 ≢ none)
    × (configure_trigger list_core (started_at 100) (on_channel 3) ≢ none)
Reached-Returns_example =
    Reached-Returns list_core (λ a. a ≡ 100) 2 (byte_channel ∷ []) cleaning one_word 130
      (on_channel 3) (omega arith) (λ a e. (42, ground arith))
      (called (called created (configures_channel 0 100 se_uint32 refl)) (sets_running 0))
