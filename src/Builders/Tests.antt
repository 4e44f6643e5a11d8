-- ===== src/Builders/Tests.antt =====
-- The theorems on the threads for a scope that counts its calls.
use se_scope_target.Prelude.{
  length, Returns, ℕ, ◌+◌, ◌*◌, ◌<◌, ◌≡◌, ◌≢◌, refl, Bool, true, false, List, [], ◌∷◌, none, some,
  arith, ◌↔◌,
}
use se_scope_target.Builders.{ScopeRunnable}
use se_scope_target.SeLib.Models.{ListRing, list_core, list_create, list_ring}
use se_scope_target.SeLib.ListQueue.{list_queue}
use se_scope_target.Core.Tests.{full_channel, cleaning, full_scope, full_rig-IsSound}
use se_scope_target.Core.Tests.{memory as sampled}
use se_scope_target.Nanopb.Models.{wire_encoder, wire_decoder}
use se_scope_target.FramedIo.{start_flag}
use se_scope_target.Builders.Receiving.{Receiving, receive_pass}
use se_scope_target.Builders.Receiving.Pass.{IsFine, IsDone, receive_pass-IsFine}
use se_scope_target.ScopeTypes.{se_none, cf_running}
use se_scope_target.ScopeTypes.{MessagePriorities}
use se_scope_target.Control.AnnounceStorage.{AnnounceStorage}
use se_scope_target.FramedIo.{Rx, Tx}
use se_scope_target.Builders.Builder.{ScopeBuilder, Memory, Layers, build}
use se_scope_target.Builders.Builder.Checks.{build_iff}
use se_scope_target.Builders.Stack.{Config, create_with}
use se_scope_target.Builders.Stack.Ready.{IsReady, create_with-IsReady}
use se_scope_target.Builders.Threads.{
  World, Reached, scope_idle, stack_aggregated, scope_locks_config, scope_wants_data,
  scope_locks_data, scope_runs, scope_unlocks_data, scope_unlocks_config, receives, unpacks,
  finds_command, stack_locks_config, parses, stack_unlocks_config, stack_locks_data, aggregates,
  at_start, scope_steps, stack_steps,
}
use se_scope_target.Builders.Threads.Exclusion.{IsExclusive, Reached-IsExclusive}
use se_scope_target.Builders.Threads.Serial.{Block, Reached-Serial, run_blocks, unfinished}

abbrev counting : ScopeRunnable ℕ
counting = record {
  run_communication_rx = λ n. n + 1;
  run_unpacker = λ n. n + 10;
  run_command_parser = λ n. n * 2;
  run_scope = λ n. n * 3;
  run_data_aggregator = λ n. n + 100;
  run_packer = λ n. n * 5;
  run_communication_tx = λ n. n + 1000;
  is_running = λ n. true;
  is_ready_to_run = λ n. false;
  command_pending = λ n. true;
}

-- The scope runs between the unpacker and the parser; the stack has aggregated.
abbrev aggregated : World ℕ
aggregated = record {
  state = 11 * 3 * 2 + 100;
  config_locked = false;
  data_locked = true;
  scope = scope_idle;
  stack = stack_aggregated;
}

aggregated-Reached : Reached counting 0 aggregated
aggregated-Reached =
    let r1 = stack_steps at_start (receives refl) in
    let r2 = scope_steps r1 (scope_locks_config refl refl) in
    let r3 = stack_steps r2 (unpacks refl) in
    let r4 = scope_steps r3 (scope_wants_data refl refl) in
    let r5 = scope_steps r4 (scope_locks_data refl refl) in
    let r6 = stack_steps r5 (finds_command refl refl) in
    let r7 = scope_steps r6 (scope_runs refl) in
    let r8 = scope_steps r7 (scope_unlocks_data refl) in
    let r9 = scope_steps r8 (scope_unlocks_config refl) in
    let r10 = stack_steps r9 (stack_locks_config refl refl) in
    let r11 = stack_steps r10 (parses refl) in
    let r12 = stack_steps r11 (stack_unlocks_config refl) in
    let r13 = stack_steps r12 (stack_locks_data refl refl) in stack_steps r13 (aggregates refl)

Reached-IsExclusive_example : IsExclusive aggregated
Reached-IsExclusive_example = Reached-IsExclusive counting 0 aggregated-Reached

Reached-Serial_example :
    (bs : List Block) × (aggregated.state
      ≡ unfinished counting stack_aggregated (run_blocks counting 0 bs))
Reached-Serial_example = Reached-Serial counting 0 aggregated-Reached

-- Memory for one channel.
abbrev memory : Memory ℕ (ListRing ℕ) (ListRing ℕ) (ListRing ℕ)
memory = record {
  channels = full_channel ∷ [];
  trigger = cleaning;
  trigger_config = record { level = 5; edge = true; mode = 0; channel_id = 0 };
  packer = record {
    channels = [];
    max_number_of_channels = 7;
    max_addresses_to_announce = 7;
    trigger = record { is_triggered = true; channel_id = 9; trigger_timestamp = 9; mode = 9 };
    time_increment = 9;
    timestamp = none;
    announce_channels = [];
    announce_meta = record { max_channels = 9; time_base = 9; version = [] };
    log_data = [];
    max_size = 9;
    bytes_written = 9;
  };
  unpacker = record {
    max_number_of_channels = 9;
    ev_poll_timestamp = 9;
    running = record { amount = 9; channels = record { id = 9; new_state = true } ∷ [] };
    address = record { amount = 9; channels = record { id = 9; address = 9; type = 9 } ∷ [] };
    trigger_config = record { level = 9; edge = true; mode = 9; channel_id = 9 };
    t_inc = 9;
  };
}

abbrev priorities : MessagePriorities
priorities = record { data_priority = 1; log_priority = 2; stream_priority = 3 }

abbrev TestBuilder : Type 0
TestBuilder =
    ScopeBuilder (ListRing ℕ) (Rx (ListRing ℕ) × Tx (ListRing ℕ)) Bool (AnnounceStorage ℕ ℕ)

-- A builder with all its parts but a log stream.
abbrev silent : TestBuilder
silent = record {
  input = some (list_create 15);
  output = some (list_create 60);
  log_byte_stream = none;
  communicator = none;
  announce_storage = none;
  data_mutex = some true;
  config_mutex = some true;
  max_addresses = 1;
  timestamp = some 0;
  amount_of_channels = 1;
  size_of_channels = 2;
  priorities = priorities;
}

build_iff_example : (build list_core list_ring list_queue memory silent ≢ none) ↔ (
    (silent.timestamp ≢ none)
    × (silent.output ≢ none)
    × (silent.communicator ≢ none)
    × (silent.log_byte_stream ≢ none)
    × (0 < 1)
    × (0 < 2))
build_iff_example = build_iff list_core list_ring list_queue memory silent

abbrev conf : Config ℕ
conf = record {
  size_of_channels = 2;
  amount_of_channels = 1;
  timestamp = some 0;
  addresses_in_address_announcer = 1;
  time_base = 1;
}

create_with-IsReady_example :
    let t =
      create_with list_core list_ring list_queue silent memory [] 3 conf none none
        (some (list_create 10))
        priorities in
    (l : Layers ℕ (ListRing ℕ) (ListRing ℕ) (ListRing ℕ) (List ℕ)) × (t.layers ≡ some l)
    × IsReady list_core list_ring conf t l
create_with-IsReady_example =
    create_with-IsReady list_core list_ring list_queue silent memory [] 3 conf none none
      (list_create 10) 0 priorities (refl, refl, refl) refl (omega arith) (omega arith)

-- A message waits that starts channel 0.
abbrev waiting : Receiving ℕ (ListRing ℕ) (ListRing ℕ) (ListRing ℕ) (ListRing ℕ) (List ℕ)
waiting = record {
  rx = record {
    input = record { items = 10 ∷ 4 ∷ 8 ∷ 0 ∷ 16 ∷ 1 ∷ []; room = 2 };
    data_ready = true;
    expected_length = 0;
    type = cf_running;
    state_byte_count = 0;
    checksum = 0;
    checksum_compare = 0;
    state = start_flag;
  };
  serializer = record {
    unpacking_pending = se_none;
    packing_pending = se_none;
    nanopb_packer = memory.packer;
    nanopb_unpacker = record memory.unpacker {
      max_number_of_channels = 1;
      running = record { amount = 0; channels = record { id = 9; new_state = true } ∷ [] };
    };
  };
  controller = record {
    commands = record {
      amount_of_channels = 1;
      addr_config = [];
      running_config = [];
      time_increment = 1;
      trigger_config = record { level = 5; edge = true; mode = 0; channel_id = 0 };
    };
    command_pending = se_none;
    wait_for_ack = true;
    queue = [];
    priorities = priorities;
  };
  scope = full_scope;
}

waiting-IsFine : IsFine list_core waiting
waiting-IsFine = record {
  sound = full_rig-IsSound;
  filled = record { allocated = (refl, refl); within = omega arith };
  same = refl;
}

receive_pass-IsFine_example :
    Returns
      (λ v. IsFine list_core v × IsDone v × (length v.scope.rig.channels ≡ 1))
      (receive_pass list_core wire_encoder wire_decoder list_ring list_queue sampled 130
        (record { id = 0; new_state = false })
        (record { id = 0; address = 0; type = 0 })
        waiting)
receive_pass-IsFine_example =
    receive_pass-IsFine list_core wire_encoder wire_decoder list_ring list_queue sampled 130
      (record { id = 0; new_state = false }) (record { id = 0; address = 0; type = 0 }) waiting
      waiting-IsFine (omega arith, omega arith)
