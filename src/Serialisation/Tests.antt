-- ===== src/Serialisation/Tests.antt =====
-- The theorems on the serialisation at concrete inputs, with the encoder and decoder of Nanopb/Models.
use se_scope_target.Prelude.{
  ℕ, ◌<◌, ◌≤◌, ◌≡◌, refl, true, false, List, [], ◌∷◌, ◌++◌, none, some, arith, length, inl, ◌↔◌,
}
use se_scope_target.Nanopb.Encoder.{size}
use se_scope_target.Nanopb.Models.{wire_encoder, wire_decoder}
use se_scope_target.SeLib.Models.{ListRing, list_core, list_create, list_ring, list_stream}
use se_scope_target.ScopeTypes.{cf_running, cf_addr, se_ack, ev_clear, se_none}
use se_scope_target.Core.Scope.{
  Scope, channel_has_to_be_packed, get_channel_buffer, get_trigger_data,
}
use se_scope_target.Core.Channel.{amount_of_used_swap_data, get_capacity}
use se_scope_target.Core.Tests.{full_scope, full_rig, full_channel, two_stamps, memory}
use se_scope_target.Control.Commands.{
  Commands, CfRunningDef, CfAddressDef, dispatch, run_running, running_entry,
}
use se_scope_target.Control.Pack.{pack_data}
use se_scope_target.Control.Pack.Ready.{ready_channels}
use se_scope_target.Serialisation.Packer.{Packer, add_all, announced_length, calculate_buffer_size}
use se_scope_target.Serialisation.Packer.{reset_self, sc_data_size, sc_announce_size}
use se_scope_target.Serialisation.Packer.Data.{Left}
use se_scope_target.Serialisation.Packer.Messages.{pack}
use se_scope_target.Serialisation.Packer.Messages.Announced.{announce_bytes}
use se_scope_target.Serialisation.Packer.Messages.Announcing.{pack-announce_bytes}
use se_scope_target.Control.AnnounceStorage.{text_of}
use se_scope_target.ScopeTypes.{sc_announce}
use se_scope_target.Serialisation.Packer.Width.{
  channel_runs, announced_length-size, CountIsRight, WidthIsRight,
}
use se_scope_target.Serialisation.Packer.Data.Drains.{data_bytes}
use se_scope_target.Serialisation.Packer.Size.{length-data_bytes}
use se_scope_target.Serialisation.Unpacker.{NanopbUnpacker, unpack}
use se_scope_target.Serialisation.Unpacker.Getters.{unpack_faults}
use se_scope_target.Serialisation.Serializer.{
  Serializer, has_unpacker, run_rx, update_unpacker, get_iunpacker,
}
use se_scope_target.Serialisation.Serializer.Rx.{frame_running, frame_leftover}
use se_scope_target.Serialisation.Serializer.Tx.{run_tx-pack_data, Sends, message_of}
use se_scope_target.FramedIo.{Rx, start_flag}
use se_scope_target.FramedIo.Frame.{frame, frame_head, sum}
use se_scope_target.FramedIo.Receive.{put_rx_data}
use se_scope_target.FramedIo.Receive
use se_scope_target.FramedIo.Receive.Automaton.Frames.{IsIdle}

announced_length-size_example :
    (announced_length 3 2 ≡ size (channel_runs wire_encoder 3 (7 ∷ 8 ∷ [])))
    ↔ (CountIsRight 2 × WidthIsRight 3)
announced_length-size_example =
    announced_length-size wire_encoder 3 (7 ∷ 8 ∷ []) (omega arith) (omega arith)

-- A packer for one channel, with the output's 64 bytes.
abbrev empty_packer : Packer ℕ (ListRing ℕ) (ListRing ℕ)
empty_packer = record {
  channels = [];
  max_number_of_channels = 1;
  max_addresses_to_announce = 1;
  trigger = record { is_triggered = false; channel_id = 0; trigger_timestamp = 0; mode = 0 };
  time_increment = 0;
  timestamp = none;
  announce_channels = [];
  announce_meta = record { max_channels = 1; time_base = 1; version = [] };
  log_data = [];
  max_size = 64;
  bytes_written = 0;
}

abbrev fresh_unpacker : NanopbUnpacker ℕ
fresh_unpacker = record {
  max_number_of_channels = 1;
  ev_poll_timestamp = 0;
  running = record { amount = 0; channels = record { id = 9; new_state = false } ∷ [] };
  address = record { amount = 0; channels = record { id = 9; address = 0; type = 0 } ∷ [] };
  trigger_config = record { level = 5; edge = true; mode = 0; channel_id = 0 };
  t_inc = 1;
}

abbrev serializer : Serializer ℕ (ListRing ℕ) (ListRing ℕ)
serializer = record {
  unpacking_pending = se_none;
  packing_pending = se_none;
  nanopb_packer = empty_packer;
  nanopb_unpacker = fresh_unpacker;
}

-- A scope whose one channel waits to be sent.
abbrev waiting_scope : Scope ℕ (ListRing ℕ) (ListRing ℕ) (ListRing ℕ)
waiting_scope = record full_scope {
  rig = record full_rig {
    channels = record full_channel { swap_buffer = record { items = 7 ∷ 8 ∷ []; room = 0 } } ∷ [];
    timestamper = record two_stamps {
      swap_timestamps = record { items = 100 ∷ 110 ∷ []; room = 0 };
    };
    trigger = record full_rig.trigger { swap_is_triggered = true; swap_trigger_index = 1 };
  };
}

abbrev waiting_message : Packer ℕ (ListRing ℕ) (ListRing ℕ)
waiting_message =
    message_of list_core wire_encoder wire_decoder list_ring (list_stream {A = ℕ}) empty_packer
      waiting_scope (ready_channels list_core waiting_scope)

run_tx-pack_data_example :
    (add_all empty_packer (pack_data list_core (list_stream {A = ℕ}) waiting_scope)
      ≡ waiting_message)
    × Sends list_core wire_encoder wire_decoder list_ring
        (list_stream {A = ℕ})
        serializer
        (list_create 64)
        waiting_message
unfolding channel_has_to_be_packed get_channel_buffer get_trigger_data amount_of_used_swap_data
    get_capacity
run_tx-pack_data_example =
    run_tx-pack_data list_core wire_encoder wire_decoder list_ring list_stream serializer
      waiting_scope (list_create 64) refl refl (omega arith) refl refl
      (((omega arith), (omega arith), inl (omega arith), inl (omega arith)), tt) (omega arith)

length-data_bytes_example :
    length (data_bytes list_core wire_encoder list_ring waiting_message)
    ≤ calculate_buffer_size 1 2 1
unfolding channel_has_to_be_packed get_channel_buffer get_trigger_data amount_of_used_swap_data
    get_capacity
length-data_bytes_example =
    length-data_bytes list_core wire_encoder list_ring waiting_message 1 2 1 (omega arith)
      (omega arith) ((omega arith, omega arith), tt) (omega arith)
      (omega arith, omega arith, omega arith) (omega arith)

-- Two entries, for a scope of one channel.
abbrev two_entries : List ℕ
two_entries = 10 ∷ 4 ∷ 8 ∷ 0 ∷ 16 ∷ 1 ∷ 10 ∷ 4 ∷ 8 ∷ 1 ∷ 16 ∷ 1 ∷ []

unpack_faults_example :
    (1 < 2
      → unpack list_ring wire_decoder fresh_unpacker
          (record { items = two_entries; room = 0 })
          cf_running
        ≡ none)
    × (1 < 0
        → unpack list_ring wire_decoder fresh_unpacker
            (record { items = two_entries; room = 0 })
            cf_addr
          ≡ none)
unpack_faults_example =
    unpack_faults list_ring wire_decoder fresh_unpacker (record { items = two_entries; room = 0 })
      (refl, refl)

-- One entry, which starts channel 0.
abbrev one_entry : List ℕ
one_entry = 10 ∷ 4 ∷ 8 ∷ 0 ∷ 16 ∷ 1 ∷ []

abbrev idle_rx : ListRing ℕ → Rx (ListRing ℕ)
idle_rx b = record {
  input = b;
  data_ready = false;
  expected_length = 0;
  type = se_none;
  state_byte_count = 0;
  checksum = 0;
  checksum_compare = 0;
  state = start_flag;
}

idle_rx-IsIdle : (b : ListRing ℕ) → IsIdle (idle_rx b)
idle_rx-IsIdle b = record {
  waiting = refl;
  counter = refl;
  expected = refl;
  summed = refl;
  compared = refl;
}

abbrev no_running : CfRunningDef
no_running = record { id = 0; new_state = false }

abbrev no_address : CfAddressDef
no_address = record { id = 0; address = 0; type = 0 }

abbrev commands : Commands ℕ
commands = record {
  amount_of_channels = 1;
  addr_config = [];
  running_config = [];
  time_increment = 1;
  trigger_config = record { level = 5; edge = true; mode = 0; channel_id = 0 };
}

frame_running_example :
    (t : Rx (ListRing ℕ)) × (s' : Serializer ℕ (ListRing ℕ) (ListRing ℕ)) × (left : ListRing ℕ)
    × (put_rx_data list_ring 30 (idle_rx (list_create 8)) (frame cf_running one_entry)
        ≡ some (t, true))
    × ((Receive.run_rx list_ring t).2 ≡ some cf_running)
    × (run_rx list_core wire_encoder wire_decoder list_ring
          (update_unpacker serializer cf_running)
          (Receive.run_rx list_ring t).0.input
        ≡ some (s', left, true, some cf_running))
    × (left.items ≡ [])
    × (dispatch list_core commands
          (get_iunpacker no_running no_address s')
          full_scope
          memory
          130
          cf_running
        ≡ some (
          record commands {
            running_config = running_entry (record { id = 0; new_state = true }) ∷ [];
          },
          (run_running list_core 1 full_scope
              (running_entry (record { id = 0; new_state = true }) ∷ [])).0,
          se_ack ∷ [],
        ))
unfolding sum
frame_running_example =
    frame_running list_core wire_encoder wire_decoder list_ring 30 (idle_rx (list_create 8))
      one_entry no_running no_address serializer commands full_scope memory 130 (omega arith)
      (idle_rx-IsIdle (list_create 8)) refl refl (omega arith) (omega arith) (refl, refl) refl refl
      (omega arith) (omega arith, tt)

-- EV_CLEAR with a payload of two bytes, and then a frame that announces one.
frame_leftover_example :
    (t : Rx (ListRing ℕ)) × (put_rx_data list_ring 30
        (idle_rx (list_create 8))
        (frame ev_clear (7 ∷ 8 ∷ []))
      ≡ some (t, true))
    × ((Receive.run_rx list_ring t).2 ≡ some ev_clear)
    × (run_rx list_core wire_encoder wire_decoder list_ring
          (update_unpacker serializer ev_clear)
          (Receive.run_rx list_ring t).0.input
        ≡ some (
          record serializer { unpacking_pending = se_none },
          (Receive.run_rx list_ring t).0.input,
          true,
          some ev_clear,
        ))
    × (put_rx_data list_ring 1000
          (Receive.run_rx list_ring t).0
          (frame_head cf_running 1 ++ (9 ∷ []))
        ≡ none)
unfolding has_unpacker
frame_leftover_example =
    frame_leftover list_core wire_encoder wire_decoder list_ring 30 (idle_rx (list_create 8))
      ev_clear (7 ∷ 8 ∷ []) serializer 1000 cf_running 1 9 [] (omega arith)
      (idle_rx-IsIdle (list_create 8)) refl refl (omega arith) (omega arith) (λ e. omega (arith, e))
      refl (omega arith)

-- An announcement of one address, `AB`, in the 60 bytes that are calculated for it.
abbrev announcing : Packer ℕ (ListRing ℕ) (ListRing ℕ)
announcing = record empty_packer {
  announce_channels = (0, record { name = 65 ∷ 66 ∷ 0 ∷ []; type = 6; address = 100 }) ∷ [];
  announce_meta = record { max_channels = 1; time_base = 1; version = 49 ∷ 46 ∷ 48 ∷ [] };
  max_size = 60;
}

pack-announce_bytes_example :
    (l : Left (ListRing ℕ) (ListRing ℕ) (ListRing ℕ)) × (pack list_core wire_encoder list_ring
        announcing
        (list_create 60)
        sc_announce
      ≡ some (reset_self announcing, l))
    × (l.output.items ≡ announce_bytes list_core wire_encoder list_ring announcing)
unfolding text_of calculate_buffer_size sc_data_size sc_announce_size
pack-announce_bytes_example =
    pack-announce_bytes list_core wire_encoder list_ring announcing (list_create 60) 1 1 1 refl refl
      refl refl (omega arith) ((refl, omega arith, omega arith, omega arith, omega arith), tt)
      (omega arith, omega arith)
