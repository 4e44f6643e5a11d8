-- ===== src/Builders/Sending/Tests.antt =====
-- The sending half of a pass at a concrete input.
use se_scope_target.Prelude.{ℕ, ◌≡◌, refl, true, false, List, [], ◌∷◌, none, some, arith, inl, inr}
use se_scope_target.SeLib.Models.{ListRing, list_core, list_create, list_ring, list_stream}
use se_scope_target.SeLib.ListQueue.{list_queue}
use se_scope_target.Nanopb.Models.{wire_encoder, wire_decoder}
use se_scope_target.ScopeTypes.{se_none, sc_data}
use se_scope_target.Core.Scope.{
  Scope, channel_has_to_be_packed, get_channel_buffer, get_trigger_data,
}
use se_scope_target.Core.Channel.{amount_of_used_swap_data, get_capacity}
use se_scope_target.Core.Tests.{full_scope, full_rig, full_channel, two_stamps}
use se_scope_target.FramedIo.{idle}
use se_scope_target.FramedIo.Frame.{frame}
use se_scope_target.FramedIo.Transmit.Pending.{pending}
use se_scope_target.Serialisation.Packer.{Packer}
use se_scope_target.Serialisation.Packer.Data.{Left}
use se_scope_target.Serialisation.Packer.Data.Drains.{Drained, StampsDrained}
use se_scope_target.Serialisation.Packer.Messages.Encoding.{encoded}
use se_scope_target.Serialisation.Unpacker.{NanopbUnpacker}
use se_scope_target.Builders.Sending.{Sending, send_pass}
use se_scope_target.Builders.Sending.Pass.{IsWaiting, message, pending-send_pass}

abbrev empty_packer : Packer ℕ (ListRing ℕ) (ListRing ℕ)
empty_packer = record {
  channels = [];
  max_number_of_channels = 1;
  max_addresses_to_announce = 1;
  trigger = record { is_triggered = false; channel_id = 0; trigger_timestamp = 0; mode = 0 };
  time_increment = 0;
  timestamp = none;
  announce_channels = [];
  announce_meta = record { max_channels = 1; time_base = 1; version = [] };
  log_data = [];
  max_size = 64;
  bytes_written = 0;
}

abbrev fresh_unpacker : NanopbUnpacker ℕ
fresh_unpacker = record {
  max_number_of_channels = 1;
  ev_poll_timestamp = 0;
  running = record { amount = 0; channels = record { id = 9; new_state = false } ∷ [] };
  address = record { amount = 0; channels = record { id = 9; address = 0; type = 0 } ∷ [] };
  trigger_config = record { level = 5; edge = true; mode = 0; channel_id = 0 };
  t_inc = 1;
}

abbrev waiting_scope : Scope ℕ (ListRing ℕ) (ListRing ℕ) (ListRing ℕ)
waiting_scope = record full_scope {
  rig = record full_rig {
    channels = record full_channel { swap_buffer = record { items = 7 ∷ 8 ∷ []; room = 0 } } ∷ [];
    timestamper = record two_stamps {
      swap_timestamps = record { items = 100 ∷ 110 ∷ []; room = 0 };
    };
    trigger = record full_rig.trigger { swap_is_triggered = true; swap_trigger_index = 1 };
  };
}

abbrev sending : Sending ℕ (ListRing ℕ) (ListRing ℕ) (ListRing ℕ) (List ℕ) (ListRing ℕ)
sending = record {
  controller = record {
    commands = record {
      amount_of_channels = 1;
      addr_config = [];
      running_config = [];
      time_increment = 1;
      trigger_config = record { level = 5; edge = true; mode = 0; channel_id = 0 };
    };
    command_pending = se_none;
    wait_for_ack = false;
    queue = sc_data ∷ [];
    priorities = record { data_priority = 1; log_priority = 2; stream_priority = 3 };
  };
  serializer = record {
    unpacking_pending = se_none;
    packing_pending = se_none;
    nanopb_packer = empty_packer;
    nanopb_unpacker = fresh_unpacker;
  };
  tx = record {
    output = list_create 64;
    frame_head = list_create 6;
    frame_tail = list_create 3;
    data_framing_ready = false;
    type = se_none;
    checksum = 0;
    state = idle;
  };
  log = list_create 10;
}

sending-IsWaiting : IsWaiting list_ring list_queue (list_stream {A = ℕ}) sending []
sending-IsWaiting = record {
  acknowledged = refl;
  filled = refl;
  next = refl;
  quiet = refl;
  packing = refl;
  no_channels = refl;
  idle_packer = refl;
  empty = refl;
  sized = refl;
  sound = record {
    head_size = refl;
    tail_size = refl;
    summed = omega arith;
    cleared = inr refl;
    unsummed = inr refl;
  };
  idle_sender = refl;
}

pending-send_pass_example :
    (v : Sending ℕ (ListRing ℕ) (ListRing ℕ) (ListRing ℕ) (List ℕ) (ListRing ℕ)) × (l : Left
      (ListRing ℕ)
      (ListRing ℕ)
      (ListRing ℕ))
    × (send_pass list_core wire_encoder wire_decoder list_ring list_queue
          (list_stream {A = ℕ})
          true
          waiting_scope
          none
          sending
        ≡ some (v, l))
    × (pending list_ring v.tx
        ≡ frame sc_data (
            encoded list_core wire_encoder list_ring (
              message list_core wire_encoder wire_decoder list_ring list_queue
                (list_stream {A = ℕ})
                waiting_scope
                sending)))
    × Drained list_core wire_encoder list_ring l.buffers
    × StampsDrained list_core wire_encoder list_ring l.stamps
    × (v.controller.wait_for_ack ≡ true)
    × (v.serializer.packing_pending ≡ se_none)
unfolding channel_has_to_be_packed get_channel_buffer get_trigger_data amount_of_used_swap_data
    get_capacity
pending-send_pass_example =
    pending-send_pass list_core wire_encoder wire_decoder list_ring list_queue list_stream true
      waiting_scope none sending [] sending-IsWaiting (omega arith)
      (((omega arith), (omega arith), inl (omega arith), inl (omega arith)), tt) (omega arith)
      (omega arith)
