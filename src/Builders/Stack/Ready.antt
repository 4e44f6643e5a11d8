-- ===== src/Builders/Stack/Ready.antt =====
-- What a created stack has, for the theorems on its parts.
use se_scope_target.Prelude.{
  ℕ, ◌<◌, ◌≡◌, refl, sym, ◌∙◌, false, List, [], Option, some, arith, length,
}
use se_scope_target.SeLib.Core.{CoreLib}
use se_scope_target.SeLib.Ring.{Ring}
use se_scope_target.SeLib.Queue.{Queue}
use se_scope_target.ScopeTypes.{MessagePriorities}
use se_scope_target.Control.AnnounceStorage.{AnnounceStorage, AddressDefinition}
use se_scope_target.Control.AnnounceStorage
use se_scope_target.FramedIo.{Rx, Tx}
use se_scope_target.FramedIo.Receive.{create_rx, reset_rx}
use se_scope_target.FramedIo.Transmit.{create_tx, reset_tx}
use se_scope_target.Serialisation.Serializer.{tx_calculate_buffer_size, rx_calculate_buffer_size}
use se_scope_target.Builders.Builder.{
  ScopeBuilder, Memory, Layers, set_channels, set_streams, set_timestamp_reference,
  set_communication, set_announce_storage, set_data_mutex, set_config_mutex, set_log_buffer, build,
  is_incomplete,
}
use se_scope_target.Builders.Builder
use se_scope_target.Builders.Builder.Checks.{build_lem}
use se_scope_target.Builders.Stack.{Config, FramedStack, create_with}
use se_scope_target.Core.Trigger.Machine.Invariant.{IsSound}
use se_scope_target.Core.Scope
use se_scope_target.Core.Scope.{Scope}
use se_scope_target.Core.Scope.Calls.{Reached-Keeps, created}
use se_scope_target.Control.Controller
use se_scope_target.Control.Controller.{Controller}
use se_scope_target.Control.Commands.{create_commands}
use se_scope_target.Serialisation.Packer.{calculate_buffer_size, reset_self, Packer}
use se_scope_target.Serialisation.Packer
use se_scope_target.Serialisation.Unpacker
use se_scope_target.Serialisation.Unpacker.{NanopbUnpacker}
use se_scope_target.Serialisation.Unpacker.Getters.{IsAllocated}
use se_scope_target.Serialisation.Serializer
use se_scope_target.Serialisation.Serializer.{Serializer}
use se_scope_target.FramedIo.Receive.Automaton.Frames.{IsIdle}

-- The layers fit each other and the streams of the framing layer, and all of them wait.
pub record IsReady {F B S I C V Q : Type 0} (L : CoreLib F B S I) (R : Ring ℕ C) (conf : Config F)
    (t : FramedStack F B S I Q C V) (l : Layers F B S I Q) : Type 0 where
  pub sound : IsSound L l.scope.rig
  pub channels : length l.scope.rig.channels ≡ conf.amount_of_channels
  pub commands : l.controller.commands.amount_of_channels ≡ conf.amount_of_channels
  pub entries : l.serializer.nanopb_unpacker.max_number_of_channels ≡ conf.amount_of_channels
  pub allocated : IsAllocated l.serializer.nanopb_unpacker
  pub message : l.serializer.nanopb_packer.channels ≡ []
  pub idle_packer : l.serializer.nanopb_packer.bytes_written ≡ 0
  pub room : l.serializer.nanopb_packer.max_number_of_channels ≡ conf.amount_of_channels
  pub output : R.contents t.tx.output ≡ []
  pub capacity : l.serializer.nanopb_packer.max_size ≡ R.capacity t.tx.output
  pub size :
      R.capacity t.tx.output
      ≡ calculate_buffer_size conf.amount_of_channels conf.size_of_channels
          conf.addresses_in_address_announcer
  pub idle_receiver : IsIdle t.rx
  pub not_ready : t.rx.data_ready ≡ false
  pub input : R.contents t.rx.input ≡ []

-- The memory has an item for each channel.
abbrev pub IsAllocatedFor : {F B S I : Type 0} → Memory F B S I → ℕ → Type 0
IsAllocatedFor m n =
    (length m.channels ≡ n)
    × (length m.unpacker.running.channels ≡ n)
    × (length m.unpacker.address.channels ≡ n)

module _ {F B S I C M V Q : Type 0} (L : CoreLib F B S I) (R : Ring ℕ C) (U : Queue Q) where
  pub create_with-IsReady :
      (raw : ScopeBuilder C (Rx C × Tx C) M (AnnounceStorage F V)) (m : Memory F B S I)
      (addresses : List AddressDefinition) (version : V) (conf : Config F)
      (data_mutex config_mutex : Option M) (log : C) (now : ℕ) (priorities : MessagePriorities)
      → IsAllocatedFor m conf.amount_of_channels
      → conf.timestamp ≡ some now
      → 0 < conf.amount_of_channels
      → 0 < conf.size_of_channels
      → let t =
          create_with L R U raw m addresses version conf data_mutex config_mutex
            (some log)
            priorities in
        (l : Layers F B S I Q) × (t.layers ≡ some l) × IsReady L R conf t l
  unfolding create_with Builder.create Serializer.create set_channels set_streams
      set_timestamp_reference set_communication set_announce_storage set_data_mutex set_config_mutex
      set_log_buffer is_incomplete build Packer.create Unpacker.create Controller.create
      create_commands reset_self create_rx reset_rx create_tx reset_tx tx_calculate_buffer_size
  create_with-IsReady raw m addresses version conf data_mutex config_mutex log now priorities a e h
        k =
      let size = conf.size_of_channels in
      let amount = conf.amount_of_channels in
      let tx_size = tx_calculate_buffer_size amount size conf.addresses_in_address_announcer in
      let l : Layers F B S I Q = record {
        scope = Scope.create L size m.channels m.trigger;
        serializer =
            Serializer.create m.packer m.unpacker amount conf.addresses_in_address_announcer
              (R.capacity (R.create tx_size));
        controller = Controller.create U m.trigger_config amount priorities;
      } in
      let (sound, channels) =
        Reached-Keeps L (λ _. Unit) size m.channels m.trigger (omega (arith, a.0, h)) created in
      (
        l,
        build_lem L R U m
            (set_log_buffer
              (set_announce_storage
                (set_communication
                  (set_timestamp_reference
                    (set_data_mutex
                      (set_config_mutex
                        (set_streams (set_channels (Builder.create raw priorities) amount size)
                          (some (R.create (rx_calculate_buffer_size amount)))
                          (some (R.create tx_size)))
                        config_mutex)
                      data_mutex)
                    conf.timestamp)
                  (some (
                    create_rx R (R.create (rx_calculate_buffer_size amount)),
                    create_tx R (R.create tx_size),
                  )))
                (some (AnnounceStorage.create version addresses amount conf.time_base))
                conf.addresses_in_address_announcer)
              (some log))
            (R.create tx_size) log now
            (
              create_rx R (R.create (rx_calculate_buffer_size amount)),
              create_tx R (R.create tx_size),
            )
            e refl refl refl h k,
        record {
          sound = sound;
          channels = channels ∙ a.0;
          commands = refl;
          entries = refl;
          allocated = (a.1, a.2);
          message = refl;
          idle_packer = refl;
          room = refl;
          output = R.contents-clear (R.create tx_size);
          capacity = sym (R.capacity-clear (R.create tx_size));
          size = R.capacity-clear (R.create tx_size) ∙ R.capacity-create tx_size;
          idle_receiver = record {
            waiting = refl;
            counter = refl;
            expected = refl;
            summed = refl;
            compared = refl;
          };
          not_ready = refl;
          input = R.contents-clear (R.create (rx_calculate_buffer_size amount));
        },
      )
