-- ===== src/Serialisation/Serializer.antt =====
-- src/Serialisation/Serializer.c: the messages that wait for the unpacker and for the packer, between
-- the controller and the communicator. `runRx` and `runTx` tell an observer a message.
pub mod Rx
pub mod Tx
pub mod Total
use se_scope_target.Prelude.{
  ℕ, zero, suc, ◌+◌, ◌-◌, ◌*◌, ◌/◌, ◌%◌, ◌^◌, ◌<◌, ◌≤◌, ◌≡◌, ◌≢◌, refl, subst, ap, sym, ◌∙◌,
  fun_ext, Bool, true, false, not, ◌||◌, ◌&&◌, List, [], ◌∷◌, ◌++◌, map, Option, none, some,
  if◌then◌else◌, arith, length, append-nil, append_assoc, length-append, length-map, get_elem?-map,
  get_elem?_bound, get_elem?_total, All, Option-cases, Bool-cases, ◌⊎◌, inl, inr, ◌↔◌, u8, u16, u32,
  bool_eq, Returns, Returns-cases, ltb, leb, concat, take_add, drop_add, ◌==◌, or_else, min, take,
  drop, length-take, length-drop, take-append-drop, take-append_ge, take-append_le, drop-append_ge,
  drop-append_le, take_of_length_le, take_last, take_last-append, drop_of_length_le, replicate,
  get_elem?, set, length-set, get_elem?-set_self, get_elem?-set_ne, dec_lt, ℕ_discrete, ==_iff,
}
use se_scope_target.Nanopb.Encoder.{Encoder}
use se_scope_target.Nanopb.Decoder.{Decoder}
use se_scope_target.SeLib.Ring.{Ring}
use se_scope_target.SeLib.Core.{CoreLib}
use se_scope_target.ScopeTypes.{
  MessageType, ev_poll, cf_running, cf_trigger, cf_t_inc, cf_addr, se_none, se_nak,
}
use se_scope_target.Core.Trigger.{◌>>=◌}
use se_scope_target.Control.Pack.{PackerCall}
use se_scope_target.Control.Commands.{CfRunningDef, CfAddressDef, Unpacker}
use se_scope_target.Serialisation.Packer.{Packer}
use se_scope_target.Serialisation.Packer
use se_scope_target.Serialisation.Packer.Data.{Left}
use se_scope_target.Serialisation.Packer.Messages.{pack, untouched}
use se_scope_target.Serialisation.Unpacker.{NanopbUnpacker, unpack, get_unpacker}
use se_scope_target.Serialisation.Unpacker

-- SerializerPrivateData, without its streams and its observers.
pub record Serializer (F B I : Type 0) : Type 0 where
  pub unpacking_pending : MessageType
  pub packing_pending : MessageType
  pub nanopb_packer : Packer F B I
  pub nanopb_unpacker : NanopbUnpacker F

-- `getUnpacker`, which has the unpacker of nanopb for these messages and none for the others.
unfoldable pub has_unpacker : MessageType → Bool
has_unpacker type =
    (type == ev_poll)
    || ((type == cf_addr) || ((type == cf_running) || ((type == cf_t_inc) || (type == cf_trigger))))

-- `updateUnpacker` and `updatePacker`
pub update_unpacker : {F B I : Type 0} → Serializer F B I → MessageType → Serializer F B I
update_unpacker s type = record s { unpacking_pending = type }

pub update_packer : {F B I : Type 0} → Serializer F B I → MessageType → Serializer F B I
update_packer s type = record s { packing_pending = type }

-- The functions that add to a message, which the packer of nanopb does for all of them.
abbrev pub add : {F B I : Type 0} → Serializer F B I → PackerCall F B I (List ℕ) → Serializer F B I
add s c = record s { nanopb_packer = Packer.add s.nanopb_packer c }

-- `isReady`, on an output of so many bytes.
abbrev pub is_ready : {F B I : Type 0} → Serializer F B I → ℕ → Bool
is_ready s output_length = (s.packing_pending == se_none) && (output_length == 0)

-- `Serializer_create`, on what the allocated memory holds and the capacity of the output.
unfoldable pub create :
    {F B I : Type 0} → Packer F B I → NanopbUnpacker F → ℕ → ℕ → ℕ → Serializer F B I
create packer unpacker max_channels max_addresses capacity = record {
  unpacking_pending = se_none;
  packing_pending = se_none;
  nanopb_packer = Packer.create packer max_channels max_addresses capacity;
  nanopb_unpacker = Unpacker.create unpacker max_channels;
}

-- `Serializer_txCalculateBufferSize` and `Serializer_rxCalculateBufferSize`
unfoldable pub tx_calculate_buffer_size : ℕ → ℕ → ℕ → ℕ
tx_calculate_buffer_size channels size_of_channels addresses =
    Packer.calculate_buffer_size channels size_of_channels addresses

abbrev pub rx_calculate_buffer_size : ℕ → ℕ
rx_calculate_buffer_size max_channels = Unpacker.calculate_buffer_size max_channels

-- `Serializer_getUnpacker`: all getters go to the unpacker of nanopb.
pub get_iunpacker : {F B I : Type 0} → CfRunningDef → CfAddressDef → Serializer F B I → Unpacker F
get_iunpacker d a s = get_unpacker d a s.nanopb_unpacker

module _ {F B S I C : Type 0} (L : CoreLib F B S I) (P : Encoder F) (D : Decoder F)
    (R : Ring ℕ C) where
  -- `runRx` on the input: the message that the observer of the controller is told, if it runs.
  pub run_rx : Serializer F B I → C → Option (Serializer F B I × C × Bool × Option MessageType)
  unfolding has_unpacker
  run_rx s input =
      let type = s.unpacking_pending in
      if type == se_none
      then some (s, input, false, none)
      else if has_unpacker type
      then (unpack R D s.nanopb_unpacker input type >>= λ r.
          let (u, left, valid) = r in
          some (
            record s { nanopb_unpacker = u; unpacking_pending = se_none },
            left,
            true,
            some (if valid then type else se_nak),
          ))
      else some (record s { unpacking_pending = se_none }, input, true, some type)

  -- `runTx` on the output: the message that the observer of the communicator is told, if it runs.
  pub run_tx :
      Serializer F B I → C → Option (Serializer F B I × Left B I C × Bool × Option MessageType)
  run_tx s output =
      if s.packing_pending == se_none
      then some (s, untouched L P R s.nanopb_packer output, false, none)
      else (pack L P R s.nanopb_packer output s.packing_pending >>= λ r. some (
        record s { nanopb_packer = r.0; packing_pending = se_none },
        r.1,
        true,
        some s.packing_pending,
      ))

  -- `unpack` of the serializer's IUnpacker, which the code does not call.
  abbrev pub serializer_unpack :
      Serializer F B I → C → MessageType → Option (Serializer F B I × C × Bool)
  serializer_unpack s input type =
      if has_unpacker type
      then (unpack R D s.nanopb_unpacker input type >>= λ r.
          some (record s { nanopb_unpacker = r.0 }, r.1, r.2))
      else some (s, input, false)
