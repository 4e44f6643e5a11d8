-- ===== src/Builders/Builder.antt =====
-- src/Builders/ScopeBuilder.c: the parts that are given to the builder, and the layers that it creates.
-- A handle that may be null is an Option of what it holds.
pub mod Checks
use se_scope_target.Prelude.{
  ℕ, zero, suc, ◌+◌, ◌-◌, ◌*◌, ◌/◌, ◌%◌, ◌^◌, ◌<◌, ◌≤◌, ◌≡◌, ◌≢◌, refl, subst, ap, sym, ◌∙◌,
  fun_ext, Bool, true, false, not, ◌||◌, ◌&&◌, List, [], ◌∷◌, ◌++◌, map, Option, none, some,
  if◌then◌else◌, arith, length, append-nil, append_assoc, length-append, length-map, get_elem?-map,
  get_elem?_bound, get_elem?_total, All, Option-cases, Bool-cases, ◌⊎◌, inl, inr, ◌↔◌, u8, u16, u32,
  bool_eq, Returns, Returns-cases, ltb, leb, concat, take_add, drop_add, ◌==◌, or_else, min, take,
  drop, length-take, length-drop, take-append-drop, take-append_ge, take-append_le, drop-append_ge,
  drop-append_le, take_of_length_le, take_last, take_last-append, drop_of_length_le, replicate,
  get_elem?, set, length-set, get_elem?-set_self, get_elem?-set_ne, dec_lt, ℕ_discrete, ==_iff,
}
use se_scope_target.SeLib.Core.{CoreLib}
use se_scope_target.SeLib.Ring.{Ring}
use se_scope_target.SeLib.Queue.{Queue}
use se_scope_target.ScopeTypes.{MessagePriorities, TriggerConfiguration}
use se_scope_target.Core.Channel.{Channel}
use se_scope_target.Core.Trigger.{Trigger}
use se_scope_target.Core.Scope.{Scope}
use se_scope_target.Core.Scope
use se_scope_target.Control.AnnounceStorage.{AnnounceStorage}
use se_scope_target.Control.Controller.{Controller}
use se_scope_target.Control.Controller
use se_scope_target.Serialisation.Packer.{Packer}
use se_scope_target.Serialisation.Unpacker.{NanopbUnpacker}
use se_scope_target.Serialisation.Serializer.{Serializer}
use se_scope_target.Serialisation.Serializer

-- ScopeBuilderPrivateData without the layers, over the types of byte streams, of the communicator, of
-- the mutexes and of the announce storage.
pub record ScopeBuilder (C K M A : Type 0) : Type 0 where
  pub input : Option C
  pub output : Option C
  pub log_byte_stream : Option C
  pub communicator : Option K
  pub announce_storage : Option A
  pub data_mutex : Option M
  pub config_mutex : Option M
  pub max_addresses : ℕ
  pub timestamp : Option ℕ
  pub amount_of_channels : ℕ
  pub size_of_channels : ℕ
  pub priorities : MessagePriorities

-- What the allocated memory holds in the fields that the layers do not set.
pub record Memory (F B S I : Type 0) : Type 0 where
  pub channels : List (Channel F B S)
  pub trigger : Trigger F
  pub trigger_config : TriggerConfiguration F
  pub packer : Packer F B I
  pub unpacker : NanopbUnpacker F

-- The layers of a scope.
pub record Layers (F B S I Q : Type 0) : Type 0 where
  pub scope : Scope F B S I
  pub serializer : Serializer F B I
  pub controller : Controller F Q

abbrev pub is_none : {X : Type 0} → Option X → Bool
is_none none = true
is_none (some x) = false

module _ {C K M A : Type 0} where
  -- `ScopeBuilder_create`, which leaves the mutexes, the sizes and the amounts as `raw` has them.
  unfoldable pub create : ScopeBuilder C K M A → MessagePriorities → ScopeBuilder C K M A
  create raw priorities = record raw {
    input = none;
    output = none;
    log_byte_stream = none;
    communicator = none;
    announce_storage = none;
    timestamp = none;
    priorities = priorities;
  }

  unfoldable pub set_channels : ScopeBuilder C K M A → ℕ → ℕ → ScopeBuilder C K M A
  set_channels b amount size = record b { amount_of_channels = amount; size_of_channels = size }

  unfoldable pub set_streams : ScopeBuilder C K M A → Option C → Option C → ScopeBuilder C K M A
  set_streams b input output = record b { input = input; output = output }

  unfoldable pub set_timestamp_reference : ScopeBuilder C K M A → Option ℕ → ScopeBuilder C K M A
  set_timestamp_reference b timestamp = record b { timestamp = timestamp }

  unfoldable pub set_communication : ScopeBuilder C K M A → Option K → ScopeBuilder C K M A
  set_communication b communicator = record b { communicator = communicator }

  unfoldable pub set_announce_storage : ScopeBuilder C K M A → Option A → ℕ → ScopeBuilder C K M A
  set_announce_storage b storage max_addresses = record b {
    announce_storage = storage;
    max_addresses = max_addresses;
  }

  unfoldable pub set_data_mutex : ScopeBuilder C K M A → Option M → ScopeBuilder C K M A
  set_data_mutex b mutex = record b { data_mutex = mutex }

  unfoldable pub set_config_mutex : ScopeBuilder C K M A → Option M → ScopeBuilder C K M A
  set_config_mutex b mutex = record b { config_mutex = mutex }

  unfoldable pub set_log_buffer : ScopeBuilder C K M A → Option C → ScopeBuilder C K M A
  set_log_buffer b stream = record b { log_byte_stream = stream }

  -- The checks of `ScopeBuilder_build`, which make it return a struct of null pointers.
  unfoldable pub is_incomplete : ScopeBuilder C K M A → Bool
  is_incomplete b =
      if is_none b.timestamp
      then true
      else if is_none b.output
      then true
      else if is_none b.communicator
      then true
      else if (b.amount_of_channels == 0) || (b.size_of_channels == 0)
      then true
      else is_none b.log_byte_stream

module _ {F B S I C K M A Q : Type 0} (L : CoreLib F B S I) (R : Ring ℕ C) (U : Queue Q) where
  -- `ScopeBuilder_build`; `none` is the struct of null pointers.
  unfoldable pub build : Memory F B S I → ScopeBuilder C K M A → Option (Layers F B S I Q)
  unfolding is_incomplete
  build m b = if is_incomplete b then none else elim b.output [
    | none ↦ none
    | some output ↦ some (record {
      scope = Scope.create L b.size_of_channels m.channels m.trigger;
      serializer =
          Serializer.create m.packer m.unpacker b.amount_of_channels b.max_addresses
            (R.capacity output);
      controller = Controller.create U m.trigger_config b.amount_of_channels b.priorities;
    })
  ]
