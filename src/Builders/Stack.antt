-- ===== src/Builders/Stack.antt =====
-- src/Builders/ScopeFramedStack.c: a scope behind the framing layer, with buffers of the sizes that the
-- serializer calculates.
pub mod Ready
use se_scope_target.Prelude.{
  ℕ, zero, suc, ◌+◌, ◌-◌, ◌*◌, ◌/◌, ◌%◌, ◌^◌, ◌<◌, ◌≤◌, ◌≡◌, ◌≢◌, refl, subst, ap, sym, ◌∙◌,
  fun_ext, Bool, true, false, not, ◌||◌, ◌&&◌, List, [], ◌∷◌, ◌++◌, map, Option, none, some,
  if◌then◌else◌, arith, length, append-nil, append_assoc, length-append, length-map, get_elem?-map,
  get_elem?_bound, get_elem?_total, All, Option-cases, Bool-cases, ◌⊎◌, inl, inr, ◌↔◌, u8, u16, u32,
  bool_eq, Returns, Returns-cases, ltb, leb, concat, take_add, drop_add, ◌==◌, or_else, min, take,
  drop, length-take, length-drop, take-append-drop, take-append_ge, take-append_le, drop-append_ge,
  drop-append_le, take_of_length_le, take_last, take_last-append, drop_of_length_le, replicate,
  get_elem?, set, length-set, get_elem?-set_self, get_elem?-set_ne, dec_lt, ℕ_discrete, ==_iff,
}
use se_scope_target.SeLib.Core.{CoreLib}
use se_scope_target.SeLib.Ring.{Ring}
use se_scope_target.SeLib.Queue.{Queue}
use se_scope_target.ScopeTypes.{MessagePriorities}
use se_scope_target.Control.AnnounceStorage.{AnnounceStorage, AddressDefinition}
use se_scope_target.Control.AnnounceStorage
use se_scope_target.FramedIo.{Rx, Tx}
use se_scope_target.FramedIo.Receive.{create_rx}
use se_scope_target.FramedIo.Transmit.{create_tx}
use se_scope_target.Serialisation.Serializer.{tx_calculate_buffer_size, rx_calculate_buffer_size}
use se_scope_target.Builders.Builder.{
  ScopeBuilder, Memory, Layers, set_channels, set_streams, set_timestamp_reference,
  set_communication, set_announce_storage, set_data_mutex, set_config_mutex, set_log_buffer, build,
}
use se_scope_target.Builders.Builder

-- ScopeFramedStackConfig without the callback.
pub record Config (F : Type 0) : Type 0 where
  pub size_of_channels : ℕ
  pub amount_of_channels : ℕ
  pub timestamp : Option ℕ
  pub addresses_in_address_announcer : ℕ
  pub time_base : F

-- ScopeFramedStackPrivateData; the receiver and the sender of FramedIO have the input and the output.
pub record FramedStack (F B S I Q C V : Type 0) : Type 0 where
  pub announce_storage : AnnounceStorage F V
  pub rx : Rx C
  pub tx : Tx C
  pub output_buffer_size : ℕ
  pub input_buffer_size : ℕ
  pub layers : Option (Layers F B S I Q)

module _ {F B S I C M V Q : Type 0} (L : CoreLib F B S I) (R : Ring ℕ C) (U : Queue Q) where
  -- What `ScopeFramedStack_create` and `ScopeFramedStack_createThreadSafe` have in common; they give the
  -- builder no mutexes, and those of the caller. `raw`, `m` and `addresses` are what the allocated
  -- memory holds.
  pub create_with :
      ScopeBuilder C (Rx C × Tx C) M (AnnounceStorage F V)
      → Memory F B S I
      → List AddressDefinition
      → V
      → Config F
      → Option M
      → Option M
      → Option C
      → MessagePriorities
      → FramedStack F B S I Q C V
  create_with raw m addresses version conf data_mutex config_mutex log priorities =
      let output_size =
        tx_calculate_buffer_size conf.amount_of_channels conf.size_of_channels
          conf.addresses_in_address_announcer in
      let input_size = rx_calculate_buffer_size conf.amount_of_channels in
      let input = R.create input_size in
      let output = R.create output_size in
      let rx = create_rx R input in
      let tx = create_tx R output in
      let storage =
        AnnounceStorage.create version addresses conf.amount_of_channels conf.time_base in
      let b0 = Builder.create raw priorities in
      let b1 = set_channels b0 conf.amount_of_channels conf.size_of_channels in
      let b2 = set_streams b1 (some input) (some output) in
      let b3 = set_config_mutex b2 config_mutex in
      let b4 = set_data_mutex b3 data_mutex in
      let b5 = set_timestamp_reference b4 conf.timestamp in
      let b6 = set_communication b5 (some (rx, tx)) in
      let b7 = set_announce_storage b6 (some storage) conf.addresses_in_address_announcer in
      let b8 = set_log_buffer b7 log in
      record {
        announce_storage = storage;
        rx = rx;
        tx = tx;
        output_buffer_size = output_size;
        input_buffer_size = input_size;
        layers = build L R U m b8;
      }

  abbrev pub create :
      ScopeBuilder C (Rx C × Tx C) M (AnnounceStorage F V)
      → Memory F B S I
      → List AddressDefinition
      → V
      → Config F
      → Option C
      → MessagePriorities
      → FramedStack F B S I Q C V
  create raw m addresses version conf log priorities =
      create_with raw m addresses version conf none none log priorities

  abbrev pub create_thread_safe :
      ScopeBuilder C (Rx C × Tx C) M (AnnounceStorage F V)
      → Memory F B S I
      → List AddressDefinition
      → V
      → Config F
      → M
      → M
      → Option C
      → MessagePriorities
      → FramedStack F B S I Q C V
  create_thread_safe raw m addresses version conf data_mutex config_mutex log priorities =
      create_with raw m addresses version conf (some data_mutex) (some config_mutex) log priorities
