-- ===== src/Control/Pack.antt =====
-- src/Control/PackCommands and src/Control/CommandPackParserDispatcher.c: what is given to the packer
-- for a message to the host.
pub mod Channels
pub mod Ready
mod Tests
use se_scope_target.Prelude.{
  ℕ, zero, suc, ◌+◌, ◌-◌, ◌*◌, ◌/◌, ◌%◌, ◌^◌, ◌<◌, ◌≤◌, ◌≡◌, ◌≢◌, refl, subst, ap, sym, ◌∙◌,
  fun_ext, Bool, true, false, not, ◌||◌, ◌&&◌, List, [], ◌∷◌, ◌++◌, map, Option, none, some,
  if◌then◌else◌, arith, length, append-nil, append_assoc, length-append, length-map, get_elem?-map,
  get_elem?_bound, get_elem?_total, All, Option-cases, Bool-cases, ◌⊎◌, inl, inr, ◌↔◌, u8, u16, u32,
  bool_eq, Returns, Returns-cases, ltb, leb, concat, take_add, drop_add, ◌==◌, or_else, min, take,
  drop, length-take, length-drop, take-append-drop, take-append_ge, take-append_le, drop-append_ge,
  drop-append_le, take_of_length_le, take_last, take_last-append, drop_of_length_le, replicate,
  get_elem?, set, length-set, get_elem?-set_self, get_elem?-set_ne, dec_lt, ℕ_discrete, ==_iff,
}
use se_scope_target.SeLib.Core.{CoreLib}
use se_scope_target.SeLib.Stream.{Stream}
use se_scope_target.ScopeTypes.{
  MessageType, DataType, TriggeredValues, sc_data, sc_announce, sc_log,
}
use se_scope_target.Core.Timestamper
use se_scope_target.Core.Scope.{
  Scope, get_amount_of_channels, get_trigger_data, channel_has_to_be_packed, get_channel_buffer,
}
use se_scope_target.Control.AnnounceStorage.{AnnounceStorage, AddressDefinition}

-- The calls of IPacker, over the types of floats, float ring buffers, int streams and texts. A log
-- message is the part of its array up to the terminator.
pub data PackerCall (F B I V : Type 0) : Type 0 where
  add_channel : ℕ → B → PackerCall F B I V
  add_trigger : TriggeredValues → PackerCall F B I V
  add_timestamp : I → PackerCall F B I V
  add_time_increment : ℕ → PackerCall F B I V
  add_address_announcement : ℕ → AddressDefinition → PackerCall F B I V
  add_announcement : (max_channels : ℕ) (time_base : F) (version : V) → PackerCall F B I V
  add_log : List ℕ → PackerCall F B I V

abbrev pub max_message_length : ℕ
max_message_length = 50

-- How much of the log stream goes into a message.
pub log_size : ℕ → ℕ
log_size n = if ltb (max_message_length - 2) n then max_message_length - 2 else n

module _ {F B S I V Y : Type 0} (L : CoreLib F B S I) (bytes : Stream ℕ Y) where
  -- The loop of CommandPackData over the channels `i` to `i + n - 1`.
  pub pack_channels : Scope F B S I → ℕ → ℕ → List (PackerCall F B I V)
  pack_channels s i zero = []
  pack_channels s i (suc n) =
      let rest = pack_channels s (i + 1) n in
      if channel_has_to_be_packed L s i
      then (elim (get_channel_buffer L s i) [ none ↦ rest | some b ↦ add_channel i b ∷ rest ])
      else rest

  abbrev pub is_empty : List (PackerCall F B I V) → Bool
  is_empty [] = true
  is_empty (c ∷ cs) = false

  -- `run` of CommandPackData. The loop adds a channel exactly when it sets `anyChannelIsReady`.
  pub pack_data : Scope F B S I → List (PackerCall F B I V)
  unfolding pack_channels
  pack_data s =
      let channels = pack_channels s 0 (get_amount_of_channels L s) in
      if is_empty channels
      then []
      else channels
        ++ (add_trigger (get_trigger_data L s)
            ∷ add_timestamp s.rig.timestamper.swap_timestamps
            ∷ add_time_increment s.rig.timestamper.time_increment
            ∷ [])

  -- The loop of CommandPackAnnounce.
  pub pack_addresses : ℕ → List AddressDefinition → List (PackerCall F B I V)
  pack_addresses i [] = []
  pack_addresses i (a ∷ addresses) = add_address_announcement i a ∷ pack_addresses (i + 1) addresses

  -- `run` of CommandPackAnnounce; `none` is the null handle.
  pub pack_announce : Option (AnnounceStorage F V) → List (PackerCall F B I V)
  unfolding pack_addresses
  pack_announce none = []
  pack_announce (some s) =
      pack_addresses 0 s.addresses
      ++ (add_announcement s.max_amount_of_channels s.time_base s.version ∷ [])

  -- `run` of CommandPackLog
  pub pack_log : Y → Y × List (PackerCall F B I V)
  unfolding log_size
  pack_log log =
      let (log', message) = bytes.read log (log_size (bytes.stream_length log)) in
      (log', add_log message ∷ [])

  -- `CommandPackParserDispatcher_run`, and the `run` of the command that it returns, if there is one.
  pub dispatch_pack :
      Scope F B S I → Option (AnnounceStorage F V) → Y → MessageType → Y × List (PackerCall F B I V)
  unfolding pack_data pack_announce pack_log
  dispatch_pack s storage log type =
      if type == sc_data
      then (log, pack_data s)
      else if type == sc_announce
      then (log, pack_announce storage)
      else if type == sc_log
      then pack_log log
      else (log, [])
