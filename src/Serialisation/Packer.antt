-- ===== src/Serialisation/Packer.antt =====
-- src/Serialisation/Protobuf/NanopbPacker.c: the parts of a message are added one by one, then packed
-- into the output. The fields and their numbers are those of Scope/Serialisation/Protobuf/se-scope.pb.h.
-- A handle of a buffer or of a stream is what it holds; packing reads it, and returns what is left. A
-- `none` is a fault: a read that finds nothing, or a text that its array has no room for.
pub mod Data
pub mod Messages
pub mod Width
pub mod Size
pub mod Adds
use se_scope_target.Prelude.{
  ℕ, zero, suc, ◌+◌, ◌-◌, ◌*◌, ◌/◌, ◌%◌, ◌^◌, ◌<◌, ◌≤◌, ◌≡◌, ◌≢◌, refl, subst, ap, sym, ◌∙◌,
  fun_ext, Bool, true, false, not, ◌||◌, ◌&&◌, List, [], ◌∷◌, ◌++◌, map, Option, none, some,
  if◌then◌else◌, arith, length, append-nil, append_assoc, length-append, length-map, get_elem?-map,
  get_elem?_bound, get_elem?_total, All, Option-cases, Bool-cases, ◌⊎◌, inl, inr, ◌↔◌, u8, u16, u32,
  bool_eq, Returns, Returns-cases, ltb, leb, concat, take_add, drop_add, ◌==◌, or_else, min, take,
  drop, length-take, length-drop, take-append-drop, take-append_ge, take-append_le, drop-append_ge,
  drop-append_le, take_of_length_le, take_last, take_last-append, drop_of_length_le, replicate,
  get_elem?, set, length-set, get_elem?-set_self, get_elem?-set_ne, dec_lt, ℕ_discrete, ==_iff,
}
use se_scope_target.Nanopb.Encoder.{OStream, Encoder, size, varint_size}
use se_scope_target.SeLib.Ring.{Ring, put}
use se_scope_target.SeLib.Stream.{Stream}
use se_scope_target.SeLib.Core.{CoreLib}
use se_scope_target.ScopeTypes.{MessageType, TriggeredValues, sc_data, sc_announce, sc_log}
use se_scope_target.Core.Trigger.{◌>>=◌}
use se_scope_target.Control.AnnounceStorage.{AddressDefinition, text_of}
use se_scope_target.Control.Pack.{
  PackerCall, add_channel, add_trigger, add_timestamp, add_time_increment, add_address_announcement,
  add_announcement, add_log,
}

-- ScAnnounceMetaData; the version is its text.
pub record AnnounceMeta (F : Type 0) : Type 0 where
  pub max_channels : ℕ
  pub time_base : F
  pub version : List ℕ

-- NanopbPackerPrivateData; the entries of its arrays are lists, as long as their amounts.
pub record Packer (F B I : Type 0) : Type 0 where
  pub channels : List (ℕ × B)
  pub max_number_of_channels : ℕ
  pub max_addresses_to_announce : ℕ
  pub trigger : TriggeredValues
  pub time_increment : ℕ
  pub timestamp : Option I
  pub announce_channels : List (ℕ × AddressDefinition)
  pub announce_meta : AnnounceMeta F
  pub log_data : List ℕ
  pub max_size : ℕ
  pub bytes_written : ℕ

-- The wire type PB_WT_STRING of pb.h.
abbrev pub pb_wt_string : ℕ
pb_wt_string = 2

-- PB_SC_Channel_Configuration_size and PB_SC_Trigger_size
abbrev pub pb_sc_channel_configuration_size : ℕ
pb_sc_channel_configuration_size = 45

abbrev pub pb_sc_trigger_size : ℕ
pb_sc_trigger_size = 14

-- The loop of `getWidthOfVarint` from `i` on, for `n` rounds; `data >> i * 4` shifts by `i * 4`.
pub width_loop : ℕ → ℕ → ℕ → ℕ
width_loop v i zero = 1
width_loop v i (suc n) =
    let rest = width_loop v (i + 1) n in if v / 2 ^ (i * 4) == 0 then i else rest

pub get_width_of_varint : ℕ → ℕ
unfolding width_loop
get_width_of_varint v = width_loop v 1 3

-- What `writeChannel` announces as the length of a channel of `n` samples.
pub announced_length : ℕ → ℕ → ℕ
unfolding get_width_of_varint
announced_length id n =
    n * 4 + 1 + (if id == 0 then 0 else 1 + get_width_of_varint id) + get_width_of_varint n

-- `NanopbPacker_calculateBufferSize`: the space for a message of samples, and for an announcement.
unfoldable pub sc_data_size : ℕ → ℕ → ℕ
sc_data_size max_channels size_of_channels =
    let channel_meta_data = 1 + 1 + 1 + (1 + 1 + 1) * 4 in
    let data_space = (size_of_channels * 4 + channel_meta_data) * max_channels in
    let t_inc_size = 1 * 4 + 1 in
    let timestamp_size = (size_of_channels + 1) * 4 + 1 in
    data_space + pb_sc_trigger_size + t_inc_size + timestamp_size

unfoldable pub sc_announce_size : ℕ → ℕ
sc_announce_size max_addresses = pb_sc_channel_configuration_size * max_addresses + 5 * 3

unfoldable pub calculate_buffer_size : ℕ → ℕ → ℕ → ℕ
unfolding sc_data_size sc_announce_size
calculate_buffer_size max_channels size_of_channels max_addresses =
    let data_size = sc_data_size max_channels size_of_channels in
    let announce_size = sc_announce_size max_addresses in
    if ltb data_size announce_size then announce_size else data_size

module _ {F B I : Type 0} where
  -- The functions of IPacker that add to a message.
  pub add : Packer F B I → PackerCall F B I (List ℕ) → Packer F B I
  add p (add_channel id b) =
      if leb p.max_number_of_channels (length p.channels)
      then p
      else record p { channels = p.channels ++ ((id, b) ∷ []) }
  add p (add_trigger t) = record p { trigger = t }
  add p (add_timestamp i) = record p { timestamp = some i }
  add p (add_time_increment n) = record p { time_increment = n }
  add p (add_address_announcement id a) =
      if leb p.max_addresses_to_announce (length p.announce_channels)
      then p
      else record p { announce_channels = p.announce_channels ++ ((id, a) ∷ []) }
  add p (add_announcement n t v) = record p {
    announce_meta = record { max_channels = n; time_base = t; version = v };
  }
  add p (add_log m) = record p { log_data = m }

  -- `resetSelf`
  unfoldable pub reset_self : Packer F B I → Packer F B I
  reset_self p = record p { channels = []; bytes_written = 0; announce_channels = [] }

  -- `isReady`
  abbrev pub is_ready : Packer F B I → Bool
  is_ready p = p.bytes_written == 0

  -- `NanopbPacker_create`; `raw` is what the allocated memory holds in the fields that it does not set.
  unfoldable pub create : Packer F B I → ℕ → ℕ → ℕ → Packer F B I
  unfolding reset_self
  create raw max_channels max_addresses capacity = reset_self (record raw {
    max_size = capacity;
    bytes_written = 0;
    max_number_of_channels = max_channels;
    max_addresses_to_announce = max_addresses;
  })

  -- All `add`s of a message.
  pub add_all : Packer F B I → List (PackerCall F B I (List ℕ)) → Packer F B I
  unfolding add
  add_all p [] = p
  add_all p (c ∷ cs) = add_all (add p c) cs
