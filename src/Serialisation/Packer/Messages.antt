-- ===== src/Serialisation/Packer/Messages.antt =====
-- NanopbPacker.c on announcements and log messages, and `pack`.
pub mod Encoding
pub mod Announced
pub mod Announcing
use se_scope_target.Prelude.{
  ℕ, zero, suc, ◌+◌, ◌-◌, ◌*◌, ◌/◌, ◌%◌, ◌^◌, ◌<◌, ◌≤◌, ◌≡◌, ◌≢◌, refl, subst, ap, sym, ◌∙◌,
  fun_ext, Bool, true, false, not, ◌||◌, ◌&&◌, List, [], ◌∷◌, ◌++◌, map, Option, none, some,
  if◌then◌else◌, arith, length, append-nil, append_assoc, length-append, length-map, get_elem?-map,
  get_elem?_bound, get_elem?_total, All, Option-cases, Bool-cases, ◌⊎◌, inl, inr, ◌↔◌, u8, u16, u32,
  bool_eq, Returns, Returns-cases, ltb, leb, concat, take_add, drop_add, ◌==◌, or_else, min, take,
  drop, length-take, length-drop, take-append-drop, take-append_ge, take-append_le, drop-append_ge,
  drop-append_le, take_of_length_le, take_last, take_last-append, drop_of_length_le, replicate,
  get_elem?, set, length-set, get_elem?-set_self, get_elem?-set_ne, dec_lt, ℕ_discrete, ==_iff,
}
use se_scope_target.Nanopb.Encoder.{OStream, Encoder, size, varint_size}
use se_scope_target.SeLib.Ring.{Ring, put}
use se_scope_target.SeLib.Stream.{Stream}
use se_scope_target.SeLib.Core.{CoreLib}
use se_scope_target.ScopeTypes.{MessageType, TriggeredValues, sc_data, sc_announce, sc_log}
use se_scope_target.Core.Trigger.{◌>>=◌}
use se_scope_target.Control.AnnounceStorage.{AddressDefinition, text_of}
use se_scope_target.Control.Pack.{
  PackerCall, add_channel, add_trigger, add_timestamp, add_time_increment, add_address_announcement,
  add_announcement, add_log,
}
use se_scope_target.Serialisation.Packer.{
  AnnounceMeta, Packer, pb_wt_string, pb_sc_channel_configuration_size, pb_sc_trigger_size,
  width_loop, get_width_of_varint, announced_length, add, reset_self, is_ready, add_all,
}
use se_scope_target.Serialisation.Packer.Data.{
  first, Left, pack_sc_data, write_all, write, write_stream, write_stamps, write_timestamp,
  write_samples, write_channel_data, write_channel, write_channels, trigger_runs, data_runs,
  stamps_field,
}

-- The sizes of the arrays `name`, `version` and `message` of the generated structs.
abbrev pub name_size : ℕ
name_size = 30

abbrev pub version_size : ℕ
version_size = 5

abbrev pub message_size : ℕ
message_size = 300

-- `strcpy` of a text into an array of that size.
abbrev pub strcpy : ℕ → List ℕ → Option (List ℕ)
strcpy room text = if ltb (length text) room then some text else none

-- The characters of a string: those before its first zero byte.
pub c_string : List ℕ → List ℕ
c_string [] = []
c_string (x ∷ xs) = let rest = c_string xs in if x == 0 then [] else x ∷ rest

module _ {F B S I C : Type 0} (L : CoreLib F B S I) (P : Encoder F) (R : Ring ℕ C) where
  -- The fields of PB_SC_Channel_Configuration.
  abbrev pub address_runs : ℕ → List ℕ → AddressDefinition → List (List ℕ)
  address_runs id name a =
      P.uint32_field 1 id
      ++ (P.string_field 2 name ++ (P.uint32_field 3 a.type ++ P.uint32_field 4 a.address))

  -- One round of `writeAddress`, whose field is number 1. The message goes to a buffer of the maximal
  -- size of the configuration first, for its length.
  pub write_address : OStream C → ℕ → AddressDefinition → Option (OStream C × Bool)
  write_address o id a =
      let (o1, tagged) = write_all L P R o (P.pb_encode_tag pb_wt_string 1 ∷ []) in
      if not tagged
      then some (o1, false)
      else (text_of a.name >>= λ text. strcpy name_size text >>= λ name.
          let runs = address_runs id name a in
          some (
            if ltb pb_sc_channel_configuration_size (size runs)
            then (o1, false)
            else write_all L P R o1 (P.pb_encode_varint (size runs) ∷ runs)))

  -- `writeAddress`
  pub write_addresses : OStream C → List (ℕ × AddressDefinition) → Option (OStream C × Bool)
  unfolding write_address
  write_addresses o [] = some (o, true)
  write_addresses o ((id, a) ∷ rest_of) = write_address o id a >>= λ r.
      let rest = write_addresses r.0 rest_of in if r.1 then rest else some r

  -- What `pb_encode` writes by itself for PB_SC_Announce.
  abbrev pub meta_runs : AnnounceMeta F → List ℕ → List (List ℕ)
  meta_runs m version =
      P.uint32_field 2 m.max_channels ++ (P.float_field 3 m.time_base ++ P.string_field 4 version)

  abbrev pub stream_of : Packer F B I → C → OStream C
  stream_of p out = record { state = out; max_size = p.max_size; bytes_written = p.bytes_written }

  -- `packScAnnounce`
  pub pack_sc_announce : Packer F B I → C → Option C
  unfolding write_addresses
  pack_sc_announce p out = strcpy version_size p.announce_meta.version >>= λ version.
      write_addresses (stream_of p out) p.announce_channels >>= λ r.
      some (
        if r.1
        then (write_all L P R r.0 (meta_runs p.announce_meta version)).0.state
        else r.0.state)

  -- `packScLog`
  pub pack_sc_log : Packer F B I → C → Option C
  unfolding c_string
  pack_sc_log p out = strcpy message_size (c_string p.log_data) >>= λ message.
      some (write_all L P R (stream_of p out) (P.string_field 1 message)).0.state

  abbrev pub untouched : Packer F B I → C → Left B I C
  untouched p out = record {
    output = out;
    buffers = map (λ (c : ℕ × B). c.1) p.channels;
    stamps = p.timestamp;
  }

  -- The packer behind a message of samples; its handle is to the stream of time stamps that is left.
  abbrev pub packed : Packer F B I → Left B I C → Packer F B I
  packed p l = record (reset_self p) { timestamp = l.stamps }

  -- `pack`: the packer, and what is left of the streams.
  pub pack : Packer F B I → C → MessageType → Option (Packer F B I × Left B I C)
  unfolding pack_sc_announce pack_sc_log
  pack p out type =
      if not (R.used out == 0)
      then some (p, untouched p out)
      else if type == sc_data
      then (pack_sc_data L P R p out >>= λ l. some (packed p l, l))
      else if type == sc_announce
      then (pack_sc_announce p out >>= λ o. some (reset_self p, untouched p o))
      else if type == sc_log
      then (pack_sc_log p out >>= λ o. some (reset_self p, untouched p o))
      else some (reset_self p, untouched p out)
