-- ===== src/Serialisation/Packer/Data.antt =====
-- NanopbPacker.c on messages of samples: `packScData` and its callbacks.
pub mod Writes
pub mod Drains
use se_scope_target.Prelude.{
  ℕ, zero, suc, ◌+◌, ◌-◌, ◌*◌, ◌/◌, ◌%◌, ◌^◌, ◌<◌, ◌≤◌, ◌≡◌, ◌≢◌, refl, subst, ap, sym, ◌∙◌,
  fun_ext, Bool, true, false, not, ◌||◌, ◌&&◌, List, [], ◌∷◌, ◌++◌, map, Option, none, some,
  if◌then◌else◌, arith, length, append-nil, append_assoc, length-append, length-map, get_elem?-map,
  get_elem?_bound, get_elem?_total, All, Option-cases, Bool-cases, ◌⊎◌, inl, inr, ◌↔◌, u8, u16, u32,
  bool_eq, Returns, Returns-cases, ltb, leb, concat, take_add, drop_add, ◌==◌, or_else, min, take,
  drop, length-take, length-drop, take-append-drop, take-append_ge, take-append_le, drop-append_ge,
  drop-append_le, take_of_length_le, take_last, take_last-append, drop_of_length_le, replicate,
  get_elem?, set, length-set, get_elem?-set_self, get_elem?-set_ne, dec_lt, ℕ_discrete, ==_iff,
}
use se_scope_target.Nanopb.Encoder.{OStream, Encoder, size, varint_size}
use se_scope_target.SeLib.Ring.{Ring, put}
use se_scope_target.SeLib.Stream.{Stream}
use se_scope_target.SeLib.Core.{CoreLib}
use se_scope_target.ScopeTypes.{MessageType, TriggeredValues, sc_data, sc_announce, sc_log}
use se_scope_target.Core.Trigger.{◌>>=◌}
use se_scope_target.Control.AnnounceStorage.{AddressDefinition, text_of}
use se_scope_target.Control.Pack.{
  PackerCall, add_channel, add_trigger, add_timestamp, add_time_increment, add_address_announcement,
  add_announcement, add_log,
}
use se_scope_target.Serialisation.Packer.{
  AnnounceMeta, Packer, pb_wt_string, pb_sc_channel_configuration_size, pb_sc_trigger_size,
  width_loop, get_width_of_varint, announced_length, add, reset_self, is_ready, add_all,
}

-- What is left of the buffers and of the timestamps behind a packed message.
pub record Left (B I C : Type 0) : Type 0 where
  pub output : C
  pub buffers : List B
  pub stamps : Option I

-- A read of one item.
abbrev pub first : {A : Type 0} → List A → Option A
first (x ∷ []) = some x
first _ = none

module _ {F B S I C : Type 0} (L : CoreLib F B S I) (P : Encoder F) (R : Ring ℕ C) where
  -- `writeStreamCallback`, which ignores what the stream answers.
  abbrev pub write_stream : C → List ℕ → C
  write_stream out run = put R out run

  abbrev pub write : OStream C → List ℕ → OStream C × Bool
  write o run = P.pb_write write_stream o run

  -- Runs in turn, up to one that does not fit.
  pub write_all : OStream C → List (List ℕ) → OStream C × Bool
  write_all o [] = (o, true)
  write_all o (run ∷ runs) =
      let (o', done) = write o run in
      let rest = write_all o' runs in if done then rest else (o', false)

  -- The loop of `writeTimestamp`: `n` reads from the stream.
  pub write_stamps : OStream C → I → ℕ → Option (OStream C × I × Bool)
  write_stamps o i zero = some (o, i, true)
  write_stamps o i (suc n) =
      let (i', xs) = L.ints.read i 1 in
      first xs >>= λ x.
      let (o', done) = write o (P.pb_encode_fixed32 x) in
      let rest = write_stamps o' i' n in if done then rest else some (o', i', false)

  -- `writeTimestamp`, whose field is number 2.
  pub write_timestamp : OStream C → I → Option (OStream C × I × Bool)
  unfolding write_stamps write_all
  write_timestamp o i =
      let n = L.ints.stream_length i in
      let (o', done) =
        write_all o (P.pb_encode_tag pb_wt_string 2 ∷ P.pb_encode_varint (n * 4) ∷ []) in
      if done then write_stamps o' i n else some (o', i, false)

  -- The loop of `writeChannelData`.
  pub write_samples : OStream C → B → ℕ → Option (OStream C × B × Bool)
  write_samples o b zero = some (o, b, true)
  write_samples o b (suc n) = L.ring.read b 1 >>= λ r. first r.1 >>= λ x.
      let (o', done) = write o (P.pb_encode_float x) in
      let rest = write_samples o' r.0 n in if done then rest else some (o', r.0, false)

  -- `writeChannelData`, whose field is number 1.
  pub write_channel_data : OStream C → B → Option (OStream C × B × Bool)
  unfolding write_samples write_all
  write_channel_data o b =
      let n = L.ring.used b in
      let (o', done) =
        write_all o (P.pb_encode_tag pb_wt_string 1 ∷ P.pb_encode_varint (n * 4) ∷ []) in
      if done then write_samples o' b n else some (o', b, false)

  -- One round of `writeChannel`, whose field is number 1: the announced length, and then what
  -- `pb_encode` does for PB_SC_Channel, the samples and the id.
  pub write_channel : OStream C → ℕ → B → Option (OStream C × B × Bool)
  unfolding announced_length write_channel_data write_all
  write_channel o id b =
      let n = L.ring.used b in
      let (o1, announced) =
        write_all o
          (P.pb_encode_tag pb_wt_string 1 ∷ P.pb_encode_varint (announced_length id n) ∷ []) in
      if announced
      then (write_channel_data o1 b >>= λ r.
          let (o2, b', done) = r in
          let (o3, ended) = write_all o2 (P.uint32_field 2 id) in
          some (if done then (o3, b', ended) else (o2, b', false)))
      else some (o1, b, false)

  -- `writeChannel`; the list is what is left in the buffers.
  pub write_channels : OStream C → List (ℕ × B) → Option (OStream C × List B × Bool)
  unfolding write_channel
  write_channels o [] = some (o, [], true)
  write_channels o ((id, b) ∷ cs) = write_channel o id b >>= λ r.
      let (o', b', done) = r in
      let rest = write_channels o' cs in
      if done
      then (rest >>= λ q. some (q.0, b' ∷ q.1, q.2))
      else some (o', b' ∷ map (λ (c : ℕ × B). c.1) cs, false)

  -- The fields of PB_SC_Trigger.
  abbrev pub trigger_runs : TriggeredValues → List (List ℕ)
  trigger_runs t =
      P.uint32_field 1 t.channel_id
      ++ (P.uint32_field 2 t.trigger_timestamp ++ P.uint32_field 3 t.mode)

  -- What `pb_encode` writes by itself for PB_SC_Data.
  abbrev pub data_runs : Packer F B I → List (List ℕ)
  data_runs p =
      P.uint32_field 3 p.time_increment
      ++ (if p.trigger.is_triggered then P.message_field 4 (trigger_runs p.trigger) else [])

  abbrev pub stamps_field : OStream C → Option I → Option (OStream C × Option I × Bool)
  stamps_field o none = some (o, none, true)
  stamps_field o (some i) = write_timestamp o i >>= λ r. some (r.0, some r.1, r.2)

  -- `packScData`: the fields of PB_SC_Data in the order of their numbers, up to one that does not fit.
  -- A callback for no channels writes nothing.
  pub pack_sc_data : Packer F B I → C → Option (Left B I C)
  unfolding write_channels write_timestamp write_all
  pack_sc_data p out =
      write_channels
        (record { state = out; max_size = p.max_size; bytes_written = p.bytes_written }) p.channels
      >>= λ r.
          let (o1, buffers, done) = r in
          if done
          then (stamps_field o1 p.timestamp >>= λ q.
              let (o2, stamps, stamped) = q in
              let (o3, _) = write_all o2 (data_runs p) in
              some (record {
                output = (if stamped then o3 else o2).state;
                buffers = buffers;
                stamps = stamps;
              }))
          else some (record { output = o1.state; buffers = buffers; stamps = p.timestamp })
