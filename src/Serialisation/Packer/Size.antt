-- ===== src/Serialisation/Packer/Size.antt =====
-- The sizes of the messages, against `NanopbPacker_calculateBufferSize`.
use se_scope_target.Prelude.{
  ℕ, zero, suc, ◌+◌, ◌*◌, ◌^◌, ◌<◌, ◌≤◌, ap, List, [], ◌∷◌, ◌++◌, map, Option, none, some, arith,
  length, append-nil, length-append, All, Bool-cases, inl, inr, concat,
}
use se_scope_target.Nanopb.Encoder.{Encoder, size, varint_size}
use se_scope_target.SeLib.Ring.{Ring}
use se_scope_target.SeLib.Core.{CoreLib}
use se_scope_target.ScopeTypes.{TriggeredValues}
use se_scope_target.Serialisation.Packer.{Packer, pb_wt_string, announced_length}
use se_scope_target.Serialisation.Packer.Data.{trigger_runs, data_runs}
use se_scope_target.Serialisation.Packer.{calculate_buffer_size, sc_data_size}
use se_scope_target.Serialisation.Packer.Width.{announced_length_lt, length-concat_map, size-append}
use se_scope_target.Serialisation.Packer.Data.Writes.{samples_bytes, samples_head, stamps_head}
use se_scope_target.Serialisation.Packer.Data.Drains.{
  data_bytes, channels_bytes, channel_bytes, channel_head, timestamp_bytes,
}

pub mul_le : (k a b : ℕ) → a ≤ b → k * a ≤ k * b
mul_le zero a b h = omega arith
mul_le (suc k) a b h = omega (arith, mul_le k a b h)

sc_data_size-le : (m n a : ℕ) → sc_data_size m n ≤ calculate_buffer_size m n a
unfolding calculate_buffer_size
sc_data_size-le m n a = ground arith

varint_size_le : (v : ℕ) → v < 2 ^ 28 → varint_size v ≤ 4
varint_size_le v h = ground arith

pub varint_size_most : (v : ℕ) → varint_size v ≤ 5
varint_size_most v = ground arith

varint_size_two : (v : ℕ) → v < 2 ^ 14 → varint_size v ≤ 2
varint_size_two v h = ground arith

pub varint_size_one : (v : ℕ) → v < 2 ^ 7 → varint_size v ≤ 1
varint_size_one v h = ground arith

module _ {F B S I C : Type 0} (L : CoreLib F B S I) (P : Encoder F) (R : Ring ℕ C) where
  -- A tag and a varint in front of a field's bytes.
  head_size :
      (field v : ℕ)
      → field < 16
      → v < 2 ^ 28
      → size (P.pb_encode_tag pb_wt_string field ∷ P.pb_encode_varint v ∷ []) ≤ 5
  head_size field v f h = omega (
    arith,
    length-append (P.pb_encode_tag pb_wt_string field) (P.pb_encode_varint v ++ []),
    ap length (append-nil (P.pb_encode_varint v)),
    P.length-tag pb_wt_string field f,
    P.length-varint v (omega arith),
    varint_size_le v h,
  )

  pub uint32_field_le :
      (field v n : ℕ)
      → field < 16
      → v < 2 ^ 32
      → varint_size v ≤ n
      → size (P.uint32_field field v) ≤ 1 + n
  uint32_field_le field v n f h k = ground (arith, P.size-uint32_field field v f h)

  channel_bytes_le :
      (id : ℕ) (xs : List F) (n : ℕ)
      → id < 2 ^ 28
      → length xs ≤ n
      → n < 2 ^ 25
      → length (channel_bytes L P R id xs) ≤ n * 4 + 15
  channel_bytes_le id xs n h k m = omega (
    arith,
    length-append (concat (channel_head L P R id (length xs)))
        (samples_bytes L P R xs ++ concat (P.uint32_field 2 id)),
    length-append (samples_bytes L P R xs) (concat (P.uint32_field 2 id)),
    length-append (concat (samples_head L P R (length xs))) (concat (map P.pb_encode_float xs)),
    length-concat_map P.pb_encode_float 4 xs P.length-float,
    head_size 1 (announced_length id (length xs)) (omega arith)
        (announced_length_lt id (length xs) (omega arith)),
    head_size 1 (length xs * 4) (omega arith) (omega arith),
    uint32_field_le 2 id 4 (omega arith) (omega arith) (varint_size_le id h),
  )

  -- What the channels, the time stamps and the trigger hold is within these bounds.
  abbrev pub ChannelsFit : ℕ → List (ℕ × B) → Type 0
  ChannelsFit n cs = All (λ (c : ℕ × B). (c.0 < 2 ^ 28) × (length (L.ring.contents c.1) ≤ n)) cs

  abbrev pub StampsFit : ℕ → Option I → Type 0
  StampsFit n none = Unit
  StampsFit n (some i) = length (L.ints.contents i) ≤ n

  abbrev pub TriggerFits : TriggeredValues → Type 0
  TriggerFits t = (t.channel_id < 2 ^ 14) × (t.trigger_timestamp < 2 ^ 32) × (t.mode < 2 ^ 7)

  channels_bytes_le :
      (n : ℕ) (cs : List (ℕ × B))
      → n < 2 ^ 25
      → ChannelsFit n cs
      → length (channels_bytes L P R cs) ≤ (n * 4 + 15) * length cs
  channels_bytes_le n [] h f = omega arith
  channels_bytes_le n ((id, b) ∷ cs) h (f, fs) = omega (
    arith,
    length-append (channel_bytes L P R id (L.ring.contents b)) (channels_bytes L P R cs),
    channel_bytes_le id (L.ring.contents b) n f.0 f.1 h,
    channels_bytes_le n cs h fs,
  )

  timestamp_bytes_le :
      (n : ℕ) (stamps : Option I)
      → n < 2 ^ 25
      → StampsFit n stamps
      → length (timestamp_bytes L P R stamps) ≤ (n + 1) * 4 + 1
  timestamp_bytes_le n none h f = omega arith
  timestamp_bytes_le n (some i) h f = omega (
    arith,
    length-append (concat (stamps_head L P R (length (L.ints.contents i))))
        (concat (map P.pb_encode_fixed32 (L.ints.contents i))),
    length-concat_map P.pb_encode_fixed32 4 (L.ints.contents i) P.length-fixed32,
    head_size 2 (length (L.ints.contents i) * 4) (omega arith) (omega arith),
  )

  trigger_runs_le : (t : TriggeredValues) → TriggerFits t → size (trigger_runs L P R t) ≤ 11
  trigger_runs_le t (c, i, m) = omega (
    arith,
    size-append (P.uint32_field 1 t.channel_id)
        (P.uint32_field 2 t.trigger_timestamp ++ P.uint32_field 3 t.mode),
    size-append (P.uint32_field 2 t.trigger_timestamp) (P.uint32_field 3 t.mode),
    uint32_field_le 1 t.channel_id 2 (omega arith) (omega arith) (varint_size_two t.channel_id c),
    uint32_field_le 2 t.trigger_timestamp 5 (omega arith) i (varint_size_most t.trigger_timestamp),
    uint32_field_le 3 t.mode 1 (omega arith) (omega arith) (varint_size_one t.mode m),
  )

  data_runs_le :
      (p : Packer F B I)
      → TriggerFits p.trigger
      → p.time_increment < 2 ^ 32
      → size (data_runs L P R p) ≤ 19
  data_runs_le p f h = elim (Bool-cases p.trigger.is_triggered) [
    | inl on ↦ ground (
      arith,
      size-append (P.uint32_field 3 p.time_increment)
          (P.message_field 4 (trigger_runs L P R p.trigger)),
      uint32_field_le 3 p.time_increment 5 (omega arith) h (varint_size_most p.time_increment),
      P.size-message_field 4 (trigger_runs L P R p.trigger) (omega arith)
          (omega (arith, trigger_runs_le p.trigger f)),
      varint_size_one (size (trigger_runs L P R p.trigger))
          (omega (arith, trigger_runs_le p.trigger f)),
      trigger_runs_le p.trigger f,
    )
    | inr off ↦ ground (
      arith,
      size-append (P.uint32_field 3 p.time_increment) [],
      uint32_field_le 3 p.time_increment 5 (omega arith) h (varint_size_most p.time_increment),
    )
  ]

  -- `NanopbPacker_calculateBufferSize` is enough for a message of samples of at most `m` channels of at
  -- most `n` samples and `n` time stamps, with ids below 2 ^ 28, a trigger channel below 2 ^ 14, a mode
  -- below 2 ^ 7, numbers of 32 bits and `n` below 2 ^ 25.
  pub length-data_bytes :
      (p : Packer F B I) (m n a : ℕ)
      → n < 2 ^ 25
      → length p.channels ≤ m
      → ChannelsFit n p.channels
      → StampsFit n p.timestamp
      → TriggerFits p.trigger
      → p.time_increment < 2 ^ 32
      → length (data_bytes L P R p) ≤ calculate_buffer_size m n a
  unfolding sc_data_size
  length-data_bytes p m n a h l c i t d = omega (
    arith,
    length-append (channels_bytes L P R p.channels)
        (timestamp_bytes L P R p.timestamp ++ concat (data_runs L P R p)),
    length-append (timestamp_bytes L P R p.timestamp) (concat (data_runs L P R p)),
    channels_bytes_le n p.channels h c,
    mul_le (n * 4 + 15) (length p.channels) m l,
    timestamp_bytes_le n p.timestamp h i,
    data_runs_le p t d,
    sc_data_size-le m n a,
  )
