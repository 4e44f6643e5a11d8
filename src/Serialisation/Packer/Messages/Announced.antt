-- ===== src/Serialisation/Packer/Messages/Announced.antt =====
-- The encoding of an announcement, and its size against `NanopbPacker_calculateBufferSize`.
use se_scope_target.Prelude.{
  ℕ, ◌*◌, ◌^◌, ◌<◌, ◌≤◌, ◌≡◌, ap, List, [], ◌∷◌, ◌++◌, some, arith, length, append-nil,
  length-append, All, concat, or_else,
}
use se_scope_target.Nanopb.Encoder.{Encoder, size, varint_size}
use se_scope_target.SeLib.Ring.{Ring}
use se_scope_target.SeLib.Core.{CoreLib}
use se_scope_target.Control.AnnounceStorage.{AddressDefinition, text_of}
use se_scope_target.Serialisation.Packer.{
  AnnounceMeta, Packer, pb_wt_string, pb_sc_channel_configuration_size,
}
use se_scope_target.Serialisation.Packer.Messages.{name_size, version_size, address_runs, meta_runs}
use se_scope_target.Serialisation.Packer.{calculate_buffer_size, sc_announce_size}
use se_scope_target.Serialisation.Packer.Width.{size-append}
use se_scope_target.Serialisation.Packer.Size.{
  uint32_field_le, varint_size_most, varint_size_one, mul_le,
}

varint_size_three : (v : ℕ) → v < 2 ^ 21 → varint_size v ≤ 3
varint_size_three v h = ground arith

module _ {F B S I C : Type 0} (L : CoreLib F B S I) (P : Encoder F) (R : Ring ℕ C) where
  -- The name of an address, and its field: the tag, and the length of its own message, and that.
  abbrev pub name_of : AddressDefinition → List ℕ
  name_of a = or_else (text_of a.name) []

  abbrev pub fields_of : ℕ → AddressDefinition → List (List ℕ)
  fields_of id a = address_runs L P R id (name_of a) a

  abbrev pub address_head : List (List ℕ)
  address_head = P.pb_encode_tag pb_wt_string 1 ∷ []

  abbrev pub address_bytes : ℕ → AddressDefinition → List ℕ
  address_bytes id a =
      concat address_head ++ concat (P.pb_encode_varint (size (fields_of id a)) ∷ fields_of id a)

  abbrev pub addresses_bytes : List (ℕ × AddressDefinition) → List ℕ
  addresses_bytes [] = []
  addresses_bytes ((id, a) ∷ cs) = address_bytes id a ++ addresses_bytes cs

  abbrev pub announce_bytes : Packer F B I → List ℕ
  announce_bytes p =
      addresses_bytes p.announce_channels
      ++ concat (meta_runs L P R p.announce_meta p.announce_meta.version)

  -- The name ends within its array and the field's, and the numbers have their widths.
  abbrev pub AddressFits : ℕ × AddressDefinition → Type 0
  AddressFits c =
      (text_of c.1.name ≡ some (name_of c.1))
      × (length (name_of c.1) < name_size)
      × (c.0 < 2 ^ 21)
      × (c.1.type < 2 ^ 7)
      × (c.1.address < 2 ^ 32)

  pub size-fields_of :
      (id : ℕ) (a : AddressDefinition) → AddressFits (id, a) → size (fields_of id a) ≤ 43
  size-fields_of id a (_, n, i, t, d) =
      let name = name_of a in
      omega (
        arith,
        size-append (P.uint32_field 1 id)
            (P.string_field 2 name ++ (P.uint32_field 3 a.type ++ P.uint32_field 4 a.address)),
        size-append (P.string_field 2 name) (P.uint32_field 3 a.type ++ P.uint32_field 4 a.address),
        size-append (P.uint32_field 3 a.type) (P.uint32_field 4 a.address),
        uint32_field_le L P R 1 id 3 (omega arith) (omega arith) (varint_size_three id i),
        P.size-string_field 2 name (omega arith) (omega arith),
        varint_size_one (length name) (omega arith),
        uint32_field_le L P R 3 a.type 1 (omega arith) (omega arith) (varint_size_one a.type t),
        uint32_field_le L P R 4 a.address 5 (omega arith) d (varint_size_most a.address),
      )

  length-address_bytes :
      (id : ℕ) (a : AddressDefinition) → AddressFits (id, a) → length (address_bytes id a) ≤ 45
  length-address_bytes id a f =
      let runs = fields_of id a in
      let fields = size-fields_of id a f in
      omega (
        arith,
        length-append (concat address_head) (concat (P.pb_encode_varint (size runs) ∷ runs)),
        length-append (P.pb_encode_varint (size runs)) (concat runs),
        ap length (append-nil (P.pb_encode_tag pb_wt_string 1)),
        P.length-tag pb_wt_string 1 (omega arith),
        P.length-varint (size runs) (omega (arith, fields)),
        varint_size_one (size runs) (omega (arith, fields)),
        fields,
      )

  length-addresses_bytes :
      (cs : List (ℕ × AddressDefinition))
      → All AddressFits cs
      → length (addresses_bytes cs) ≤ pb_sc_channel_configuration_size * length cs
  length-addresses_bytes [] f = omega arith
  length-addresses_bytes ((id, a) ∷ cs) (f, fs) = omega (
    arith,
    length-append (address_bytes id a) (addresses_bytes cs),
    length-address_bytes id a f,
    length-addresses_bytes cs fs,
  )

  abbrev pub MetaFits : AnnounceMeta F → Type 0
  MetaFits m = (m.max_channels < 2 ^ 21) × (length m.version < version_size)

  size-meta_runs : (m : AnnounceMeta F) → MetaFits m → size (meta_runs L P R m m.version) ≤ 15
  size-meta_runs m (c, v) = omega (
    arith,
    size-append (P.uint32_field 2 m.max_channels)
        (P.float_field 3 m.time_base ++ P.string_field 4 m.version),
    size-append (P.float_field 3 m.time_base) (P.string_field 4 m.version),
    uint32_field_le L P R 2 m.max_channels 3 (omega arith) (omega arith)
        (varint_size_three m.max_channels c),
    P.size-float_field 3 m.time_base (omega arith),
    P.size-string_field 4 m.version (omega arith) (omega arith),
    varint_size_one (length m.version) (omega arith),
  )

  sc_announce_size-le : (m n a : ℕ) → sc_announce_size a ≤ calculate_buffer_size m n a
  unfolding calculate_buffer_size
  sc_announce_size-le m n a = ground arith

  -- `NanopbPacker_calculateBufferSize` is enough for an announcement of at most `a` addresses.
  pub length-announce_bytes :
      (p : Packer F B I) (m n a : ℕ)
      → length p.announce_channels ≤ a
      → All AddressFits p.announce_channels
      → MetaFits p.announce_meta
      → length (announce_bytes p) ≤ calculate_buffer_size m n a
  unfolding sc_announce_size
  length-announce_bytes p m n a h f v = omega (
    arith,
    length-append (addresses_bytes p.announce_channels)
        (concat (meta_runs L P R p.announce_meta p.announce_meta.version)),
    length-addresses_bytes p.announce_channels f,
    mul_le pb_sc_channel_configuration_size (length p.announce_channels) a h,
    size-meta_runs p.announce_meta v,
    sc_announce_size-le m n a,
  )
