-- ===== src/Serialisation/Packer/Messages/Announcing.antt =====
-- `pack` on an announcement.
use se_scope_target.Prelude.{
  ℕ, ◌≤◌, ◌≡◌, refl, ap, ◌∙◌, Bool, true, false, not, List, [], ◌∷◌, ◌++◌, Option, some,
  if◌then◌else◌, arith, length, All, ltb, ◌==◌,
}
use se_scope_target.Nanopb.Encoder.{OStream, Encoder, size}
use se_scope_target.SeLib.Ring.{Ring}
use se_scope_target.SeLib.Core.{CoreLib}
use se_scope_target.ScopeTypes.{sc_announce}
use se_scope_target.Core.Trigger.{◌>>=◌}
use se_scope_target.Control.AnnounceStorage.{AddressDefinition, text_of}
use se_scope_target.Serialisation.Packer.{Packer, pb_sc_channel_configuration_size, reset_self}
use se_scope_target.Serialisation.Packer.Data.{Left, write_all}
use se_scope_target.Serialisation.Packer.Messages.{
  pack, untouched, name_size, version_size, strcpy, address_runs, write_address, write_addresses,
  meta_runs, stream_of, pack_sc_announce,
}
use se_scope_target.Serialisation.Packer.{calculate_buffer_size}
use se_scope_target.Serialisation.Packer.Data.Writes.{
  Room, Wrote, Wrote-refl, Wrote-trans, Room-append, Room-Wrote, write_all-Wrote,
}
use se_scope_target.Serialisation.Packer.Messages.Announced.{
  address_head, address_bytes, addresses_bytes, announce_bytes, fields_of, name_of, AddressFits,
  MetaFits, size-fields_of, length-announce_bytes,
}

module _ {F B S I C : Type 0} (L : CoreLib F B S I) (P : Encoder F) (R : Ring ℕ C) where
  -- The parts of `write_address` behind the tag, behind the name and behind its copy.
  abbrev after_copy :
      ℕ → AddressDefinition → OStream C → Option (List ℕ) → Option (OStream C × Bool)
  after_copy id a o t = t >>= λ name. some (
      if ltb pb_sc_channel_configuration_size (size (address_runs L P R id name a))
      then (o, false)
      else write_all L P R o
          (P.pb_encode_varint (size (address_runs L P R id name a)) ∷ address_runs L P R id name a))

  abbrev after_text :
      ℕ → AddressDefinition → OStream C → Option (List ℕ) → Option (OStream C × Bool)
  after_text id a o t = t >>= λ text. after_copy id a o (strcpy name_size text)

  abbrev after_tag : ℕ → AddressDefinition → OStream C × Bool → Option (OStream C × Bool)
  after_tag id a q = if not q.1 then some (q.0, false) else after_text id a q.0 (text_of a.name)

  write_address-Wrote :
      (o : OStream C) (id : ℕ) (a : AddressDefinition)
      → (AddressFits L P R) (id, a)
      → Room L P R o (length ((address_bytes L P R) id a))
      → (o' : OStream C) × (write_address L P R o id a ≡ some (o', true))
        × Wrote L P R o ((address_bytes L P R) id a) o'
  unfolding write_address
  write_address-Wrote o id a f r =
      let runs = (fields_of L P R) id a in
      let name = (name_of L P R) a in
      let (o1, e1, w1) = write_all-Wrote L P R o (address_head L P R) (Room-append L P R o _ _ r) in
      let (o2, e2, w2) =
        write_all-Wrote L P R o1 (P.pb_encode_varint (size runs) ∷ runs)
          (Room-Wrote L P R o o1 _ _ w1 r) in
      let copied : strcpy name_size name ≡ some name = ground (arith, f.1) in
      let small : ltb pb_sc_channel_configuration_size (size runs) ≡ false =
        ground (arith, (size-fields_of L P R) id a f) in
      (
        o2,
        ap (after_tag id a) e1
            ∙ (ap (after_text id a o1) f.0
                ∙ (ap (after_copy id a o1) copied
                    ∙ (ap
                          (λ b. some (
                            if b
                            then (o1, false)
                            else write_all L P R o1 (P.pb_encode_varint (size runs) ∷ runs)))
                          small
                        ∙ ap (λ q. some q) e2))),
        Wrote-trans L P R o o1 o2 _ _ w1 w2,
      )

  write_addresses-Wrote :
      (o : OStream C) (cs : List (ℕ × AddressDefinition))
      → All (AddressFits L P R) cs
      → Room L P R o (length ((addresses_bytes L P R) cs))
      → (o' : OStream C) × (write_addresses L P R o cs ≡ some (o', true))
        × Wrote L P R o ((addresses_bytes L P R) cs) o'
  unfolding write_addresses
  write_addresses-Wrote o [] f r = (o, refl, Wrote-refl L P R o)
  write_addresses-Wrote o ((id, a) ∷ cs) (f, fs) r =
      let (o1, e1, w1) = write_address-Wrote o id a f (Room-append L P R o _ _ r) in
      let (o2, e2, w2) = write_addresses-Wrote o1 cs fs (Room-Wrote L P R o o1 _ _ w1 r) in
      (
        o2,
        ap (λ q. q >>= λ r. let rest = write_addresses L P R r.0 cs in if r.1 then rest else some r)
              e1
            ∙ e2,
        Wrote-trans L P R o o1 o2 _ _ w1 w2,
      )

  -- The parts of `pack_sc_announce` behind the version and behind the addresses, and the end of `pack`.
  abbrev after_addresses : Packer F B I → List ℕ → Option (OStream C × Bool) → Option C
  after_addresses p version q = q >>= λ r. some (
      if r.1
      then (write_all L P R r.0 (meta_runs L P R p.announce_meta version)).0.state
      else r.0.state)

  abbrev after_version : Packer F B I → C → Option (List ℕ) → Option C
  after_version p out t = t >>= λ version.
      after_addresses p version (write_addresses L P R (stream_of L P R p out) p.announce_channels)

  abbrev finish : Packer F B I → Option C → Option (Packer F B I × Left B I C)
  finish p q = q >>= λ o. some (reset_self p, untouched L P R p o)

  -- With an idle packer and an empty output of the size that `NanopbPacker_calculateBufferSize` gives for
  -- at least as many addresses: if the names are terminated and shorter than 30 characters, the version
  -- is shorter than 5, the ids and the number of channels are below 2 ^ 21, the types below 2 ^ 7 and
  -- the addresses below 2 ^ 32,
  -- `pack` writes the encoding of all addresses and of the meta data, and resets the packer.
  pub pack-announce_bytes :
      (p : Packer F B I) (out : C) (m n a : ℕ)
      → p.bytes_written ≡ 0
      → R.contents out ≡ []
      → p.max_size ≡ R.capacity out
      → R.capacity out ≡ calculate_buffer_size m n a
      → length p.announce_channels ≤ a
      → All (AddressFits L P R) p.announce_channels
      → (MetaFits L P R) p.announce_meta
      → (l : Left B I C) × (pack L P R p out sc_announce ≡ some (reset_self p, l))
        × (R.contents l.output ≡ (announce_bytes L P R) p)
  unfolding pack pack_sc_announce
  pack-announce_bytes p out m n a idle empty sized capacity h f v =
      let bound = (length-announce_bytes L P R) p m n a h f v in
      let version = p.announce_meta.version in
      let runs = meta_runs L P R p.announce_meta version in
      let o = stream_of L P R p out in
      let used = R.used_lem out ∙ ap length empty in
      let r : Room L P R o (length ((announce_bytes L P R) p)) = (
        omega (arith, bound, idle, sized, capacity),
        omega (arith, bound, used, sized, capacity),
      ) in
      let (o1, e1, w1) =
        write_addresses-Wrote o p.announce_channels f (Room-append L P R o _ _ r) in
      let (o2, e2, w2) = write_all-Wrote L P R o1 runs (Room-Wrote L P R o o1 _ _ w1 r) in
      let copied : strcpy version_size version ≡ some version = ground (arith, v.1) in
      (
        untouched L P R p o2.state,
        ap
              (λ k.
                if not (k == 0)
                then some (p, untouched L P R p out)
                else finish p (after_version p out (strcpy version_size version)))
              used
            ∙ (ap (λ t. finish p (after_version p out t)) copied
                ∙ (ap (λ q. finish p (after_addresses p version q)) e1
                    ∙ ap (λ q. finish p (some q.0.state)) e2)),
        (Wrote-trans L P R o o1 o2 _ _ w1 w2).0 ∙ ap (λ c. c ++ (announce_bytes L P R) p) empty,
      )
