-- ===== src/Serialisation/Packer/Data/Drains.antt =====
-- Packing a message of samples with room for all of it, down to the buffers and the time stamps.
use se_scope_target.Prelude.{
  ℕ, ◌+◌, ◌≤◌, ◌≡◌, refl, ap, ◌∙◌, Bool, true, false, List, [], ◌∷◌, ◌++◌, map, Option, none, some,
  if◌then◌else◌, length, All, concat,
}
use se_scope_target.Nanopb.Encoder.{OStream, Encoder}
use se_scope_target.SeLib.Ring.{Ring}
use se_scope_target.SeLib.Core.{CoreLib}
use se_scope_target.Core.Trigger.{◌>>=◌}
use se_scope_target.Serialisation.Packer.{Packer, pb_wt_string, announced_length}
use se_scope_target.Serialisation.Packer.Data.{
  Left, pack_sc_data, write_all, write_channel_data, write_channel, write_channels, data_runs,
  stamps_field,
}
use se_scope_target.Serialisation.Packer.Data.Writes.{
  Room, Wrote, Wrote-refl, Wrote-trans, Room-append, Room-Wrote, write_all-Wrote, stamps_bytes,
  samples_bytes, write_timestamp-Wrote, write_channel_data-Wrote,
}

module _ {F B S I C : Type 0} (L : CoreLib F B S I) (P : Encoder F) (R : Ring ℕ C) where
  abbrev pub channel_head : ℕ → ℕ → List (List ℕ)
  channel_head id n =
      P.pb_encode_tag pb_wt_string 1 ∷ P.pb_encode_varint (announced_length id n) ∷ []

  abbrev pub channel_bytes : ℕ → List F → List ℕ
  channel_bytes id xs =
      concat (channel_head id (length xs))
      ++ (samples_bytes L P R xs ++ concat (P.uint32_field 2 id))

  abbrev pub channels_bytes : List (ℕ × B) → List ℕ
  channels_bytes [] = []
  channels_bytes ((id, b) ∷ cs) = channel_bytes id (L.ring.contents b) ++ channels_bytes cs

  abbrev pub timestamp_bytes : Option I → List ℕ
  timestamp_bytes none = []
  timestamp_bytes (some i) = stamps_bytes L P R (L.ints.contents i)

  abbrev pub data_bytes : Packer F B I → List ℕ
  data_bytes p =
      channels_bytes p.channels ++ (timestamp_bytes p.timestamp ++ concat (data_runs L P R p))

  abbrev pub Drained : List B → Type 0
  Drained bs = All (λ b. L.ring.contents b ≡ []) bs

  abbrev pub StampsDrained : Option I → Type 0
  StampsDrained none = Unit
  StampsDrained (some i) = L.ints.contents i ≡ []

  -- The parts of `write_channel` behind its head, and behind its samples.
  abbrev after_samples : ℕ → OStream C × B × Bool → Option (OStream C × B × Bool)
  after_samples id r =
      let (o3, ended) = write_all L P R r.0 (P.uint32_field 2 id) in
      some (if r.2 then (o3, r.1, ended) else (r.0, r.1, false))

  abbrev after_head : ℕ → B → OStream C × Bool → Option (OStream C × B × Bool)
  after_head id b q =
      if q.1
      then (write_channel_data L P R q.0 b >>= λ r. after_samples id r)
      else some (q.0, b, false)

  pub write_channel-Wrote :
      (o : OStream C) (id : ℕ) (b : B)
      → Room L P R o (length (channel_bytes id (L.ring.contents b)))
      → (o' : OStream C) × (b' : B) × (write_channel L P R o id b ≡ some (o', b', true))
        × (L.ring.contents b' ≡ [])
        × Wrote L P R o (channel_bytes id (L.ring.contents b)) o'
  unfolding write_channel
  write_channel-Wrote o id b r =
      let n = length (L.ring.contents b) in
      let (o1, e1, w1) = write_all-Wrote L P R o (channel_head id n) (Room-append L P R o _ _ r) in
      let r1 = Room-Wrote L P R o o1 _ _ w1 r in
      let (o2, b2, e2, d2, w2) =
        write_channel_data-Wrote L P R o1 b (Room-append L P R o1 _ _ r1) in
      let (o3, e3, w3) =
        write_all-Wrote L P R o2 (P.uint32_field 2 id) (Room-Wrote L P R o1 o2 _ _ w2 r1) in
      (
        o3,
        b2,
        ap (λ m. after_head id b (write_all L P R o (channel_head id m))) (L.ring.used_lem b)
            ∙ (ap (after_head id b) e1
                ∙ (ap (λ q. q >>= λ r. after_samples id r) e2 ∙ ap (λ q. some (q.0, b2, q.1)) e3)),
        d2,
        Wrote-trans L P R o o1 o3 _ _ w1 (Wrote-trans L P R o1 o2 o3 _ _ w2 w3),
      )

  abbrev after_channel :
      OStream C → List (ℕ × B) → OStream C × B × Bool → Option (OStream C × List B × Bool)
  after_channel o cs r =
      let rest = write_channels L P R r.0 cs in
      if r.2
      then (rest >>= λ q. some (q.0, r.1 ∷ q.1, q.2))
      else some (r.0, r.1 ∷ map (λ (c : ℕ × B). c.1) cs, false)

  pub write_channels-Wrote :
      (o : OStream C) (cs : List (ℕ × B))
      → Room L P R o (length (channels_bytes cs))
      → (o' : OStream C) × (bs : List B) × (write_channels L P R o cs ≡ some (o', bs, true))
        × Drained bs
        × Wrote L P R o (channels_bytes cs) o'
  unfolding write_channels
  write_channels-Wrote o [] r = (o, [], refl, tt, Wrote-refl L P R o)
  write_channels-Wrote o ((id, b) ∷ cs) r =
      let (o1, b1, e1, d1, w1) = write_channel-Wrote o id b (Room-append L P R o _ _ r) in
      let (o2, bs, e2, d2, w2) = write_channels-Wrote o1 cs (Room-Wrote L P R o o1 _ _ w1 r) in
      (
        o2,
        b1 ∷ bs,
        ap (λ q. q >>= λ r. after_channel o cs r) e1
            ∙ ap (λ q. q >>= λ r. some (r.0, b1 ∷ r.1, r.2)) e2,
        (d1, d2),
        Wrote-trans L P R o o1 o2 _ _ w1 w2,
      )

  pub stamps_field-Wrote :
      (o : OStream C) (stamps : Option I)
      → Room L P R o (length (timestamp_bytes stamps))
      → (o' : OStream C) × (left : Option I) × (stamps_field L P R o stamps ≡ some (o', left, true))
        × StampsDrained left
        × Wrote L P R o (timestamp_bytes stamps) o'
  stamps_field-Wrote o none r = (o, none, refl, tt, Wrote-refl L P R o)
  stamps_field-Wrote o (some i) r =
      let (o1, i1, e1, d1, w1) = write_timestamp-Wrote L P R o i r in
      (o1, some i1, ap (λ q. q >>= λ r. some (r.0, some r.1, r.2)) e1, d1, w1)

  abbrev start : Packer F B I → C → OStream C
  start p out = record { state = out; max_size = p.max_size; bytes_written = p.bytes_written }

  abbrev after_stamps : Packer F B I → List B → OStream C × Option I × Bool → Option (Left B I C)
  after_stamps p buffers q =
      let (o3, _) = write_all L P R q.0 (data_runs L P R p) in
      some (record { output = (if q.2 then o3 else q.0).state; buffers = buffers; stamps = q.1 })

  abbrev after_channels : Packer F B I → OStream C × List B × Bool → Option (Left B I C)
  after_channels p r =
      if r.2
      then (stamps_field L P R r.0 p.timestamp >>= λ q. after_stamps p r.1 q)
      else some (record { output = r.0.state; buffers = r.1; stamps = p.timestamp })

  -- The whole message is in the output, and the buffers and the time stamps are empty.
  abbrev pub Packed : Packer F B I → C → Left B I C → Type 0
  Packed p out l =
      (R.contents l.output ≡ R.contents out ++ data_bytes p)
      × Drained l.buffers
      × StampsDrained l.stamps

  pub pack_sc_data-Packed :
      (p : Packer F B I) (out : C)
      → p.bytes_written + length (data_bytes p) ≤ p.max_size
      → R.used out + length (data_bytes p) ≤ R.capacity out
      → (l : Left B I C) × (pack_sc_data L P R p out ≡ some l) × Packed p out l
  unfolding pack_sc_data
  pack_sc_data-Packed p out h k =
      let o = start p out in
      let r : Room L P R o (length (data_bytes p)) = (h, k) in
      let (o1, bs, e1, d1, w1) = write_channels-Wrote o p.channels (Room-append L P R o _ _ r) in
      let r1 = Room-Wrote L P R o o1 _ _ w1 r in
      let (o2, left, e2, d2, w2) =
        stamps_field-Wrote o1 p.timestamp (Room-append L P R o1 _ _ r1) in
      let (o3, e3, w3) =
        write_all-Wrote L P R o2 (data_runs L P R p) (Room-Wrote L P R o1 o2 _ _ w2 r1) in
      (
        record { output = o3.state; buffers = bs; stamps = left },
        ap (λ q. q >>= λ r. after_channels p r) e1
            ∙ (ap (λ q. q >>= λ r. after_stamps p bs r) e2
                ∙ ap (λ q. some (record { output = q.0.state; buffers = bs; stamps = left })) e3),
        ((Wrote-trans L P R o o1 o3 _ _ w1 (Wrote-trans L P R o1 o2 o3 _ _ w2 w3)).0, d1, d2),
      )
