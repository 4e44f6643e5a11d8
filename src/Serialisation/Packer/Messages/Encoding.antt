-- ===== src/Serialisation/Packer/Messages/Encoding.antt =====
-- `pack` on a message of samples, against the encoding of the message.
use se_scope_target.Prelude.{
  ℕ, ◌<◌, ◌≤◌, ◌≡◌, refl, ap, sym, ◌∙◌, not, List, [], ◌∷◌, ◌++◌, some, if◌then◌else◌, arith,
  length, append-nil, append_assoc, All, concat, ◌==◌,
}
use se_scope_target.Nanopb.Encoder.{Encoder, size}
use se_scope_target.SeLib.Ring.{Ring}
use se_scope_target.SeLib.Core.{CoreLib}
use se_scope_target.ScopeTypes.{sc_data}
use se_scope_target.Core.Trigger.{◌>>=◌}
use se_scope_target.Serialisation.Packer.{Packer, pb_wt_string}
use se_scope_target.Serialisation.Packer.Data.{Left, pack_sc_data, data_runs}
use se_scope_target.Serialisation.Packer.Messages.{pack, packed, untouched}
use se_scope_target.Serialisation.Packer.Width.{
  channel_runs, announced_length-size, CountIsRight, WidthIsRight,
}
use se_scope_target.Serialisation.Packer.Data.Writes.{samples_bytes}
use se_scope_target.Serialisation.Packer.Data.Drains.{
  Drained, StampsDrained, data_bytes, channels_bytes, channel_bytes, timestamp_bytes,
  pack_sc_data-Packed,
}

concat-append : (xs ys : List (List ℕ)) → concat (xs ++ ys) ≡ concat xs ++ concat ys
concat-append [] ys = refl
concat-append (x ∷ xs) ys =
    ap (λ r. x ++ r) (concat-append xs ys) ∙ sym (append_assoc x (concat xs) (concat ys))

module _ {F B S I C : Type 0} (L : CoreLib F B S I) (P : Encoder F) (R : Ring ℕ C) where
  -- A channel as a field of its message: the tag, the length of the channel's own message, and that.
  abbrev pub encoded_channel : ℕ → List F → List ℕ
  encoded_channel id xs =
      P.pb_encode_tag pb_wt_string 1
      ++ (P.pb_encode_varint (size (channel_runs P id xs)) ++ concat (channel_runs P id xs))

  abbrev pub encoded_channels : List (ℕ × B) → List ℕ
  encoded_channels [] = []
  encoded_channels ((id, b) ∷ cs) = encoded_channel id (L.ring.contents b) ++ encoded_channels cs

  -- The encoding of the packer's message of samples.
  abbrev pub encoded : Packer F B I → List ℕ
  encoded p =
      encoded_channels p.channels
      ++ (timestamp_bytes L P R p.timestamp ++ concat (data_runs L P R p))

  -- The ids and the numbers of samples for which `getWidthOfVarint` is right.
  abbrev pub IsExact : List (ℕ × B) → Type 0
  IsExact cs =
      All
        (λ (c : ℕ × B).
          (c.0 < 4096)
          × (length (L.ring.contents c.1) < 4096)
          × CountIsRight (length (L.ring.contents c.1))
          × WidthIsRight c.0)
        cs

  channel_bytes_exact :
      (id : ℕ) (xs : List F)
      → id < 4096
      → length xs < 4096
      → CountIsRight (length xs)
      → WidthIsRight id
      → channel_bytes L P R id xs ≡ encoded_channel id xs
  channel_bytes_exact id xs h k c w =
      ap
        (λ n.
          concat (P.pb_encode_tag pb_wt_string 1 ∷ P.pb_encode_varint n ∷ [])
          ++ (samples_bytes L P R xs ++ concat (P.uint32_field 2 id)))
        ((announced_length-size P id xs h k).1 (c, w))
      ∙ simp (append_assoc, append-nil, concat-append)

  channels_bytes_exact :
      (cs : List (ℕ × B)) → IsExact cs → channels_bytes L P R cs ≡ encoded_channels cs
  channels_bytes_exact [] e = refl
  channels_bytes_exact ((id, b) ∷ cs) (e, es) =
      ap (λ d. d ++ channels_bytes L P R cs)
        (channel_bytes_exact id (L.ring.contents b) e.0 e.1 e.2 e.3)
      ∙ ap (λ d. encoded_channel id (L.ring.contents b) ++ d) (channels_bytes_exact cs es)

  -- With an idle packer, an empty output that has room for the encoding, and ids and numbers of samples
  -- that its lengths are right for, `pack` writes the encoding of the message to the output, drains the
  -- buffers and the time stamps, and resets the packer.
  pub pack-encoded :
      (p : Packer F B I) (out : C)
      → p.bytes_written ≡ 0
      → R.contents out ≡ []
      → p.max_size ≡ R.capacity out
      → IsExact p.channels
      → length (encoded p) ≤ p.max_size
      → (l : Left B I C) × (pack L P R p out sc_data ≡ some (packed L P R p l, l))
        × (R.contents l.output ≡ encoded p)
        × Drained L P R l.buffers
        × StampsDrained L P R l.stamps
  unfolding pack
  pack-encoded p out idle empty sized exact room =
      let b = channels_bytes_exact p.channels exact in
      let bytes : data_bytes L P R p ≡ encoded p =
        ap (λ d. d ++ (timestamp_bytes L P R p.timestamp ++ concat (data_runs L P R p))) b in
      let size = ap length bytes in
      let used = R.used_lem out ∙ ap length empty in
      let (l, e, w) =
        pack_sc_data-Packed L P R p out (omega (arith, idle, size, room))
          (omega (arith, used, size, room, sized)) in
      (
        l,
        ap
              (λ n.
                if not (n == 0)
                then some (p, untouched L P R p out)
                else (pack_sc_data L P R p out >>= λ l. some (packed L P R p l, l)))
              used
            ∙ ap (λ q. q >>= λ l. some (packed L P R p l, l)) e,
        w.0 ∙ (ap (λ c. c ++ data_bytes L P R p) empty ∙ bytes),
        w.1,
        w.2,
      )
