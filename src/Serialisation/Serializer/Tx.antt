-- ===== src/Serialisation/Serializer/Tx.antt =====
-- Samples on their way from the scope to the output: CommandPackData adds the channels that are ready
-- to the packer, and `runTx` of the serializer packs them.
use se_scope_target.Prelude.{
  ℕ, ◌≤◌, ◌≡◌, refl, subst, ap, sym, ◌∙◌, true, List, [], ◌∷◌, some, arith, length,
}
use se_scope_target.Nanopb.Encoder.{Encoder}
use se_scope_target.SeLib.Ring.{Ring}
use se_scope_target.SeLib.Stream.{Stream}
use se_scope_target.SeLib.Core.{CoreLib}
use se_scope_target.ScopeTypes.{sc_data, se_none}
use se_scope_target.Core.Trigger.{◌>>=◌}
use se_scope_target.Core.Scope.{Scope, get_trigger_data}
use se_scope_target.Control.Pack.{pack_data}
use se_scope_target.Control.Pack.Ready.{ready_channels, data_calls, pack_data-ready, length-ready}
use se_scope_target.Serialisation.Packer.Adds.{add_all_message, add_all_none}
use se_scope_target.Nanopb.Decoder.{Decoder}
use se_scope_target.Serialisation.Packer.{Packer, add_all}
use se_scope_target.Serialisation.Packer.Data.{Left}
use se_scope_target.Serialisation.Packer.Data.Drains.{Drained, StampsDrained}
use se_scope_target.Serialisation.Packer.Messages.{packed}
use se_scope_target.Serialisation.Packer.Messages.Encoding.{encoded, IsExact, pack-encoded}
use se_scope_target.Serialisation.Serializer.{Serializer, run_tx, update_packer}

module _ {F B S I C Y : Type 0} (L : CoreLib F B S I) (P : Encoder F) (D : Decoder F) (R : Ring ℕ C)
    (bytes : Stream ℕ Y) where
  -- The message of the scope in an empty packer; with no channel ready, that is the last trigger, the
  -- last time stamps and the last time increment.
  abbrev pub message_of : Packer F B I → Scope F B S I → List (ℕ × B) → Packer F B I
  message_of p s [] = p
  message_of p s (c ∷ cs) = record p {
    channels = c ∷ cs;
    trigger = get_trigger_data L s;
    timestamp = some s.rig.timestamper.swap_timestamps;
    time_increment = s.rig.timestamper.time_increment;
  }

  add_all-data_calls :
      (p : Packer F B I) (s : Scope F B S I) (cs : List (ℕ × B))
      → p.channels ≡ []
      → length cs ≤ p.max_number_of_channels
      → add_all p (data_calls L s cs) ≡ message_of p s cs
  add_all-data_calls p s [] e h = add_all_none p
  add_all-data_calls p s (c ∷ cs) e h =
      add_all_message p (c ∷ cs) (get_trigger_data L s) s.rig.timestamper.swap_timestamps
        s.rig.timestamper.time_increment e h

  message_of-bytes_written :
      (p : Packer F B I) (s : Scope F B S I) (cs : List (ℕ × B))
      → (message_of p s cs).bytes_written ≡ p.bytes_written
  message_of-bytes_written p s [] = refl
  message_of-bytes_written p s (c ∷ cs) = refl

  message_of-max_size :
      (p : Packer F B I) (s : Scope F B S I) (cs : List (ℕ × B))
      → (message_of p s cs).max_size ≡ p.max_size
  message_of-max_size p s [] = refl
  message_of-max_size p s (c ∷ cs) = refl

  message_of-channels :
      (p : Packer F B I) (s : Scope F B S I) (cs : List (ℕ × B))
      → p.channels ≡ []
      → (message_of p s cs).channels ≡ cs
  message_of-channels p s [] e = e
  message_of-channels p s (c ∷ cs) e = refl

  -- What `runTx` of the serializer does with a packer on an empty output: it writes the encoding, drains
  -- what it reads, leaves nothing pending and tells the communicator the message.
  abbrev pub Sends : Serializer F B I → C → Packer F B I → Type 0
  Sends z out p =
      (l : Left B I C) × (run_tx L P D R (update_packer (record z { nanopb_packer = p }) sc_data)
          out
        ≡ some (
          record z { nanopb_packer = packed L P R p l; packing_pending = se_none },
          l,
          true,
          some sc_data,
        ))
      × (R.contents l.output ≡ encoded L P R p)
      × Drained L P R l.buffers
      × StampsDrained L P R l.stamps

  run_tx-Sends :
      (z : Serializer F B I) (out : C) (p : Packer F B I)
      → p.bytes_written ≡ 0
      → R.contents out ≡ []
      → p.max_size ≡ R.capacity out
      → IsExact L P R p.channels
      → length (encoded L P R p) ≤ p.max_size
      → Sends z out p
  unfolding run_tx update_packer
  run_tx-Sends z out p idle empty sized exact room =
      let (l, e, w, drained, stamps) = pack-encoded L P R p out idle empty sized exact room in
      (
        l,
        ap
            (λ q. q >>= λ r. some (
              record z { nanopb_packer = r.0; packing_pending = se_none },
              r.1,
              true,
              some sc_data,
            ))
            e,
        w,
        drained,
        stamps,
      )

  -- An idle packer with no channels and room for all of the scope's, an empty output of its size, and a
  -- scope whose full swap buffers have ids and lengths that the announced lengths are right for, and
  -- whose message fits: the calls of CommandPackData and then `runTx` put the encoding of exactly these
  -- channels in the output, with the trigger, the time stamps and the time increment of the scope if
  -- there are any and those of the last message if there are none, and drain all that they read.
  pub run_tx-pack_data :
      (z : Serializer F B I) (s : Scope F B S I) (out : C)
      → z.nanopb_packer.channels ≡ []
      → z.nanopb_packer.bytes_written ≡ 0
      → length s.rig.channels ≤ z.nanopb_packer.max_number_of_channels
      → R.contents out ≡ []
      → z.nanopb_packer.max_size ≡ R.capacity out
      → IsExact L P R (ready_channels L s)
      → length (encoded L P R (message_of z.nanopb_packer s (ready_channels L s)))
        ≤ z.nanopb_packer.max_size
      → (add_all z.nanopb_packer (pack_data L bytes s)
          ≡ message_of z.nanopb_packer s (ready_channels L s))
        × Sends z out (message_of z.nanopb_packer s (ready_channels L s))
  run_tx-pack_data z s out none_yet idle few empty sized exact room =
      let p = z.nanopb_packer in
      let cs = ready_channels L s in
      let count = length-ready L s 0 (length s.rig.channels) in
      (
        ap (λ calls. add_all p calls) (pack_data-ready L (List ℕ) bytes s)
            ∙ add_all-data_calls p s cs none_yet (omega (arith, count, few)),
        run_tx-Sends z out (message_of p s cs) (message_of-bytes_written p s cs ∙ idle) empty
            (message_of-max_size p s cs ∙ sized)
            (subst (λ l. IsExact L P R l) (sym (message_of-channels p s cs none_yet)) exact)
            (omega (arith, room, message_of-max_size p s cs)),
      )
