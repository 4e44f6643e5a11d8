-- ===== src/Serialisation/Serializer/Rx.antt =====
-- Messages of the host on their way from the framing layer to the commands.
use se_scope_target.Prelude.{
  ℕ, ◌^◌, ◌<◌, ◌≤◌, ◌≡◌, ◌≢◌, subst, ap, sym, ◌∙◌, true, false, List, [], ◌∷◌, ◌++◌, map, none,
  some, if◌then◌else◌, arith, length, length-map, ==_iff,
}
use se_scope_target.Nanopb.Encoder.{Encoder}
use se_scope_target.Nanopb.Decoder.{Decoder}
use se_scope_target.SeLib.Ring.{Ring}
use se_scope_target.SeLib.Core.{CoreLib}
use se_scope_target.ScopeTypes.{cf_running, se_none, se_nak, se_ack}
use se_scope_target.Core.Trigger.{◌>>=◌}
use se_scope_target.Core.Scope.{Scope}
use se_scope_target.Control.Commands.{
  Commands, CfRunningDef, CfAddressDef, entries, dispatch, run_running, running_entry,
}
use se_scope_target.Control.Commands.Accepted.{InRange, dispatch-running_accepted, length-entries}
use se_scope_target.FramedIo.{Rx}
use se_scope_target.FramedIo.Frame.{frame, frame_head}
use se_scope_target.FramedIo.Receive.{put_rx_data}
use se_scope_target.FramedIo.Receive
use se_scope_target.FramedIo.Receive.Automaton.Frames.{IsIdle}
use se_scope_target.FramedIo.Receive.Messages.{
  put_rx_data-frame, put_rx_data-stuck, run_rx_type, run_rx_input, run_rx-IsIdle, run_rx_data_ready,
}
use se_scope_target.Serialisation.Serializer.{
  Serializer, run_rx, update_unpacker, has_unpacker, get_iunpacker,
}
use se_scope_target.Serialisation.Unpacker.{running_def, get_unpacker}
use se_scope_target.Serialisation.Unpacker.Getters.{IsAllocated, unpack_running}

module _ {F B S I C : Type 0} (L : CoreLib F B S I) (P : Encoder F) (D : Decoder F)
    (R : Ring ℕ C) where
  -- The payload is decoded, with no more entries than channels.
  abbrev pub Decodes : Serializer F B I → List ℕ → Type 0
  Decodes s payload =
      ((D.decode_running payload).status ≡ true)
      × (length (D.decode_running payload).message ≤ s.nanopb_unpacker.max_number_of_channels)

  -- `runRx` on an input with this payload tells the controller the message, and the getters return the
  -- entries of the payload.
  abbrev pub TellsRunning : CfRunningDef → CfAddressDef → Serializer F B I → C → List ℕ → Type 0
  TellsRunning d a s input payload =
      (s' : Serializer F B I) × (left : C) × (run_rx L P D R (update_unpacker s cf_running) input
        ≡ some (s', left, true, some cf_running))
      × (entries (get_iunpacker d a s').cf_running_get_channel 0
            (get_iunpacker d a s').cf_running_get_amount
          ≡ map running_def (D.decode_running payload).message)
      × ((get_iunpacker d a s').cf_running_get_amount ≡ length (D.decode_running payload).message)
      × (R.contents left ≡ [])

  run_rx_running :
      (d : CfRunningDef) (a : CfAddressDef) (s : Serializer F B I) (input : C)
      → IsAllocated s.nanopb_unpacker
      → Decodes s (R.contents input)
      → TellsRunning d a s input (R.contents input)
  unfolding run_rx update_unpacker get_iunpacker has_unpacker
  run_rx_running d a s input h (ok, l) =
      let (u, left, e, found, empty, _) = unpack_running R D d a s.nanopb_unpacker input h ok l in
      let message = (D.decode_running (R.contents input)).message in
      (
        record s { nanopb_unpacker = u; unpacking_pending = se_none },
        left,
        ap
            (λ q. q >>= λ r.
              let (u, left, valid) = r in
              some (
                record s { nanopb_unpacker = u; unpacking_pending = se_none },
                left,
                true,
                some (if valid then cf_running else se_nak),
              ))
            e,
        found,
        sym (
              length-entries (get_unpacker d a u).cf_running_get_channel 0
                (get_unpacker d a u).cf_running_get_amount)
            ∙ (ap length found ∙ length-map running_def message),
        empty,
      )

  -- A whole frame of a CF_RUNNING message whose payload decodes to entries of existing channels, no more
  -- than there are, for an idle receiver with an empty buffer that has room for it: the receiver hands
  -- the type over, `runRx` of the serializer tells it to the controller and leaves the buffer empty,
  -- and the command applies exactly these entries in turn, and answers with an acknowledge.
  pub frame_running :
      (fuel : ℕ) (r : Rx C) (payload : List ℕ) (d : CfRunningDef) (a : CfAddressDef)
      (s : Serializer F B I) (c : Commands F) (scope : Scope F B S I) (memory : ℕ → ℕ) (now : ℕ)
      → length (frame cf_running payload) < fuel
      → IsIdle r
      → r.data_ready ≡ false
      → R.contents r.input ≡ []
      → length payload ≤ R.capacity r.input
      → length payload < 2 ^ 32
      → IsAllocated s.nanopb_unpacker
      → s.nanopb_unpacker.max_number_of_channels ≡ c.amount_of_channels
      → (D.decode_running payload).status ≡ true
      → length (D.decode_running payload).message ≤ c.amount_of_channels
      → InRange c.amount_of_channels (map running_def (D.decode_running payload).message)
      → (t : Rx C) × (s' : Serializer F B I) × (left : C) × (put_rx_data R fuel r
            (frame cf_running payload)
          ≡ some (t, true))
        × ((Receive.run_rx R t).2 ≡ some cf_running)
        × (run_rx L P D R (update_unpacker s cf_running) (Receive.run_rx R t).0.input
            ≡ some (s', left, true, some cf_running))
        × (R.contents left ≡ [])
        × (dispatch L c (get_iunpacker d a s') scope memory now cf_running
            ≡ some (
              record c {
                running_config =
                    map running_entry (map running_def (D.decode_running payload).message);
              },
              (run_running L c.amount_of_channels scope
                  (map running_entry (map running_def (D.decode_running payload).message))).0,
              se_ack ∷ [],
            ))
  frame_running fuel r payload d a s c scope memory now hf idle ready empty room small alloc same ok
        few range =
      let (t, put, waits, type, payload_in, idle_again) =
        put_rx_data-frame R fuel r cf_running payload hf idle ready empty room small in
      let input = (Receive.run_rx R t).0.input in
      let content = run_rx_input R t ∙ payload_in in
      let (s', left, ran, found, amount, nothing) =
        subst (λ p. Decodes s p → TellsRunning d a s input p) content
          (run_rx_running d a s input alloc) (ok, omega (arith, few, same)) in
      let message = (D.decode_running payload).message in
      (
        t,
        s',
        left,
        put,
        run_rx_type R t cf_running waits type,
        ran,
        nothing,
        dispatch-running_accepted L c (get_iunpacker d a s') scope memory now
            (map running_def message) found (omega (arith, amount, few))
            (omega (arith, length-map running_def message, few)) range,
      )

  -- A frame of a type other than SE_NONE that has no unpacker, with a payload that fits the input buffer
  -- and is shorter than 2 ^ 32, for an idle receiver with an empty buffer and no frame waiting, and
  -- with enough fuel: the receiver reports the frame, `runRx` of the serializer tells the type and
  -- leaves the payload in the buffer, and then the receiver hangs in a frame that announces fewer
  -- bytes than the payload has, whatever the fuel, at the byte behind its head.
  pub frame_leftover :
      (fuel : ℕ) (r : Rx C) (ty : ℕ) (payload : List ℕ) (s : Serializer F B I) (g ty' n b : ℕ)
      (d : List ℕ)
      → length (frame ty payload) < fuel
      → IsIdle r
      → r.data_ready ≡ false
      → R.contents r.input ≡ []
      → length payload ≤ R.capacity r.input
      → length payload < 2 ^ 32
      → ty ≢ se_none
      → has_unpacker ty ≡ false
      → n < length payload
      → (t : Rx C) × (put_rx_data R fuel r (frame ty payload) ≡ some (t, true))
        × ((Receive.run_rx R t).2 ≡ some ty)
        × (run_rx L P D R (update_unpacker s ty) (Receive.run_rx R t).0.input
            ≡ some (
              record s { unpacking_pending = se_none },
              (Receive.run_rx R t).0.input,
              true,
              some ty,
            ))
        × (put_rx_data R g (Receive.run_rx R t).0 (frame_head ty' n ++ (b ∷ d)) ≡ none)
  unfolding run_rx update_unpacker
  frame_leftover fuel r ty payload s g ty' n b d hf idle ready empty room small real no_unpacker
        fewer =
      let (t, put, waits, type, payload_in, idle_again) =
        put_rx_data-frame R fuel r ty payload hf idle ready empty room small in
      let content = run_rx_input R t ∙ payload_in in
      (
        t,
        put,
        run_rx_type R t ty waits type,
        ground (arith, ==_iff ty se_none),
        put_rx_data-stuck R g (Receive.run_rx R t).0 ty' n b d (run_rx-IsIdle R t idle_again)
            (run_rx_data_ready R t) (omega (arith, small))
            (omega (arith, ap length content, R.used_lem (Receive.run_rx R t).0.input)),
      )
