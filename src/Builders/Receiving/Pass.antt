-- ===== src/Builders/Receiving/Pass.antt =====
-- The receiving half of a pass, for whatever message the host sends.
use se_scope_target.Prelude.{
  ℕ, ◌≡◌, refl, subst, ap, sym, ◌∙◌, false, Option, none, some, arith, length, Returns,
  Returns-cases,
}
use se_scope_target.SeLib.Core.{CoreLib}
use se_scope_target.SeLib.Ring.{Ring}
use se_scope_target.SeLib.Queue.{Queue}
use se_scope_target.Nanopb.Encoder.{Encoder}
use se_scope_target.Nanopb.Decoder.{Decoder}
use se_scope_target.ScopeTypes.{MessageType}
use se_scope_target.Core.Trigger.{◌>>=◌}
use se_scope_target.Control.Commands.{CfRunningDef, CfAddressDef}
use se_scope_target.Control.Controller.{Controller, command_update}
use se_scope_target.Control.Controller
use se_scope_target.FramedIo.Receive
use se_scope_target.Serialisation.Serializer.{Serializer, update_unpacker, get_iunpacker}
use se_scope_target.Serialisation.Serializer
use se_scope_target.Core.Trigger.Machine.Invariant.{IsSound}
use se_scope_target.Control.Controller.Receives.{Received, run_rx-Received, commands-command_update}
use se_scope_target.FramedIo.Receive.Messages.{run_rx_input, run_rx_data_ready}
use se_scope_target.Serialisation.Unpacker.{NanopbUnpacker}
use se_scope_target.Control.Commands.{Commands}
use se_scope_target.Serialisation.Unpacker.Total.{IsFilled, FewEntries}
use se_scope_target.Serialisation.Serializer.Total.{
  Emptied, run_rx-Emptied, unpacker-update_unpacker, get_iunpacker_amount,
}
use se_scope_target.ScopeTypes.{se_none}
use se_scope_target.Builders.Receiving.{
  Receiving, tell_serializer, tell_controller, run_communication_rx, run_unpacker,
  run_command_parser, receive_pass,
}

-- The scope is sound, and the unpacker has an entry for each channel of the commands.
pub record IsFine {F B S I C Q : Type 0} (L : CoreLib F B S I) (w : Receiving F B S I C Q)
    : Type 0 where
  pub sound : IsSound L w.scope.rig
  pub filled : IsFilled w.serializer.nanopb_unpacker
  pub same :
      w.serializer.nanopb_unpacker.max_number_of_channels ≡ w.controller.commands.amount_of_channels

-- No message waits anywhere between the receiver and the scope.
pub record IsDone {F B S I C Q : Type 0} (w : Receiving F B S I C Q) : Type 0 where
  pub received : w.rx.data_ready ≡ false
  pub unpacked : w.serializer.unpacking_pending ≡ se_none
  pub parsed : w.controller.command_pending ≡ se_none

module _ {F B S I C Q : Type 0} (L : CoreLib F B S I) (P : Encoder F) (D : Decoder F) (R : Ring ℕ C)
    (A : Queue Q) where
  unpacker-tell_serializer :
      (told : Option MessageType) (s : Serializer F B I)
      → (tell_serializer L P D R A told s).nanopb_unpacker ≡ s.nanopb_unpacker
  unpacker-tell_serializer none s = refl
  unpacker-tell_serializer (some type) s = unpacker-update_unpacker L P D R s type

  commands-tell_controller :
      (told : Option MessageType) (c : Controller F Q)
      → (tell_controller L P D R A told c).commands ≡ c.commands
  commands-tell_controller none c = refl
  commands-tell_controller (some type) c = commands-command_update L A c type

  -- After the unpacker.
  abbrev HasUnpacked : Receiving F B S I C Q → Receiving F B S I C Q → Type 0
  HasUnpacked w v =
      IsFine L v
      × (v.rx.data_ready ≡ false)
      × (v.serializer.unpacking_pending ≡ se_none)
      × (length v.scope.rig.channels ≡ length w.scope.rig.channels)

  run_unpacker-HasUnpacked :
      (w : Receiving F B S I C Q)
      → IsFine L w
      → FewEntries R D w.controller.commands.amount_of_channels (R.contents w.rx.input)
      → Returns (HasUnpacked w) (run_unpacker L P D R A (run_communication_rx L P D R A w))
  unfolding run_unpacker run_communication_rx
  run_unpacker-HasUnpacked w i f =
      let rx = (Receive.run_rx R w.rx).0 in
      let s = tell_serializer L P D R A (Receive.run_rx R w.rx).2 w.serializer in
      let u = unpacker-tell_serializer (Receive.run_rx R w.rx).2 w.serializer in
      let filled = subst IsFilled (sym u) i.filled in
      let max = ap (λ (k : NanopbUnpacker F). k.max_number_of_channels) u ∙ i.same in
      let few =
        subst (λ n. FewEntries R D n (R.contents rx.input)) (sym max)
          (subst (λ b. FewEntries R D w.controller.commands.amount_of_channels b)
            (sym (run_rx_input R w.rx)) f) in
      let (r, e, emptied) =
        Returns-cases (Emptied L P D R s) (Serializer.run_rx L P D R s rx.input)
          (run_rx-Emptied L P D R s rx.input filled few) in
      let (s', left, ran, told) = r in
      let c = commands-tell_controller told w.controller in
      subst
        (λ o. Returns (HasUnpacked w) (
          o >>= λ r. some (record w {
            rx = record rx { input = r.1 };
            serializer = r.0;
            controller = tell_controller L P D R A r.3 w.controller;
          })))
        (sym e)
        (
          record {
            sound = i.sound;
            filled = emptied.1;
            same = emptied.2 ∙ (max ∙ ap (λ (k : Commands F). k.amount_of_channels) (sym c));
          },
          run_rx_data_ready R w.rx,
          emptied.0,
          refl,
        )

  -- Whatever message waits, or none: with a sound scope, an unpacker with an entry for each channel of
  -- the commands, and a payload that decodes to no more entries than there are channels, the receiver,
  -- the unpacker and the command parser of one pass have a result, leave no message waiting between
  -- them, and keep the scope sound, with its channels, and the unpacker as it has to be.
  pub receive_pass-IsFine :
      (memory : ℕ → ℕ) (now : ℕ) (d : CfRunningDef) (a : CfAddressDef) (w : Receiving F B S I C Q)
      → IsFine L w
      → FewEntries R D w.controller.commands.amount_of_channels (R.contents w.rx.input)
      → Returns
          (λ v. IsFine L v × IsDone v × (length v.scope.rig.channels ≡ length w.scope.rig.channels))
          (receive_pass L P D R A memory now d a w)
  unfolding receive_pass run_command_parser
  receive_pass-IsFine memory now d a w i f =
      let (v, e, done) =
        Returns-cases (HasUnpacked w) (run_unpacker L P D R A (run_communication_rx L P D R A w))
          (run_unpacker-HasUnpacked w i f) in
      let u = get_iunpacker d a v.serializer in
      let amount = get_iunpacker_amount L P D R d a v.serializer in
      let fine = done.0 in
      let (r, ran, got) =
        Returns-cases (Received L A v.controller v.scope)
          (Controller.run_rx L A v.controller v.scope u memory now)
          (run_rx-Received L A v.controller v.scope u memory now fine.sound
            (omega (arith, amount, fine.filled.within, fine.same))) in
      let whole : receive_pass L P D R A memory now d a w
          ≡ some (record v { controller = r.0; scope = r.1 }) =
        ap (λ o. o >>= λ v. run_command_parser L P D R A memory now d a v) e
        ∙ ap (λ o. o >>= λ r. some (record v { controller = r.0; scope = r.1 })) ran in
      subst
        (λ o.
          Returns
            (λ v.
              IsFine L v × IsDone v × (length v.scope.rig.channels ≡ length w.scope.rig.channels))
            o)
        (sym whole)
        (
          record { sound = got.2; filled = fine.filled; same = fine.same ∙ sym got.1 },
          record { received = done.1; unpacked = done.2; parsed = got.0 },
          got.3 ∙ done.3,
        )
