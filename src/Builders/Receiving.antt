-- ===== src/Builders/Receiving.antt =====
-- The receiving half of a pass, as `ScopeBuilder_build` connects it: the receiver tells the serializer the
-- type of a message, the serializer tells the controller what it has unpacked, and the controller runs
-- the command on the scope. The serializer reads the buffer that the receiver fills.
pub mod Pass
use se_scope_target.Prelude.{
  ℕ, zero, suc, ◌+◌, ◌-◌, ◌*◌, ◌/◌, ◌%◌, ◌^◌, ◌<◌, ◌≤◌, ◌≡◌, ◌≢◌, refl, subst, ap, sym, ◌∙◌,
  fun_ext, Bool, true, false, not, ◌||◌, ◌&&◌, List, [], ◌∷◌, ◌++◌, map, Option, none, some,
  if◌then◌else◌, arith, length, append-nil, append_assoc, length-append, length-map, get_elem?-map,
  get_elem?_bound, get_elem?_total, All, Option-cases, Bool-cases, ◌⊎◌, inl, inr, ◌↔◌, u8, u16, u32,
  bool_eq, Returns, Returns-cases, ltb, leb, concat, take_add, drop_add, ◌==◌, or_else, min, take,
  drop, length-take, length-drop, take-append-drop, take-append_ge, take-append_le, drop-append_ge,
  drop-append_le, take_of_length_le, take_last, take_last-append, drop_of_length_le, replicate,
  get_elem?, set, length-set, get_elem?-set_self, get_elem?-set_ne, dec_lt, ℕ_discrete, ==_iff,
}
use se_scope_target.SeLib.Core.{CoreLib}
use se_scope_target.SeLib.Ring.{Ring}
use se_scope_target.SeLib.Queue.{Queue}
use se_scope_target.Nanopb.Encoder.{Encoder}
use se_scope_target.Nanopb.Decoder.{Decoder}
use se_scope_target.ScopeTypes.{MessageType}
use se_scope_target.Core.Trigger.{◌>>=◌}
use se_scope_target.Core.Scope.{Scope}
use se_scope_target.Control.Commands.{CfRunningDef, CfAddressDef}
use se_scope_target.Control.Controller.{Controller, command_update}
use se_scope_target.Control.Controller
use se_scope_target.FramedIo.{Rx}
use se_scope_target.FramedIo.Receive
use se_scope_target.Serialisation.Serializer.{Serializer, update_unpacker, get_iunpacker}
use se_scope_target.Serialisation.Serializer

pub record Receiving (F B S I C Q : Type 0) : Type 0 where
  pub rx : Rx C
  pub serializer : Serializer F B I
  pub controller : Controller F Q
  pub scope : Scope F B S I

module _ {F B S I C Q : Type 0} (L : CoreLib F B S I) (P : Encoder F) (D : Decoder F) (R : Ring ℕ C)
    (A : Queue Q) where
  abbrev pub tell_serializer : Option MessageType → Serializer F B I → Serializer F B I
  tell_serializer none s = s
  tell_serializer (some type) s = update_unpacker s type

  abbrev pub tell_controller : Option MessageType → Controller F Q → Controller F Q
  tell_controller none c = c
  tell_controller (some type) c = command_update A c type

  -- `runCommunicationRx`, `runUnpacker` and `runCommandParser`
  pub run_communication_rx : Receiving F B S I C Q → Receiving F B S I C Q
  run_communication_rx w =
      let (rx, _, told) = Receive.run_rx R w.rx in
      record w { rx = rx; serializer = tell_serializer told w.serializer }

  pub run_unpacker : Receiving F B S I C Q → Option (Receiving F B S I C Q)
  run_unpacker w = Serializer.run_rx L P D R w.serializer w.rx.input >>= λ r.
      let (s, left, _, told) = r in
      some (record w {
        rx = record w.rx { input = left };
        serializer = s;
        controller = tell_controller told w.controller;
      })

  -- The memory that channels sample, the reference counter, and what a getter finds outside of its
  -- array are arguments.
  pub run_command_parser :
      (ℕ → ℕ)
      → ℕ
      → CfRunningDef
      → CfAddressDef
      → Receiving F B S I C Q
      → Option (Receiving F B S I C Q)
  run_command_parser memory now d a w =
      Controller.run_rx L A w.controller w.scope (get_iunpacker d a w.serializer) memory now
      >>= λ r. some (record w { controller = r.0; scope = r.1 })

  -- The first three calls of `ScopeRunner_run`.
  pub receive_pass :
      (ℕ → ℕ)
      → ℕ
      → CfRunningDef
      → CfAddressDef
      → Receiving F B S I C Q
      → Option (Receiving F B S I C Q)
  unfolding run_communication_rx run_unpacker run_command_parser
  receive_pass memory now d a w =
      run_unpacker (run_communication_rx w) >>= λ u. run_command_parser memory now d a u
