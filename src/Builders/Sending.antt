-- ===== src/Builders/Sending.antt =====
-- The sending half of a pass, as `ScopeBuilder_build` connects it: the controller takes an event from its
-- queue, its command adds to the packer, and the serializer packs the message into the output of the
-- sender and tells it the type.
pub mod Pass
mod Tests
use se_scope_target.Prelude.{
  ℕ, zero, suc, ◌+◌, ◌-◌, ◌*◌, ◌/◌, ◌%◌, ◌^◌, ◌<◌, ◌≤◌, ◌≡◌, ◌≢◌, refl, subst, ap, sym, ◌∙◌,
  fun_ext, Bool, true, false, not, ◌||◌, ◌&&◌, List, [], ◌∷◌, ◌++◌, map, Option, none, some,
  if◌then◌else◌, arith, length, append-nil, append_assoc, length-append, length-map, get_elem?-map,
  get_elem?_bound, get_elem?_total, All, Option-cases, Bool-cases, ◌⊎◌, inl, inr, ◌↔◌, u8, u16, u32,
  bool_eq, Returns, Returns-cases, ltb, leb, concat, take_add, drop_add, ◌==◌, or_else, min, take,
  drop, length-take, length-drop, take-append-drop, take-append_ge, take-append_le, drop-append_ge,
  drop-append_le, take_of_length_le, take_last, take_last-append, drop_of_length_le, replicate,
  get_elem?, set, length-set, get_elem?-set_self, get_elem?-set_ne, dec_lt, ℕ_discrete, ==_iff,
}
use se_scope_target.SeLib.Core.{CoreLib}
use se_scope_target.SeLib.Ring.{Ring}
use se_scope_target.SeLib.Stream.{Stream}
use se_scope_target.SeLib.Queue.{Queue}
use se_scope_target.Nanopb.Encoder.{Encoder}
use se_scope_target.Nanopb.Decoder.{Decoder}
use se_scope_target.ScopeTypes.{MessageType}
use se_scope_target.Core.Trigger.{◌>>=◌}
use se_scope_target.Core.Scope.{Scope}
use se_scope_target.Control.AnnounceStorage.{AnnounceStorage}
use se_scope_target.Control.Pack.{PackerCall, dispatch_pack}
use se_scope_target.Control.Controller.{Controller}
use se_scope_target.Control.Controller
use se_scope_target.FramedIo.{Tx}
use se_scope_target.FramedIo.Transmit.{update_tx}
use se_scope_target.FramedIo.Transmit
use se_scope_target.Serialisation.Packer.{Packer, add_all}
use se_scope_target.Serialisation.Packer.Data.{Left}
use se_scope_target.Serialisation.Serializer.{Serializer, update_packer, is_ready}
use se_scope_target.Serialisation.Serializer

pub record Sending (F B I C Q Y : Type 0) : Type 0 where
  pub controller : Controller F Q
  pub serializer : Serializer F B I
  pub tx : Tx C
  pub log : Y

module _ {F B S I C Q Y : Type 0} (L : CoreLib F B S I) (P : Encoder F) (D : Decoder F)
    (R : Ring ℕ C) (A : Queue Q) (bytes : Stream ℕ Y) where
  abbrev pub tell_sender : Option MessageType → Tx C → Tx C
  tell_sender none t = t
  tell_sender (some type) t = update_tx R t type

  -- The end of `runTx` of the controller: the command of the event, and the observer.
  abbrev pub aggregate :
      Scope F B S I
      → Option (AnnounceStorage F (List ℕ))
      → Sending F B I C Q Y
      → Option MessageType
      → Sending F B I C Q Y
  aggregate s storage w none = w
  aggregate s storage w (some event) =
      let (log, calls) = dispatch_pack L bytes s storage w.log event in
      record w {
        serializer =
            update_packer
              (record w.serializer { nanopb_packer = add_all w.serializer.nanopb_packer calls })
              event;
        log = log;
      }

  -- `runDataAggregator`, `runPacker` and `runCommunicationTx`
  pub run_data_aggregator :
      Scope F B S I
      → Option (AnnounceStorage F (List ℕ))
      → Sending F B I C Q Y
      → Sending F B I C Q Y
  run_data_aggregator s storage w =
      let (c, _, event) =
        Controller.run_tx A w.controller (is_ready w.serializer (R.used w.tx.output))
          (bytes.stream_length w.log) in
      aggregate s storage (record w { controller = c }) event

  -- With what is left of the buffers and of the time stamps.
  pub run_packer : Sending F B I C Q Y → Option (Sending F B I C Q Y × Left B I C)
  run_packer w = Serializer.run_tx L P D R w.serializer w.tx.output >>= λ r. some (
    record w { serializer = r.0; tx = tell_sender r.3 (record w.tx { output = r.1.output }) },
    r.1,
  )

  pub run_communication_tx : Bool → Sending F B I C Q Y → Sending F B I C Q Y
  run_communication_tx callback w = record w { tx = (Transmit.run_tx R callback w.tx).0 }

  -- The last three calls of `ScopeRunner_run`.
  pub send_pass :
      Bool
      → Scope F B S I
      → Option (AnnounceStorage F (List ℕ))
      → Sending F B I C Q Y
      → Option (Sending F B I C Q Y × Left B I C)
  unfolding run_data_aggregator run_packer run_communication_tx
  send_pass callback s storage w = run_packer (run_data_aggregator s storage w) >>= λ r.
      some (run_communication_tx callback r.0, r.1)
