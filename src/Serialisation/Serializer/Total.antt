-- ===== src/Serialisation/Serializer/Total.antt =====
-- `runRx` of the serializer on every message.
use se_scope_target.Prelude.{ℕ, ◌≡◌, refl, Bool, Option, arith, Returns, ==_iff}
use se_scope_target.Nanopb.Encoder.{Encoder}
use se_scope_target.Nanopb.Decoder.{Decoder}
use se_scope_target.SeLib.Ring.{Ring}
use se_scope_target.SeLib.Core.{CoreLib}
use se_scope_target.ScopeTypes.{MessageType, se_none}
use se_scope_target.Control.Commands.{CfRunningDef, CfAddressDef}
use se_scope_target.Serialisation.Unpacker.{get_unpacker}
use se_scope_target.Serialisation.Unpacker.Total.{IsFilled, FewEntries, unpack-Unpacked}
use se_scope_target.Serialisation.Serializer.{Serializer, run_rx, update_unpacker, get_iunpacker}

module _ {F B S I C : Type 0} (L : CoreLib F B S I) (P : Encoder F) (D : Decoder F)
    (R : Ring ℕ C) where
  -- Nothing waits for the unpacker, and its arrays are as they have to be.
  abbrev pub Emptied : Serializer F B I → Serializer F B I × C × Bool × Option MessageType → Type 0
  Emptied s r =
      (r.0.unpacking_pending ≡ se_none)
      × IsFilled r.0.nanopb_unpacker
      × (r.0.nanopb_unpacker.max_number_of_channels ≡ s.nanopb_unpacker.max_number_of_channels)

  pub run_rx-Emptied :
      (s : Serializer F B I) (input : C)
      → IsFilled s.nanopb_unpacker
      → FewEntries R D s.nanopb_unpacker.max_number_of_channels (R.contents input)
      → Returns (Emptied s) (run_rx L P D R s input)
  unfolding run_rx
  run_rx-Emptied s input i f = ground (
    arith,
    i,
    ==_iff s.unpacking_pending se_none,
    unpack-Unpacked R D s.nanopb_unpacker input s.unpacking_pending i f,
  )

  pub unpacker-update_unpacker :
      (s : Serializer F B I) (type : MessageType)
      → (update_unpacker s type).nanopb_unpacker ≡ s.nanopb_unpacker
  unfolding update_unpacker
  unpacker-update_unpacker s type = refl

  pub get_iunpacker_amount :
      (d : CfRunningDef) (a : CfAddressDef) (s : Serializer F B I)
      → (get_iunpacker d a s).cf_running_get_amount ≡ s.nanopb_unpacker.running.amount
  unfolding get_iunpacker get_unpacker
  get_iunpacker_amount d a s = refl
