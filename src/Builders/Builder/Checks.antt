-- ===== src/Builders/Builder/Checks.antt =====
-- The checks of `ScopeBuilder_build`.
use se_scope_target.Prelude.{ℕ, ◌<◌, ◌≡◌, ◌≢◌, none, some, arith, ◌↔◌}
use se_scope_target.SeLib.Core.{CoreLib}
use se_scope_target.SeLib.Ring.{Ring}
use se_scope_target.SeLib.Queue.{Queue}
use se_scope_target.Core.Scope.{Scope}
use se_scope_target.Core.Scope
use se_scope_target.Control.Controller.{Controller}
use se_scope_target.Control.Controller
use se_scope_target.Serialisation.Serializer.{Serializer}
use se_scope_target.Serialisation.Serializer
use se_scope_target.Builders.Builder.{ScopeBuilder, Memory, Layers, build, is_incomplete}

module _ {F B S I C K M A Q : Type 0} (L : CoreLib F B S I) (R : Ring ℕ C) (U : Queue Q) where
  -- The layers over an output.
  abbrev pub layers : Memory F B S I → ScopeBuilder C K M A → C → Layers F B S I Q
  layers m b output = record {
    scope = Scope.create L b.size_of_channels m.channels m.trigger;
    serializer =
        Serializer.create m.packer m.unpacker b.amount_of_channels b.max_addresses
          (R.capacity output);
    controller = Controller.create U m.trigger_config b.amount_of_channels b.priorities;
  }

  pub build_lem :
      (m : Memory F B S I) (b : ScopeBuilder C K M A) (output log : C) (now : ℕ) (k : K)
      → b.timestamp ≡ some now
      → b.output ≡ some output
      → b.communicator ≡ some k
      → b.log_byte_stream ≡ some log
      → 0 < b.amount_of_channels
      → 0 < b.size_of_channels
      → build L R U m b ≡ some (layers m b output)
  unfolding build is_incomplete
  build_lem m b output log now k t o c l a s = ground arith

  -- `ScopeBuilder_build` makes the layers exactly if the builder has a timestamp, an output, a
  -- communicator, a log stream and channels of some size; else it returns null pointers.
  pub build_iff :
      (m : Memory F B S I) (b : ScopeBuilder C K M A)
      → (build L R U m b ≢ none) ↔ (
          (b.timestamp ≢ none)
          × (b.output ≢ none)
          × (b.communicator ≢ none)
          × (b.log_byte_stream ≢ none)
          × (0 < b.amount_of_channels)
          × (0 < b.size_of_channels))
  unfolding build is_incomplete
  build_iff m b = ground arith
