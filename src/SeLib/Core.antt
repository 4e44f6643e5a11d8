-- ===== src/SeLib/Core.antt =====
-- All that src/Core uses of se-lib-c and of the target's arithmetic.
use se_scope_target.Prelude.{ℕ}
use se_scope_target.SeLib.Ring.{Ring}
use se_scope_target.SeLib.Stream.{Stream}
use se_scope_target.SeLib.Float.{Float}

-- Over the types of floats, of float ring buffers, and of float and int streams.
pub record CoreLib (F B S I : Type 0) : Type 0 where
  pub float : Float F
  pub ring : Ring F B
  pub stream : Stream F S
  pub ints : Stream ℕ I
