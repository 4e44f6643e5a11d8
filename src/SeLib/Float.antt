-- ===== src/SeLib/Float.antt =====
-- The `float` of the target: its comparisons, the conversion from an integer, and the float that a
-- 32-bit word is. Nothing is assumed of them.
use se_scope_target.Prelude.{ℕ, Bool}
use se_scope_target.Prelude.Int.{ℤ}

pub record Float (F : Type 0) : Type 0 where
  pub zero_float : F
  -- `less a b` is `a < b`, and `same a b` is `a == b`.
  pub less : F → F → Bool
  pub same : F → F → Bool
  pub of_int : ℤ → F
  pub of_bits : ℕ → F
