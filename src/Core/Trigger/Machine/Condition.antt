-- ===== src/Core/Trigger/Machine/Condition.antt =====
-- The trigger condition, for floats that are ordered as numbers are.
use se_scope_target.Prelude.{ℕ, ◌<◌, ◌≤◌, ◌≡◌, refl, Bool, true, false, arith, ◌↔◌, ltb, ◌==◌}
use se_scope_target.SeLib.Core.{CoreLib}
use se_scope_target.Core.Trigger.{Trigger, check_current_data}

module _ {F B S I : Type 0} (L : CoreLib F B S I) (rank : F → ℕ)
    (less_lem : (a b : F) → L.float.less a b ≡ ltb (rank a) (rank b))
    (same_lem : (a b : F) → L.float.same a b ≡ (rank a == rank b)) where
  -- Between two successive samples the signal crosses a level in the direction of an edge, rising or
  -- falling: the samples differ in that direction, and the level is neither below the lower nor above
  -- the higher of them.
  abbrev pub Crosses : Bool → F → F → F → Type 0
  Crosses true level old new =
      (rank old < rank new) × (rank old ≤ rank level) × (rank level ≤ rank new)
  Crosses false level old new =
      (rank new < rank old) × (rank new ≤ rank level) × (rank level ≤ rank old)

  -- For floats whose `<` and `==` are those of a number, as they are without NaN, the trigger
  -- condition holds exactly when the signal crosses the level in the direction of the edge.
  pub check_current_data_iff :
      (t : Trigger F) (old new : F)
      → (check_current_data L t old new ≡ true) ↔ Crosses t.edge t.level old new
  unfolding check_current_data
  check_current_data_iff t old new = by_edge t.edge refl
    where
      by_edge :
          (b : Bool)
          → t.edge ≡ b
          → (check_current_data L t old new ≡ true) ↔ Crosses t.edge t.level old new
      by_edge true e =
          ground
            (arith, less_lem old new, same_lem new old, less_lem t.level old, less_lem new t.level)
      by_edge false e =
          ground
            (arith, less_lem old new, same_lem new old, less_lem t.level new, less_lem old t.level)
