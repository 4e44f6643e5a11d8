-- ===== src/Builders/Threads/Exclusion.antt =====
-- The threads exclude each other from the configuration and from the data.
use se_scope_target.Prelude.{◌≡◌, refl, Bool, true, false, ◌||◌, ◌&&◌, arith}
use se_scope_target.Builders.{ScopeRunnable}
use se_scope_target.Builders.Threads.{
  ScopePc, StackPc, World, ScopeStep, StackStep, Reached, scope_idle, scope_data, scope_ran,
  stack_config, stack_parsed, stack_data, stack_aggregated, stack_packed, stack_sent,
  scope_locks_config, scope_wants_data, scope_rests, scope_locks_data, scope_skips, scope_runs,
  scope_unlocks_data, scope_unlocks_config, receives, unpacks, finds_command, finds_none,
  stack_locks_config, skips_command, parses, stack_unlocks_config, stack_locks_data, skips_sending,
  aggregates, packs, sends, stack_unlocks_data, at_start, scope_steps, stack_steps,
}

-- Who is between `lock` and `unlock` of a mutex.
abbrev pub scope_has_config : ScopePc → Bool
scope_has_config scope_idle = false
scope_has_config _ = true

abbrev pub scope_has_data : ScopePc → Bool
scope_has_data scope_data = true
scope_has_data scope_ran = true
scope_has_data _ = false

abbrev pub stack_has_config : StackPc → Bool
stack_has_config stack_config = true
stack_has_config stack_parsed = true
stack_has_config _ = false

abbrev pub stack_has_data : StackPc → Bool
stack_has_data stack_data = true
stack_has_data stack_aggregated = true
stack_has_data stack_packed = true
stack_has_data stack_sent = true
stack_has_data _ = false

-- A mutex is locked exactly if one of the threads has it, and never do both.
pub record IsExclusive {T : Type 0} (w : World T) : Type 0 where
  pub config_flag : w.config_locked ≡ (scope_has_config w.scope || stack_has_config w.stack)
  pub data_flag : w.data_locked ≡ (scope_has_data w.scope || stack_has_data w.stack)
  pub config_alone : (scope_has_config w.scope && stack_has_config w.stack) ≡ false
  pub data_alone : (scope_has_data w.scope && stack_has_data w.stack) ≡ false

module _ {T : Type 0} (S : ScopeRunnable T) where
  ScopeStep-IsExclusive : {v w : World T} → ScopeStep S v w → IsExclusive v → IsExclusive w
  ScopeStep-IsExclusive (scope_locks_config h l) i = ground arith
  ScopeStep-IsExclusive (scope_wants_data h l) i = ground arith
  ScopeStep-IsExclusive (scope_rests h l) i = ground arith
  ScopeStep-IsExclusive (scope_locks_data h l) i = ground arith
  ScopeStep-IsExclusive (scope_skips h) i = ground arith
  ScopeStep-IsExclusive (scope_runs h) i = ground arith
  ScopeStep-IsExclusive (scope_unlocks_data h) i = ground arith
  ScopeStep-IsExclusive (scope_unlocks_config h) i = ground arith

  StackStep-IsExclusive : {v w : World T} → StackStep S v w → IsExclusive v → IsExclusive w
  StackStep-IsExclusive (receives h) i = ground arith
  StackStep-IsExclusive (unpacks h) i = ground arith
  StackStep-IsExclusive (finds_command h l) i = ground arith
  StackStep-IsExclusive (finds_none h l) i = ground arith
  StackStep-IsExclusive (stack_locks_config h l) i = ground arith
  StackStep-IsExclusive (skips_command h) i = ground arith
  StackStep-IsExclusive (parses h) i = ground arith
  StackStep-IsExclusive (stack_unlocks_config h) i = ground arith
  StackStep-IsExclusive (stack_locks_data h l) i = ground arith
  StackStep-IsExclusive (skips_sending h) i = ground arith
  StackStep-IsExclusive (aggregates h) i = ground arith
  StackStep-IsExclusive (packs h) i = ground arith
  StackStep-IsExclusive (sends h) i = ground arith
  StackStep-IsExclusive (stack_unlocks_data h) i = ground arith

  -- In every interleaving of the two threads from the start, each mutex is locked exactly if one of the
  -- threads has it, and never do both: the scope does not run while the command parser reconfigures
  -- it, nor while the stack aggregates, packs and sends.
  pub Reached-IsExclusive : (s : T) {w : World T} → Reached S s w → IsExclusive w
  Reached-IsExclusive s at_start = record {
    config_flag = refl;
    data_flag = refl;
    config_alone = refl;
    data_alone = refl;
  }
  Reached-IsExclusive s (scope_steps r step) = ScopeStep-IsExclusive step (Reached-IsExclusive s r)
  Reached-IsExclusive s (stack_steps r step) = StackStep-IsExclusive step (Reached-IsExclusive s r)
