-- ===== src/Builders/Threads.antt =====
-- src/Builders/ScopeThreadRunner.c: the scope and the stack in two threads, in steps of one call each.
-- A mutex is locked or not, `lock` with no timeout may fail at any time, and has success only if the
-- mutex is free.
pub mod Exclusion
pub mod Serial
use se_scope_target.Prelude.{
  ℕ, zero, suc, ◌+◌, ◌-◌, ◌*◌, ◌/◌, ◌%◌, ◌^◌, ◌<◌, ◌≤◌, ◌≡◌, ◌≢◌, refl, subst, ap, sym, ◌∙◌,
  fun_ext, Bool, true, false, not, ◌||◌, ◌&&◌, List, [], ◌∷◌, ◌++◌, map, Option, none, some,
  if◌then◌else◌, arith, length, append-nil, append_assoc, length-append, length-map, get_elem?-map,
  get_elem?_bound, get_elem?_total, All, Option-cases, Bool-cases, ◌⊎◌, inl, inr, ◌↔◌, u8, u16, u32,
  bool_eq, Returns, Returns-cases, ltb, leb, concat, take_add, drop_add, ◌==◌, or_else, min, take,
  drop, length-take, length-drop, take-append-drop, take-append_ge, take-append_le, drop-append_ge,
  drop-append_le, take_of_length_le, take_last, take_last-append, drop_of_length_le, replicate,
  get_elem?, set, length-set, get_elem?-set_self, get_elem?-set_ne, dec_lt, ℕ_discrete, ==_iff,
}
use se_scope_target.Builders.{ScopeRunnable, transmit}

-- Where `ScopeThreadRunner_runScope` stands, and between its calls.
pub data ScopePc : Type 0 where
  scope_idle scope_config scope_wanting scope_data scope_ran scope_leaving : ScopePc

-- Where `ScopeThreadRunner_runStack` stands.
pub data StackPc : Type 0 where
  stack_idle stack_received stack_unpacked stack_pending stack_config stack_parsed stack_sending
        stack_data stack_aggregated stack_packed stack_sent :
      StackPc

pub record World (T : Type 0) : Type 0 where
  pub state : T
  pub config_locked : Bool
  pub data_locked : Bool
  pub scope : ScopePc
  pub stack : StackPc

abbrev pub wants_data : {T : Type 0} → ScopeRunnable T → T → Bool
wants_data S s = S.is_running s || S.is_ready_to_run s

-- One step of `ScopeThreadRunner_runScope`.
pub data ScopeStep {T : Type 0} (S : ScopeRunnable T) : World T → World T → Type 0 where
  scope_locks_config :
      {w : World T}
      → w.scope ≡ scope_idle
      → w.config_locked ≡ false
      → ScopeStep S w (record w { config_locked = true; scope = scope_config })
  scope_wants_data :
      {w : World T}
      → w.scope ≡ scope_config
      → wants_data S w.state ≡ true
      → ScopeStep S w (record w { scope = scope_wanting })
  scope_rests :
      {w : World T}
      → w.scope ≡ scope_config
      → wants_data S w.state ≡ false
      → ScopeStep S w (record w { scope = scope_leaving })
  scope_locks_data :
      {w : World T}
      → w.scope ≡ scope_wanting
      → w.data_locked ≡ false
      → ScopeStep S w (record w { data_locked = true; scope = scope_data })
  scope_skips :
      {w : World T} → w.scope ≡ scope_wanting → ScopeStep S w (record w { scope = scope_leaving })
  scope_runs :
      {w : World T}
      → w.scope ≡ scope_data
      → ScopeStep S w (record w { state = S.run_scope w.state; scope = scope_ran })
  scope_unlocks_data :
      {w : World T}
      → w.scope ≡ scope_ran
      → ScopeStep S w (record w { data_locked = false; scope = scope_leaving })
  scope_unlocks_config :
      {w : World T}
      → w.scope ≡ scope_leaving
      → ScopeStep S w (record w { config_locked = false; scope = scope_idle })

-- One step of `ScopeThreadRunner_runStack`.
pub data StackStep {T : Type 0} (S : ScopeRunnable T) : World T → World T → Type 0 where
  receives :
      {w : World T}
      → w.stack ≡ stack_idle
      → StackStep S w (record w { state = S.run_communication_rx w.state; stack = stack_received })
  unpacks :
      {w : World T}
      → w.stack ≡ stack_received
      → StackStep S w (record w { state = S.run_unpacker w.state; stack = stack_unpacked })
  finds_command :
      {w : World T}
      → w.stack ≡ stack_unpacked
      → S.command_pending w.state ≡ true
      → StackStep S w (record w { stack = stack_pending })
  finds_none :
      {w : World T}
      → w.stack ≡ stack_unpacked
      → S.command_pending w.state ≡ false
      → StackStep S w (record w { stack = stack_sending })
  stack_locks_config :
      {w : World T}
      → w.stack ≡ stack_pending
      → w.config_locked ≡ false
      → StackStep S w (record w { config_locked = true; stack = stack_config })
  skips_command :
      {w : World T} → w.stack ≡ stack_pending → StackStep S w (record w { stack = stack_sending })
  parses :
      {w : World T}
      → w.stack ≡ stack_config
      → StackStep S w (record w { state = S.run_command_parser w.state; stack = stack_parsed })
  stack_unlocks_config :
      {w : World T}
      → w.stack ≡ stack_parsed
      → StackStep S w (record w { config_locked = false; stack = stack_sending })
  stack_locks_data :
      {w : World T}
      → w.stack ≡ stack_sending
      → w.data_locked ≡ false
      → StackStep S w (record w { data_locked = true; stack = stack_data })
  skips_sending :
      {w : World T} → w.stack ≡ stack_sending → StackStep S w (record w { stack = stack_idle })
  aggregates :
      {w : World T}
      → w.stack ≡ stack_data
      → StackStep S w (record w { state = S.run_data_aggregator w.state; stack = stack_aggregated })
  packs :
      {w : World T}
      → w.stack ≡ stack_aggregated
      → StackStep S w (record w { state = S.run_packer w.state; stack = stack_packed })
  sends :
      {w : World T}
      → w.stack ≡ stack_packed
      → StackStep S w (record w { state = S.run_communication_tx w.state; stack = stack_sent })
  stack_unlocks_data :
      {w : World T}
      → w.stack ≡ stack_sent
      → StackStep S w (record w { data_locked = false; stack = stack_idle })

abbrev pub started : {T : Type 0} → T → World T
started s = record {
  state = s;
  config_locked = false;
  data_locked = false;
  scope = scope_idle;
  stack = stack_idle;
}

-- What any interleaving of the threads reaches.
pub data Reached {T : Type 0} (S : ScopeRunnable T) (s : T) : World T → Type 0 where
  at_start : Reached S s (started s)
  scope_steps : {v w : World T} → Reached S s v → ScopeStep S v w → Reached S s w
  stack_steps : {v w : World T} → Reached S s v → StackStep S v w → Reached S s w
