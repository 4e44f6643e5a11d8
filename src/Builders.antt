-- ===== src/Builders.antt =====
-- src/Builders: the parts of a scope behind one struct of runnables, and what runs them.
pub mod Threads
pub mod Builder
pub mod Stack
pub mod Receiving
pub mod Sending
mod Tests
use se_scope_target.Prelude.{
  ℕ, zero, suc, ◌+◌, ◌-◌, ◌*◌, ◌/◌, ◌%◌, ◌^◌, ◌<◌, ◌≤◌, ◌≡◌, ◌≢◌, refl, subst, ap, sym, ◌∙◌,
  fun_ext, Bool, true, false, not, ◌||◌, ◌&&◌, List, [], ◌∷◌, ◌++◌, map, Option, none, some,
  if◌then◌else◌, arith, length, append-nil, append_assoc, length-append, length-map, get_elem?-map,
  get_elem?_bound, get_elem?_total, All, Option-cases, Bool-cases, ◌⊎◌, inl, inr, ◌↔◌, u8, u16, u32,
  bool_eq, Returns, Returns-cases, ltb, leb, concat, take_add, drop_add, ◌==◌, or_else, min, take,
  drop, length-take, length-drop, take-append-drop, take-append_ge, take-append_le, drop-append_ge,
  drop-append_le, take_of_length_le, take_last, take_last-append, drop_of_length_le, replicate,
  get_elem?, set, length-set, get_elem?-set_self, get_elem?-set_ne, dec_lt, ℕ_discrete, ==_iff,
}

-- ScopeRunnable: the `run` functions over the state of the whole scope, and the tests that
-- ScopeThreadRunner.c makes. Nothing reads the results of the `run` functions.
pub record ScopeRunnable (T : Type 0) : Type 0 where
  pub run_communication_rx : T → T
  pub run_unpacker : T → T
  pub run_command_parser : T → T
  pub run_scope : T → T
  pub run_data_aggregator : T → T
  pub run_packer : T → T
  pub run_communication_tx : T → T
  pub is_running : T → Bool
  pub is_ready_to_run : T → Bool
  pub command_pending : T → Bool

module _ {T : Type 0} (S : ScopeRunnable T) where
  -- The three calls in turn that send.
  abbrev pub transmit : T → T
  transmit s = S.run_communication_tx (S.run_packer (S.run_data_aggregator s))

  -- `ScopeRunner_run`
  pub run : T → T
  run s =
      let received = S.run_unpacker (S.run_communication_rx s) in
      transmit (S.run_scope (S.run_command_parser received))
