-- ===== src/Control/Commands/Accepted.antt =====
-- The entries of a CF_RUNNING message on their way from the getters to the scope.
use se_scope_target.Prelude.{
  ℕ, zero, suc, ◌+◌, ◌<◌, ◌≤◌, ◌≡◌, refl, ap, ◌∙◌, true, List, [], ◌∷◌, map, some, arith, length,
  length-map, All,
}
use se_scope_target.SeLib.Core.{CoreLib}
use se_scope_target.ScopeTypes.{se_ack, cf_running}
use se_scope_target.Core.Trigger.{◌>>=◌}
use se_scope_target.Core.Scope.{Scope}
use se_scope_target.Control.Commands.{
  Commands, Unpacker, CfRunningDef, running_entry, running_entries_pass, set_running_attributes,
  parse_running, run_running, with_commands, dispatch, entries,
}
use se_scope_target.Control.Commands.Answers.{run_running_ack}

-- All channels exist.
abbrev pub InRange : ℕ → List CfRunningDef → Type 0
InRange amount ds = All (λ (d : CfRunningDef). d.id < amount) ds

pub length-entries : {A : Type 0} (f : ℕ → A) (i n : ℕ) → length (entries f i n) ≡ n
unfolding entries
length-entries f i zero = refl
length-entries f i (suc n) = ap suc (length-entries f (i + 1) n)

running_entries_pass_all :
    (amount : ℕ) (ds : List CfRunningDef)
    → InRange amount ds
    → running_entries_pass amount (map running_entry ds) ≡ true
unfolding running_entries_pass
running_entries_pass_all amount [] h = refl
running_entries_pass_all amount (d ∷ ds) (h, hs) =
    ground (arith, running_entries_pass_all amount ds hs)

map-InRange :
    (amount : ℕ) (ds : List CfRunningDef)
    → InRange amount ds
    → All (λ e. e.changed_channel < amount) (map running_entry ds)
map-InRange amount [] h = tt
map-InRange amount (d ∷ ds) (h, hs) = (h, map-InRange amount ds hs)

module _ {F B S I : Type 0} (L : CoreLib F B S I) where
  set_running_attributes_all :
      (c : Commands F) (ds : List CfRunningDef)
      → length ds ≤ c.amount_of_channels
      → InRange c.amount_of_channels ds
      → set_running_attributes c (map running_entry ds)
        ≡ record c { running_config = map running_entry ds }
  unfolding set_running_attributes
  set_running_attributes_all c ds l h =
      ground
        (arith, length-map running_entry ds, running_entries_pass_all c.amount_of_channels ds h)

  -- With getters that return existing channels, no more than there are: the command keeps them, applies
  -- them all in turn, and answers with an acknowledge.
  pub dispatch-running_accepted :
      (c : Commands F) (u : Unpacker F) (s : Scope F B S I) (memory : ℕ → ℕ) (now : ℕ)
      (ds : List CfRunningDef)
      → entries u.cf_running_get_channel 0 u.cf_running_get_amount ≡ ds
      → u.cf_running_get_amount ≤ c.amount_of_channels
      → length ds ≤ c.amount_of_channels
      → InRange c.amount_of_channels ds
      → dispatch L c u s memory now cf_running
        ≡ some (
          record c { running_config = map running_entry ds },
          (run_running L c.amount_of_channels s (map running_entry ds)).0,
          se_ack ∷ [],
        )
  unfolding dispatch parse_running
  dispatch-running_accepted c u s memory now ds e a l h =
      let es = map running_entry ds in
      let parsed : parse_running c u ≡ some (record c { running_config = es }) =
        ground (arith, set_running_attributes_all c ds l h, e) in
      let answer =
        (run_running_ack L c.amount_of_channels s es).1 (map-InRange c.amount_of_channels ds h) in
      ap
        (λ q.
          q >>= λ c'. with_commands L c' (run_running L c'.amount_of_channels s c'.running_config))
        parsed
      ∙ ap
          (λ m.
            some (record c { running_config = es }, (run_running L c.amount_of_channels s es).0, m))
          answer
