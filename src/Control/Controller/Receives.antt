-- ===== src/Control/Controller/Receives.antt =====
-- `runRx` of the controller: it has a result, keeps the scope sound, and leaves no command pending.
use se_scope_target.Prelude.{
  ℕ, ◌≤◌, ◌≡◌, refl, subst, ap, sym, ◌∙◌, Bool, true, false, List, [], ◌∷◌, Option, some, arith,
  length, inr, Returns, Returns-cases, ==_iff,
}
use se_scope_target.SeLib.Core.{CoreLib}
use se_scope_target.SeLib.Queue.{Queue}
use se_scope_target.ScopeTypes.{MessageType, se_none}
use se_scope_target.Core.Trigger.{◌>>=◌}
use se_scope_target.Core.Trigger.Machine.Invariant.{IsSound}
use se_scope_target.Core.Scope.{Scope}
use se_scope_target.Control.Commands.{Commands, Unpacker, dispatch}
use se_scope_target.Control.Commands.Safety.{dispatch-Keeps}
use se_scope_target.Control.Commands.Amount.{amount-dispatch}
use se_scope_target.Control.Controller.{
  Controller, command_pack_push_event, push_events, command_update, run_rx,
}

module _ {F B S I Q : Type 0} (L : CoreLib F B S I) (A : Queue Q) where
  commands-command_pack_push_event :
      (c : Controller F Q) (m : MessageType) → (command_pack_push_event A c m).commands ≡ c.commands
  unfolding command_pack_push_event
  commands-command_pack_push_event c m = ground arith

  pub commands-command_update :
      (c : Controller F Q) (m : MessageType) → (command_update A c m).commands ≡ c.commands
  unfolding command_update
  commands-command_update c m = refl

  commands-push_events :
      (c : Controller F Q) (ms : List MessageType) → (push_events A c ms).commands ≡ c.commands
  unfolding push_events
  commands-push_events c [] = refl
  commands-push_events c (m ∷ ms) =
      commands-push_events (command_pack_push_event A c m) ms ∙ commands-command_pack_push_event c m

  -- The result of `runRx` on a scope that is sound.
  abbrev pub Received :
      Controller F Q → Scope F B S I → Controller F Q × Scope F B S I × Bool → Type 0
  Received c s r =
      (r.0.command_pending ≡ se_none)
      × (r.0.commands.amount_of_channels ≡ c.commands.amount_of_channels)
      × IsSound L r.1.rig
      × (length r.1.rig.channels ≡ length s.rig.channels)

  -- The branch of `runRx` that runs a command.
  abbrev run_command :
      Controller F Q
      → Scope F B S I
      → Unpacker F
      → (ℕ → ℕ)
      → ℕ
      → Option (Controller F Q × Scope F B S I × Bool)
  run_command c s u memory now = dispatch L c.commands u s memory now c.command_pending >>= λ r.
      some (
        record (push_events A (record c { commands = r.0 }) r.2) { command_pending = se_none },
        r.1,
        true,
      )

  run_command-Received :
      (c : Controller F Q) (s : Scope F B S I) (u : Unpacker F) (memory : ℕ → ℕ) (now : ℕ)
      → IsSound L s.rig
      → u.cf_running_get_amount ≤ c.commands.amount_of_channels
      → Returns (Received c s) (run_command c s u memory now)
  run_command-Received c s u memory now v h =
      let (r, e, kept) =
        Returns-cases (λ r. IsSound L r.1.rig × (length r.1.rig.channels ≡ length s.rig.channels))
          (dispatch L c.commands u s memory now c.command_pending)
          (dispatch-Keeps L c.commands u s memory now c.command_pending v (inr h)) in
      let amount = amount-dispatch L c.commands u s memory now c.command_pending r e in
      let pushed = commands-push_events (record c { commands = r.0 }) r.2 in
      subst
        (λ o. Returns (Received c s) (
          o >>= λ r. some (
            record (push_events A (record c { commands = r.0 }) r.2) { command_pending = se_none },
            r.1,
            true,
          )))
        (sym e)
        (refl, ap (λ (k : Commands F). k.amount_of_channels) pushed ∙ amount, kept.0, kept.1)

  pub run_rx-Received :
      (c : Controller F Q) (s : Scope F B S I) (u : Unpacker F) (memory : ℕ → ℕ) (now : ℕ)
      → IsSound L s.rig
      → u.cf_running_get_amount ≤ c.commands.amount_of_channels
      → Returns (Received c s) (run_rx L A c s u memory now)
  unfolding run_rx
  run_rx-Received c s u memory now v h =
      let nak = commands-command_pack_push_event c c.command_pending in
      ground (
        arith,
        ==_iff c.command_pending se_none,
        ap (λ (k : Commands F). k.amount_of_channels) nak,
        run_command-Received c s u memory now v h,
        run_command-Received (record c { wait_for_ack = false }) s u memory now v h,
      )
