-- ===== src/Control/Controller/Lock.antt =====
-- The acknowledge lock.
use se_scope_target.Prelude.{
  ℕ, ◌≡◌, refl, subst, sym, Bool, true, false, not, ◌||◌, ◌&&◌, List, [], ◌∷◌, ◌++◌, none, some,
  if◌then◌else◌, arith, Option-cases, inl, inr, leb, ◌==◌,
}
use se_scope_target.SeLib.Core.{CoreLib}
use se_scope_target.SeLib.Queue.{Queue}
use se_scope_target.ScopeTypes.{MessageType, se_ack, sc_log, ev_announce}
use se_scope_target.Core.Scope.{Scope}
use se_scope_target.Control.Commands.{Unpacker, dispatch}
use se_scope_target.Control.Controller.{
  Controller, message_needs_to_be_acked, message_can_unlock_ack_lock, command_update, run_tx,
  run_rx,
}
use se_scope_target.Control.Controller.Steps.{
  Event, received, sent, Step, Runs, receives, waits, sends, holds, notified, commanded, stays,
  steps, push_lock, push_events_lock,
}

-- The messages that end the wait for an acknowledge: an acknowledge, or any command of the host.
abbrev pub releases : MessageType → Bool
releases m = (m == se_ack) || leb ev_announce m

-- The protocol: while an acknowledge is due, nothing is sent; it is due after a message that needs
-- one, until a message comes that releases it.
pub Ordered : Bool → List Event → Type 0
Ordered due [] = Unit {0}
Ordered due (received m ∷ es) = Ordered (due && not (releases m)) es
Ordered true (sent m ∷ es) = ⊥
Ordered false (sent m ∷ es) = Ordered (message_needs_to_be_acked m) es

module _ {F B S I Q : Type 0} (L : CoreLib F B S I) (A : Queue Q) where
  run_rx_lock :
      (c c' : Controller F Q) (s s' : Scope F B S I) (u : Unpacker F) (memory : ℕ → ℕ) (now : ℕ)
      → run_rx L A c s u memory now ≡ some (c', s', true)
      → c'.wait_for_ack ≡ (c.wait_for_ack && not (releases c.command_pending))
  unfolding run_rx
  run_rx_lock c c' s s' u memory now e =
      let m = c.command_pending in
      let c1 = if message_can_unlock_ack_lock m then record c { wait_for_ack = false } else c in
      elim (Option-cases (dispatch L c1.commands u s memory now c1.command_pending)) [
        | inl p ↦ ground (arith, push_lock L A c m)
        | inr (r, p) ↦
            ground
              (arith, push_lock L A c m, push_events_lock L A (record c1 { commands = r.0 }) r.2)
      ]

  run_tx_lock :
      (c c' : Controller F Q) (ready : Bool) (n : ℕ) (m : MessageType)
      → run_tx A c ready n ≡ (c', true, some m)
      → (c.wait_for_ack ≡ false) × (c'.wait_for_ack ≡ message_needs_to_be_acked m)
  unfolding run_tx
  run_tx_lock c c' ready n m e = ground (arith, push_lock L A c sc_log)

  run_tx-holds :
      (c c' : Controller F Q) (ready : Bool) (n : ℕ)
      → run_tx A c ready n ≡ (c', false, none)
      → c'.wait_for_ack ≡ c.wait_for_ack
  unfolding run_tx
  run_tx-holds c c' ready n e = ground (arith, push_lock L A c sc_log)

  run_rx-waits :
      (c c' : Controller F Q) (s s' : Scope F B S I) (u : Unpacker F) (memory : ℕ → ℕ) (now : ℕ)
      → run_rx L A c s u memory now ≡ some (c', s', false)
      → c' ≡ c
  unfolding run_rx
  run_rx-waits c c' s s' u memory now e =
      let m = c.command_pending in
      let c1 = if message_can_unlock_ack_lock m then record c { wait_for_ack = false } else c in
      elim (Option-cases (dispatch L c1.commands u s memory now c1.command_pending)) [
        | inl p ↦ ground arith
        | inr (r, p) ↦ ground arith
      ]

  command_update_lock :
      (c : Controller F Q) (m : MessageType) → (command_update A c m).wait_for_ack ≡ c.wait_for_ack
  unfolding command_update
  command_update_lock c m = refl

  Ordered-Step :
      {c d : Controller F Q} {xs : List Event} (ys : List Event)
      → Step L A c d xs
      → Ordered d.wait_for_ack ys
      → Ordered c.wait_for_ack (xs ++ ys)
  unfolding Ordered
  Ordered-Step {c} {d} ys (receives s s' u memory now e) o =
      subst (λ b. Ordered b ys) (run_rx_lock c d s s' u memory now e) o
  Ordered-Step {c} {d} ys (waits s s' u memory now e) o =
      subst (λ (k : Controller F Q). Ordered k.wait_for_ack ys)
        (run_rx-waits c d s s' u memory now e) o
  Ordered-Step {c} {d} ys (sends ready n m e) o =
      let (free, due) = run_tx_lock c d ready n m e in
      subst (λ b. Ordered b (sent m ∷ ys)) (sym free) (subst (λ b. Ordered b ys) due o)
  Ordered-Step {c} {d} ys (holds ready n e) o =
      subst (λ b. Ordered b ys) (run_tx-holds c d ready n e) o
  Ordered-Step {c} ys (notified m) o = subst (λ b. Ordered b ys) (push_lock L A c m) o
  Ordered-Step {c} ys (commanded m) o = subst (λ b. Ordered b ys) (command_update_lock c m) o

  -- Whatever is done with a controller, in any order: while an acknowledge is due, it sends nothing; one
  -- is due at the start if the controller waits for it then, and after each message that needs one,
  -- until an acknowledge or a command of the host comes.
  pub Runs-Ordered :
      {c d : Controller F Q} {es : List Event} → Runs L A c d es → Ordered c.wait_for_ack es
  unfolding Ordered
  Runs-Ordered stays = tt
  Runs-Ordered (steps {xs = xs} {ys = ys} s r) = Ordered-Step ys s (Runs-Ordered r)
