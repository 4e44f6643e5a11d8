-- ===== src/Control/Controller/Steps.antt =====
-- What can happen to a controller, and what can be seen of it.
use se_scope_target.Prelude.{
  ℕ, ◌≡◌, refl, ◌∙◌, Bool, true, false, List, [], ◌∷◌, ◌++◌, none, some, arith,
}
use se_scope_target.SeLib.Core.{CoreLib}
use se_scope_target.SeLib.Queue.{Queue}
use se_scope_target.ScopeTypes.{MessageType}
use se_scope_target.Core.Scope.{Scope}
use se_scope_target.Control.Commands.{Unpacker}
use se_scope_target.Control.Controller.{
  Controller, command_pack_push_event, push_events, command_update, run_tx, run_rx,
}

-- A received message that `runRx` has handled, or a message that `runTx` has sent.
pub data Event : Type 0 where
  received sent : MessageType → Event

module _ {F B S I Q : Type 0} (L : CoreLib F B S I) (A : Queue Q) where
  -- A step, and the events of it. What the scope and the unpacker hold when a command runs is not
  -- restricted.
  pub data Step (c : Controller F Q) : Controller F Q → List Event → Type 0 where
    receives :
        {c' : Controller F Q} (s s' : Scope F B S I) (u : Unpacker F) (memory : ℕ → ℕ) (now : ℕ)
        → run_rx L A c s u memory now ≡ some (c', s', true)
        → Step c c' (received c.command_pending ∷ [])
    waits :
        {c' : Controller F Q} (s s' : Scope F B S I) (u : Unpacker F) (memory : ℕ → ℕ) (now : ℕ)
        → run_rx L A c s u memory now ≡ some (c', s', false)
        → Step c c' []
    sends :
        {c' : Controller F Q} (ready : Bool) (n : ℕ) (e : MessageType)
        → run_tx A c ready n ≡ (c', true, some e)
        → Step c c' (sent e ∷ [])
    holds :
        {c' : Controller F Q} (ready : Bool) (n : ℕ)
        → run_tx A c ready n ≡ (c', false, none)
        → Step c c' []
    notified : (m : MessageType) → Step c (command_pack_push_event A c m) []
    commanded : (m : MessageType) → Step c (command_update A c m) []

  -- Steps in turn, with all their events.
  pub data Runs : Controller F Q → Controller F Q → List Event → Type 0 where
    stays : {c : Controller F Q} → Runs c c []
    steps :
        {c d e : Controller F Q} {xs ys : List Event}
        → Step c d xs
        → Runs d e ys
        → Runs c e (xs ++ ys)

  pub push_lock :
      (c : Controller F Q) (m : MessageType)
      → (command_pack_push_event A c m).wait_for_ack ≡ c.wait_for_ack
  unfolding command_pack_push_event
  push_lock c m = ground arith

  pub push_events_lock :
      (c : Controller F Q) (ms : List MessageType)
      → (push_events A c ms).wait_for_ack ≡ c.wait_for_ack
  unfolding push_events
  push_events_lock c [] = refl
  push_events_lock c (m ∷ ms) = push_events_lock (command_pack_push_event A c m) ms ∙ push_lock c m
