-- ===== src/Control/Controller/Sends.antt =====
-- `runTx` of the controller with an event in its queue.
use se_scope_target.Prelude.{◌≡◌, true, false, some, arith}
use se_scope_target.SeLib.Queue.{Queue}
use se_scope_target.ScopeTypes.{MessageType}
use se_scope_target.Control.Controller.{Controller, run_tx, message_needs_to_be_acked}

module _ {F Q : Type 0} (A : Queue Q) where
  pub run_tx_event :
      (c : Controller F Q) (event : MessageType) (q : Q)
      → c.wait_for_ack ≡ false
      → A.empty c.queue ≡ false
      → A.pop c.queue ≡ some (event, q)
      → run_tx A c true 0
        ≡ (record c { queue = q; wait_for_ack = message_needs_to_be_acked event }, true, some event)
  unfolding run_tx
  run_tx_event c event q w e p = ground arith
