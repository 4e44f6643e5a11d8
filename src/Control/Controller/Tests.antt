-- ===== src/Control/Controller/Tests.antt =====
-- The theorems on the controller at concrete inputs.
use se_scope_target.Prelude.{ℕ, ◌≡◌, refl, true, false, List, [], ◌∷◌, none, some}
use se_scope_target.ScopeTypes.{
  MessagePriorities, TriggerConfiguration, se_none, se_ack, sc_data, sc_log,
}
use se_scope_target.Control.Controller.{Controller, command_pack_push_event, run_tx, create}
use se_scope_target.SeLib.Models.{list_core}
use se_scope_target.SeLib.ListQueue.{list_queue}
use se_scope_target.Control.Commands.{create_commands}
use se_scope_target.Control.Controller.Steps.{sent, sends, holds, notified, stays, steps}
use se_scope_target.Control.Controller.Lock.{Ordered, Runs-Ordered}
use se_scope_target.Control.Controller.Contents.{IsSound, SentForHost, create-Runs}

abbrev conf : TriggerConfiguration ℕ
conf = record { level = 5; edge = true; mode = 0; channel_id = 0 }

abbrev priorities : MessagePriorities
priorities = record { data_priority = 2; log_priority = 3; stream_priority = 4 }

-- A controller with data to send.
abbrev busy : Controller ℕ (List ℕ)
busy = record {
  commands = create_commands conf 1;
  command_pending = se_none;
  wait_for_ack = false;
  queue = sc_data ∷ se_ack ∷ [];
  priorities = priorities;
}

abbrev locked : Controller ℕ (List ℕ)
locked = record busy { queue = se_ack ∷ []; wait_for_ack = true }

busy-sends : run_tx list_queue busy true 0 ≡ (locked, true, some sc_data)
unfolding run_tx
busy-sends = refl

locked-holds : run_tx list_queue locked true 0 ≡ (locked, false, none)
unfolding run_tx
locked-holds = refl

Runs-Ordered_example : Ordered false (sent sc_data ∷ [])
Runs-Ordered_example =
    Runs-Ordered list_core list_queue
      (steps (sends true 0 sc_data busy-sends) (steps (holds true 0 locked-holds) stays))

create-Runs_example :
    IsSound list_core list_queue
      (command_pack_push_event list_queue
        (command_pack_push_event list_queue (create list_queue conf 1 priorities) sc_log)
        sc_log).queue
    × SentForHost []
create-Runs_example =
    create-Runs list_core list_queue conf 1 priorities
      (steps (notified sc_log) (steps (notified sc_log) stays))
