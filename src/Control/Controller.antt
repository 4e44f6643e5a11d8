-- ===== src/Control/Controller.antt =====
-- src/Control/Controller.c: received messages wait in `commandPending` for `runRx`, messages to the
-- host in a queue for `runTx`, which waits for an acknowledge after some of them.
pub mod Steps
pub mod Lock
pub mod Contents
pub mod Receives
pub mod Sends
mod Tests
use se_scope_target.Prelude.{
  ℕ, zero, suc, ◌+◌, ◌-◌, ◌*◌, ◌/◌, ◌%◌, ◌^◌, ◌<◌, ◌≤◌, ◌≡◌, ◌≢◌, refl, subst, ap, sym, ◌∙◌,
  fun_ext, Bool, true, false, not, ◌||◌, ◌&&◌, List, [], ◌∷◌, ◌++◌, map, Option, none, some,
  if◌then◌else◌, arith, length, append-nil, append_assoc, length-append, length-map, get_elem?-map,
  get_elem?_bound, get_elem?_total, All, Option-cases, Bool-cases, ◌⊎◌, inl, inr, ◌↔◌, u8, u16, u32,
  bool_eq, Returns, Returns-cases, ltb, leb, concat, take_add, drop_add, ◌==◌, or_else, min, take,
  drop, length-take, length-drop, take-append-drop, take-append_ge, take-append_le, drop-append_ge,
  drop-append_le, take_of_length_le, take_last, take_last-append, drop_of_length_le, replicate,
  get_elem?, set, length-set, get_elem?-set_self, get_elem?-set_ne, dec_lt, ℕ_discrete, ==_iff,
}
use se_scope_target.SeLib.Core.{CoreLib}
use se_scope_target.SeLib.Queue.{Queue}
use se_scope_target.ScopeTypes.{
  MessageType, MessagePriorities, TriggerConfiguration, low_priority, se_none, se_nak, se_ack,
  sc_data, sc_announce, sc_detect, sc_stream, sc_log, ev_announce,
}
use se_scope_target.Core.Trigger.{◌>>=◌}
use se_scope_target.Core.Scope.{Scope}
use se_scope_target.Control.Commands.{Commands, Unpacker, create_commands, dispatch}

-- ControllerPrivateData without the handles of the other parts, over the type of the queue.
pub record Controller (F Q : Type 0) : Type 0 where
  pub commands : Commands F
  pub command_pending : MessageType
  pub wait_for_ack : Bool
  pub queue : Q
  pub priorities : MessagePriorities

abbrev pub message_needs_to_be_acked : MessageType → Bool
message_needs_to_be_acked m = (m == sc_log) || ((m == sc_data) || (m == sc_stream))

abbrev pub message_can_unlock_ack_lock : MessageType → Bool
message_can_unlock_ack_lock m = leb ev_announce m || ((m == se_nak) || (m == se_ack))

module _ {F Q : Type 0} (A : Queue Q) where
  pub command_pack_push_event : Controller F Q → MessageType → Controller F Q
  command_pack_push_event c event =
      if event == se_nak
      then record c { queue = A.push c.queue se_nak 0 }
      else if event == se_ack
      then record c { queue = A.push c.queue se_ack 0 }
      else if event == sc_data
      then record c { queue = A.push c.queue sc_data c.priorities.data_priority }
      else if event == sc_announce
      then record c { queue = A.push c.queue sc_announce 1 }
      else if event == sc_detect
      then record c { queue = A.push c.queue sc_detect 1 }
      else if event == sc_stream
      then record c { queue = A.push c.queue sc_stream c.priorities.stream_priority }
      else if event == sc_log
      then (if not (A.contains c.queue sc_log)
          then record c { queue = A.push c.queue sc_log c.priorities.log_priority }
          else c)
      else c

  -- The updates of the pack observer, in turn.
  pub push_events : Controller F Q → List MessageType → Controller F Q
  unfolding command_pack_push_event
  push_events c [] = c
  push_events c (m ∷ ms) = push_events (command_pack_push_event c m) ms

  -- `commandUpdate`
  pub command_update : Controller F Q → MessageType → Controller F Q
  command_update c m = record c { command_pending = m }

  -- `runTx`, when the packer is ready or not and the log stream has `log_length` bytes: its result, and
  -- the event that is packed and handed to the pack observer.
  pub run_tx : Controller F Q → Bool → ℕ → Controller F Q × Bool × Option MessageType
  unfolding command_pack_push_event
  run_tx c ready log_length =
      if not ready
      then (c, false, none)
      else if c.wait_for_ack
      then (c, false, none)
      else let c' = if ltb 0 log_length then command_pack_push_event c sc_log else c in
        if A.empty c'.queue then (c', false, none) else elim (A.pop c'.queue) [
          | none ↦ (c', false, none)
          | some (event, q) ↦ (
            record c' { queue = q; wait_for_ack = message_needs_to_be_acked event },
            true,
            some event,
          )
        ]

  -- `Controller_create`
  unfoldable pub create : TriggerConfiguration F → ℕ → MessagePriorities → Controller F Q
  create raw amount priorities = record {
    commands = create_commands raw amount;
    command_pending = se_none;
    wait_for_ack = true;
    queue = A.create (low_priority + 1) 10 3;
    priorities = priorities;
  }

module _ {F B S I Q : Type 0} (L : CoreLib F B S I) (A : Queue Q) where
  -- `runRx`. The observer of the scope and of the commands is the controller's own, so that what they
  -- tell it goes to the queue.
  pub run_rx :
      Controller F Q
      → Scope F B S I
      → Unpacker F
      → (ℕ → ℕ)
      → ℕ
      → Option (Controller F Q × Scope F B S I × Bool)
  run_rx c s u memory now =
      if c.command_pending == se_none
      then some (c, s, false)
      else if c.command_pending == se_nak
      then some (
        record (command_pack_push_event A c c.command_pending) { command_pending = se_none },
        s,
        true,
      )
      else let c' =
          if message_can_unlock_ack_lock c.command_pending
          then record c { wait_for_ack = false }
          else c in
        (dispatch L c'.commands u s memory now c'.command_pending >>= λ r. some (
          record (push_events A (record c' { commands = r.0 }) r.2) { command_pending = se_none },
          r.1,
          true,
        ))
