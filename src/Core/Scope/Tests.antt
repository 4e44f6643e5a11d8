-- ===== src/Core/Scope/Tests.antt =====
-- A poll that sends, at a concrete input.
use se_scope_target.Prelude.{ℕ, ◌≡◌, refl, true, [], ◌∷◌, some, arith}
use se_scope_target.SeLib.Models.{ListRing, list_core}
use se_scope_target.ScopeTypes.{sc_data}
use se_scope_target.Core.Channel.{Channel}
use se_scope_target.Core.Channel
use se_scope_target.Core.Timestamper
use se_scope_target.Core.Trigger.{trigger_paused, Rig}
use se_scope_target.Core.Trigger.Machine
use se_scope_target.Core.Trigger.Machine.Handover.{HandedOver, IsFull, handed, run_when_full}
use se_scope_target.Core.Scope.{Scope, sample, poll}
use se_scope_target.Core.Scope.Safety.{poll_sends}
use se_scope_target.Core.Tests.{memory, full_channel, full_rig, full_scope}

abbrev sampled : Rig ℕ (ListRing ℕ) (ListRing ℕ) (ListRing ℕ)
sampled = sample list_core full_rig memory 130

sampled-IsFull : IsFull list_core sampled full_channel
unfolding sample Channel.poll Channel.is_running Timestamper.stamp
sampled-IsFull = record {
  found = refl;
  full = refl;
  read_out = refl;
  stamps_full = refl;
  stamps_read_out = refl;
}

run-sampled : Machine.run list_core sampled ≡ some (handed list_core sampled trigger_paused, true)
unfolding sample
run-sampled = run_when_full list_core sampled full_channel refl sampled-IsFull

abbrev sent_scope : Scope ℕ (ListRing ℕ) (ListRing ℕ) (ListRing ℕ)
sent_scope = record full_scope { rig = handed list_core sampled trigger_paused }

poll-full_scope : poll list_core full_scope memory 130 ≡ some (sent_scope, true, sc_data ∷ [])
unfolding poll Timestamper.update_elapsed_time
poll-full_scope = ground (arith, run-sampled)

poll_sends_example :
    (true ≡ true)
    × (Timestamper.update_elapsed_time list_core.ints full_rig.timestamper 130 ≡ true)
    × HandedOver list_core sampled sent_scope.rig
    × (c : Channel ℕ (ListRing ℕ) (ListRing ℕ)) × IsFull list_core sampled c
poll_sends_example = poll_sends list_core full_scope sent_scope true memory 130 poll-full_scope
