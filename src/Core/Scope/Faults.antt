-- ===== src/Core/Scope/Faults.antt =====
-- `Scope_poll` with the faults of its pointers: the address of a channel that cannot be read, and the
-- observer that is not attached yet. Where neither comes up it is the poll of the module above, whose
-- memory can be read everywhere and whose observer is attached.
use se_scope_target.Prelude.{
  Bool-cases, ◌∷◌, get_elem?, ℕ, ◌≡◌, Bool, true, false, List, [], Option, none, some,
  if◌then◌else◌, arith, Option-cases, inl, inr, bool_eq,
}
use se_scope_target.ScopeTypes.{MessageType, sc_data}
use se_scope_target.SeLib.Core.{CoreLib}
use se_scope_target.Core.Channel.Faults.{
  readings, poll_channels, AllReadable, poll_channels_returns, poll_channels-poll,
  poll_channels_faults,
}
use se_scope_target.Core.Channel.{Channel}
use se_scope_target.Core.Channel
use se_scope_target.Core.Timestamper
use se_scope_target.Core.Trigger.{◌>>=◌}
use se_scope_target.Core.Trigger.Machine
use se_scope_target.Core.Scope.{Scope, transmit, sample, poll}

module _ {F B S I : Type 0} (L : CoreLib F B S I) where
  -- `Scope_transmit`
  pub transmit_faulting : Bool → Option (List MessageType)
  transmit_faulting attached = if attached then some (transmit L) else none

  pub poll_faulting :
      Scope F B S I → (ℕ → Option ℕ) → Bool → ℕ → Option (Scope F B S I × Bool × List MessageType)
  unfolding transmit_faulting
  poll_faulting s memory attached now =
      if bool_eq s.scope_is_ready_to_run false
      then some (s, false, [])
      else let s' = record s { scope_is_running = true } in
        if bool_eq (Timestamper.update_elapsed_time L.ints s'.rig.timestamper now) false
        then some (s', true, [])
        else poll_channels L s'.rig.channels memory >>= λ cs.
            Machine.run L (record s'.rig {
              timestamper = Timestamper.stamp L.ints s'.rig.timestamper now;
              channels = cs;
            })
            >>= λ r. (if r.1 then transmit_faulting attached else some []) >>= λ sent.
                some (record s' { rig = r.0 }, true, sent)

  -- A poll that returns does what the poll of the module above does.
  pub poll_faulting-poll :
      (s : Scope F B S I) (memory : ℕ → Option ℕ) (attached : Bool) (now : ℕ)
      (r : Scope F B S I × Bool × List MessageType)
      → poll_faulting s memory attached now ≡ some r
      → poll L s (readings memory) now ≡ some r
  unfolding poll_faulting transmit_faulting poll sample
  poll_faulting-poll s memory attached now r e =
      let k = sample L s.rig (readings memory) now in
      elim (Option-cases (poll_channels L s.rig.channels memory)) [
        | inl p ↦ ground arith
        | inr (cs, p) ↦
            let polled = poll_channels-poll L s.rig.channels cs memory p in
            elim (Option-cases (Machine.run L k)) [
              | inl q ↦ ground arith
              | inr (m, q) ↦ ground arith
            ]
      ]

  -- With an observer, and addresses that can be read, a poll does what the poll of the module above does.
  pub poll_faulting_returns :
      (s : Scope F B S I) (memory : ℕ → Option ℕ) (now : ℕ)
      → AllReadable L memory s.rig.channels
      → poll_faulting s memory true now ≡ poll L s (readings memory) now
  unfolding poll_faulting transmit_faulting poll sample
  poll_faulting_returns s memory now h =
      let k = sample L s.rig (readings memory) now in
      let polled = poll_channels_returns L s.rig.channels memory h in
      elim (Option-cases (Machine.run L k)) [ inl q ↦ ground arith | inr (m, q) ↦ ground arith ]

  -- A poll that takes a sample faults if the address of a channel that runs, a null pointer for one,
  -- cannot be read.
  poll_faulting_faults :
      (s : Scope F B S I) (i : ℕ) (c : Channel F B S) (memory : ℕ → Option ℕ) (attached : Bool)
      (now : ℕ)
      → s.scope_is_ready_to_run ≡ true
      → Timestamper.update_elapsed_time L.ints s.rig.timestamper now ≡ true
      → get_elem? s.rig.channels i ≡ some c
      → Channel.is_running L c ≡ true
      → memory c.poll_address ≡ none
      → poll_faulting s memory attached now ≡ none
  unfolding poll_faulting
  poll_faulting_faults s i c memory attached now ready due found running h =
      ground (arith, poll_channels_faults L s.rig.channels i c memory found running h)

  -- A poll that would tell an observer that is not attached faults.
  poll_faulting_unattached :
      (s s' : Scope F B S I) (memory : ℕ → Option ℕ) (running : Bool) (now : ℕ)
      → poll_faulting s memory true now ≡ some (s', running, sc_data ∷ [])
      → poll_faulting s memory false now ≡ none
  unfolding poll_faulting transmit_faulting
  poll_faulting_unattached s s' memory running now e =
      elim (Option-cases (poll_channels L s.rig.channels memory)) [
        | inl p ↦ ground arith
        | inr (cs, p) ↦
            let k = record s.rig {
              timestamper = Timestamper.stamp L.ints s.rig.timestamper now;
              channels = cs;
            } in
            elim (Option-cases (Machine.run L k)) [
              | inl q ↦ ground arith
              | inr (m, q) ↦ elim (Bool-cases m.1) [
                | inl sends ↦ ground arith
                | inr waits ↦ ground arith
              ]
            ]
      ]
