-- ===== src/Core/Scope/Safety.antt =====
-- Polls of a sound scope: what they return, keep and send.
use se_scope_target.Prelude.{
  ℕ, ◌≡◌, Bool, true, [], ◌∷◌, some, arith, length, length-map, Option-cases, ◌⊎◌, inl, inr,
  Returns, Returns-cases,
}
use se_scope_target.ScopeTypes.{sc_data}
use se_scope_target.SeLib.Core.{CoreLib}
use se_scope_target.Core.Channel.{Channel}
use se_scope_target.Core.Channel
use se_scope_target.Core.Timestamper
use se_scope_target.Core.Trigger.{Rig}
use se_scope_target.Core.Trigger.Machine.Invariant.{IsSound, run-Keeps}
use se_scope_target.Core.Trigger.Machine
use se_scope_target.Core.Trigger.Machine.Handover.{HandedOver, IsFull, run_hands_over}
use se_scope_target.Core.Scope.{Scope, sample, poll}

module _ {F B S I : Type 0} (L : CoreLib F B S I) where
  -- Sound, with as many channels as before.
  abbrev Keeps : Scope F B S I → Scope F B S I → Type 0
  Keeps s s' = IsSound L s'.rig × (length s'.rig.channels ≡ length s.rig.channels)

  sample-IsSound :
      (k : Rig F B S I) (memory : ℕ → ℕ) (now : ℕ) → IsSound L k → IsSound L (sample L k memory now)
  unfolding sample
  sample-IsSound k memory now v =
      ground (arith, length-map (λ c. Channel.poll L c memory) k.channels)

  length-sample :
      (k : Rig F B S I) (memory : ℕ → ℕ) (now : ℕ)
      → length (sample L k memory now).channels ≡ length k.channels
  unfolding sample
  length-sample k memory now = length-map (λ c. Channel.poll L c memory) k.channels

  -- A call of `Scope_poll` on a sound scope returns: it stays sound, with its channels; its result is
  -- whether the scope is ready to run; and the observer is told nothing, or of data once.
  pub poll-Keeps :
      (s : Scope F B S I) (memory : ℕ → ℕ) (now : ℕ)
      → IsSound L s.rig
      → Returns
          (λ r.
            IsSound L r.0.rig
            × (length r.0.rig.channels ≡ length s.rig.channels)
            × (r.1 ≡ s.scope_is_ready_to_run)
            × ((r.2 ≡ []) ⊎ (r.2 ≡ sc_data ∷ [])))
          (poll L s memory now)
  unfolding poll
  poll-Keeps s memory now v =
      let k = sample L s.rig memory now in
      let (r, e, w) =
        Returns-cases
          (λ (r : Rig F B S I × Bool). IsSound L r.0 × (length r.0.channels ≡ length k.channels))
          (Machine.run L k) (run-Keeps L k (sample-IsSound s.rig memory now v)) in
      ground (arith, length-sample s.rig memory now)

  -- When `Scope_poll` tells the observer of data, the scope was ready to run and a sample was due; and
  -- with that sample taken, the active channel and the timestamps were full and read out, and the
  -- poll handed all buffers over.
  pub poll_sends :
      (s s' : Scope F B S I) (running : Bool) (memory : ℕ → ℕ) (now : ℕ)
      → poll L s memory now ≡ some (s', running, sc_data ∷ [])
      → (s.scope_is_ready_to_run ≡ true)
        × (Timestamper.update_elapsed_time L.ints s.rig.timestamper now ≡ true)
        × HandedOver L (sample L s.rig memory now) s'.rig
        × (c : Channel F B S) × IsFull L (sample L s.rig memory now) c
  unfolding poll
  poll_sends s s' running memory now e =
      let k = sample L s.rig memory now in
      elim (Option-cases (Machine.run L k)) [
        | inl p ↦ ground arith
        | inr (r, p) ↦
            let sent : r.1 ≡ true = ground arith in
            let q : Machine.run L k ≡ some (s'.rig, true) = ground arith in
            let (_, h, c, f) = run_hands_over L k s'.rig q in (ground arith, ground arith, h, c, f)
      ]
