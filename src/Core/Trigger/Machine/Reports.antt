-- ===== src/Core/Trigger/Machine/Reports.antt =====
-- What `Trigger_run` does in the cleanup state: it reports its data, or it waits.
use se_scope_target.Prelude.{
  ◌≡◌, refl, true, false, List, [], ◌∷◌, map, some, arith, get_elem?-map, All, Option-cases,
  Bool-cases, ◌⊎◌, inl, inr, ◌↔◌, Bool, Option,
}
use se_scope_target.SeLib.Core.{CoreLib}
use se_scope_target.Core.Channel.{Channel}
use se_scope_target.Core.Channel
use se_scope_target.Core.Timestamper.{Timestamper}
use se_scope_target.Core.Timestamper
use se_scope_target.Core.Trigger.{
  TriggerState, Stop, trigger_cleanup, trigger_paused, trigger_idle, stop_into_pause,
  stop_into_idle, Rig, stop_channels_and_timestamp, active_channel, swap_buffers,
}
use se_scope_target.Core.Trigger.Machine.{stop_into, stop, run}
use se_scope_target.Core.Trigger.Machine.Handover.{
  HandedOver, IsFull, stopped_channel, handed, IsFull-stopped, handed-HandedOver, stop_into_full,
}

module _ {F B S I : Type 0} (L : CoreLib F B S I) where
  -- Nothing is handed over: all buffers and the trigger are as they were, so that it still cleans up,
  -- and the channels are stopped.
  pub record Waits (k k' : Rig F B S I) : Type 0 where
    pub poll_buffers : map (λ c. c.poll_buffer) k'.channels ≡ map (λ c. c.poll_buffer) k.channels
    pub swap_buffers : map (λ c. c.swap_buffer) k'.channels ≡ map (λ c. c.swap_buffer) k.channels
    pub stopped : All (λ c. Channel.is_running L c ≡ false) k'.channels
    pub poll_stamps : k'.timestamper.poll_timestamps ≡ k.timestamper.poll_timestamps
    pub swap_stamps : k'.timestamper.swap_timestamps ≡ k.timestamper.swap_timestamps
    pub trigger : k'.trigger ≡ k.trigger

  stopped_poll_buffers :
      (cs : List (Channel F B S))
      → map (λ c. c.poll_buffer) (map (stopped_channel L) cs) ≡ map (λ c. c.poll_buffer) cs
  unfolding Channel.set_state_stopped
  stopped_poll_buffers [] = refl
  stopped_poll_buffers (c ∷ cs) = ground (arith, stopped_poll_buffers cs)

  stopped_swap_buffers :
      (cs : List (Channel F B S))
      → map (λ c. c.swap_buffer) (map (stopped_channel L) cs) ≡ map (λ c. c.swap_buffer) cs
  unfolding Channel.set_state_stopped
  stopped_swap_buffers [] = refl
  stopped_swap_buffers (c ∷ cs) = ground (arith, stopped_swap_buffers cs)

  stopped_All :
      (cs : List (Channel F B S))
      → All (λ c. Channel.is_running L c ≡ false) (map (stopped_channel L) cs)
  unfolding Channel.set_state_stopped Channel.is_running
  stopped_All [] = tt
  stopped_All (c ∷ cs) = (ground arith, stopped_All cs)

  stopped-Waits : (k : Rig F B S I) → Waits k (stop_channels_and_timestamp L k)
  unfolding stop_channels_and_timestamp Timestamper.set_state_stopped
  stopped-Waits k = record {
    poll_buffers = stopped_poll_buffers k.channels;
    swap_buffers = stopped_swap_buffers k.channels;
    stopped = stopped_All k.channels;
    poll_stamps = refl;
    swap_stamps = refl;
    trigger = refl;
  }

  IsFull-active :
      (k : Rig F B S I) (c d : Channel F B S)
      → active_channel L k ≡ some c
      → IsFull L k d
      → IsFull L k c
  IsFull-active k c d found v = record {
    found = found;
    full = ground (arith, v.full, v.found);
    read_out = ground (arith, v.read_out, v.found);
    stamps_full = v.stamps_full;
    stamps_read_out = v.stamps_read_out;
  }

  -- The two outcomes of cleaning up.
  abbrev Outcome : Rig F B S I → Channel F B S → TriggerState → Type 0
  Outcome k c x =
      (IsFull L k c × (stop_into L k x ≡ some (handed L k x, true)))
      ⊎ (stop_into L k x ≡ some (stop_channels_and_timestamp L k, false))

  stop_into_cases :
      (k : Rig F B S I) (c : Channel F B S) (x : TriggerState)
      → active_channel L k ≡ some c
      → Outcome k c x
  unfolding stop_into swap_buffers stop_channels_and_timestamp
  stop_into_cases k c x found =
      let k1 = stop_channels_and_timestamp L k in
      elim (Option-cases (active_channel L k1)) [
        | inl none_at ↦ absurd (
            ground
              (arith, get_elem?-map (stopped_channel L) k.channels k.trigger.active_channel_id))
        | inr (d, at) ↦ elim (Bool-cases (Channel.swap_is_pending L d)) [
          | inl full ↦ elim (Bool-cases (Timestamper.swap_is_pending L.ints k1.timestamper)) [
            | inl stamps ↦
                let (c', v) = IsFull-stopped L k d at full stamps in
                let w = IsFull-active k c c' found v in inl (w, stop_into_full L k c x w)
            | inr other ↦ inr (ground arith)
          ]
          | inr other ↦ inr (ground arith)
        ]
      ]

  -- Cleaning up returns; it reports exactly if everything is full and read out, and then has handed
  -- over everything; else it waits.
  abbrev pub Cleans : Rig F B S I → Channel F B S → Option (Rig F B S I × Bool) → Type 0
  Cleans k c o =
      (k' : Rig F B S I) × (reports : Bool) × (o ≡ some (k', reports))
      × ((reports ≡ true) ↔ IsFull L k c)
      × ((reports ≡ true) → HandedOver L k k')
      × ((reports ≡ false) → Waits k k')

  stop_into-Cleans :
      (k : Rig F B S I) (c : Channel F B S) (x : TriggerState)
      → active_channel L k ≡ some c
      → ((k.trigger.active_strategy.stop ≡ stop_into_pause) × (x ≡ trigger_paused))
        ⊎ ((k.trigger.active_strategy.stop ≡ stop_into_idle) × (x ≡ trigger_idle))
      → Cleans k c (stop_into L k x)
  stop_into-Cleans k c x found s = elim (stop_into_cases k c x found) [
    | inl (v, e) ↦ (
      handed L k x,
      true,
      e,
      (λ _. v, λ _. refl),
      λ _. handed-HandedOver L k x s,
      λ h. absurd (ground arith),
    )
    | inr e ↦ (
      stop_channels_and_timestamp L k,
      false,
      e,
      (λ h. absurd (ground arith), λ v. absurd (ground (arith, stop_into_full L k c x v))),
      λ h. absurd (ground arith),
      λ _. stopped-Waits k,
    )
  ]

  -- A trigger that is cleaning up, with an active channel that exists: `Trigger_run` returns. It reports
  -- data exactly if that channel and the timestamps are full and their swap buffers read out; if it
  -- does, everything is handed over, and if it does not, all buffers and the trigger are as they were
  -- and the channels are stopped.
  pub run_reports :
      (k : Rig F B S I) (c : Channel F B S)
      → k.trigger.state ≡ trigger_cleanup
      → active_channel L k ≡ some c
      → (k' : Rig F B S I) × (reports : Bool) × (run L k ≡ some (k', reports))
        × ((reports ≡ true) ↔ IsFull L k c)
        × ((reports ≡ true) → HandedOver L k k')
        × ((reports ≡ false) → Waits k k')
  unfolding run stop
  run_reports k c e found = by_stop k.trigger.active_strategy.stop refl
    where
      by_stop : (x : Stop) → k.trigger.active_strategy.stop ≡ x → Cleans k c (run L k)
      by_stop stop_into_pause s =
          let (k', r, p, full, hands, waits) =
            stop_into-Cleans k c trigger_paused found (inl (s, refl)) in
          (k', r, ground arith, full, hands, waits)
      by_stop stop_into_idle s =
          let (k', r, p, full, hands, waits) =
            stop_into-Cleans k c trigger_idle found (inr (s, refl)) in
          (k', r, ground arith, full, hands, waits)
