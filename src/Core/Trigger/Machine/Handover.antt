-- ===== src/Core/Trigger/Machine/Handover.antt =====
-- When `Trigger_run` reports that data is ready, and what it has handed over then.
use se_scope_target.Prelude.{
  ◌≡◌, refl, subst, sym, true, false, List, [], ◌∷◌, map, some, arith, get_elem?-map, All,
  Option-cases, Bool-cases, ◌⊎◌, inl, inr,
}
use se_scope_target.SeLib.Core.{CoreLib}
use se_scope_target.Core.Channel.{Channel}
use se_scope_target.Core.Channel
use se_scope_target.Core.Timestamper.{Timestamper}
use se_scope_target.Core.Timestamper
use se_scope_target.Core.Trigger.{
  TriggerState, Stop, trigger_idle, trigger_detecting, trigger_fillup, trigger_cleanup,
  trigger_paused, stop_into_pause, stop_into_idle, Rig, stop_channels_and_timestamp, active_channel,
  swap_all, swap_buffers,
}
use se_scope_target.Core.Trigger.Machine.{detect, fill_up, stop_into, stop, run}

module _ {F B S I : Type 0} (L : CoreLib F B S I) where
  -- All that is handed over: each channel's poll buffer becomes its swap buffer, and the channel is
  -- stopped and has a cleared poll buffer; so have the timestamps; the trigger's result goes with
  -- them; and the machine pauses or goes idle, as its strategy says.
  pub record HandedOver (k k' : Rig F B S I) : Type 0 where
    pub buffers : map (λ c. c.swap_buffer) k'.channels ≡ map (λ c. c.poll_buffer) k.channels
    pub emptied : All (λ c. L.ring.contents c.poll_buffer ≡ []) k'.channels
    pub stopped : All (λ c. Channel.is_running L c ≡ false) k'.channels
    pub stamps : k'.timestamper.swap_timestamps ≡ k.timestamper.poll_timestamps
    pub stamps_emptied : L.ints.contents k'.timestamper.poll_timestamps ≡ []
    pub triggered : k'.trigger.swap_is_triggered ≡ k.trigger.poll_is_triggered
    pub index : k'.trigger.swap_trigger_index ≡ k.trigger.poll_trigger_index
    pub count : k'.trigger.fill_up_poll_count ≡ 0
    pub next :
        ((k.trigger.active_strategy.stop ≡ stop_into_pause) × (k'.trigger.state ≡ trigger_paused))
        ⊎ ((k.trigger.active_strategy.stop ≡ stop_into_idle) × (k'.trigger.state ≡ trigger_idle))

  -- The active channel's poll buffer is full and its swap buffer is read out, and so for the
  -- timestamps.
  pub record IsFull (k : Rig F B S I) (c : Channel F B S) : Type 0 where
    pub found : active_channel L k ≡ some c
    pub full : L.ring.free c.poll_buffer ≡ 0
    pub read_out : L.ring.used c.swap_buffer ≡ 0
    pub stamps_full :
        L.ints.stream_length k.timestamper.poll_timestamps
        ≡ L.ints.capacity k.timestamper.poll_timestamps
    pub stamps_read_out : L.ints.stream_length k.timestamper.swap_timestamps ≡ 0

  abbrev pub stopped_channel : Channel F B S → Channel F B S
  stopped_channel c = (Channel.set_state_stopped L c).0

  abbrev swapped : List (Channel F B S) → List (Channel F B S)
  swapped cs = map (Channel.swap_buffers L) (map stopped_channel cs)

  swapped_buffers :
      (cs : List (Channel F B S))
      → map (λ c. c.swap_buffer) (swapped cs) ≡ map (λ c. c.poll_buffer) cs
  unfolding Channel.swap_buffers Channel.set_state_stopped
  swapped_buffers [] = refl
  swapped_buffers (c ∷ cs) = ground (arith, swapped_buffers cs)

  swapped_emptied :
      (cs : List (Channel F B S)) → All (λ c. L.ring.contents c.poll_buffer ≡ []) (swapped cs)
  unfolding Channel.swap_buffers
  swapped_emptied [] = tt
  swapped_emptied (c ∷ cs) =
      (L.ring.contents-clear (stopped_channel c).swap_buffer, swapped_emptied cs)

  swapped_stopped :
      (cs : List (Channel F B S)) → All (λ c. Channel.is_running L c ≡ false) (swapped cs)
  unfolding Channel.swap_buffers Channel.set_state_stopped Channel.is_running
  swapped_stopped [] = tt
  swapped_stopped (c ∷ cs) = (ground arith, swapped_stopped cs)

  -- What `stop_into` leaves when it reports that data is ready.
  abbrev pub handed : Rig F B S I → TriggerState → Rig F B S I
  handed k x =
      let r = swap_all L (stop_channels_and_timestamp L k) in
      record r { trigger = record r.trigger { state = x; fill_up_poll_count = 0 } }

  pub IsFull-stopped :
      (k : Rig F B S I) (d : Channel F B S)
      → active_channel L (stop_channels_and_timestamp L k) ≡ some d
      → Channel.swap_is_pending L d ≡ true
      → Timestamper.swap_is_pending L.ints (stop_channels_and_timestamp L k).timestamper ≡ true
      → (c : Channel F B S) × IsFull k c
  unfolding stop_channels_and_timestamp Timestamper.set_state_stopped Timestamper.swap_is_pending
      Channel.swap_is_pending Channel.set_state_stopped
  IsFull-stopped k d found full stamps =
      let moved = get_elem?-map stopped_channel k.channels k.trigger.active_channel_id in
      elim (Option-cases (active_channel L k)) [
        | inl none_at ↦ ground arith
        | inr (c, e) ↦ (c, ground arith)
      ]

  stop_into_hands :
      (k k' : Rig F B S I) (x : TriggerState)
      → stop_into L k x ≡ some (k', true)
      → (k' ≡ handed k x) × (c : Channel F B S) × IsFull k c
  unfolding stop_into swap_buffers
  stop_into_hands k k' x e =
      let k1 = stop_channels_and_timestamp L k in
      elim (Option-cases (active_channel L k1)) [
        | inl none_at ↦ ground arith
        | inr (d, found) ↦ elim (Bool-cases (Channel.swap_is_pending L d)) [
          | inl full ↦ elim (Bool-cases (Timestamper.swap_is_pending L.ints k1.timestamper)) [
            | inl stamps ↦
                let (c, whole) = IsFull-stopped k d found full stamps in (ground arith, c, whole)
            | inr other ↦ ground arith
          ]
          | inr other ↦ ground arith
        ]
      ]

  pub handed-HandedOver :
      (k : Rig F B S I) (x : TriggerState)
      → ((k.trigger.active_strategy.stop ≡ stop_into_pause) × (x ≡ trigger_paused))
        ⊎ ((k.trigger.active_strategy.stop ≡ stop_into_idle) × (x ≡ trigger_idle))
      → HandedOver k (handed k x)
  unfolding swap_all stop_channels_and_timestamp Timestamper.set_state_stopped
      Timestamper.swap_buffers
  handed-HandedOver k x e = record {
    buffers = swapped_buffers k.channels;
    emptied = swapped_emptied k.channels;
    stopped = swapped_stopped k.channels;
    stamps = refl;
    stamps_emptied = L.ints.contents-flush k.timestamper.swap_timestamps;
    triggered = refl;
    index = refl;
    count = refl;
    next = e;
  }

  stop_hands_over :
      (k k' : Rig F B S I)
      → stop L k ≡ some (k', true)
      → HandedOver k k' × (c : Channel F B S) × IsFull k c
  unfolding stop
  stop_hands_over k k' e = by_stop k.trigger.active_strategy.stop refl
    where
      by_stop :
          (x : Stop)
          → k.trigger.active_strategy.stop ≡ x
          → HandedOver k k' × (c : Channel F B S) × IsFull k c
      by_stop stop_into_pause s =
          let (p, c, f) = stop_into_hands k k' trigger_paused (ground arith) in
          (subst (HandedOver k) (sym p) (handed-HandedOver k trigger_paused (inl (s, refl))), c, f)
      by_stop stop_into_idle s =
          let (p, c, f) = stop_into_hands k k' trigger_idle (ground arith) in
          (subst (HandedOver k) (sym p) (handed-HandedOver k trigger_idle (inr (s, refl))), c, f)

  -- When `Trigger_run` reports that data is ready, it was cleaning up, the active channel and the
  -- timestamps were full and their swap buffers read out, and everything is handed over at once.
  pub run_hands_over :
      (k k' : Rig F B S I)
      → run L k ≡ some (k', true)
      → (k.trigger.state ≡ trigger_cleanup) × HandedOver k k' × (c : Channel F B S) × IsFull k c
  unfolding run
  run_hands_over k k' e = by_state k.trigger.state refl
    where
      by_state :
          (x : TriggerState)
          → k.trigger.state ≡ x
          → (k.trigger.state ≡ trigger_cleanup) × HandedOver k k' × (c : Channel F B S) × IsFull k c
      by_state trigger_idle s = ground arith
      by_state trigger_paused s = ground arith
      by_state trigger_detecting s = elim (Option-cases (detect L k)) [
        | inl p ↦ ground arith
        | inr (k1, p) ↦ ground arith
      ]
      by_state trigger_fillup s = elim (Option-cases (fill_up L k)) [
        | inl p ↦ ground arith
        | inr (k1, p) ↦ ground arith
      ]
      by_state trigger_cleanup s =
          let (h, c, f) = stop_hands_over k k' (ground arith) in (s, h, c, f)

  pub stop_into_full :
      (k : Rig F B S I) (c : Channel F B S) (x : TriggerState)
      → IsFull k c
      → stop_into L k x ≡ some (handed k x, true)
  unfolding stop_into swap_buffers stop_channels_and_timestamp Timestamper.set_state_stopped
      Timestamper.swap_is_pending Channel.swap_is_pending Channel.set_state_stopped
  stop_into_full k c x v =
      ground (arith, get_elem?-map stopped_channel k.channels k.trigger.active_channel_id)

  abbrev pub after_stop : Stop → TriggerState
  after_stop stop_into_pause = trigger_paused
  after_stop stop_into_idle = trigger_idle

  -- Conversely, a trigger that is cleaning up reports its data at once when the active channel and the
  -- timestamps are full and their swap buffers are read out.
  pub run_when_full :
      (k : Rig F B S I) (c : Channel F B S)
      → k.trigger.state ≡ trigger_cleanup
      → IsFull k c
      → run L k ≡ some (handed k (after_stop k.trigger.active_strategy.stop), true)
  unfolding run stop
  run_when_full k c e v = by_stop k.trigger.active_strategy.stop refl
    where
      by_stop :
          (x : Stop)
          → k.trigger.active_strategy.stop ≡ x
          → run L k ≡ some (handed k (after_stop k.trigger.active_strategy.stop), true)
      by_stop stop_into_pause s = ground (arith, stop_into_full k c trigger_paused v)
      by_stop stop_into_idle s = ground (arith, stop_into_full k c trigger_idle v)
