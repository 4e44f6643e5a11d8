-- ===== src/Core/Channel/Window.antt =====
-- What the buffers and the stream of a channel hold after polling.
use se_scope_target.Prelude.{
  ℕ, ◌+◌, ◌-◌, ◌≤◌, ◌≡◌, ap, ◌∙◌, fun_ext, List, [], ◌∷◌, ◌++◌, map, arith, length, append-nil,
  append_assoc, length-append, drop, length-drop, drop-append_le, take_of_length_le, take_last,
  take_last-append, dec_lt,
}
use se_scope_target.SeLib.Ring.{put, contents-put_fits, put_full, used-le-capacity, capacity-put}
use se_scope_target.SeLib.Core.{CoreLib}
use se_scope_target.ScopeTypes.{channel_running}
use se_scope_target.Core.Channel.{
  Channel, cast_data_to_float, poll_running, poll, add_trigger_data, is_running, drop_oldest,
}

module _ {F B S I : Type 0} (L : CoreLib F B S I) where
  -- Dropping the oldest item of a full buffer and writing another shifts it.
  shifted :
      (b : B) (x : F)
      → L.ring.used b ≡ L.ring.capacity b
      → L.ring.contents (put L.ring (drop_oldest L b) (x ∷ []))
        ≡ drop 1 (L.ring.contents b ++ (x ∷ []))
  shifted b x full = elim (dec_lt 0 (L.ring.used b)) [
    | yes some_used ↦ ground (
      arith,
      L.ring.read_fits b 1,
      L.ring.used_lem b,
      L.ring.used_lem (drop_oldest L b),
      length-drop 1 (L.ring.contents b),
      contents-put_fits L.ring (drop_oldest L b) (x ∷ []),
      drop-append_le 1 (L.ring.contents b) (x ∷ []),
    )
    | no none_used ↦ ground (
      arith,
      L.ring.read_short b 1,
      L.ring.used_lem b,
      put_full L.ring b (x ∷ []),
      take_of_length_le 0 (L.ring.contents b),
    )
  ]

  contents-poll_running :
      (c : Channel F B S) (x : F)
      → L.ring.contents (poll_running L c x).poll_buffer
        ≡ take_last (L.ring.capacity c.poll_buffer) (L.ring.contents c.poll_buffer ++ (x ∷ []))
  unfolding poll_running add_trigger_data
  contents-poll_running c x =
      let b = c.poll_buffer in
      elim (dec_lt (L.ring.capacity b) (L.ring.used b + 1)) [
        | yes full ↦ ground (
          arith,
          L.ring.write_full b (x ∷ []),
          used-le-capacity L.ring b,
          shifted b x,
          L.ring.used_lem b,
          length-append (L.ring.contents b) (x ∷ []),
        )
        | no fits ↦ ground (
          arith,
          L.ring.write_fits b (x ∷ []),
          L.ring.used_lem b,
          length-append (L.ring.contents b) (x ∷ []),
        )
      ]

  capacity-drop_oldest : (b : B) → L.ring.capacity (drop_oldest L b) ≡ L.ring.capacity b
  capacity-drop_oldest b = elim (dec_lt 0 (L.ring.used b)) [
    | yes some_used ↦ ground (arith, L.ring.read_fits b 1)
    | no none_used ↦ ground (arith, L.ring.read_short b 1)
  ]

  pub capacity-poll_running :
      (c : Channel F B S) (x : F)
      → L.ring.capacity (poll_running L c x).poll_buffer ≡ L.ring.capacity c.poll_buffer
  unfolding poll_running add_trigger_data
  capacity-poll_running c x =
      let b = c.poll_buffer in
      elim (dec_lt (L.ring.capacity b) (L.ring.used b + 1)) [
        | yes full ↦ ground (
          arith,
          L.ring.write_full b (x ∷ []),
          capacity-drop_oldest b,
          capacity-put L.ring (drop_oldest L b) (x ∷ []),
        )
        | no fits ↦ ground (arith, L.ring.write_fits b (x ∷ []))
      ]

  -- What polling leaves alone.
  poll_running_frame :
      (c : Channel F B S) (x : F)
      → let c' = poll_running L c x in
        (c'.state ≡ c.state)
        × (c'.poll_data_type ≡ c.poll_data_type)
        × (c'.poll_address ≡ c.poll_address)
        × (c'.swap_buffer ≡ c.swap_buffer)
  unfolding poll_running add_trigger_data
  poll_running_frame c x = ground arith

  -- Polls in turn, each with the memory that it finds.
  pub poll_all : Channel F B S → List (ℕ → ℕ) → Channel F B S
  poll_all c [] = c
  poll_all c (m ∷ ms) = poll_all (poll L c m) ms

  sample_poll :
      (c : Channel F B S) (x : F) (m : ℕ → ℕ)
      → cast_data_to_float L (poll_running L c x) m ≡ cast_data_to_float L c m
  unfolding cast_data_to_float
  sample_poll c x m = ground (arith, poll_running_frame c x)

  poll_of_running :
      (c : Channel F B S) (m : ℕ → ℕ)
      → c.state ≡ channel_running
      → poll L c m ≡ poll_running L c (cast_data_to_float L c m)
  unfolding poll is_running
  poll_of_running c m h = ground arith

  window_step :
      (c : Channel F B S) (m : ℕ → ℕ) (xs : List F)
      → c.state ≡ channel_running
      → take_last
          (L.ring.capacity (poll L c m).poll_buffer)
          (L.ring.contents (poll L c m).poll_buffer ++ xs)
        ≡ take_last
            (L.ring.capacity c.poll_buffer)
            (L.ring.contents c.poll_buffer ++ (cast_data_to_float L c m ∷ xs))
  window_step c m xs h =
      let x = cast_data_to_float L c m in
      let n = L.ring.capacity c.poll_buffer in
      let old = L.ring.contents c.poll_buffer in
      ground (
        arith,
        poll_of_running c m h,
        capacity-poll_running c x,
        contents-poll_running c x,
        take_last-append n (old ++ (x ∷ [])) xs,
        append_assoc old (x ∷ []) xs,
      )

  -- A running channel's poll buffer is a sliding window: after any number of polls it holds the
  -- latest samples, in order, as many as fit, of those that it held before and those polled since,
  -- each the value of the channel's memory location at its poll.
  pub contents-poll_all :
      (c : Channel F B S) (ms : List (ℕ → ℕ))
      → c.state ≡ channel_running
      → L.ring.contents (poll_all c ms).poll_buffer
        ≡ take_last
            (L.ring.capacity c.poll_buffer)
            (L.ring.contents c.poll_buffer ++ map (cast_data_to_float L c) ms)
  unfolding poll_all
  contents-poll_all c [] h =
      let old = L.ring.contents c.poll_buffer in
      let none_over : length (old ++ []) - L.ring.capacity c.poll_buffer ≡ 0 = omega (
        arith,
        L.ring.used_lem c.poll_buffer,
        used-le-capacity L.ring c.poll_buffer,
        length-append {0} old [],
      ) in
      ground (arith, none_over, append-nil old)
  contents-poll_all c (m ∷ ms) h =
      let x = cast_data_to_float L c m in
      let c' = poll L c m in
      let same : map (cast_data_to_float L c') ms ≡ map (cast_data_to_float L c) ms =
        ap (λ (f : (ℕ → ℕ) → F). map f ms)
          (fun_ext
            λ n. ap (λ d. cast_data_to_float L d n) (poll_of_running c m h) ∙ sample_poll c x n) in
      ground (
        arith,
        contents-poll_all c' ms,
        same,
        poll_of_running c m h,
        poll_running_frame c x,
        window_step c m (map (cast_data_to_float L c) ms) h,
      )

  -- After a poll of a running channel the stream to the trigger holds the sample before and the new
  -- one, if it has room for two.
  pub contents-stream_poll :
      (c : Channel F B S) (m : ℕ → ℕ)
      → c.state ≡ channel_running
      → 2 ≤ L.stream.capacity c.stream
      → let x = cast_data_to_float L c m in
        (L.stream.contents (poll L c m).stream ≡ c.old_trigger_data ∷ x ∷ [])
        × ((poll L c m).old_trigger_data ≡ x)
        × (L.stream.capacity (poll L c m).stream ≡ L.stream.capacity c.stream)
  unfolding poll is_running poll_running add_trigger_data
  contents-stream_poll c m h two =
      let s0 = L.stream.flush c.stream in
      let s1 = L.stream.write_data s0 c.old_trigger_data in
      ground (
        arith,
        L.stream.contents-flush c.stream,
        L.stream.capacity-flush c.stream,
        L.stream.stream_length_lem s0,
        L.stream.write_fits s0 c.old_trigger_data,
        L.stream.capacity-write s0 c.old_trigger_data,
        L.stream.stream_length_lem s1,
        L.stream.write_fits s1 (cast_data_to_float L c m),
        L.stream.capacity-write s1 (cast_data_to_float L c m),
      )
