-- ===== src/Core/Timestamper.antt =====
-- src/Core/Timestamper.c: decides when the next sample is due, and records when samples were taken.
-- `referenceTimestamp` is a counter that the user's code advances: its value is an argument, `now`.
use se_scope_target.Prelude.{
  ℕ, ◌+◌, ◌^◌, ◌<◌, ◌≡◌, Bool, true, false, ◌&&◌, if◌then◌else◌, arith, ltb, leb, ◌==◌,
}
use se_scope_target.SeLib.Stream.{Stream}
use se_scope_target.Prelude.{u32}

-- TIMESTAMPER_STATES
pub data TimestamperState : Type 0 where
  timestamper_stopped timestamper_running : TimestamperState

-- TimestamperPrivateData, over the type of int streams.
pub record Timestamper (I : Type 0) : Type 0 where
  pub state : TimestamperState
  pub time_increment : ℕ
  pub poll_timestamps : I
  pub swap_timestamps : I
  pub last_timestamp : ℕ

module _ {I : Type 0} (T : Stream ℕ I) where
  unfoldable pub create : ℕ → Timestamper I
  create capacity = record {
    state = timestamper_stopped;
    time_increment = 1;
    poll_timestamps = T.create capacity;
    swap_timestamps = T.create capacity;
    last_timestamp = 0;
  }

  -- `uint32_t` addition wraps.
  unfoldable pub update_elapsed_time : Timestamper I → ℕ → Bool
  update_elapsed_time t now =
      if ltb now (u32 (t.last_timestamp + t.time_increment)) then false else true

  unfoldable pub stamp : Timestamper I → ℕ → Timestamper I
  stamp t now = elim t.state [
    | timestamper_stopped ↦ record t { last_timestamp = now }
    | timestamper_running ↦ record t {
      last_timestamp = now;
      poll_timestamps = T.write_data t.poll_timestamps now;
    }
  ]

  unfoldable pub clear : Timestamper I → Timestamper I
  clear t = record t {
    poll_timestamps = T.flush t.poll_timestamps;
    swap_timestamps = T.flush t.swap_timestamps;
  }

  unfoldable pub set_state_running : Timestamper I → Timestamper I
  set_state_running t = record t { state = timestamper_running }

  unfoldable pub set_state_stopped : Timestamper I → Timestamper I
  set_state_stopped t = record t { state = timestamper_stopped }

  unfoldable pub current_time : Timestamper I → ℕ
  current_time t = t.last_timestamp

  pub get_time_increment : Timestamper I → ℕ
  get_time_increment t = t.time_increment

  pub configure_timestamp_increment : Timestamper I → ℕ → Timestamper I
  configure_timestamp_increment t n = record t { time_increment = n }

  unfoldable pub swap_is_pending : Timestamper I → Bool
  swap_is_pending t =
      (T.capacity t.poll_timestamps == T.stream_length t.poll_timestamps)
      && (T.stream_length t.swap_timestamps == 0)

  unfoldable pub swap_buffers : Timestamper I → Timestamper I
  swap_buffers t = record t {
    swap_timestamps = t.poll_timestamps;
    poll_timestamps = T.flush t.swap_timestamps;
  }

  -- With the end of the time increment below 2^32: as long as the counter has not wrapped since the
  -- last sample, a sample is due exactly when the increment has elapsed; and once it has wrapped, no
  -- sample is due, however much time has elapsed, until the counter is back at the last sample.
  pub update_elapsed_time_lem :
      (t : Timestamper I) (elapsed : ℕ)
      → t.last_timestamp + t.time_increment < 2 ^ 32
      → elapsed < 2 ^ 32
      → update_elapsed_time t (u32 (t.last_timestamp + elapsed)) ≡ (
          if ltb (t.last_timestamp + elapsed) (2 ^ 32) then leb t.time_increment elapsed else false)
  unfolding update_elapsed_time
  update_elapsed_time_lem t elapsed h e = ground arith
