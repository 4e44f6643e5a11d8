-- ===== src/FramedIo/Receive/Messages.antt =====
-- `FramedIO_putRxData` on a whole frame: a good one, a damaged one, and one that finds bytes of an
-- earlier message in the input buffer.
use se_scope_target.Prelude.{
  ℕ, ◌+◌, ◌*◌, ◌^◌, ◌<◌, ◌≤◌, ◌≡◌, ◌≢◌, refl, ap, ◌∙◌, Bool, true, false, List, [], ◌∷◌, ◌++◌, none,
  some, arith, length, length-append, Option-cases, ◌⊎◌, inl, inr,
}
use se_scope_target.SeLib.Ring.{Ring, put_each, contents-put_each}
use se_scope_target.FramedIo.{start_flag, checksum_field, Rx, u16}
use se_scope_target.FramedIo.Frame.{sum, be16, frame_head, frame_foot, frame}
use se_scope_target.FramedIo.Receive.{put_rx_data, reset_rx, run_rx}
use se_scope_target.FramedIo.Receive.Automaton.{feed, Settled}
use se_scope_target.FramedIo.Receive.Automaton.Frames.{
  IsIdle, headed, feed-frame_head, feed-payload, feed-frame_foot, feed-bad_checksum, feed-bad_end,
}
use se_scope_target.FramedIo.Receive.Automaton.Streams.{feed-nil, feed-stuck}
use se_scope_target.FramedIo.Receive.Chunks.{put_rx_data_mono, put_rx_data-eq-feed}

module _ {B : Type 0} (R : Ring ℕ B) where
  pub IsIdle-Settled : (s : Rx B) → IsIdle s → Settled R s
  IsIdle-Settled s i = ground arith

  -- `runRx` hands out the type of a message that waits, and leaves the rest alone.
  pub run_rx_type :
      (s : Rx B) (ty : ℕ) → s.data_ready ≡ true → s.type ≡ ty → (run_rx R s).2 ≡ some ty
  unfolding run_rx
  run_rx_type s ty h e = ground arith

  pub run_rx_input : (s : Rx B) → R.contents (run_rx R s).0.input ≡ R.contents s.input
  unfolding run_rx
  run_rx_input s = ground arith

  pub run_rx_data_ready : (s : Rx B) → (run_rx R s).0.data_ready ≡ false
  unfolding run_rx
  run_rx_data_ready s = ground arith

  pub run_rx-IsIdle : (s : Rx B) → IsIdle s → IsIdle (run_rx R s).0
  unfolding run_rx
  run_rx-IsIdle s i = ground arith

  -- The state after the payload of a frame, and after the whole frame.
  abbrev pub filled : Rx B → ℕ → List ℕ → Rx B
  filled s ty p = record (headed R s ty (length p)) {
    state = checksum_field;
    checksum = u16 (0 + sum p);
    input = put_each R s.input p;
  }

  abbrev pub received : Rx B → ℕ → List ℕ → Rx B
  received s ty p = record (filled s ty p) {
    state = start_flag;
    data_ready = true;
    expected_length = 0;
    checksum = 0;
  }

  empty-used : (b : B) → R.contents b ≡ [] → R.used b ≡ 0
  empty-used b e = ground (arith, R.used_lem b)

  pub feed-head_payload :
      (s : Rx B) (ty : ℕ) (p d : List ℕ) (v : Bool)
      → IsIdle s
      → R.contents s.input ≡ []
      → length p ≤ R.capacity s.input
      → length p < 2 ^ 32
      → feed R s (frame_head ty (length p) ++ (p ++ d)) v ≡ feed R (filled s ty p) d v
  feed-head_payload s ty p d v i e r h =
      feed-frame_head R s ty (length p) (p ++ d) v i h
      ∙ feed-payload R (headed R s ty (length p)) p d v refl (omega (arith, i.summed))
          (omega (arith, empty-used s.input e)) r
      ∙ ap (λ c. feed R (record (filled s ty p) { checksum = c }) d v) (omega (arith, i.summed))

  pub feed_frame :
      (s : Rx B) (ty : ℕ) (p d : List ℕ) (v : Bool)
      → IsIdle s
      → R.contents s.input ≡ []
      → length p ≤ R.capacity s.input
      → length p < 2 ^ 32
      → feed R s (frame_head ty (length p) ++ (p ++ (be16 (u16 (sum p)) ++ (b']' ∷ d)))) v
        ≡ feed R (received s ty p) d true
  feed_frame s ty p d v i e r h =
      feed-head_payload s ty p (be16 (u16 (sum p)) ++ (b']' ∷ d)) v i e r h
      ∙ feed-frame_foot R (filled s ty p) (u16 (sum p)) d v refl i.counter i.compared (omega arith)
          (omega arith)

  pub contents-received :
      (s : Rx B) (ty : ℕ) (p : List ℕ)
      → R.contents s.input ≡ []
      → length p ≤ R.capacity s.input
      → R.contents (received s ty p).input ≡ p
  contents-received s ty p e r =
      contents-put_each R s.input p (omega (arith, empty-used s.input e)) ∙ ap (λ c. c ++ p) e

  -- An idle receiver with an empty input buffer that is given a whole frame, whose payload fits the
  -- buffer and the length field, reports it: the payload alone is in the buffer, the type is the
  -- frame's, the message waits to be fetched, and the receiver is idle again.
  pub put_rx_data-frame :
      (f : ℕ) (s : Rx B) (ty : ℕ) (p : List ℕ)
      → length (frame ty p) < f
      → IsIdle s
      → s.data_ready ≡ false
      → R.contents s.input ≡ []
      → length p ≤ R.capacity s.input
      → length p < 2 ^ 32
      → (t : Rx B) × (put_rx_data R f s (frame ty p) ≡ some (t, true))
        × (t.data_ready ≡ true)
        × (t.type ≡ ty)
        × (R.contents t.input ≡ p)
        × IsIdle t
  put_rx_data-frame f s ty p hf i ready e r h = (
    received s ty p,
    ground (
      arith,
      put_rx_data-eq-feed R f s (frame ty p) hf (IsIdle-Settled s i),
      feed_frame s ty p [] false i e r h,
      feed-nil R (received s ty p) true,
    ),
    refl,
    refl,
    contents-received s ty p e r,
    ground arith,
  )

  -- A frame whose payload fits but whose checksum bytes do not encode the payload's sum, or that has
  -- another byte than the end flag behind a right checksum, is not reported: its payload is dropped
  -- from the buffer, no message waits, and the receiver is idle again.
  pub put_rx_data-damaged :
      (f : ℕ) (s : Rx B) (ty : ℕ) (p : List ℕ) (hi lo b : ℕ)
      → length (frame ty p) < f
      → IsIdle s
      → s.data_ready ≡ false
      → R.contents s.input ≡ []
      → length p ≤ R.capacity s.input
      → length p < 2 ^ 32
      → hi < 2 ^ 8
      → lo < 2 ^ 8
      → ((hi * 2 ^ 8 + lo ≢ u16 (sum p)) × (b ≡ b']'))
        ⊎ ((hi * 2 ^ 8 + lo ≡ u16 (sum p)) × (b ≢ b']'))
      → (t : Rx B) × (put_rx_data R f s (frame_head ty (length p) ++ (p ++ (hi ∷ lo ∷ b ∷ [])))
          ≡ some (t, false))
        × (t.data_ready ≡ false)
        × (R.contents t.input ≡ [])
        × IsIdle t
  unfolding reset_rx
  put_rx_data-damaged f s ty p hi lo b hf i ready e r h hh hl c = (
    reset_rx R (filled s ty p),
    ground (
      arith,
      put_rx_data-eq-feed R f s (frame_head ty (length p) ++ (p ++ (hi ∷ lo ∷ b ∷ [])))
          (omega (arith, length-append p (hi ∷ lo ∷ b ∷ []), length-append p (frame_foot p)))
          (IsIdle-Settled s i),
      feed-head_payload s ty p (hi ∷ lo ∷ b ∷ []) false i e r h,
      feed-bad_checksum R (filled s ty p) hi lo [] false refl i.counter i.compared,
      feed-bad_end R (filled s ty p) hi lo b [] false refl i.counter i.compared,
      feed-nil R (reset_rx R (filled s ty p)) false,
    ),
    refl,
    R.contents-clear _,
    record { waiting = refl; counter = refl; expected = refl; summed = refl; compared = refl },
  )

  -- An idle receiver whose input buffer still holds more bytes than a frame announces does not take
  -- the frame: given its head and at least one more byte, the loop of `FramedIO_putRxData` does not
  -- end, whatever the fuel.
  pub put_rx_data-stuck :
      (f : ℕ) (s : Rx B) (ty n b : ℕ) (d : List ℕ)
      → IsIdle s
      → s.data_ready ≡ false
      → n < 2 ^ 32
      → n < R.used s.input
      → put_rx_data R f s (frame_head ty n ++ (b ∷ d)) ≡ none
  put_rx_data-stuck f s ty n b d i ready h l =
      let bytes = frame_head ty n ++ (b ∷ d) in
      let g = f + length bytes + 1 in
      elim (Option-cases (put_rx_data R f s bytes)) [
        | inl e ↦ e
        | inr (r, e) ↦ ground (
          arith,
          put_rx_data_mono R f g s bytes {r = r} e (omega arith),
          put_rx_data-eq-feed R g s bytes (omega arith) (IsIdle-Settled s i),
          feed-frame_head R s ty n (b ∷ d) false i h,
          feed-stuck R (headed R s ty n) b d false,
        )
      ]
