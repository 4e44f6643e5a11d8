-- ===== src/FramedIo/Transmit/Runs.antt =====
-- The frame that `runTx` starts, and the states that a sender can be in.
use se_scope_target.Prelude.{refl, ℕ, ◌/◌, ◌^◌, ◌<◌, ◌≡◌, ◌≢◌, Bool, true, [], ◌∷◌, arith}
use se_scope_target.SeLib.Ring.{Ring, put, put_each, contents-put_each, capacity-put_each}
use se_scope_target.FramedIo.{head, idle, Tx, MessageType, u8, u32, length_of_length_field}
use se_scope_target.FramedIo.Frame.{frame_head, frame}
use se_scope_target.FramedIo.Transmit.{
  write_length, get_tx_data, run_tx, update_tx, reset_tx, create_tx,
}
use se_scope_target.FramedIo.Transmit.Calls.{get_tx_data-Takes}
use se_scope_target.FramedIo.Transmit.Pending.{pending, IsSound}

module _ {B : Type 0} (R : Ring ℕ B) where
  -- The head that `runTx` writes.
  contents-written_head :
      (b : B) (ty n : ℕ)
      → R.contents b ≡ []
      → R.capacity b ≡ 6
      → ty < 2 ^ 8
      → R.contents
          (write_length R length_of_length_field 0 (put R (put R b (b'[' ∷ [])) (u8 ty ∷ [])) n)
        ≡ frame_head ty n
  unfolding write_length put_each
  contents-written_head b ty n e c h = ground (
    arith,
    R.used_lem b,
    contents-put_each R b
        (b'[' ∷ u8 ty ∷ u8 (n / 2 ^ 24) ∷ u8 (n / 2 ^ 16) ∷ u8 (n / 2 ^ 8) ∷ u8 (n / 2 ^ 0) ∷ []),
  )

  capacity-written_head :
      (b : B) (ty n : ℕ)
      → R.capacity
          (write_length R length_of_length_field 0 (put R (put R b (b'[' ∷ [])) (u8 ty ∷ [])) n)
        ≡ R.capacity b
  unfolding write_length put_each
  capacity-written_head b ty n =
      capacity-put_each R b
        (b'[' ∷ u8 ty ∷ u8 (n / 2 ^ 24) ∷ u8 (n / 2 ^ 16) ∷ u8 (n / 2 ^ 8) ∷ u8 (n / 2 ^ 0) ∷ [])

  -- An idle sender that is told to send a message of a one-byte type starts the frame of that type
  -- and of all the bytes in its output buffer, fewer than 2^32, and calls the transport's callback
  -- if there is one.
  pub pending-run_tx :
      (t : Tx B) (callback : Bool)
      → IsSound R t
      → t.state ≡ idle
      → t.data_framing_ready ≡ true
      → t.type < 2 ^ 8
      → R.used t.output < 2 ^ 32
      → let (t', ran, called) = run_tx R callback t in
        (pending R t' ≡ frame t.type (R.contents t.output))
        × (ran ≡ true)
        × (called ≡ callback)
        × IsSound R t'
  unfolding run_tx
  pending-run_tx t callback v r ready ty u =
      let cleared : R.contents t.frame_head ≡ [] = ground arith in
      ground (
        arith,
        capacity-written_head t.frame_head t.type (u32 (R.used t.output)),
        contents-written_head t.frame_head t.type (u32 (R.used t.output)) cleared v.head_size ty,
        R.used_lem t.output,
      )

  pub create_tx-IsSound : (output : B) → IsSound R (create_tx R output)
  unfolding create_tx reset_tx
  create_tx-IsSound output =
      ground (arith, R.contents-create 6, R.capacity-create 6, R.capacity-create 3)

  run_tx-IsSound : (t : Tx B) (callback : Bool) → IsSound R t → IsSound R (run_tx R callback t).0
  unfolding run_tx
  run_tx-IsSound t callback v =
      ground (arith, capacity-written_head t.frame_head t.type (u32 (R.used t.output)))

  -- A sender that is told a type with a new output.
  pub pending-update_tx :
      (t : Tx B) (output : B) (ty : MessageType) (callback : Bool)
      → IsSound R t
      → t.state ≡ idle
      → ty < 2 ^ 8
      → R.used output < 2 ^ 32
      → pending R (run_tx R callback (update_tx R (record t { output = output }) ty)).0
        ≡ frame ty (R.contents output)
  unfolding update_tx
  pending-update_tx t output ty callback v i h u =
      let t' = record t { output = output; data_framing_ready = true; type = ty } in
      (pending-run_tx t' callback (ground arith) i refl h u).0

  update_tx-IsSound : (t : Tx B) (ty : MessageType) → IsSound R t → IsSound R (update_tx R t ty)
  unfolding update_tx
  update_tx-IsSound t ty v = ground arith

  -- What can happen to a sender, and when: `FramedIO_resetTx` only while no head is being sent.
  pub data Step (t : Tx B) : Tx B → Type 0 where
    runs : (callback : Bool) → Step t (run_tx R callback t).0
    notified : (ty : MessageType) → Step t (update_tx R t ty)
    fetched : (size : ℕ) → Step t (get_tx_data R t size).0
    resets : t.state ≢ head → Step t (reset_tx R t)

  -- Every operation keeps a sender sound, but for a reset in the middle of a frame's head.
  pub Step-IsSound : {t t' : Tx B} → Step t t' → IsSound R t → IsSound R t'
  unfolding reset_tx
  Step-IsSound {t} (runs callback) v = run_tx-IsSound t callback v
  Step-IsSound {t} (notified ty) v = update_tx-IsSound t ty v
  Step-IsSound {t} (fetched size) v = (get_tx_data-Takes R t size v).2
  Step-IsSound {t} (resets h) v = ground arith
