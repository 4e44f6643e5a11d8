-- ===== src/FramedIo/Delivery.antt =====
-- A sender and a receiver joined by a transport that cuts the stream where it likes.
use se_scope_target.Prelude.{
  ℕ, ◌^◌, ◌<◌, ◌≤◌, ◌≡◌, ap, ◌∙◌, Bool, true, false, List, [], some, arith, length, concat, take,
  drop, take_of_length_le, drop_of_length_le,
}
use se_scope_target.SeLib.Ring.{Ring}
use se_scope_target.FramedIo.{Rx, Tx, idle}
use se_scope_target.FramedIo.Frame.{sum, frame}
use se_scope_target.FramedIo.Receive.{run_rx}
use se_scope_target.FramedIo.Receive.Automaton.Frames.{IsIdle}
use se_scope_target.FramedIo.Receive.Messages.{run_rx_type, run_rx_input, run_rx-IsIdle}
use se_scope_target.FramedIo.Receive.Pieces.{put_all, put_all-frame}
use se_scope_target.FramedIo.Transmit.{run_tx}
use se_scope_target.FramedIo.Transmit.Pending.{pending, IsSound}
use se_scope_target.FramedIo.Transmit.Calls.{get_all, get_all-Takes}
use se_scope_target.FramedIo.Transmit.Runs.{pending-run_tx}

module _ {B C : Type 0} (R : Ring ℕ B) (S : Ring ℕ C) where
  -- A sound, idle sender with a message of a one-byte type in its output buffer, and an idle receiver
  -- whose input buffer is empty and large enough: `runTx` starts the frame, the transport fetches it
  -- in arrays of any sizes that suffice, and hands each piece to the receiver. Then the receiver has
  -- reported one frame, the sender has nothing left to send, and `runRx` hands the message's type to
  -- its observer with the message in the input buffer.
  pub delivery :
      (f : ℕ) (callback : Bool) (t : Tx B) (s : Rx C) (ns : List ℕ)
      → IsSound R t
      → t.state ≡ idle
      → t.data_framing_ready ≡ true
      → t.type < 2 ^ 8
      → R.used t.output < 2 ^ 32
      → IsIdle s
      → s.data_ready ≡ false
      → S.contents s.input ≡ []
      → R.used t.output ≤ S.capacity s.input
      → length (frame t.type (R.contents t.output)) ≤ sum ns
      → length (frame t.type (R.contents t.output)) < f
      → let (t', pieces) = get_all R (run_tx R callback t).0 ns in
        (u : Rx C) × (put_all S f s pieces ≡ some (u, true))
        × (pending R t' ≡ [])
        × ((run_rx S u).2 ≡ some t.type)
        × (S.contents (run_rx S u).0.input ≡ R.contents t.output)
        × IsIdle (run_rx S u).0
  delivery f callback t s ns v r ready ty n i quiet em fits enough fuel =
      let p = R.contents t.output in
      let started = pending-run_tx R t callback v r ready ty n in
      let t1 = (run_tx R callback t).0 in
      let got = get_all-Takes R t1 ns started.3 in
      let pieces = (get_all R t1 ns).1 in
      let whole : concat pieces ≡ frame t.type p =
        got.0 ∙ ap (take (sum ns)) started.0 ∙ take_of_length_le (sum ns) (frame t.type p) enough in
      let (u, put, waits, type, payload, idle_again) =
        put_all-frame S f s t.type p pieces whole fuel i quiet em
          (omega (arith, R.used_lem t.output)) (omega (arith, R.used_lem t.output)) in
      (
        u,
        put,
        got.1 ∙ ap (drop (sum ns)) started.0 ∙ drop_of_length_le (sum ns) (frame t.type p) enough,
        run_rx_type S u t.type waits type,
        run_rx_input S u ∙ payload,
        run_rx-IsIdle S u idle_again,
      )
