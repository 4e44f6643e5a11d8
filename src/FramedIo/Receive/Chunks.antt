-- ===== src/FramedIo/Receive/Chunks.antt =====
-- `FramedIO_putRxData` on a whole call, and on a stream that arrives in pieces.
use se_scope_target.Prelude.{
  zero, suc, ◌≤◌, ℕ, ◌+◌, ◌<◌, ◌≡◌, Bool, false, ◌||◌, List, ◌++◌, some, if◌then◌else◌, arith,
  length, length-append,
}
use se_scope_target.SeLib.Ring.{Ring}
use se_scope_target.FramedIo.{Rx}
use se_scope_target.FramedIo.Receive.{check_all, put_loop, put_rx_data}
use se_scope_target.FramedIo.Receive.Automaton.{feed, Settled}
use se_scope_target.FramedIo.Receive.Automaton.Refines.{put_loop-eq-feed}
use se_scope_target.FramedIo.Receive.Automaton.Streams.{feed-append, feed_flag, feed-Settled}

module _ {B : Type 0} (R : Ring ℕ B) where
  put_loop_mono :
      (f g : ℕ) (s : Rx B) (d : List ℕ) (v : Bool) {r : Rx B × Bool}
      → put_loop R f s d v ≡ some r
      → f ≤ g
      → put_loop R g s d v ≡ some r
  unfolding put_loop
  put_loop_mono zero g s d v e h = cc
  put_loop_mono (suc f) zero s d v e h = absurd (omega arith)
  put_loop_mono (suc f) (suc g) s d v {r} e h =
      let w = check_all R s d in ground (arith, put_loop_mono f g w.0 w.1 (w.2 || v) {r = r})

  -- More fuel never changes an outcome.
  pub put_rx_data_mono :
      (f g : ℕ) (s : Rx B) (d : List ℕ) {r : Rx B × Bool}
      → put_rx_data R f s d ≡ some r
      → f ≤ g
      → put_rx_data R g s d ≡ some r
  unfolding put_rx_data
  put_rx_data_mono f g s d {r} e h = ground (arith, put_loop_mono f g s d false {r = r})

  -- With one round of fuel more than there are bytes, a call on a settled receiver refuses the bytes
  -- while a frame waits to be fetched, and otherwise takes them one by one as the automaton does. So
  -- more fuel never changes the outcome, and `none` means that the C loop does not end.
  pub put_rx_data-eq-feed :
      (f : ℕ) (s : Rx B) (d : List ℕ)
      → length d < f
      → Settled R s
      → put_rx_data R f s d ≡ (if s.data_ready then some (s, false) else feed R s d false)
  unfolding put_rx_data
  put_rx_data-eq-feed f s d h c = ground (arith, put_loop-eq-feed R f s d false h c)

  -- A call that returns leaves the receiver settled.
  pub put_rx_data-Settled :
      (f : ℕ) (s t : Rx B) (d : List ℕ) (w : Bool)
      → length d < f
      → Settled R s
      → put_rx_data R f s d ≡ some (t, w)
      → Settled R t
  put_rx_data-Settled f s t d w h c e =
      ground (arith, put_rx_data-eq-feed f s d h c, feed-Settled R s t d false w c)

  -- Bytes handed over in two calls have the effect of one call with both pieces, as long as no
  -- frame is waiting when the second piece comes; the single call reports a frame exactly if one of
  -- the two does.
  pub put_rx_data-append :
      (f g k : ℕ) (s t u : Rx B) (d e : List ℕ) (v w : Bool)
      → length d < f
      → length e < g
      → length d + length e < k
      → Settled R s
      → s.data_ready ≡ false
      → put_rx_data R f s d ≡ some (t, v)
      → t.data_ready ≡ false
      → put_rx_data R g t e ≡ some (u, w)
      → put_rx_data R k s (d ++ e) ≡ some (u, w || v)
  put_rx_data-append f g k s t u d e v w hf hg hk c r p r' q = ground (
    arith,
    put_rx_data-eq-feed f s d hf c,
    put_rx_data-eq-feed g t e hg (put_rx_data-Settled f s t d v hf c p),
    put_rx_data-eq-feed k s (d ++ e),
    length-append d e,
    feed-append R s t d e false v,
    feed_flag R t u e false v w,
  )
