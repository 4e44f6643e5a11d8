-- ===== src/FramedIo/Receive/Automaton/Streams.antt =====
-- The automaton on a stream of bytes.
use se_scope_target.Prelude.{
  Bool-cases, inl, inr, ℕ, ◌≡◌, refl, Bool, true, false, none, ◌||◌, List, [], ◌∷◌, ◌++◌, some,
  arith,
}
use se_scope_target.SeLib.Ring.{Ring}
use se_scope_target.FramedIo.{Rx}
use se_scope_target.FramedIo.Receive.{reset_rx}
use se_scope_target.FramedIo.Receive.Automaton.{
  stuck, eat, eat_length, eat_data, eat_checksum, eat_end, feed, Settled,
}

or_assoc : (a b c : Bool) → (a || (b || c)) ≡ ((a || b) || c)
or_assoc true b c = refl
or_assoc false b c = refl

Bool-or_true : (b : Bool) → (b || true) ≡ true
Bool-or_true true = refl
Bool-or_true false = refl

module _ {B : Type 0} (R : Ring ℕ B) where
  pub feed-nil : (s : Rx B) (v : Bool) → feed R s [] v ≡ some (s, v)
  unfolding feed
  feed-nil s v = refl

  pub feed-stuck :
      (s : Rx B) (b : ℕ) (d : List ℕ) (v : Bool) → stuck R s ≡ true → feed R s (b ∷ d) v ≡ none
  unfolding feed
  feed-stuck s b d v h = ground arith

  pub feed-append :
      (s t : Rx B) (d e : List ℕ) (v w : Bool)
      → feed R s d v ≡ some (t, w)
      → feed R s (d ++ e) v ≡ feed R t e w
  unfolding feed
  feed-append s t [] e v w h = ground arith
  feed-append s t (b ∷ bs) e v w h =
      ground (arith, feed-append (eat R s b).0 t bs e ((eat R s b).1 || v) w)

  -- The flag is only carried along.
  pub feed_flag :
      (s t : Rx B) (d : List ℕ) (u v w : Bool)
      → feed R s d u ≡ some (t, w)
      → feed R s d (u || v) ≡ some (t, w || v)
  unfolding feed
  feed_flag s t [] u v w h = ground arith
  feed_flag s t (b ∷ bs) u v w h =
      ground
        (arith, or_assoc (eat R s b).1 u v, feed_flag (eat R s b).0 t bs ((eat R s b).1 || u) v w)

  eat-Settled : (s : Rx B) (b : ℕ) → Settled R s → Settled R (eat R s b).0
  unfolding eat eat_length eat_data eat_checksum eat_end reset_rx
  eat-Settled s b c = ground arith

  pub feed-Settled :
      (s t : Rx B) (d : List ℕ) (v w : Bool)
      → Settled R s
      → feed R s d v ≡ some (t, w)
      → Settled R t
  unfolding feed
  feed-Settled s t [] v w c h = ground arith
  feed-Settled s t (b ∷ bs) v w c h =
      ground (arith, eat-Settled s b c, feed-Settled (eat R s b).0 t bs ((eat R s b).1 || v) w)

  -- A call that returns has returned on every part of its bytes.
  pub feed-prefix :
      (s : Rx B) (d e : List ℕ) (v : Bool) {r : Rx B × Bool}
      → feed R s (d ++ e) v ≡ some r
      → (t : Rx B) × (w : Bool) × (feed R s d v ≡ some (t, w))
  unfolding feed
  feed-prefix s [] e v h = (s, v, refl)
  feed-prefix s (b ∷ bs) e v {r} h = elim (Bool-cases (stuck R s)) [
    | inl u ↦ ground arith
    | inr u ↦
        let (t, w, g) =
          feed-prefix (eat R s b).0 bs e ((eat R s b).1 || v) {r = r} (ground arith) in
        (t, w, ground arith)
  ]

  -- A frame that was reported stays reported.
  pub feed_reported :
      (s t : Rx B) (d : List ℕ) (w : Bool) → feed R s d true ≡ some (t, w) → w ≡ true
  unfolding feed
  feed_reported s t [] w h = ground arith
  feed_reported s t (b ∷ bs) w h =
      ground (arith, Bool-or_true (eat R s b).1, feed_reported (eat R s b).0 t bs w)

  eat_unready :
      (s : Rx B) (b : ℕ)
      → s.data_ready ≡ false
      → (eat R s b).1 ≡ false
      → (eat R s b).0.data_ready ≡ false
  unfolding eat eat_length eat_data eat_checksum eat_end reset_rx
  eat_unready s b h k = ground arith

  -- A message waits only if a frame was reported.
  pub feed_unready :
      (s t : Rx B) (d : List ℕ) (v : Bool)
      → feed R s d v ≡ some (t, false)
      → s.data_ready ≡ false
      → t.data_ready ≡ false
  unfolding feed
  feed_unready s t [] v h r = ground arith
  feed_unready s t (b ∷ bs) v h r = elim (Bool-cases (eat R s b).1) [
    | inl ended ↦ ground (arith, feed_reported (eat R s b).0 t bs false)
    | inr not_ended ↦
        ground
          (arith, eat_unready s b r not_ended, feed_unready (eat R s b).0 t bs ((eat R s b).1 || v))
  ]
