-- ===== src/FramedIo/Receive/Automaton/Refines.antt =====
-- The checks of `FramedIO_putRxData`, round by round, against the automaton.
use se_scope_target.Prelude.{
  ℕ, zero, suc, ◌-◌, ◌<◌, ◌≤◌, ◌≡◌, ◌≢◌, refl, subst, ap, ◌∙◌, Bool, true, false, ◌||◌, List, [],
  ◌∷◌, none, if◌then◌else◌, arith, length,
}
use se_scope_target.SeLib.Ring.{Ring}
use se_scope_target.FramedIo.{
  RxState, start_flag, type_field, length_field, data_field, checksum_field, end_flag, Rx,
}
use se_scope_target.FramedIo.Receive.{
  Check, read_data, end_data, check_start_flag, check_type, check_length, check_data,
  check_checksum, check_end_flag, check_all, put_loop,
}
use se_scope_target.FramedIo.Receive.Automaton.{is_data, Counted, settle, stuck, feed, Settled}
use se_scope_target.FramedIo.Receive.Automaton.Fields.{
  feed-data, feed-length, feed-checksum, feed-start, feed-type, feed-end, find_start_lem,
  read_type_lem, length_lem, checksum_lem, read_end_lem, data_lem,
}

module _ {B : Type 0} (R : Ring ℕ B) where
  -- A data field that has just been entered or filled is settled by `check_data`.
  abbrev tidy : Rx B → Rx B
  tidy s = if is_data s.state then settle R s else s

  -- What a check does to the rest of the call.
  record Sound (s : Rx B) (d : List ℕ) (v : Bool) (c : Check B) : Type 0 where
    same : feed R (tidy s) d v ≡ feed R (tidy c.0) c.1 v
    counted : Counted c.0
    shorter : length c.1 ≤ length d

  check_start_flag-Sound :
      (s : Rx B) (d : List ℕ) (v : Bool) → Counted s → Sound s d v (check_start_flag R s d)
  unfolding check_start_flag
  check_start_flag-Sound s d v c = ground (arith, feed-start R s d v, find_start_lem R s d)

  check_type-Sound : (s : Rx B) (d : List ℕ) (v : Bool) → Counted s → Sound s d v (check_type R s d)
  unfolding check_type
  check_type-Sound s d v c = ground (arith, feed-type R s d v, read_type_lem R s d)

  check_length-Sound :
      (s : Rx B) (d : List ℕ) (v : Bool) → Counted s → Sound s d v (check_length R s d)
  unfolding check_length
  check_length-Sound s d v c = ground (arith, feed-length R s d v, length_lem R s d)

  check_data-Sound : (s : Rx B) (d : List ℕ) (v : Bool) → Counted s → Sound s d v (check_data R s d)
  unfolding check_data
  check_data-Sound s d v c = ground (arith, feed-data R s d v, data_lem R s d)

  check_checksum-Sound :
      (s : Rx B) (d : List ℕ) (v : Bool) → Counted s → Sound s d v (check_checksum R s d)
  unfolding check_checksum
  check_checksum-Sound s d v c = ground (arith, feed-checksum R s d v, checksum_lem R s d)

  -- One round of the loop takes the bytes that it takes as the automaton does.
  record Round (s : Rx B) (d : List ℕ) (v : Bool) (c : Check B) : Type 0 where
    same : feed R s d v ≡ feed R c.0 c.1 (c.2 || v)
    settled : Settled R c.0
    shorter : length c.1 ≤ length d

  check_end_flag-Round :
      (s : Rx B) (d : List ℕ) (v : Bool) → Settled R s → Round s d v (check_end_flag R s d)
  unfolding check_end_flag
  check_end_flag-Round s d v c = ground (arith, feed-end R s d v, read_end_lem R s d)

  check_data-Settled : (s : Rx B) (d : List ℕ) → Counted s → Settled R (check_data R s d).0
  unfolding check_data
  check_data-Settled s d c = ground (arith, data_lem R s d)

  check_checksum-Settled :
      (s : Rx B) (d : List ℕ) → Settled R s → Settled R (check_checksum R s d).0
  unfolding check_checksum
  check_checksum-Settled s d c = ground (arith, checksum_lem R s d)

  tidy-Settled : (s : Rx B) → Settled R s → tidy s ≡ s
  tidy-Settled s c = ground arith

  check_all-Round : (s : Rx B) (d : List ℕ) (v : Bool) → Settled R s → Round s d v (check_all R s d)
  unfolding check_all
  check_all-Round s d v c =
      let c1 = check_start_flag R s d in
      let c2 = check_type R c1.0 c1.1 in
      let c3 = check_length R c2.0 c2.1 in
      let c4 = check_data R c3.0 c3.1 in
      let c5 = check_checksum R c4.0 c4.1 in
      let r1 = check_start_flag-Sound s d v c.0 in
      let r2 = check_type-Sound c1.0 c1.1 v r1.counted in
      let r3 = check_length-Sound c2.0 c2.1 v r2.counted in
      let r4 = check_data-Sound c3.0 c3.1 v r3.counted in
      let w4 = check_data-Settled c3.0 c3.1 r3.counted in
      let r5 = check_checksum-Sound c4.0 c4.1 v r4.counted in
      let w5 = check_checksum-Settled c4.0 c4.1 w4 in
      let r6 = check_end_flag-Round c5.0 c5.1 v w5 in
      record {
        same =
            subst (λ t. feed R t d v ≡ feed R (tidy c5.0) c5.1 v) (tidy-Settled s c)
              (r1.same ∙ r2.same ∙ r3.same ∙ r4.same ∙ r5.same)
            ∙ ap (λ t. feed R t c5.1 v) (tidy-Settled c5.0 w5)
            ∙ r6.same;
        settled = r6.settled;
        shorter = omega arith;
      }

  -- A check takes a byte in its own state, if there is one, and does nothing in any other.
  record Moves (x : RxState) (s : Rx B) (d : List ℕ) (c : Check B) : Type 0 where
    takes : s.state ≡ x → length c.1 ≤ length d - 1
    stays : s.state ≢ x → (c.0 ≡ s) × (c.1 ≡ d)

  check_start_flag-Moves :
      (s : Rx B) (d : List ℕ) → Counted s → Moves start_flag s d (check_start_flag R s d)
  unfolding check_start_flag
  check_start_flag-Moves s d c = ground (arith, find_start_lem R s d)

  check_type-Moves : (s : Rx B) (d : List ℕ) → Counted s → Moves type_field s d (check_type R s d)
  unfolding check_type
  check_type-Moves s d c = ground (arith, read_type_lem R s d)

  check_length-Moves :
      (s : Rx B) (d : List ℕ) → Counted s → Moves length_field s d (check_length R s d)
  unfolding check_length
  check_length-Moves s d c = ground (arith, length_lem R s d)

  check_checksum-Moves :
      (s : Rx B) (d : List ℕ) → Counted s → Moves checksum_field s d (check_checksum R s d)
  unfolding check_checksum
  check_checksum-Moves s d c = ground (arith, checksum_lem R s d)

  check_end_flag-Moves :
      (s : Rx B) (d : List ℕ) → Counted s → Moves end_flag s d (check_end_flag R s d)
  unfolding check_end_flag
  check_end_flag-Moves s d c = ground (arith, read_end_lem R s d)

  check_data-Moves :
      (s : Rx B) (d : List ℕ)
      → Settled R s
      → stuck R s ≡ false
      → Moves data_field s d (check_data R s d)
  unfolding check_data
  check_data-Moves s d c u = ground (arith, data_lem R s d)

  -- An unstuck receiver takes a byte in every round.
  check_all-shorter :
      (s : Rx B) (d : List ℕ)
      → Settled R s
      → stuck R s ≡ false
      → length (check_all R s d).1 ≤ length d - 1
  unfolding check_all
  check_all-shorter s d c u =
      let c1 = check_start_flag R s d in
      let c2 = check_type R c1.0 c1.1 in
      let c3 = check_length R c2.0 c2.1 in
      let c4 = check_data R c3.0 c3.1 in
      let c5 = check_checksum R c4.0 c4.1 in
      let r1 = check_start_flag-Sound s d true c.0 in
      let r2 = check_type-Sound c1.0 c1.1 true r1.counted in
      let r3 = check_length-Sound c2.0 c2.1 true r2.counted in
      let r4 = check_data-Sound c3.0 c3.1 true r3.counted in
      let w4 = check_data-Settled c3.0 c3.1 r3.counted in
      let r5 = check_checksum-Sound c4.0 c4.1 true r4.counted in
      let w5 = check_checksum-Settled c4.0 c4.1 w4 in
      let r6 = check_end_flag-Round c5.0 c5.1 true w5 in
      ground (
        arith,
        check_start_flag-Moves s d c.0,
        check_type-Moves c1.0 c1.1 r1.counted,
        check_length-Moves c2.0 c2.1 r2.counted,
        check_data-Moves c3.0 c3.1,
        check_checksum-Moves c4.0 c4.1 r4.counted,
        check_end_flag-Moves c5.0 c5.1 w5.0,
      )

  check_all-stuck :
      (s : Rx B) (b : ℕ) (bs : List ℕ)
      → stuck R s ≡ true
      → let (s', d', ended) = check_all R s (b ∷ bs) in (s' ≡ s) × (d' ≡ b ∷ bs) × (ended ≡ false)
  unfolding check_all check_start_flag check_type check_length check_data read_data end_data
      check_checksum check_end_flag
  check_all-stuck s b bs h = ground arith

  pub put_loop-stuck :
      (f : ℕ) (s : Rx B) (b : ℕ) (bs : List ℕ) (v : Bool)
      → stuck R s ≡ true
      → put_loop R f s (b ∷ bs) v ≡ none
  unfolding put_loop
  put_loop-stuck zero s b bs v h = refl
  put_loop-stuck (suc f) s b bs v h =
      ground (arith, check_all-stuck s b bs h, put_loop-stuck f s b bs v h)

  pub put_loop-eq-feed :
      (f : ℕ) (s : Rx B) (d : List ℕ) (v : Bool)
      → length d < f
      → Settled R s
      → put_loop R f s d v ≡ feed R s d v
  unfolding put_loop feed
  put_loop-eq-feed zero s d v h c = absurd (omega arith)
  put_loop-eq-feed (suc f) s [] v h c = let r = check_all-Round s [] v c in ground (arith, r)
  put_loop-eq-feed (suc f) s (b ∷ bs) v h c =
      let r = check_all-Round s (b ∷ bs) v c in
      let w = check_all R s (b ∷ bs) in
      ground (
        arith,
        r,
        check_all-stuck s b bs,
        put_loop-stuck f s b bs v,
        check_all-shorter s (b ∷ bs) c,
        put_loop-eq-feed f w.0 w.1 (w.2 || v),
      )
