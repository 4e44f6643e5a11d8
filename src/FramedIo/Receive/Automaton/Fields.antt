-- ===== src/FramedIo/Receive/Automaton/Fields.antt =====
-- What each field loop of the receiver does, in steps of the automaton.
use se_scope_target.Prelude.{
  ℕ, ◌+◌, ◌-◌, ◌<◌, ◌≤◌, ◌≡◌, refl, Bool, false, ◌||◌, List, [], ◌∷◌, if◌then◌else◌, arith, length,
}
use se_scope_target.SeLib.Ring.{Ring, put}
use se_scope_target.FramedIo.{
  start_flag, type_field, length_field, data_field, checksum_field, end_flag, Rx, u16,
}
use se_scope_target.FramedIo.Receive.{
  reset_rx, read_length, end_length, read_data, end_data, read_checksum, end_checksum, find_start,
  read_type, read_end,
}
use se_scope_target.FramedIo.Receive.Automaton.{
  is_data, with_length, with_checksum, Counted, settle, eat, eat_length, eat_data, eat_checksum,
  eat_end, feed, Settled,
}

module _ {B : Type 0} (R : Ring ℕ B) where
  pub feed-data :
      (s : Rx B) (d : List ℕ) (v : Bool)
      → s.state ≡ data_field
      → let (s', d', _) = end_data R (read_data R s d) in feed R (settle R s) d v ≡ feed R s' d' v
  unfolding feed read_data end_data eat eat_data
  feed-data s [] v h = ground arith
  feed-data s (b ∷ bs) v h = ground (
    arith,
    feed-data (record s { checksum = u16 (s.checksum + b); input = put R s.input (b ∷ []) }) bs v h,
  )

  pub read_length_full :
      (s : Rx B) (d : List ℕ) → 4 ≤ s.state_byte_count → read_length R s d ≡ (s, d)
  unfolding read_length
  read_length_full s [] h = refl
  read_length_full s (b ∷ bs) h = ground arith

  pub read_checksum_full :
      (s : Rx B) (d : List ℕ) → 2 ≤ s.state_byte_count → read_checksum R s d ≡ (s, d)
  unfolding read_checksum
  read_checksum_full s [] h = refl
  read_checksum_full s (b ∷ bs) h = ground arith

  pub feed-length :
      (s : Rx B) (d : List ℕ) (v : Bool)
      → s.state ≡ length_field
      → s.state_byte_count < 4
      → let (s', d', done) = end_length R (read_length R s d) in
        feed R s d v ≡ feed R (if done then settle R s' else s') d' v
  unfolding feed read_length end_length eat eat_length
  feed-length s [] v h c = ground arith
  feed-length s (b ∷ bs) v h c =
      ground (arith, read_length_full (with_length s b) bs, feed-length (with_length s b) bs v h)

  pub feed-checksum :
      (s : Rx B) (d : List ℕ) (v : Bool)
      → s.state ≡ checksum_field
      → s.state_byte_count < 2
      → let (s', d', _) = end_checksum R (read_checksum R s d) in feed R s d v ≡ feed R s' d' v
  unfolding feed read_checksum end_checksum eat eat_checksum
  feed-checksum s [] v h c = ground arith
  feed-checksum s (b ∷ bs) v h c =
      ground
        (arith, read_checksum_full (with_checksum s b) bs, feed-checksum (with_checksum s b) bs v h)

  pub feed-start :
      (s : Rx B) (d : List ℕ) (v : Bool)
      → s.state ≡ start_flag
      → let (s', d', _) = find_start R s d in feed R s d v ≡ feed R s' d' v
  unfolding feed find_start eat
  feed-start s [] v h = ground arith
  feed-start s (b ∷ bs) v h = ground (arith, feed-start s bs v h)

  pub feed-type :
      (s : Rx B) (d : List ℕ) (v : Bool)
      → s.state ≡ type_field
      → let (s', d', _) = read_type R s d in feed R s d v ≡ feed R s' d' v
  unfolding feed read_type eat
  feed-type s [] v h = ground arith
  feed-type s (b ∷ bs) v h = ground arith

  pub feed-end :
      (s : Rx B) (d : List ℕ) (v : Bool)
      → s.state ≡ end_flag
      → let (s', d', ended) = read_end R s d in feed R s d v ≡ feed R s' d' (ended || v)
  unfolding feed read_end eat eat_end
  feed-end s [] v h = ground arith
  feed-end s (b ∷ bs) v h = ground arith

  pub find_start_lem :
      (s : Rx B) (d : List ℕ)
      → s.state ≡ start_flag
      → Counted s
      → let (s', d', _) = find_start R s d in
        Counted s' × (is_data s'.state ≡ false) × (length d' ≤ length d - 1)
  unfolding find_start
  find_start_lem s [] h c = ground arith
  find_start_lem s (b ∷ bs) h c = ground (arith, find_start_lem s bs h c)

  pub read_type_lem :
      (s : Rx B) (d : List ℕ)
      → s.state ≡ type_field
      → Counted s
      → let (s', d', _) = read_type R s d in
        Counted s' × (is_data s'.state ≡ false) × (length d' ≤ length d - 1)
  unfolding read_type
  read_type_lem s [] h c = ground arith
  read_type_lem s (b ∷ bs) h c = ground arith

  pub length_lem :
      (s : Rx B) (d : List ℕ)
      → s.state ≡ length_field
      → Counted s
      → let (s', d', done) = end_length R (read_length R s d) in
        Counted s' × (done ≡ is_data s'.state) × (length d' ≤ length d - 1)
  unfolding read_length end_length
  length_lem s [] h c = ground arith
  length_lem s (b ∷ bs) h c =
      ground (arith, read_length_full (with_length s b) bs, length_lem (with_length s b) bs h)

  pub checksum_lem :
      (s : Rx B) (d : List ℕ)
      → s.state ≡ checksum_field
      → Counted s
      → let (s', d', _) = end_checksum R (read_checksum R s d) in
        Counted s' × (is_data s'.state ≡ false) × (length d' ≤ length d - 1)
  unfolding read_checksum end_checksum reset_rx
  checksum_lem s [] h c = ground arith
  checksum_lem s (b ∷ bs) h c =
      ground
        (arith, read_checksum_full (with_checksum s b) bs, checksum_lem (with_checksum s b) bs h)

  pub read_end_lem :
      (s : Rx B) (d : List ℕ)
      → s.state ≡ end_flag
      → Counted s
      → let (s', d', _) = read_end R s d in
        Counted s' × (is_data s'.state ≡ false) × (length d' ≤ length d - 1)
  unfolding read_end reset_rx
  read_end_lem s [] h c = ground arith
  read_end_lem s (b ∷ bs) h c = ground arith

  pub data_lem :
      (s : Rx B) (d : List ℕ)
      → s.state ≡ data_field
      → Counted s
      → let (s', d', _) = end_data R (read_data R s d) in
        Settled R s'
        × (length d' ≤ length d)
        × (R.used s.input < s.expected_length → length d' ≤ length d - 1)
  unfolding read_data end_data
  data_lem s [] h c = ground arith
  data_lem s (b ∷ bs) h c = ground (
    arith,
    data_lem (record s { checksum = u16 (s.checksum + b); input = put R s.input (b ∷ []) }) bs h c,
  )
