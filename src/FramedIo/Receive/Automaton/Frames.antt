-- ===== src/FramedIo/Receive/Automaton/Frames.antt =====
-- The automaton on the parts of a frame.
use se_scope_target.Prelude.{
  ℕ, ◌+◌, ◌*◌, ◌/◌, ◌%◌, ◌^◌, ◌<◌, ◌≤◌, ◌≡◌, ◌≢◌, refl, ap, ◌∙◌, Bool, true, List, [], ◌∷◌, ◌++◌,
  arith, length,
}
use se_scope_target.SeLib.Ring.{Ring, put, put_each, capacity-put, used-put_fits}
use se_scope_target.FramedIo.{
  start_flag, length_field, data_field, checksum_field, end_flag, Rx, u16, u32,
}
use se_scope_target.FramedIo.Frame.{sum, be16, be32, frame_head}
use se_scope_target.FramedIo.Receive.{reset_rx}
use se_scope_target.FramedIo.Receive.Automaton.{
  with_length, eat, eat_length, eat_data, eat_checksum, eat_end, settle, feed,
}

-- The receiver waits for the start of a frame, and the fields of the last one are reset.
pub record IsIdle {B : Type 0} (s : Rx B) : Type 0 where
  pub waiting : s.state ≡ start_flag
  pub counter : s.state_byte_count ≡ 0
  pub expected : s.expected_length ≡ 0
  pub summed : s.checksum ≡ 0
  pub compared : s.checksum_compare ≡ 0

module _ {B : Type 0} (R : Ring ℕ B) where
  -- The state after a frame's head.
  abbrev pub headed : Rx B → ℕ → ℕ → Rx B
  headed s ty n = record s { type = ty; expected_length = n; state = data_field }

  feed-flag_type :
      (s : Rx B) (ty : ℕ) (d : List ℕ) (v : Bool)
      → s.state ≡ start_flag
      → feed R s (b'[' ∷ ty ∷ d) v ≡ feed R (record s { type = ty; state = length_field }) d v
  unfolding feed eat
  feed-flag_type s ty d v st = ground arith

  feed-length_byte :
      (s : Rx B) (b : ℕ) (d : List ℕ) (v : Bool)
      → s.state ≡ length_field
      → s.state_byte_count < 3
      → feed R s (b ∷ d) v ≡ feed R (with_length s b) d v
  unfolding feed eat eat_length
  feed-length_byte s b d v st k = ground arith

  feed-last_length_byte :
      (s : Rx B) (b : ℕ) (d : List ℕ) (v : Bool)
      → s.state ≡ length_field
      → s.state_byte_count ≡ 3
      → feed R s (b ∷ d) v
        ≡ feed R
            (settle R (record (with_length s b) { state_byte_count = 0; state = data_field }))
            d
            v
  unfolding feed eat eat_length
  feed-last_length_byte s b d v st k = ground arith

  -- The length field holds the number that was encoded in it.
  length_bytes :
      (n : ℕ)
      → n < 2 ^ 32
      → u32 (
          u32 (
            u32 (u32 (0 + n / 2 ^ 24 % 2 ^ 8 * 2 ^ 24) + n / 2 ^ 16 % 2 ^ 8 * 2 ^ 16)
            + n / 2 ^ 8 % 2 ^ 8 * 2 ^ 8)
          + n % 2 ^ 8 * 2 ^ 0)
        ≡ n
  length_bytes n h = omega arith

  pub feed-frame_head :
      (s : Rx B) (ty n : ℕ) (d : List ℕ) (v : Bool)
      → IsIdle s
      → n < 2 ^ 32
      → feed R s (frame_head ty n ++ d) v ≡ feed R (settle R (headed s ty n)) d v
  feed-frame_head s ty n d v i h =
      let s0 = record s { type = ty; state = length_field } in
      let s1 = with_length s0 (n / 2 ^ 24 % 2 ^ 8) in
      let s2 = with_length s1 (n / 2 ^ 16 % 2 ^ 8) in
      let s3 = with_length s2 (n / 2 ^ 8 % 2 ^ 8) in
      let s4 = record (with_length s3 (n % 2 ^ 8)) { state_byte_count = 0; state = data_field } in
      let e : s4 ≡ headed s ty n = ground (arith, length_bytes n h) in
      feed-flag_type s ty (be32 n ++ d) v i.waiting
      ∙ feed-length_byte s0 _ _ v refl (omega (arith, i.counter))
      ∙ feed-length_byte s1 _ _ v refl (omega (arith, i.counter))
      ∙ feed-length_byte s2 _ _ v refl (omega (arith, i.counter))
      ∙ feed-last_length_byte s3 _ _ v refl (omega (arith, i.counter))
      ∙ ap (λ t. feed R (settle R t) d v) e

  -- The bytes of a payload that has room.
  pub feed-payload :
      (s : Rx B) (p d : List ℕ) (v : Bool)
      → s.state ≡ data_field
      → s.checksum < 2 ^ 16
      → R.used s.input + length p ≡ s.expected_length
      → s.expected_length ≤ R.capacity s.input
      → feed R (settle R s) (p ++ d) v
        ≡ feed R
            (record s {
              state = checksum_field;
              checksum = u16 (s.checksum + sum p);
              input = put_each R s.input p;
            })
            d
            v
  unfolding feed eat eat_data sum put_each
  feed-payload s [] d v st c e r = ground arith
  feed-payload s (b ∷ bs) d v st c e r =
      let s' = record s { checksum = u16 (s.checksum + b); input = put R s.input (b ∷ []) } in
      ground (
        arith,
        feed-payload s' bs d v,
        used-put_fits R s.input (b ∷ []),
        capacity-put R s.input (b ∷ []),
      )

  pub feed-frame_foot :
      (s : Rx B) (n : ℕ) (d : List ℕ) (v : Bool)
      → s.state ≡ checksum_field
      → s.state_byte_count ≡ 0
      → s.checksum_compare ≡ 0
      → s.checksum ≡ n
      → n < 2 ^ 16
      → feed R s (be16 n ++ (b']' ∷ d)) v
        ≡ feed R
            (record s { state = start_flag; data_ready = true; expected_length = 0; checksum = 0 })
            d
            true
  unfolding feed eat eat_checksum eat_end
  feed-frame_foot s n d v st k c e h = ground arith

  pub feed-good_checksum :
      (s : Rx B) (n : ℕ) (d : List ℕ) (v : Bool)
      → s.state ≡ checksum_field
      → s.state_byte_count ≡ 0
      → s.checksum_compare ≡ 0
      → s.checksum ≡ n
      → n < 2 ^ 16
      → feed R s (be16 n ++ d) v
        ≡ feed R
            (record s {
              state_byte_count = 0;
              state = end_flag;
              checksum_compare = 0;
              checksum = 0;
            })
            d
            v
  unfolding feed eat eat_checksum
  feed-good_checksum s n d v st k c e h = ground arith

  -- A wrong checksum, or a right one with another byte where the end flag should be.
  pub feed-bad_checksum :
      (s : Rx B) (hi lo : ℕ) (d : List ℕ) (v : Bool)
      → s.state ≡ checksum_field
      → s.state_byte_count ≡ 0
      → s.checksum_compare ≡ 0
      → hi < 2 ^ 8
      → lo < 2 ^ 8
      → hi * 2 ^ 8 + lo ≢ s.checksum
      → feed R s (hi ∷ lo ∷ b']' ∷ d) v ≡ feed R (reset_rx R s) d v
  unfolding feed eat eat_checksum reset_rx
  feed-bad_checksum s hi lo d v st k c hh hl n = ground arith

  pub feed-bad_end :
      (s : Rx B) (hi lo b : ℕ) (d : List ℕ) (v : Bool)
      → s.state ≡ checksum_field
      → s.state_byte_count ≡ 0
      → s.checksum_compare ≡ 0
      → hi < 2 ^ 8
      → lo < 2 ^ 8
      → hi * 2 ^ 8 + lo ≡ s.checksum
      → b ≢ b']'
      → feed R s (hi ∷ lo ∷ b ∷ d) v ≡ feed R (reset_rx R s) d v
  unfolding feed eat eat_checksum eat_end reset_rx
  feed-bad_end s hi lo b d v st k c hh hl e n = ground arith
