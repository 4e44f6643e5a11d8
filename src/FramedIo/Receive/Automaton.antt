-- ===== src/FramedIo/Receive/Automaton.antt =====
-- The receiver as an automaton that takes one byte at a time: what `FramedIO_putRxData` promises.
pub mod Fields
pub mod Frames
pub mod Refines
pub mod Streams
use se_scope_target.Prelude.{
  ℕ, zero, suc, ◌+◌, ◌-◌, ◌*◌, ◌^◌, ◌<◌, ◌≤◌, ◌≡◌, ◌≢◌, refl, subst, ap, ◌∙◌, Bool, true, false,
  ◌||◌, ◌&&◌, List, [], ◌∷◌, Option, none, some, ltb, ◌==◌, if◌then◌else◌, arith, length,
}
use se_scope_target.SeLib.Ring.{Ring, put}
use se_scope_target.FramedIo.{
  RxState, start_flag, type_field, length_field, data_field, checksum_field, end_flag, Rx, se_none,
  length_of_length_field, length_of_checksum_field, u16, u32,
}
use se_scope_target.FramedIo.Receive.{
  Check, is_nil, reset_rx, read_length, end_length, read_data, end_data, read_checksum,
  end_checksum, find_start, read_type, read_end, check_start_flag, check_type, check_length,
  check_data, check_checksum, check_end_flag, check_all, put_loop, put_rx_data,
}

abbrev pub is_data : RxState → Bool
is_data data_field = true
is_data _ = false

-- `s` after the length byte `b`, and after the checksum byte `b`.
abbrev pub with_length : {B : Type 0} → Rx B → ℕ → Rx B
with_length s b = record s {
  expected_length =
      u32 (s.expected_length + b * 2 ^ ((length_of_length_field - s.state_byte_count - 1) * 8));
  state_byte_count = s.state_byte_count + 1;
}

abbrev pub with_checksum : {B : Type 0} → Rx B → ℕ → Rx B
with_checksum s b = record s {
  checksum_compare =
      u16 (s.checksum_compare + b * 2 ^ ((length_of_checksum_field - s.state_byte_count - 1) * 8));
  state_byte_count = s.state_byte_count + 1;
}

-- The bytes counted within a field are fewer than the field has.
abbrev pub max_count : RxState → ℕ
max_count length_field = 3
max_count checksum_field = 1
max_count _ = 0

abbrev pub Counted : {B : Type 0} → Rx B → Type 0
Counted s = s.state_byte_count ≤ max_count s.state

module _ {B : Type 0} (R : Ring ℕ B) where
  -- A payload that is complete is followed by its checksum.
  abbrev pub settle : Rx B → Rx B
  settle s = if R.used s.input == s.expected_length then record s { state = checksum_field } else s

  pub eat_length : Rx B → ℕ → Rx B
  eat_length s b =
      let s' = with_length s b in
      if s'.state_byte_count == 4
      then settle (record s' { state_byte_count = 0; state = data_field })
      else s'

  pub eat_data : Rx B → ℕ → Rx B
  eat_data s b =
      settle (record s { checksum = u16 (s.checksum + b); input = put R s.input (b ∷ []) })

  pub eat_checksum : Rx B → ℕ → Rx B
  eat_checksum s b =
      let s' = with_checksum s b in
      if s'.state_byte_count == 2
      then (if s'.checksum_compare == s.checksum
          then record s' {
            state_byte_count = 0;
            state = end_flag;
            checksum_compare = 0;
            checksum = 0;
          }
          else reset_rx R s')
      else s'

  pub eat_end : Rx B → ℕ → Rx B
  eat_end s b =
      if b == b']'
      then record s { state = start_flag; data_ready = true; expected_length = 0 }
      else reset_rx R s

  -- One byte: the new state, and whether the byte ended a frame.
  pub eat : Rx B → ℕ → Rx B × Bool
  eat s b = elim s.state [
    | start_flag ↦ ((if b == b'[' then record s { state = type_field } else s), false)
    | type_field ↦ (record s { type = b; state = length_field }, false)
    | length_field ↦ (eat_length s b, false)
    | data_field ↦ (eat_data s b, false)
    | checksum_field ↦ (eat_checksum s b, false)
    | end_flag ↦ (eat_end s b, b == b']')
  ]

  -- More bytes lie in the input than the frame announces: no check takes another byte.
  abbrev pub stuck : Rx B → Bool
  stuck s = is_data s.state && ltb s.expected_length (R.used s.input)

  pub feed : Rx B → List ℕ → Bool → Option (Rx B × Bool)
  feed s [] v = some (s, v)
  feed s (b ∷ bs) v =
      let rest = feed (eat s b).0 bs ((eat s b).1 || v) in if stuck s then none else rest

  -- The receiver waits for a byte: a payload that is complete has left the data field.
  abbrev pub Settled : Rx B → Type 0
  Settled s = Counted s × (s.state ≡ data_field → R.used s.input ≢ s.expected_length)
