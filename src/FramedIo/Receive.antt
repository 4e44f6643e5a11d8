-- ===== src/FramedIo/Receive.antt =====
-- The receiver of src/Communication/Interfaces/FramedIO.c. `data[*dataOffset .. length)` is a list: a check returns the new
-- state, the bytes that it leaves, and its result. `uint32_t dataOffset` does not wrap, since a
-- call gets fewer than 2^32 bytes.
pub mod Automaton
pub mod Chunks
pub mod Messages
pub mod Pieces
mod Tests
use se_scope_target.Prelude.{
  not, ℕ, zero, suc, ◌+◌, ◌-◌, ◌*◌, ◌^◌, Bool, true, false, ◌||◌, List, [], ◌∷◌, Option, none, some,
  ltb, ◌==◌, if◌then◌else◌,
}
use se_scope_target.SeLib.Ring.{Ring, put}
use se_scope_target.FramedIo.{
  RxState, start_flag, type_field, length_field, data_field, checksum_field, end_flag, Rx, se_none,
  length_of_length_field, length_of_checksum_field, u16, u32,
}

-- What a check returns: the state, the bytes left, and whether it completed its field.
abbrev pub Check : Type 0 → Type 0
Check B = Rx B × List ℕ × Bool

abbrev pub is_nil : List ℕ → Bool
is_nil [] = true
is_nil (b ∷ bs) = false

module _ {B : Type 0} (R : Ring ℕ B) where
  unfoldable pub reset_rx : Rx B → Rx B
  reset_rx s = record {
    input = R.clear s.input;
    checksum = 0;
    data_ready = false;
    expected_length = 0;
    type = se_none;
    state_byte_count = 0;
    checksum_compare = 0;
    state = start_flag;
  }

  -- The `for` loop of `checkLength`. `byte << 24` in `int` is taken to wrap as the 32-bit sum does.
  pub read_length : Rx B → List ℕ → Rx B × List ℕ
  read_length s [] = (s, [])
  read_length s (b ∷ bs) =
      if ltb s.state_byte_count length_of_length_field
      then read_length
          (record s {
            expected_length = u32 (
                s.expected_length
                + b * 2 ^ ((length_of_length_field - s.state_byte_count - 1) * 8));
            state_byte_count = s.state_byte_count + 1;
          })
          bs
      else (s, b ∷ bs)

  pub end_length : Rx B × List ℕ → Check B
  end_length (s, bs) =
      if s.state_byte_count == length_of_length_field
      then (record s { state_byte_count = 0; state = data_field }, bs, true)
      else (s, bs, false)

  -- The `for` loop of `checkData`.
  pub read_data : Rx B → List ℕ → Rx B × List ℕ
  read_data s [] = (s, [])
  read_data s (b ∷ bs) =
      if ltb (R.used s.input) s.expected_length
      then read_data (record s { checksum = u16 (s.checksum + b); input = put R s.input (b ∷ []) })
          bs
      else (s, b ∷ bs)

  pub end_data : Rx B × List ℕ → Check B
  end_data (s, bs) =
      if R.used s.input == s.expected_length
      then (record s { state = checksum_field }, bs, true)
      else (s, bs, false)

  -- The `for` loop of `checkChecksum`.
  pub read_checksum : Rx B → List ℕ → Rx B × List ℕ
  read_checksum s [] = (s, [])
  read_checksum s (b ∷ bs) =
      if ltb s.state_byte_count length_of_checksum_field
      then read_checksum
          (record s {
            checksum_compare = u16 (
                s.checksum_compare
                + b * 2 ^ ((length_of_checksum_field - s.state_byte_count - 1) * 8));
            state_byte_count = s.state_byte_count + 1;
          })
          bs
      else (s, b ∷ bs)

  pub end_checksum : Rx B × List ℕ → Check B
  end_checksum (s, bs) =
      if s.state_byte_count == length_of_checksum_field
      then (if s.checksum_compare == s.checksum
          then (
            record s { state_byte_count = 0; state = end_flag; checksum_compare = 0; checksum = 0 },
            bs,
            true,
          )
          else (reset_rx s, bs, false))
      else (s, bs, false)

  pub find_start : Rx B → List ℕ → Check B
  find_start s [] = (s, [], false)
  find_start s (b ∷ bs) =
      if b == b'[' then (record s { state = type_field }, bs, true) else find_start s bs

  pub read_type : Rx B → List ℕ → Check B
  read_type s [] = (s, [], false)
  read_type s (b ∷ bs) = (record s { type = b; state = length_field }, bs, true)

  pub read_end : Rx B → List ℕ → Check B
  read_end s [] = (s, [], false)
  read_end s (b ∷ bs) =
      if b == b']'
      then (record s { state = start_flag; data_ready = true; expected_length = 0 }, bs, true)
      else (reset_rx s, bs, false)

  pub check_start_flag : Rx B → List ℕ → Check B
  check_start_flag s d = elim s.state [ start_flag ↦ find_start s d | _ ↦ (s, d, false) ]

  pub check_type : Rx B → List ℕ → Check B
  check_type s d = elim s.state [ type_field ↦ read_type s d | _ ↦ (s, d, false) ]

  pub check_length : Rx B → List ℕ → Check B
  check_length s d = elim s.state [
    | length_field ↦ end_length (read_length s d)
    | _ ↦ (s, d, false)
  ]

  pub check_data : Rx B → List ℕ → Check B
  check_data s d = elim s.state [ data_field ↦ end_data (read_data s d) | _ ↦ (s, d, false) ]

  pub check_checksum : Rx B → List ℕ → Check B
  check_checksum s d = elim s.state [
    | checksum_field ↦ end_checksum (read_checksum s d)
    | _ ↦ (s, d, false)
  ]

  pub check_end_flag : Rx B → List ℕ → Check B
  check_end_flag s d = elim s.state [ end_flag ↦ read_end s d | _ ↦ (s, d, false) ]

  -- The body of the `do` loop of `FramedIO_putRxData`: the six checks in turn. Only the result of
  -- the last one is used.
  pub check_all : Rx B → List ℕ → Check B
  check_all s d =
      let (s1, d1, _) = check_start_flag s d in
      let (s2, d2, _) = check_type s1 d1 in
      let (s3, d3, _) = check_length s2 d2 in
      let (s4, d4, _) = check_data s3 d3 in
      let (s5, d5, _) = check_checksum s4 d4 in check_end_flag s5 d5

  -- The `do` loop on fuel. `none` means that the fuel ran out before the data did.
  pub put_loop : ℕ → Rx B → List ℕ → Bool → Option (Rx B × Bool)
  put_loop zero s d valid = none
  put_loop (suc f) s d valid =
      let (s', d', ended) = check_all s d in
      let rest = put_loop f s' d' (ended || valid) in
      if is_nil d' then some (s', ended || valid) else rest

  pub put_rx_data : ℕ → Rx B → List ℕ → Option (Rx B × Bool)
  put_rx_data fuel s d = if s.data_ready then some (s, false) else put_loop fuel s d false

  -- `runRx`: the new state, whether it ran, and the type that it hands to the observer.
  pub run_rx : Rx B → Rx B × Bool × Option ℕ
  run_rx s =
      if not s.data_ready
      then (s, false, none)
      else (record s { data_ready = false; type = se_none }, true, some s.type)

  -- The receiving half of `FramedIO_create`.
  unfoldable pub create_rx : B → Rx B
  create_rx input = reset_rx (record {
    input = input;
    data_ready = false;
    expected_length = 0;
    type = se_none;
    state_byte_count = 0;
    checksum = 0;
    checksum_compare = 0;
    state = start_flag;
  })
