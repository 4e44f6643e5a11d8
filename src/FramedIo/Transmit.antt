-- ===== src/FramedIo/Transmit.antt =====
-- The sender of FramedIO.c. What a call writes into the caller's array is the list of the bytes
-- written, and the callback to the transport is the last part of `run_tx`'s result: whether it runs.
pub mod Pending
pub mod Calls
pub mod Runs
use se_scope_target.Prelude.{
  ℕ, zero, suc, ◌+◌, ◌-◌, ◌*◌, ◌/◌, ◌%◌, ◌^◌, ◌<◌, ◌≤◌, ◌≡◌, ◌≢◌, refl, subst, ap, sym, ◌∙◌,
  fun_ext, Bool, true, false, not, ◌||◌, ◌&&◌, List, [], ◌∷◌, ◌++◌, map, Option, none, some,
  if◌then◌else◌, arith, length, append-nil, append_assoc, length-append, Option-cases, Bool-cases,
  ◌⊎◌, inl, inr, ◌↔◌, ltb, leb, ◌==◌, or_else, min, take, drop, length-take, length-drop,
  take-append-drop, take-append_ge, take-append_le, drop-append_ge, drop-append_le,
  take_of_length_le, drop_of_length_le, replicate, get_elem?, set, length-set, get_elem?-set_self,
  get_elem?-set_ne, dec_lt, ℕ_discrete, ==_iff,
}
use se_scope_target.SeLib.Ring.{Ring, put}
use se_scope_target.FramedIo.{
  TxState, head, body, foot, idle, Tx, MessageType, se_none, u8, u16, u32, length_of_length_field,
  length_of_checksum_field, start_length, end_length, type_length,
}

abbrev pub is_idle : TxState → Bool
is_idle idle = true
is_idle _ = false

-- `(outputBufferLength >> ((LENGTH_OF_LENGTH_FIELD - i - 1) * 8)) & 0xFF`
abbrev pub length_byte : ℕ → ℕ → ℕ
length_byte n i = u8 (n / 2 ^ ((length_of_length_field - i - 1) * 8))

module _ {B : Type 0} (R : Ring ℕ B) where
  -- The `for` loop of `runTx`, with the rounds left and `i`.
  pub write_length : ℕ → ℕ → B → ℕ → B
  write_length zero i b n = b
  write_length (suc k) i b n = write_length k (i + 1) (put R b (length_byte n i ∷ [])) n

  -- `callback`: whether the user has set one.
  pub run_tx : Bool → Tx B → Tx B × Bool × Bool
  unfolding write_length
  run_tx callback t =
      if not (is_idle t.state)
      then (t, false, false)
      else if not t.data_framing_ready
      then (t, false, false)
      else let n = u32 (R.used t.output) in
        let flag = put R t.frame_head (b'[' ∷ []) in
        let type = put R flag (u8 t.type ∷ []) in
        (
          record t {
            frame_head = write_length length_of_length_field 0 type n;
            data_framing_ready = false;
            state = head;
          },
          true,
          callback,
        )

  -- `update` of the observer that the serializer notifies.
  pub update_tx : Tx B → MessageType → Tx B
  update_tx t ty = record t { data_framing_ready = true; type = ty }

  unfoldable pub reset_tx : Tx B → Tx B
  reset_tx t = record t {
    output = R.clear t.output;
    data_framing_ready = true;
    type = se_none;
    state = idle;
    checksum = 0;
  }

  -- A read of no more bytes than there are.
  abbrev pub fetch : B → ℕ → B × List ℕ
  fetch b n = elim (R.read b n) [ none ↦ (b, []) | some r ↦ r ]

  -- `bytesRead`, from `bytesLeft` and `length - index`.
  abbrev pub bytes_read : ℕ → ℕ → ℕ
  bytes_read left wanted = if ltb left wanted then left else wanted

  -- `self->txChecksum += data[index + i]`
  pub add_bytes : ℕ → List ℕ → ℕ
  add_bytes c [] = c
  add_bytes c (b ∷ bs) = add_bytes (u16 (c + b)) bs

  -- The three blocks of `FramedIO_getTxData`: the new state, the new index, and the bytes written.
  pub get_head : Tx B → ℕ → ℕ → Tx B × ℕ × List ℕ
  get_head t size index = elim t.state [
    | head ↦
        let left = R.used t.frame_head in
        let n = bytes_read left (size - index) in
        let (b, xs) = fetch t.frame_head n in
        (
          record t { frame_head = b; state = if left - n == 0 then body else t.state },
          index + n,
          xs,
        )
    | _ ↦ (t, index, [])
  ]

  pub write_foot : B → ℕ → B
  write_foot b c =
      put R (put R (put R (R.clear b) (c / 2 ^ 8 % 2 ^ 8 ∷ [])) (c % 2 ^ 8 ∷ [])) (b']' ∷ [])

  pub get_body : Tx B → ℕ → ℕ → Tx B × ℕ × List ℕ
  unfolding add_bytes write_foot
  get_body t size index = elim t.state [
    | body ↦
        let left = R.used t.output in
        let n = bytes_read left (size - index) in
        let (b, xs) = fetch t.output n in
        let c = add_bytes t.checksum xs in
        (
          if left - n == 0
              then record t {
                output = b;
                state = foot;
                checksum = 0;
                frame_tail = write_foot t.frame_tail c;
              }
              else record t { output = b; checksum = c },
          index + n,
          xs,
        )
    | _ ↦ (t, index, [])
  ]

  pub get_foot : Tx B → ℕ → ℕ → Tx B × ℕ × List ℕ
  get_foot t size index = elim t.state [
    | foot ↦
        let left = R.used t.frame_tail in
        let n = bytes_read left (size - index) in
        let (b, xs) = fetch t.frame_tail n in
        (record t { frame_tail = b; state = if left - n == 0 then idle else t.state }, index, xs)
    | _ ↦ (t, index, [])
  ]

  -- `FramedIO_getTxData` with an array of `size` bytes.
  pub get_tx_data : Tx B → ℕ → Tx B × List ℕ
  unfolding get_head get_body get_foot
  get_tx_data t size =
      if is_idle t.state
      then (t, [])
      else let (t1, i1, x1) = get_head t size 0 in
        if leb size i1
        then (t1, x1)
        else let (t2, i2, x2) = get_body t1 size i1 in
          if leb size i2
          then (t2, x1 ++ x2)
          else let (t3, _, x3) = get_foot t2 size i2 in (t3, x1 ++ (x2 ++ x3))

  pub amount_of_tx_data_pending : Tx B → ℕ
  amount_of_tx_data_pending t = elim t.state [
    | head ↦ R.used t.frame_head + R.used t.output + R.capacity t.frame_tail
    | body ↦ R.used t.output + R.capacity t.frame_tail
    | foot ↦ R.used t.frame_tail
    | idle ↦ 0
  ]

  -- The sending half of `FramedIO_create`.
  unfoldable pub create_tx : B → Tx B
  create_tx output = reset_tx (record {
    output = output;
    frame_head = R.create (start_length + length_of_length_field + type_length);
    frame_tail = R.create (length_of_checksum_field + end_length);
    data_framing_ready = false;
    type = se_none;
    checksum = 0;
    state = idle;
  })
