-- ===== src/Core/Channel.antt =====
-- src/Core/Channel.c: a channel samples a memory location into its poll buffer, and hands a full
-- buffer to the packer by swapping it with the other. The stream carries the last two samples to the
-- trigger. `buffers[POLL_BUFFER]` and `buffers[SWAP_BUFFER]` are two fields.
pub mod Window
pub mod Faults
use se_scope_target.Prelude.{
  ℕ, zero, suc, ◌+◌, ◌-◌, ◌*◌, ◌/◌, ◌%◌, ◌^◌, ◌<◌, ◌≤◌, ◌≡◌, ◌≢◌, refl, subst, ap, sym, ◌∙◌,
  fun_ext, Bool, true, false, not, ◌||◌, ◌&&◌, List, [], ◌∷◌, ◌++◌, map, Option, none, some,
  if◌then◌else◌, arith, length, append-nil, append_assoc, length-append, Option-cases, Bool-cases,
  ◌⊎◌, inl, inr, ◌↔◌, ltb, leb, concat, take_add, drop_add, ◌==◌, or_else, min, take, drop,
  length-take, length-drop, take-append-drop, take-append_ge, take-append_le, drop-append_ge,
  drop-append_le, take_of_length_le, drop_of_length_le, replicate, get_elem?, set, length-set,
  get_elem?-set_self, get_elem?-set_ne, dec_lt, ℕ_discrete, ==_iff,
}
use se_scope_target.Prelude.Int.{ℤ, pos, negsuc}
use se_scope_target.SeLib.Ring.{Ring, put}
use se_scope_target.SeLib.Core.{CoreLib}
use se_scope_target.ScopeTypes.{
  ChannelState, channel_none, channel_init, channel_stopped, channel_running, DataType, se_int8,
  se_int16, se_int32, se_uint8, se_uint16, se_uint32,
}

-- ChannelPrivateData, over the types of floats, ring buffers and streams.
pub record Channel (F B S : Type 0) : Type 0 where
  pub poll_buffer : B
  pub swap_buffer : B
  pub stream : S
  pub state : ChannelState
  pub poll_data_type : DataType
  pub poll_address : ℕ
  pub old_trigger_data : F

-- The two's complement value of a word of `k` bits.
abbrev pub signed : ℕ → ℕ → ℤ
signed k u = if ltb u (2 ^ (k - 1)) then pos u else negsuc (2 ^ k - u - 1)

module _ {F B S I : Type 0} (L : CoreLib F B S I) where
  -- The value of a sample: `w` is the 32-bit word at the address, of which the narrow types are the
  -- low bytes, as on a little-endian target.
  pub cast_word : DataType → ℕ → F
  cast_word type w =
      if type == se_int8
      then L.float.of_int (signed 8 (w % 2 ^ 8))
      else if type == se_int16
      then L.float.of_int (signed 16 (w % 2 ^ 16))
      else if type == se_int32
      then L.float.of_int (signed 32 w)
      else if type == se_uint8
      then L.float.of_int (pos (w % 2 ^ 8))
      else if type == se_uint16
      then L.float.of_int (pos (w % 2 ^ 16))
      else if type == se_uint32
      then L.float.of_int (pos w)
      else L.float.of_bits w

  -- `memory` gives the word at an address when it is read. A read that faults is in Faults.
  pub cast_data_to_float : Channel F B S → (ℕ → ℕ) → F
  cast_data_to_float c memory = cast_word c.poll_data_type (memory c.poll_address)

  pub add_trigger_data : Channel F B S → F → Channel F B S
  add_trigger_data c x = record c {
    stream =
        L.stream.write_data (L.stream.write_data (L.stream.flush c.stream) c.old_trigger_data) x;
    old_trigger_data = x;
  }

  -- `Channel_create`; `raw` is what the allocated memory holds in the fields that it does not set.
  unfoldable pub create : Channel F B S → ℕ → Channel F B S
  create raw capacity = record raw {
    stream = L.stream.create 4;
    state = channel_init;
    poll_buffer = L.ring.create capacity;
    swap_buffer = L.ring.create capacity;
    old_trigger_data = L.float.zero_float;
  }

  unfoldable pub get_capacity : Channel F B S → ℕ
  get_capacity c = L.ring.capacity c.poll_buffer

  unfoldable pub is_running : Channel F B S → Bool
  is_running c = elim c.state [ channel_running ↦ true | _ ↦ false ]

  unfoldable pub set_poll_address : Channel F B S → ℕ → DataType → Channel F B S
  set_poll_address c address type = record c {
    poll_address = address;
    poll_data_type = type;
    state = elim c.state [ channel_init ↦ channel_stopped | _ ↦ c.state ];
  }

  unfoldable pub set_state_running : Channel F B S → Channel F B S × Bool
  set_state_running c = elim c.state [
    | channel_stopped ↦ (record c { state = channel_running }, true)
    | _ ↦ (c, false)
  ]

  unfoldable pub set_state_stopped : Channel F B S → Channel F B S × Bool
  set_state_stopped c = elim c.state [
    | channel_running ↦ (record c { state = channel_stopped }, true)
    | _ ↦ (c, false)
  ]

  -- `FloatRingBuffer_read` into `dump`.
  abbrev pub drop_oldest : B → B
  drop_oldest b = elim (L.ring.read b 1) [ none ↦ b | some r ↦ r.0 ]

  pub poll_running : Channel F B S → F → Channel F B S
  unfolding add_trigger_data
  poll_running c x =
      let c' = add_trigger_data c x in
      elim (L.ring.write c'.poll_buffer (x ∷ [])) [
        | some b ↦ record c' { poll_buffer = b }
        | none ↦ record c' { poll_buffer = put L.ring (drop_oldest c'.poll_buffer) (x ∷ []) }
      ]

  unfoldable pub poll : Channel F B S → (ℕ → ℕ) → Channel F B S
  unfolding is_running cast_data_to_float poll_running
  poll c memory = if is_running c then poll_running c (cast_data_to_float c memory) else c

  unfoldable pub clear : Channel F B S → Channel F B S
  clear c = record c {
    poll_buffer = L.ring.clear c.poll_buffer;
    swap_buffer = L.ring.clear c.swap_buffer;
    stream = L.stream.flush c.stream;
  }

  unfoldable pub swap_is_pending : Channel F B S → Bool
  swap_is_pending c = (L.ring.free c.poll_buffer == 0) && (L.ring.used c.swap_buffer == 0)

  unfoldable pub swap_buffers : Channel F B S → Channel F B S
  swap_buffers c = record c {
    swap_buffer = c.poll_buffer;
    poll_buffer = L.ring.clear c.swap_buffer;
  }

  unfoldable pub amount_of_used_swap_data : Channel F B S → ℕ
  amount_of_used_swap_data c = L.ring.used c.swap_buffer

  unfoldable pub amount_of_used_poll_data : Channel F B S → ℕ
  amount_of_used_poll_data c = L.ring.used c.poll_buffer

  -- `Channel_read`: `none` is the result -1.
  pub read : Channel F B S → ℕ → Option (Channel F B S × List F)
  read c size = elim (L.ring.read c.swap_buffer size) [
    | none ↦ none
    | some (b, xs) ↦ some (record c { swap_buffer = b }, xs)
  ]
