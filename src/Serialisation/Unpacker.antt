-- ===== src/Serialisation/Unpacker.antt =====
-- src/Serialisation/Protobuf/NanopbUnpacker.c: a message of the host is decoded from the input, and its
-- arguments are kept for the getters. The arrays have one entry for each channel, and a `none` is a
-- fault: an access outside of them.
pub mod Arrays
pub mod Getters
pub mod Sizes
pub mod Total
use se_scope_target.Prelude.{
  ℕ, zero, suc, ◌+◌, ◌-◌, ◌*◌, ◌/◌, ◌%◌, ◌^◌, ◌<◌, ◌≤◌, ◌≡◌, ◌≢◌, refl, subst, ap, sym, ◌∙◌,
  fun_ext, Bool, true, false, not, ◌||◌, ◌&&◌, List, [], ◌∷◌, ◌++◌, map, Option, none, some,
  if◌then◌else◌, arith, length, append-nil, append_assoc, length-append, length-map, get_elem?-map,
  get_elem?_bound, get_elem?_total, All, Option-cases, Bool-cases, ◌⊎◌, inl, inr, ◌↔◌, u8, u16, u32,
  bool_eq, Returns, Returns-cases, ltb, leb, concat, take_add, drop_add, ◌==◌, or_else, min, take,
  drop, length-take, length-drop, take-append-drop, take-append_ge, take-append_le, drop-append_ge,
  drop-append_le, take_of_length_le, take_last, take_last-append, drop_of_length_le, replicate,
  get_elem?, set, length-set, get_elem?-set_self, get_elem?-set_ne, dec_lt, ℕ_discrete, ==_iff,
}
use se_scope_target.Nanopb.Decoder.{Decoded, Decoder, PbRunningConfig, PbAddressConfig, PbCfTrigger}
use se_scope_target.SeLib.Ring.{Ring}
use se_scope_target.ScopeTypes.{
  MessageType, DataType, ev_poll, cf_running, cf_trigger, cf_t_inc, cf_addr,
}
use se_scope_target.Core.Trigger.{◌>>=◌}
use se_scope_target.Control.Commands.{CfRunningDef, CfTriggerDef, CfAddressDef, Unpacker}

-- CfRunning and CfAddress: an array and the amount of its entries that are in use.
pub record Entries (A : Type 0) : Type 0 where
  pub amount : ℕ
  pub channels : List A

-- NanopbUnpackerPrivateData, without its streams.
pub record NanopbUnpacker (F : Type 0) : Type 0 where
  pub max_number_of_channels : ℕ
  pub ev_poll_timestamp : ℕ
  pub running : Entries CfRunningDef
  pub address : Entries CfAddressDef
  pub trigger_config : CfTriggerDef F
  pub t_inc : ℕ

-- The end of `addressConfigCallback` and of `runningConfigCallback`: the entry is stored behind the
-- others, and it is a fault if the array ends there.
pub store : {A : Type 0} → Entries A → A → Option (Entries A)
store e x =
    if ltb e.amount (length e.channels)
    then some (record { amount = e.amount + 1; channels = set e.channels e.amount x })
    else none

pub store_all : {A : Type 0} → Entries A → List A → Option (Entries A)
unfolding store
store_all e [] = some e
store_all e (x ∷ xs) = store e x >>= λ e'. store_all e' xs

abbrev pub running_def : PbRunningConfig → CfRunningDef
running_def c = record { id = c.cl_id; new_state = c.new_state }

abbrev pub address_def : PbAddressConfig → CfAddressDef
address_def c = record { id = c.cl_id; address = c.address; type = c.type }

-- `cfRunning_getChannel` and `cfAddress_getChannel`
pub get_channel : {A : Type 0} → Entries A → ℕ → Option A
get_channel e index =
    if ltb e.amount index then get_elem? e.channels 0 else get_elem? e.channels index

-- `NanopbUnpacker_calculateBufferSize`, with the sizes of the messages of se-scope.pb.h.
abbrev pub message_sizes : ℕ → List ℕ
message_sizes max_channels = 15 ∷ 6 ∷ 6 ∷ 14 * max_channels ∷ 8 * max_channels ∷ []

pub biggest : ℕ → List ℕ → ℕ
biggest b [] = b
biggest b (n ∷ ns) = biggest (if ltb b n then n else b) ns

pub calculate_buffer_size : ℕ → ℕ
unfolding biggest
calculate_buffer_size max_channels = biggest 0 (message_sizes max_channels)

module _ {F : Type 0} where
  -- `NanopbUnpacker_create`; `raw` holds what the allocated memory holds, with arrays of one entry for
  -- each channel.
  unfoldable pub create : NanopbUnpacker F → ℕ → NanopbUnpacker F
  create raw amount_of_channels = record raw { max_number_of_channels = amount_of_channels }

  -- `NanopbUnpacker_getIUnpacker`: what the getters return, where `d` and `a` stand for what a read
  -- outside of the arrays finds.
  unfoldable pub get_unpacker : CfRunningDef → CfAddressDef → NanopbUnpacker F → Unpacker F
  unfolding get_channel
  get_unpacker d a u = record {
    cf_running_get_amount = u.running.amount;
    cf_running_get_channel = λ i. or_else (get_channel u.running i) d;
    cf_trigger_get_trigger_config = u.trigger_config;
    cf_t_inc_get_inc = u.t_inc;
    cf_address_get_amount = u.address.amount;
    cf_address_get_channel = λ i. or_else (get_channel u.address i) a;
  }

module _ {F B : Type 0} (R : Ring ℕ B) (D : Decoder F) where
  -- `readBuffer`
  pub read_buffer : B → ℕ → B × Bool
  read_buffer input count =
      if ltb (R.used input) count
      then (input, false)
      else ((or_else (R.read input count) (input, [])).0, true)

  -- The reads of the decoder.
  pub read_all : B → List ℕ → B
  unfolding read_buffer
  read_all input [] = input
  read_all input (n ∷ ns) = read_all (read_buffer input n).0 ns

  -- `unpack`: the unpacker, the input and the result.
  pub unpack : NanopbUnpacker F → B → MessageType → Option (NanopbUnpacker F × B × Bool)
  unfolding store_all read_all
  unpack u input type =
      let bytes = R.contents input in
      if type == ev_poll
      then (let m = D.decode_poll bytes in
          some (
            if m.status then record u { ev_poll_timestamp = m.message } else u,
            read_all input m.reads,
            m.status,
          ))
      else if type == cf_running
      then (let m = D.decode_running bytes in
          store_all (record u.running { amount = 0 }) (map running_def m.message) >>= λ e.
          some (record u { running = e }, read_all input m.reads, m.status))
      else if type == cf_trigger
      then (let m = D.decode_trigger bytes in
          some (
            if m.status
                then record u {
                  trigger_config = record {
                    level = m.message.level;
                    edge = m.message.edge;
                    mode = m.message.mode;
                    channel_id = m.message.cl_id;
                  };
                }
                else u,
            read_all input m.reads,
            m.status,
          ))
      else if type == cf_t_inc
      then (let m = D.decode_t_inc bytes in
          some (
            if m.status then record u { t_inc = m.message } else u,
            read_all input m.reads,
            m.status,
          ))
      else if type == cf_addr
      then (let m = D.decode_address bytes in
          store_all (record u.address { amount = 0 }) (map address_def m.message) >>= λ e.
          some (record u { address = e }, read_all input m.reads, m.status))
      else some (u, input, true)
