-- ===== src/ScopeTypes.antt =====
-- include/Scope/Scope/Core/ScopeTypes.h, public/Scope/GeneralPurpose/DataTypes.h and
-- public/Scope/Communication/MessagePriorities.h: the types that the parts share.
use se_scope_target.Prelude.{ℕ, Bool}

-- MessageType: the code casts any received byte to it, so it is the number.
abbrev pub MessageType : Type 0
MessageType = ℕ

abbrev pub se_none : MessageType
se_none = 0

abbrev pub se_nak : MessageType
se_nak = 1

abbrev pub se_ack : MessageType
se_ack = 2

abbrev pub sc_data : MessageType
sc_data = 50

abbrev pub sc_announce : MessageType
sc_announce = 51

abbrev pub sc_detect : MessageType
sc_detect = 52

abbrev pub sc_stream : MessageType
sc_stream = 53

abbrev pub sc_log : MessageType
sc_log = 54

abbrev pub ev_announce : MessageType
ev_announce = 100

abbrev pub ev_clear : MessageType
ev_clear = 101

abbrev pub ev_poll : MessageType
ev_poll = 102

abbrev pub ev_trans : MessageType
ev_trans = 103

abbrev pub ev_detect : MessageType
ev_detect = 104

abbrev pub cf_running : MessageType
cf_running = 105

abbrev pub cf_trigger : MessageType
cf_trigger = 106

abbrev pub cf_t_inc : MessageType
cf_t_inc = 107

abbrev pub cf_addr : MessageType
cf_addr = 108

-- TRIGGER_MODE: cast from the number on the wire, so any number.
abbrev pub trigger_normal : ℕ
trigger_normal = 0

abbrev pub trigger_continuous : ℕ
trigger_continuous = 1

abbrev pub trigger_oneshot : ℕ
trigger_oneshot = 2

-- CHANNEL_STATES
pub data ChannelState : Type 0 where
  channel_none channel_init channel_stopped channel_running : ChannelState

-- DATA_TYPES: cast from the number on the wire too.
abbrev pub DataType : Type 0
DataType = ℕ

abbrev pub se_int8 : DataType
se_int8 = 0

abbrev pub se_int16 : DataType
se_int16 = 1

abbrev pub se_int32 : DataType
se_int32 = 2

abbrev pub se_uint8 : DataType
se_uint8 = 3

abbrev pub se_uint16 : DataType
se_uint16 = 4

abbrev pub se_uint32 : DataType
se_uint32 = 5

abbrev pub se_float : DataType
se_float = 6

-- TriggerConfiguration, over the type of floats.
pub record TriggerConfiguration (F : Type 0) : Type 0 where
  pub level : F
  pub edge : Bool
  pub mode : ℕ
  pub channel_id : ℕ

-- TriggeredValues
pub record TriggeredValues : Type 0 where
  pub is_triggered : Bool
  pub channel_id : ℕ
  pub trigger_timestamp : ℕ
  pub mode : ℕ

-- Message_Priorities; HIGH, MEDIUM and LOW are 2, 3 and 4.
pub record MessagePriorities : Type 0 where
  pub data_priority : ℕ
  pub log_priority : ℕ
  pub stream_priority : ℕ

abbrev pub low_priority : ℕ
low_priority = 4
