-- ===== src/FramedIo.antt =====
-- src/Communication/Interfaces/FramedIO.c: the framing layer between the byte transport and the
-- serializer. The struct FramedIOPrivateData is split in its two independent halves, `Rx` and `Tx`;
-- no function reads or writes both but the constructor.
pub mod Frame
pub mod Receive
pub mod Transmit
pub mod Delivery
pub mod Transceiver
mod Tests
use se_scope_target.Prelude.{ℕ, Bool}
pub use se_scope_target.Prelude.{u8, u16, u32}
pub use se_scope_target.ScopeTypes.{MessageType, se_none}

abbrev pub length_of_length_field : ℕ
length_of_length_field = 4

abbrev pub length_of_checksum_field : ℕ
length_of_checksum_field = 2

abbrev pub start_length : ℕ
start_length = 1

abbrev pub end_length : ℕ
end_length = 1

abbrev pub type_length : ℕ
type_length = 1

-- RxFramedIOState
pub data RxState : Type 0 where
  start_flag type_field length_field data_field checksum_field end_flag : RxState

-- TxFramedIOState; `idle` is NONE.
pub data TxState : Type 0 where
  head body foot idle : TxState

-- The receiving half of FramedIOPrivateData, over the type of the ring buffers.
pub record Rx (B : Type 0) : Type 0 where
  pub input : B
  pub data_ready : Bool
  pub expected_length : ℕ
  pub type : MessageType
  pub state_byte_count : ℕ
  pub checksum : ℕ
  pub checksum_compare : ℕ
  pub state : RxState

-- The sending half.
pub record Tx (B : Type 0) : Type 0 where
  pub output : B
  pub frame_head : B
  pub frame_tail : B
  pub data_framing_ready : Bool
  pub type : MessageType
  pub checksum : ℕ
  pub state : TxState
