-- ===== src/Nanopb.antt =====
-- nanopb, the protobuf library that src/Serialisation/Protobuf calls: its encoder and decoder as records
-- of operations and of the documented behaviour that the code relies on.
pub mod Encoder
pub mod Decoder
pub mod Models
