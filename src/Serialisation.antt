-- ===== src/Serialisation.antt =====
-- src/Serialisation: messages to and from protobuf.
pub mod Packer
pub mod Unpacker
pub mod Serializer
mod Tests
