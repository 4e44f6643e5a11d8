-- ===== src/SeLib.antt =====
-- The interfaces of se-lib-c that the code calls, behind their documented behaviour.
pub mod Ring
pub mod Stream
pub mod Float
pub mod Core
pub mod Models
pub mod Queue
pub mod ListQueue
