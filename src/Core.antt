-- ===== src/Core.antt =====
-- src/Core: channels, timestamps, trigger, and the scope that drives them.
pub mod Channel
pub mod Timestamper
pub mod Trigger
pub mod Scope
pub mod Tests
