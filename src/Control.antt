-- ===== src/Control.antt =====
-- src/Control: commands on the scope, what is packed for the host, and the controller of both.
pub mod Commands
pub mod Controller
pub mod AnnounceStorage
pub mod Pack
