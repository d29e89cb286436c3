-- ===== src/Server.antt =====
-- internal/server: what a connection does with one frame.
pub mod Process
pub mod Gt
pub mod Connection
pub mod Write
