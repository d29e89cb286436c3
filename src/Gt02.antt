-- ===== src/Gt02.antt =====
-- internal/protocol/gt02: the messages of GT02 terminals.
pub mod Types
pub mod Helpers
pub mod Messages
pub mod Alarm
pub mod Command
pub mod Encoder
pub mod Handler
