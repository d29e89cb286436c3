-- ===== src/Gt06.antt =====
-- internal/protocol: the framing that GT06 and GT02 terminals share.
pub mod Crc
pub mod Decoder
pub mod Helpers
pub mod Messages
pub mod Handler
