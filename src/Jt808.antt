-- ===== src/Jt808.antt =====
-- internal/protocol/jt808: the JT808 framing and messages.
pub mod Types
pub mod Msg
pub mod Words
pub mod Escape
pub mod Header
pub mod Decoder
pub mod Reassembly
pub mod Messages
pub mod AdditionalInfo
pub mod Location
pub mod Handler
