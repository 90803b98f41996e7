-- ===== src/Decoder/Refill.antt =====
-- `bit_refill` over a byte buffer.
pub mod Bytes
pub mod Keeps
pub mod Init
