-- ===== src/Encoder/Put.antt =====
-- The buffer words of `put_n_bits32`, by digits.
pub mod Digit
pub mod Stream
