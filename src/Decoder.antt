-- ===== src/Decoder.antt =====
-- lib/decompress/read_bitstream.h and lib/decompress/decmp.c: the bit reader and the value decoder.
pub mod Reader
pub mod Value
pub mod Register
pub mod Refill
pub mod CodeWord
pub mod Select
