-- ===== src/Encoder.antt =====
-- lib/icu_compress/cmp_icu.c, the value encoder: from a sample and its model to bits in the
-- destination buffer. A destination buffer is a list of the 32-bit words that `be32_to_cpu` reads from
-- it, so the byte order of the machine does not show; NULL is `none`. An operation returns the
-- `uint32_t` that the C function returns, a length in bits or an error code, and the buffer.
pub mod Word
pub mod Put
pub mod CodeWord
pub mod Value
pub mod Emits
pub mod Digits
pub mod Mapping
pub mod Range
