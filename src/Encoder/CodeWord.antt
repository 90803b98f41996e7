-- ===== src/Encoder/CodeWord.antt =====
-- The code words of cmp_icu.c, and the Golomb code.
pub mod Unary
pub mod Rice
pub mod Groups
