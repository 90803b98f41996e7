-- ===== src/Product.antt =====
-- The sample loops of lib/icu_compress/cmp_icu.c and lib/decompress/decmp.c.
pub mod Field
pub mod Fields
pub mod Compress
pub mod Decompress
pub mod Rounds
pub mod Emits
pub mod Reads
pub mod RoundTrip
pub mod Updates
pub mod Weighted
pub mod EndToEnd
