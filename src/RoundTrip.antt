-- ===== src/RoundTrip.antt =====
-- lib/icu_compress/cmp_icu.c against lib/decompress/decmp.c, one value at a time.
pub mod Mapping
pub mod Reads
pub mod Zero
pub mod Multi
pub mod Value
pub mod Setup
pub mod MaxSpill
