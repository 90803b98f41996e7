-- ===== src/Chunk.antt =====
-- The compression of chunks of collections: lib/icu_compress/cmp_icu.c, from line 1453 on, and
-- lib/cmp_chunk.h.
pub mod Memory
pub mod Internal
pub mod Spill
pub mod Collection
pub mod Header
pub mod Compress
pub mod Total
pub mod Bounded
pub mod BoundedData
pub mod EntryBound
pub mod SizeBound
pub mod LoopBound
pub mod ChunkBound
pub mod SpillLaws
pub mod RawSize
