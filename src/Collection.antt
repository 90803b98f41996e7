-- ===== src/Collection.antt =====
-- The collections of science data: lib/common/cmp_data_types.c and cmp_data_types.h, and
-- lib/icu_compress/cmp_chunk_type.c.
pub mod Header
pub mod Members
pub mod HeaderLaws
pub mod DataType
pub mod Swap
pub mod SwapChunk
pub mod ChunkType
pub mod DataTypeLaws
pub mod SwapLaws
pub mod DataLaws
pub mod ChunkLaws
pub mod Reversed
pub mod ChunkTotal
pub mod ChunkParse
pub mod ChunkUndone
