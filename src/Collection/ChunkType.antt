-- ===== src/Collection/ChunkType.antt =====
-- The type of the chunk that a collection belongs to (lib/icu_compress/cmp_chunk_type.c).
use cmp_tool.Base.{ℕ, List, if◌then◌else◌, ◌==◌, ◌||◌, ◌&&◌, leb}
use cmp_tool.Collection.Header.{cmp_col_get_subservice}

-- `enum chunk_type`
pub data ChunkType : Type 0 where
  unknown ncam_imagette short_cadence long_cadence sat_imagette offset_background smearing :
      ChunkType
  f_chain : ChunkType

-- The switch of cmp_col_get_chunk_type on the subservice.
unfoldable pub chunk_type_of_subservice : ℕ → ChunkType
chunk_type_of_subservice subservice =
    if subservice == 3
    then ncam_imagette
    else if subservice == 4
    then sat_imagette
    else if subservice == 5 || subservice == 6
    then offset_background
    else if subservice == 7
    then smearing
    else if leb 9 subservice && leb subservice 12
    then short_cadence
    else if leb 13 subservice && leb subservice 16
    then long_cadence
    else if subservice == 1 || subservice == 2 || subservice == 25
    then f_chain
    else unknown

unfoldable pub cmp_col_get_chunk_type : List ℕ → ChunkType
unfolding cmp_col_get_subservice chunk_type_of_subservice
cmp_col_get_chunk_type col = chunk_type_of_subservice (cmp_col_get_subservice col)
