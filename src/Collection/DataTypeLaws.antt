-- ===== src/Collection/DataTypeLaws.antt =====
-- The two conversions between subservices and data types, and the chunk types, against each other
-- (cmp_data_types.c, cmp_chunk_type.c).
use cmp_tool.Base.{ℕ, ◌≡◌, ◌≢◌, refl, arith}
use cmp_tool.Support.Types.{
  CmpDataType, unknown, imagette, imagette_adaptive, sat_imagette, sat_imagette_adaptive, offset,
  background, smearing, s_fx, s_fx_efx, s_fx_ncob, s_fx_efx_ncob_ecob, l_fx, l_fx_efx, l_fx_ncob,
  l_fx_efx_ncob_ecob, f_cam_imagette, f_cam_imagette_adaptive, f_cam_offset, f_cam_background,
  chunk, above_chunk,
}
use cmp_tool.Collection.DataType.{
  convert_subservice_to_cmp_data_type, convert_cmp_data_type_to_subservice,
}
use cmp_tool.Collection.ChunkType.{ChunkType, chunk_type_of_subservice}

-- The data type of a subservice: adaptive parameters make no difference.
unfoldable pub collected_as : CmpDataType → CmpDataType
collected_as imagette_adaptive = imagette
collected_as sat_imagette_adaptive = sat_imagette
collected_as f_cam_imagette_adaptive = f_cam_imagette
collected_as chunk = unknown
collected_as (above_chunk n) = unknown
collected_as t = t

pub convert-convert :
    (t : CmpDataType)
    → convert_subservice_to_cmp_data_type (convert_cmp_data_type_to_subservice t) ≡ collected_as t
unfolding convert_subservice_to_cmp_data_type convert_cmp_data_type_to_subservice collected_as
convert-convert imagette_adaptive = refl
convert-convert _ = refl

-- Back from a subservice that has a data type.
pub convert_back :
    (s : ℕ)
    → convert_subservice_to_cmp_data_type s ≢ unknown
    → convert_cmp_data_type_to_subservice (convert_subservice_to_cmp_data_type s) ≡ s
unfolding convert_subservice_to_cmp_data_type convert_cmp_data_type_to_subservice
convert_back s h = ground arith

-- The chunk that holds a data type; there is none for the fast cadence.
unfoldable pub chunk_of : CmpDataType → ChunkType
chunk_of imagette = ChunkType.ncam_imagette
chunk_of sat_imagette = ChunkType.sat_imagette
chunk_of offset = ChunkType.offset_background
chunk_of background = ChunkType.offset_background
chunk_of smearing = ChunkType.smearing
chunk_of s_fx = ChunkType.short_cadence
chunk_of s_fx_efx = ChunkType.short_cadence
chunk_of s_fx_ncob = ChunkType.short_cadence
chunk_of s_fx_efx_ncob_ecob = ChunkType.short_cadence
chunk_of l_fx = ChunkType.long_cadence
chunk_of l_fx_efx = ChunkType.long_cadence
chunk_of l_fx_ncob = ChunkType.long_cadence
chunk_of l_fx_efx_ncob_ecob = ChunkType.long_cadence
chunk_of f_cam_imagette = ChunkType.f_chain
chunk_of f_cam_offset = ChunkType.f_chain
chunk_of f_cam_background = ChunkType.f_chain
chunk_of _ = ChunkType.unknown

-- For every subservice, the switch of cmp_col_get_chunk_type gives the chunk that holds the data
-- type of convert_subservice_to_cmp_data_type, and none where there is no data type or for the
-- fast cadence.
pub chunk_type_of_subservice_lem :
    (s : ℕ) → chunk_type_of_subservice s ≡ chunk_of (convert_subservice_to_cmp_data_type s)
unfolding chunk_type_of_subservice convert_subservice_to_cmp_data_type chunk_of
chunk_type_of_subservice_lem s = ground arith
