-- ===== src/Tests/Chunks.antt =====
-- A chunk of one imagette: its compression, and the bound of its size.
use cmp_tool.Base.{ℕ, ◌≤◌, ◌<◌, ◌^◌, ◌≡◌, ◌↔◌, refl, arith, List, [], ◌∷◌, none, some, false}
use cmp_tool.Error.{cmp_is_error, cmp_get_error_code, cmp_error}
use cmp_tool.Support.Types.{
  CmpMode, diff_zero, imagette, raw_mode_is_used, cmp_imagette_data_type_is_used,
}
use cmp_tool.Support.Check.{
  CmpCfg, cmp_cfg_gen_par_is_invalid, cmp_cfg_imagette_is_invalid, cmp_pars_are_invalid,
}
use cmp_tool.RoundTrip.Setup.{by_diff_zero}
use cmp_tool.Chunk.Internal.{
  Buffers, Compressed, cmp_cfg_icu_is_invalid_error_code, check_compression_buffers, compress_raw,
  compress_with, select_compressor, compress_data_internal, pad_bitstream,
}
use cmp_tool.Chunk.Spill.{
  CmpPar, cleared_cfg, cmp_best_zero_spill, init_cmp_cfg_from_cmp_par, cmp_get_spill,
}
use cmp_tool.Decoder.Reader.{read_be}
use cmp_tool.Collection.ChunkType.{cmp_col_get_chunk_type}
use cmp_tool.Collection.Header.{cmp_col_get_size}
use cmp_tool.Collection.DataType.{size_of_a_sample, convert_subservice_to_cmp_data_type}
use cmp_tool.Encoder.Word.{put_n_bits32, rice_encoder}
use cmp_tool.Encoder.Value.{
  encode_value, configure_encoder_setup, encode_value_zero, map_to_pos, encode_normal,
}
use cmp_tool.Product.Compress.{compress_imagette, compress_product, compress_samples, encode_fields}
use cmp_tool.Chunk.Memory.{copy_to_dst, samples_of}
use cmp_tool.Base.Bits.{bit}
use cmp_tool.Support.Log.{cmp_bit_to_byte, ilog_2, clz, is_a_pow_of_2}
use cmp_tool.Support.Spill.{cmp_icu_max_spill}
use cmp_tool.Chunk.Header.{cmp_ent_build_chunk_header}
use cmp_tool.Chunk.Bounded.{IsBounded}
use cmp_tool.Chunk.BoundedData.{limit_of, compress_data_internal-IsBounded}
use cmp_tool.Chunk.SpillLaws.{cmp_pars_are_invalid-cmp_get_spill}
use cmp_tool.Chunk.Collection.{
  Source, cmp_collection, compress_checked, compress_entry, compress_uncompressed,
}
use cmp_tool.Chunk.Compress.{
  Stamps, compress_collections, count_collections, compress_chunk, compress_chunk_cmp_size_bound,
}
use cmp_tool.Chunk.Total.{compress_chunk_total}
use cmp_tool.Chunk.ChunkBound.{compress_chunk-le-compress_chunk_cmp_size_bound}

abbrev pixels_chunk : List ℕ
pixels_chunk = 0 ∷ 0 ∷ 0 ∷ 0 ∷ 0 ∷ 1 ∷ 0 ∷ 2 ∷ 6 ∷ 0 ∷ 0 ∷ 4 ∷ 1 ∷ 0 ∷ 2 ∷ 0 ∷ []

abbrev source : Source
source = record {
  col = pixels_chunk;
  model = none;
  updated_model = none;
  addresses = record {
    src_adr = some 0x1000;
    dst_adr = none;
    model_adr = none;
    updated_adr = none;
  };
}

abbrev par : CmpMode → CmpPar
par mode = record {
  cmp_mode = mode;
  model_value = 0;
  lossy_par = 0;
  nc_imagette = 4;
  s_exp_flags = 0;
  s_fx = 0;
  s_ncob = 0;
  s_efx = 0;
  s_ecob = 0;
  l_exp_flags = 0;
  l_fx = 0;
  l_ncob = 0;
  l_efx = 0;
  l_ecob = 0;
  l_fx_cob_variance = 0;
  saturated_imagette = 0;
  nc_offset_mean = 0;
  nc_offset_variance = 0;
  nc_background_mean = 0;
  nc_background_variance = 0;
  nc_background_outlier_pixels = 0;
  smearing_mean = 0;
  smearing_variance_mean = 0;
  smearing_outlier_pixels = 0;
  fc_imagette = 0;
  fc_offset_mean = 0;
  fc_offset_variance = 0;
  fc_background_mean = 0;
  fc_background_variance = 0;
  fc_background_outlier_pixels = 0;
}

abbrev stamps : Stamps
stamps = record { version_identifier = 0x80000001; start_timestamp = 1; end_timestamp = 2 }

compress_chunk_total_example :
    (c : Compressed) × (compress_chunk false 16 source none 0 (some (par diff_zero)) stamps
      ≡ some c)
compress_chunk_total_example =
    compress_chunk_total false 16 source none 0 (some (par diff_zero)) stamps

cmp_pars_are_invalid-cmp_get_spill_example :
    (cmp_pars_are_invalid 5 (cmp_get_spill 5 diff_zero 16) diff_zero ≡ 0) ↔ ((0 < 5) × (5 ≤ 65535))
cmp_pars_are_invalid-cmp_get_spill_example =
    cmp_pars_are_invalid-cmp_get_spill 5 16 diff_zero by_diff_zero (omega arith) (omega arith)

diff_result :
    compress_chunk false 16 source none 0 (some (par diff_zero)) stamps ≡ some ((79, none), none)
unfolding compress_chunk cmp_col_get_chunk_type read_be compress_collections cmp_col_get_size
    cmp_is_error cmp_collection size_of_a_sample convert_subservice_to_cmp_data_type
    cmp_cfg_icu_is_invalid_error_code cmp_cfg_gen_par_is_invalid cmp_imagette_data_type_is_used
    cmp_cfg_imagette_is_invalid check_compression_buffers compress_checked compress_entry
    copy_to_dst compress_data_internal compress_uncompressed cmp_best_zero_spill cmp_get_spill
    init_cmp_cfg_from_cmp_par encode_value select_compressor compress_with compress_imagette
    compress_product compress_samples put_n_bits32 cmp_icu_max_spill ilog_2 clz bit
    cmp_get_error_code cmp_ent_build_chunk_header samples_of encode_fields configure_encoder_setup
    encode_value_zero map_to_pos encode_normal is_a_pow_of_2 rice_encoder pad_bitstream compress_raw
    cmp_bit_to_byte
diff_result = refl

bound : compress_chunk_cmp_size_bound (some pixels_chunk) 16 ≡ some 84
unfolding compress_chunk_cmp_size_bound count_collections cmp_col_get_size read_be
bound = refl

fine : (n : ℕ) → n < 2 ^ 31 → cmp_is_error n ≡ false
unfolding cmp_is_error cmp_error
fine n h = ground arith

compress_chunk-le-compress_chunk_cmp_size_bound_example : 79 ≤ 84
compress_chunk-le-compress_chunk_cmp_size_bound_example =
    compress_chunk-le-compress_chunk_cmp_size_bound source 16 none 0 (some (par diff_zero)) stamps
      ((79, none), none) 84 diff_result (fine 79 (omega arith)) bound (fine 84 (omega arith))

abbrev pixels_cfg : CmpCfg
pixels_cfg = record (cleared_cfg (par diff_zero)) {
  samples = 2;
  stream_size = 79;
  data_type = imagette;
  cmp_par_1 = 4;
  spill_par_1 = 8;
}

abbrev pixels : Buffers
pixels = record { src = some (1 ∷ 0 ∷ 2 ∷ 0 ∷ []); model_buf = none; updated_model_buf = none }

compressing : raw_mode_is_used diff_zero ≡ false
unfolding raw_mode_is_used
compressing = refl

compress_data_internal-IsBounded_example :
    IsBounded
      (limit_of pixels_cfg)
      (λ o dst. (compress_data_internal (some pixels_cfg) pixels o dst).0)
compress_data_internal-IsBounded_example =
    compress_data_internal-IsBounded pixels_cfg pixels compressing
