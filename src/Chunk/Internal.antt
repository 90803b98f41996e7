-- ===== src/Chunk/Internal.antt =====
-- pad_bitstream and compress_data_internal, and the checks in front of them (cmp_icu.c, lines 1453
-- to 1690).
use cmp_tool.Base.{
  ℕ, ◌+◌, ◌-◌, ◌*◌, List, [], Option, none, some, Bool, true, false, if◌then◌else◌, not, ltb, ◌==◌,
  ◌&&◌, u32, shr, bit_and, take,
}
use cmp_tool.Error.{
  cmp_error, cmp_is_error, no_error, generic, small_buffer, int_data_type_unsupported, par_generic,
  par_specific, par_buffers, par_no_model, chunk_null,
}
use cmp_tool.Support.Types.{
  CmpDataType, imagette, imagette_adaptive, sat_imagette, sat_imagette_adaptive, f_cam_imagette,
  f_cam_imagette_adaptive, s_fx, s_fx_efx, s_fx_ncob, s_fx_efx_ncob_ecob, l_fx, l_fx_efx, l_fx_ncob,
  l_fx_efx_ncob_ecob, offset, f_cam_offset, background, f_cam_background, smearing,
  raw_mode_is_used, model_mode_is_used, cmp_imagette_data_type_is_used,
  cmp_fx_cob_data_type_is_used,
}
use cmp_tool.Support.Check.{
  CmpCfg, cmp_cfg_gen_par_is_invalid, cmp_cfg_imagette_is_invalid, cmp_cfg_fx_cob_is_invalid,
  cmp_cfg_aux_is_invalid,
}
use cmp_tool.Encoder.Word.{Dst, Written, put_n_bits32}
use cmp_tool.Encoder.Value.{cmp_stream_size_to_bits, ◌>>=◌}
use cmp_tool.Bytes.{Updated, success}
use cmp_tool.Collection.DataType.{layout, size_of_a_sample}
use cmp_tool.Collection.Swap.{be_to_cpu_data_type}
use cmp_tool.Product.Field.{Sample}
use cmp_tool.Product.Compress.{
  compress_imagette, compress_s_fx, compress_s_fx_efx, compress_s_fx_ncob,
  compress_s_fx_efx_ncob_ecob, compress_l_fx, compress_l_fx_efx, compress_l_fx_ncob,
  compress_l_fx_efx_ncob_ecob, compress_offset, compress_background, compress_smearing,
}
use cmp_tool.Chunk.Memory.{samples_of, bytes_of_samples, copy_to, copy_to_dst}

-- The buffers that a configuration points to, but for the bitstream; `none` is NULL.
pub record Buffers : Type 0 where
  pub src : Option (List ℕ)
  pub model_buf : Option (List ℕ)
  pub updated_model_buf : Option (List ℕ)

abbrev pub contents : Option (List ℕ) → List ℕ
contents none = []
contents (some bytes) = bytes

abbrev pub is_null {ℓ} : {A : Type ℓ} → Option A → Bool
is_null none = true
is_null (some _) = false

-- The size of the bitstream, the bitstream, and the updated model.
abbrev pub Compressed : Type 0
Compressed = Written × Option (List ℕ)

unfoldable pub pad_bitstream : CmpCfg → ℕ → Dst → Written
unfolding raw_mode_is_used
pad_bitstream cfg cmp_size none = (cmp_size, none)
pad_bitstream cfg cmp_size (some words) =
    let n_pad_bits = 32 - bit_and cmp_size 0x1f in
    let padded =
      put_n_bits32 0 n_pad_bits (cmp_stream_size_to_bits cfg.stream_size) cmp_size (some words) in
    if raw_mode_is_used cfg.cmp_mode
    then (cmp_size, some words)
    else if ltb n_pad_bits 32
    then if cmp_is_error padded.0 then padded else (cmp_size, padded.1)
    else (cmp_size, some words)

-- The function that compresses a product.
abbrev pub Compressor : Type 0
Compressor = List Sample → List Sample → Bool → ℕ → Dst → Written × List Sample

-- The switch of compress_data_internal on the data type.
unfoldable pub select_compressor : CmpCfg → CmpDataType → Option Compressor
select_compressor cfg imagette = some (compress_imagette cfg)
select_compressor cfg imagette_adaptive = some (compress_imagette cfg)
select_compressor cfg sat_imagette = some (compress_imagette cfg)
select_compressor cfg sat_imagette_adaptive = some (compress_imagette cfg)
select_compressor cfg f_cam_imagette = some (compress_imagette cfg)
select_compressor cfg f_cam_imagette_adaptive = some (compress_imagette cfg)
select_compressor cfg s_fx = some (compress_s_fx cfg)
select_compressor cfg s_fx_efx = some (compress_s_fx_efx cfg)
select_compressor cfg s_fx_ncob = some (compress_s_fx_ncob cfg)
select_compressor cfg s_fx_efx_ncob_ecob = some (compress_s_fx_efx_ncob_ecob cfg)
select_compressor cfg l_fx = some (compress_l_fx cfg)
select_compressor cfg l_fx_efx = some (compress_l_fx_efx cfg)
select_compressor cfg l_fx_ncob = some (compress_l_fx_ncob cfg)
select_compressor cfg l_fx_efx_ncob_ecob = some (compress_l_fx_efx_ncob_ecob cfg)
select_compressor cfg offset = some (compress_offset cfg)
select_compressor cfg f_cam_offset = some (compress_offset cfg)
select_compressor cfg background = some (compress_background cfg)
select_compressor cfg f_cam_background = some (compress_background cfg)
select_compressor cfg smearing = some (compress_smearing cfg)
select_compressor cfg _ = none

-- The samples that were written to the updated model, in its memory.
abbrev store_updates : List ℕ → List Sample → Option (List ℕ) → Option (List ℕ)
store_updates widths updates none = none
store_updates widths updates (some bytes) = some (copy_to bytes 0 (bytes_of_samples widths updates))

unfoldable pub compress_with : Option Compressor → CmpCfg → Buffers → ℕ → Dst → Compressed
compress_with none cfg b stream_len dst =
    ((cmp_error int_data_type_unsupported, dst), b.updated_model_buf)
compress_with (some compressor) cfg b stream_len dst =
    let widths = layout cfg.data_type in
    let (written, updates) =
      compressor (samples_of widths cfg.samples (contents b.src) 0)
        (samples_of widths cfg.samples (contents b.model_buf) 0) (not (is_null b.updated_model_buf))
        stream_len dst in
    (written, store_updates widths updates b.updated_model_buf)

-- The raw mode with a buffer: the data are copied, and converted to big-endian in place.
unfoldable pub converted_raw : Updated → ℕ → ℕ → ℕ → List ℕ → Written
converted_raw (success, o) bitsize offset_bytes raw_size words =
    (bitsize, copy_to_dst (some words) offset_bytes (contents o))
converted_raw (_, o) bitsize offset_bytes raw_size words =
    (cmp_error int_data_type_unsupported, copy_to_dst (some words) offset_bytes (contents o))

unfoldable pub compress_raw : CmpCfg → Buffers → ℕ → Dst → Written
unfolding converted_raw
compress_raw cfg b stream_len none =
    (u32 (stream_len + u32 (u32 (cfg.samples * size_of_a_sample cfg.data_type) * 8)), none)
compress_raw cfg b stream_len (some words) =
    let raw_size = u32 (cfg.samples * size_of_a_sample cfg.data_type) in
    let offset_bytes = shr stream_len 3 in
    if ltb cfg.stream_size (u32 (offset_bytes + raw_size))
    then (cmp_error small_buffer, some words)
    else converted_raw
        (be_to_cpu_data_type (some (take raw_size (contents b.src))) raw_size cfg.data_type)
        (u32 (stream_len + u32 (raw_size * 8))) offset_bytes raw_size words

abbrev padded : CmpCfg → Compressed → Compressed
padded cfg c = (c.0 >>= pad_bitstream cfg, c.1)

unfoldable pub compress_data_internal : Option CmpCfg → Buffers → ℕ → Dst → Compressed
unfolding raw_mode_is_used
compress_data_internal none b stream_len dst =
    ((if cmp_is_error stream_len then stream_len else cmp_error generic, dst), b.updated_model_buf)
compress_data_internal (some cfg) b stream_len dst =
    if cmp_is_error stream_len
    then ((stream_len, dst), b.updated_model_buf)
    else if not (bit_and stream_len 0x7 == 0)
    then ((cmp_error generic, dst), b.updated_model_buf)
    else if cfg.samples == 0
    then ((stream_len, dst), b.updated_model_buf)
    else padded cfg (
        if raw_mode_is_used cfg.cmp_mode
        then (compress_raw cfg b stream_len dst, b.updated_model_buf)
        else compress_with (select_compressor cfg cfg.data_type) cfg b stream_len dst)

-- The addresses of the buffers; `none` is NULL.
pub record Addresses : Type 0 where
  pub src_adr : Option ℕ
  pub dst_adr : Option ℕ
  pub model_adr : Option ℕ
  pub updated_adr : Option ℕ

unfoldable pub buffer_overlaps : Option ℕ → ℕ → Option ℕ → ℕ → Bool
buffer_overlaps (some a) size_a (some b) size_b = ltb a (b + size_b) && ltb b (a + size_a)
buffer_overlaps _ size_a _ size_b = false

-- Only a model mode reads the model and writes the updated model.
unfoldable pub check_compression_buffers : Option CmpCfg → Addresses → ℕ
unfolding buffer_overlaps model_mode_is_used
check_compression_buffers none a = cmp_error generic
check_compression_buffers (some cfg) a =
    let data_size = size_of_a_sample cfg.data_type * cfg.samples in
    if is_null a.src_adr
    then cmp_error chunk_null
    else if buffer_overlaps a.dst_adr cfg.stream_size a.src_adr data_size
    then cmp_error par_buffers
    else if not (model_mode_is_used cfg.cmp_mode)
    then cmp_error no_error
    else if is_null a.model_adr
    then cmp_error par_no_model
    else if buffer_overlaps a.model_adr data_size a.src_adr data_size
    then cmp_error par_buffers
    else if buffer_overlaps a.model_adr data_size a.dst_adr cfg.stream_size
    then cmp_error par_buffers
    else if buffer_overlaps a.updated_adr data_size a.src_adr data_size
    then cmp_error par_buffers
    else if buffer_overlaps a.updated_adr data_size a.dst_adr cfg.stream_size
    then cmp_error par_buffers
    else cmp_error no_error

-- The checks of the parameters of a data type.
abbrev specific_is_invalid : CmpCfg → ℕ
specific_is_invalid cfg =
    if cmp_imagette_data_type_is_used cfg.data_type
    then cmp_cfg_imagette_is_invalid (some cfg)
    else if cmp_fx_cob_data_type_is_used cfg.data_type
    then cmp_cfg_fx_cob_is_invalid (some cfg)
    else cmp_cfg_aux_is_invalid (some cfg)

unfoldable pub cmp_cfg_icu_is_invalid_error_code : CmpCfg → Addresses → ℕ
cmp_cfg_icu_is_invalid_error_code cfg a =
    if not (cmp_cfg_gen_par_is_invalid (some cfg) == 0)
    then cmp_error par_generic
    else if not (specific_is_invalid cfg == 0)
    then cmp_error par_specific
    else check_compression_buffers (some cfg) a
