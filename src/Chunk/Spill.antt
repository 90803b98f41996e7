-- ===== src/Chunk/Spill.antt =====
-- The spillover thresholds of a chunk's parameters (cmp_icu.c, lines 1690 to 1760), and the
-- configuration that compress_chunk makes of them (lines 1945 to 2075; lib/cmp_chunk.h).
use cmp_tool.Base.{ℕ, ◌+◌, ◌*◌, List, if◌then◌else◌, ltb, u32, sub32, shl32}
use cmp_tool.Support.Types.{CmpMode, unknown, zero_escape_mech_is_used}
use cmp_tool.Support.Log.{ilog_2}
use cmp_tool.Support.Spill.{min_non_ima_golomb_par, max_non_ima_golomb_par, cmp_icu_max_spill}
use cmp_tool.Support.Check.{CmpCfg}
use cmp_tool.Collection.ChunkType.{
  ChunkType, ncam_imagette, short_cadence, long_cadence, sat_imagette, offset_background, smearing,
  f_chain, cmp_col_get_chunk_type,
}

unfoldable pub cmp_best_zero_spill : ℕ → ℕ → ℕ
cmp_best_zero_spill golomb_par max_data_bits =
    let max_spill = cmp_icu_max_spill golomb_par in
    let cutoff = sub32 (shl32 2 (ilog_2 golomb_par)) golomb_par in
    let spill = u32 (u32 (max_data_bits * golomb_par) + cutoff) in
    if ltb golomb_par min_non_ima_golomb_par
    then 0
    else if ltb max_non_ima_golomb_par golomb_par
    then 0
    else if ltb max_spill spill
    then max_spill
    else spill

unfoldable pub cmp_get_spill : ℕ → CmpMode → ℕ → ℕ
unfolding zero_escape_mech_is_used
cmp_get_spill golomb_par cmp_mode max_data_bits =
    if zero_escape_mech_is_used cmp_mode
    then cmp_best_zero_spill golomb_par max_data_bits
    else cmp_icu_max_spill golomb_par

-- `struct cmp_par`
pub record CmpPar : Type 0 where
  pub cmp_mode : CmpMode
  pub model_value : ℕ
  pub lossy_par : ℕ
  pub nc_imagette : ℕ
  pub s_exp_flags : ℕ
  pub s_fx : ℕ
  pub s_ncob : ℕ
  pub s_efx : ℕ
  pub s_ecob : ℕ
  pub l_exp_flags : ℕ
  pub l_fx : ℕ
  pub l_ncob : ℕ
  pub l_efx : ℕ
  pub l_ecob : ℕ
  pub l_fx_cob_variance : ℕ
  pub saturated_imagette : ℕ
  pub nc_offset_mean : ℕ
  pub nc_offset_variance : ℕ
  pub nc_background_mean : ℕ
  pub nc_background_variance : ℕ
  pub nc_background_outlier_pixels : ℕ
  pub smearing_mean : ℕ
  pub smearing_variance_mean : ℕ
  pub smearing_outlier_pixels : ℕ
  pub fc_imagette : ℕ
  pub fc_offset_mean : ℕ
  pub fc_offset_variance : ℕ
  pub fc_background_mean : ℕ
  pub fc_background_variance : ℕ
  pub fc_background_outlier_pixels : ℕ

-- `memset(cfg, 0, sizeof(struct cmp_cfg))`, then the members that every chunk has.
abbrev pub cleared_cfg : CmpPar → CmpCfg
cleared_cfg par = record {
  samples = 0;
  stream_size = 0;
  data_type = unknown;
  cmp_mode = par.cmp_mode;
  model_value = par.model_value;
  round = 0;
  cmp_par_1 = 0;
  spill_par_1 = 0;
  cmp_par_2 = 0;
  spill_par_2 = 0;
  cmp_par_3 = 0;
  spill_par_3 = 0;
  cmp_par_4 = 0;
  spill_par_4 = 0;
  cmp_par_5 = 0;
  spill_par_5 = 0;
  cmp_par_6 = 0;
  spill_par_6 = 0;
}

abbrev imagette_cfg : CmpPar → ℕ → CmpCfg
imagette_cfg par golomb_par = record (cleared_cfg par) {
  cmp_par_1 = golomb_par;
  spill_par_1 = cmp_get_spill golomb_par par.cmp_mode 16;
}

abbrev offset_background_cfg : CmpPar → ℕ → ℕ → ℕ → ℕ → ℕ → CmpCfg → CmpCfg
offset_background_cfg par mean variance back_mean back_variance pixels cfg = record cfg {
  cmp_par_2 = mean;
  spill_par_2 = cmp_get_spill mean par.cmp_mode 32;
  cmp_par_3 = variance;
  spill_par_3 = cmp_get_spill variance par.cmp_mode 32;
  cmp_par_4 = back_mean;
  spill_par_4 = cmp_get_spill back_mean par.cmp_mode 32;
  cmp_par_5 = back_variance;
  spill_par_5 = cmp_get_spill back_variance par.cmp_mode 32;
  cmp_par_6 = pixels;
  spill_par_6 = cmp_get_spill pixels par.cmp_mode 16;
}

-- The pairs share their memory as in Product/Fields; the bits are those of MAX_USED_BITS.
unfoldable pub cfg_of_chunk : ChunkType → CmpPar → CmpCfg
cfg_of_chunk ncam_imagette par = imagette_cfg par par.nc_imagette
cfg_of_chunk sat_imagette par = imagette_cfg par par.saturated_imagette
cfg_of_chunk short_cadence par = record (cleared_cfg par) {
  cmp_par_1 = par.s_exp_flags;
  spill_par_1 = cmp_get_spill par.s_exp_flags par.cmp_mode 8;
  cmp_par_2 = par.s_fx;
  spill_par_2 = cmp_get_spill par.s_fx par.cmp_mode 32;
  cmp_par_3 = par.s_ncob;
  spill_par_3 = cmp_get_spill par.s_ncob par.cmp_mode 32;
  cmp_par_4 = par.s_efx;
  spill_par_4 = cmp_get_spill par.s_efx par.cmp_mode 32;
  cmp_par_5 = par.s_ecob;
  spill_par_5 = cmp_get_spill par.s_ecob par.cmp_mode 32;
}
cfg_of_chunk long_cadence par = record (cleared_cfg par) {
  cmp_par_1 = par.l_exp_flags;
  spill_par_1 = cmp_get_spill par.l_exp_flags par.cmp_mode 24;
  cmp_par_2 = par.l_fx;
  spill_par_2 = cmp_get_spill par.l_fx par.cmp_mode 32;
  cmp_par_3 = par.l_ncob;
  spill_par_3 = cmp_get_spill par.l_ncob par.cmp_mode 32;
  cmp_par_4 = par.l_efx;
  spill_par_4 = cmp_get_spill par.l_efx par.cmp_mode 32;
  cmp_par_5 = par.l_ecob;
  spill_par_5 = cmp_get_spill par.l_ecob par.cmp_mode 32;
  cmp_par_6 = par.l_fx_cob_variance;
  spill_par_6 = cmp_get_spill par.l_fx_cob_variance par.cmp_mode 32;
}
cfg_of_chunk offset_background par =
    offset_background_cfg par par.nc_offset_mean par.nc_offset_variance par.nc_background_mean
      par.nc_background_variance par.nc_background_outlier_pixels (cleared_cfg par)
cfg_of_chunk smearing par = record (cleared_cfg par) {
  cmp_par_4 = par.smearing_mean;
  spill_par_4 = cmp_get_spill par.smearing_mean par.cmp_mode 32;
  cmp_par_5 = par.smearing_variance_mean;
  spill_par_5 = cmp_get_spill par.smearing_variance_mean par.cmp_mode 32;
  cmp_par_6 = par.smearing_outlier_pixels;
  spill_par_6 = cmp_get_spill par.smearing_outlier_pixels par.cmp_mode 16;
}
cfg_of_chunk f_chain par =
    offset_background_cfg par par.fc_offset_mean par.fc_offset_variance par.fc_background_mean
      par.fc_background_variance par.fc_background_outlier_pixels (imagette_cfg par par.fc_imagette)
cfg_of_chunk ChunkType.unknown par = cleared_cfg par

-- The type of the chunk and the configuration.
unfoldable pub init_cmp_cfg_from_cmp_par : List ℕ → CmpPar → ChunkType × CmpCfg
unfolding cfg_of_chunk
init_cmp_cfg_from_cmp_par col par =
    (cmp_col_get_chunk_type col, cfg_of_chunk (cmp_col_get_chunk_type col) par)
