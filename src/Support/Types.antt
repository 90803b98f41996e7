-- ===== src/Support/Types.antt =====
-- `enum cmp_mode`, `enum cmp_data_type` and the predicates on them.
use cmp_tool.Base.{ℕ, Bool, true, false}

-- `unsupported` stands for the other values that the enumeration's integer type holds.
pub data CmpMode : Type 0 where
  raw model_zero diff_zero model_multi diff_multi : CmpMode
  unsupported : ℕ → CmpMode

pub data CmpDataType : Type 0 where
  unknown : CmpDataType
  imagette imagette_adaptive sat_imagette sat_imagette_adaptive : CmpDataType
  offset background smearing : CmpDataType
  s_fx s_fx_efx s_fx_ncob s_fx_efx_ncob_ecob : CmpDataType
  l_fx l_fx_efx l_fx_ncob l_fx_efx_ncob_ecob : CmpDataType
  f_fx f_fx_efx f_fx_ncob f_fx_efx_ncob_ecob : CmpDataType
  f_cam_imagette f_cam_imagette_adaptive f_cam_offset f_cam_background : CmpDataType
  chunk : CmpDataType
  above_chunk : ℕ → CmpDataType

unfoldable pub cmp_data_type_is_invalid : CmpDataType → Bool
cmp_data_type_is_invalid unknown = true
cmp_data_type_is_invalid (above_chunk n) = true
cmp_data_type_is_invalid _ = false

unfoldable pub model_mode_is_used : CmpMode → Bool
model_mode_is_used model_zero = true
model_mode_is_used model_multi = true
model_mode_is_used _ = false

unfoldable pub raw_mode_is_used : CmpMode → Bool
raw_mode_is_used raw = true
raw_mode_is_used _ = false

unfoldable pub rdcu_supported_data_type_is_used : CmpDataType → Bool
rdcu_supported_data_type_is_used imagette = true
rdcu_supported_data_type_is_used imagette_adaptive = true
rdcu_supported_data_type_is_used sat_imagette = true
rdcu_supported_data_type_is_used sat_imagette_adaptive = true
rdcu_supported_data_type_is_used f_cam_imagette = true
rdcu_supported_data_type_is_used f_cam_imagette_adaptive = true
rdcu_supported_data_type_is_used _ = false

unfoldable pub cmp_mode_is_supported : CmpMode → Bool
cmp_mode_is_supported (unsupported n) = false
cmp_mode_is_supported _ = true

unfoldable pub zero_escape_mech_is_used : CmpMode → Bool
zero_escape_mech_is_used model_zero = true
zero_escape_mech_is_used diff_zero = true
zero_escape_mech_is_used _ = false

unfoldable pub multi_escape_mech_is_used : CmpMode → Bool
multi_escape_mech_is_used model_multi = true
multi_escape_mech_is_used diff_multi = true
multi_escape_mech_is_used _ = false

unfoldable pub cmp_imagette_data_type_is_used : CmpDataType → Bool
unfolding rdcu_supported_data_type_is_used
cmp_imagette_data_type_is_used t = rdcu_supported_data_type_is_used t

unfoldable pub cmp_ap_imagette_data_type_is_used : CmpDataType → Bool
cmp_ap_imagette_data_type_is_used imagette_adaptive = true
cmp_ap_imagette_data_type_is_used sat_imagette_adaptive = true
cmp_ap_imagette_data_type_is_used f_cam_imagette_adaptive = true
cmp_ap_imagette_data_type_is_used _ = false

unfoldable pub cmp_fx_cob_data_type_is_used : CmpDataType → Bool
cmp_fx_cob_data_type_is_used s_fx = true
cmp_fx_cob_data_type_is_used s_fx_efx = true
cmp_fx_cob_data_type_is_used s_fx_ncob = true
cmp_fx_cob_data_type_is_used s_fx_efx_ncob_ecob = true
cmp_fx_cob_data_type_is_used l_fx = true
cmp_fx_cob_data_type_is_used l_fx_efx = true
cmp_fx_cob_data_type_is_used l_fx_ncob = true
cmp_fx_cob_data_type_is_used l_fx_efx_ncob_ecob = true
cmp_fx_cob_data_type_is_used f_fx = true
cmp_fx_cob_data_type_is_used f_fx_efx = true
cmp_fx_cob_data_type_is_used f_fx_ncob = true
cmp_fx_cob_data_type_is_used f_fx_efx_ncob_ecob = true
cmp_fx_cob_data_type_is_used _ = false

unfoldable pub cmp_aux_data_type_is_used : CmpDataType → Bool
cmp_aux_data_type_is_used offset = true
cmp_aux_data_type_is_used background = true
cmp_aux_data_type_is_used smearing = true
cmp_aux_data_type_is_used f_cam_offset = true
cmp_aux_data_type_is_used f_cam_background = true
cmp_aux_data_type_is_used _ = false
