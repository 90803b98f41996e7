-- ===== src/Support/Numbers.antt =====
-- The numbers of `enum cmp_mode` and `enum cmp_data_type`.
use cmp_tool.Base.{ℕ, ◌+◌, ◌-◌, if◌then◌else◌, ◌==◌}
use cmp_tool.Support.Types.{
  CmpMode, raw, model_zero, diff_zero, model_multi, diff_multi, unsupported, CmpDataType, unknown,
  imagette, imagette_adaptive, sat_imagette, sat_imagette_adaptive, offset, background, smearing,
  s_fx, s_fx_efx, s_fx_ncob, s_fx_efx_ncob_ecob, l_fx, l_fx_efx, l_fx_ncob, l_fx_efx_ncob_ecob,
  f_fx, f_fx_efx, f_fx_ncob, f_fx_efx_ncob_ecob, f_cam_imagette, f_cam_imagette_adaptive,
  f_cam_offset, f_cam_background, chunk, above_chunk,
}

unfoldable pub cmp_mode_number : CmpMode → ℕ
cmp_mode_number raw = 0
cmp_mode_number model_zero = 1
cmp_mode_number diff_zero = 2
cmp_mode_number model_multi = 3
cmp_mode_number diff_multi = 4
cmp_mode_number (unsupported n) = 5 + n

unfoldable pub cmp_mode_of_number : ℕ → CmpMode
cmp_mode_of_number k =
    if k == 0
    then raw
    else if k == 1
    then model_zero
    else if k == 2
    then diff_zero
    else if k == 3
    then model_multi
    else if k == 4
    then diff_multi
    else unsupported (k - 5)

unfoldable pub cmp_data_type_number : CmpDataType → ℕ
cmp_data_type_number unknown = 0
cmp_data_type_number imagette = 1
cmp_data_type_number imagette_adaptive = 2
cmp_data_type_number sat_imagette = 3
cmp_data_type_number sat_imagette_adaptive = 4
cmp_data_type_number offset = 5
cmp_data_type_number background = 6
cmp_data_type_number smearing = 7
cmp_data_type_number s_fx = 8
cmp_data_type_number s_fx_efx = 9
cmp_data_type_number s_fx_ncob = 10
cmp_data_type_number s_fx_efx_ncob_ecob = 11
cmp_data_type_number l_fx = 12
cmp_data_type_number l_fx_efx = 13
cmp_data_type_number l_fx_ncob = 14
cmp_data_type_number l_fx_efx_ncob_ecob = 15
cmp_data_type_number f_fx = 16
cmp_data_type_number f_fx_efx = 17
cmp_data_type_number f_fx_ncob = 18
cmp_data_type_number f_fx_efx_ncob_ecob = 19
cmp_data_type_number f_cam_imagette = 20
cmp_data_type_number f_cam_imagette_adaptive = 21
cmp_data_type_number f_cam_offset = 22
cmp_data_type_number f_cam_background = 23
cmp_data_type_number chunk = 24
cmp_data_type_number (above_chunk n) = 25 + n

unfoldable pub cmp_data_type_of_number : ℕ → CmpDataType
cmp_data_type_of_number k =
    if k == 0
    then unknown
    else if k == 1
    then imagette
    else if k == 2
    then imagette_adaptive
    else if k == 3
    then sat_imagette
    else if k == 4
    then sat_imagette_adaptive
    else if k == 5
    then offset
    else if k == 6
    then background
    else if k == 7
    then smearing
    else if k == 8
    then s_fx
    else if k == 9
    then s_fx_efx
    else if k == 10
    then s_fx_ncob
    else if k == 11
    then s_fx_efx_ncob_ecob
    else if k == 12
    then l_fx
    else if k == 13
    then l_fx_efx
    else if k == 14
    then l_fx_ncob
    else if k == 15
    then l_fx_efx_ncob_ecob
    else if k == 16
    then f_fx
    else if k == 17
    then f_fx_efx
    else if k == 18
    then f_fx_ncob
    else if k == 19
    then f_fx_efx_ncob_ecob
    else if k == 20
    then f_cam_imagette
    else if k == 21
    then f_cam_imagette_adaptive
    else if k == 22
    then f_cam_offset
    else if k == 23
    then f_cam_background
    else if k == 24
    then chunk
    else above_chunk (k - 25)
