-- ===== src/Collection/DataType.antt =====
-- The data types of collections: their subservice, and the size of a sample
-- (cmp_data_types.c).
use cmp_tool.Base.{ℕ, ◌+◌, List, [], ◌∷◌, if◌then◌else◌, ◌==◌}
use cmp_tool.Support.Types.{
  CmpDataType, unknown, imagette, imagette_adaptive, sat_imagette, sat_imagette_adaptive, offset,
  background, smearing, s_fx, s_fx_efx, s_fx_ncob, s_fx_efx_ncob_ecob, l_fx, l_fx_efx, l_fx_ncob,
  l_fx_efx_ncob_ecob, f_fx, f_fx_efx, f_fx_ncob, f_fx_efx_ncob_ecob, f_cam_imagette,
  f_cam_imagette_adaptive, f_cam_offset, f_cam_background,
}

unfoldable pub convert_subservice_to_cmp_data_type : ℕ → CmpDataType
convert_subservice_to_cmp_data_type subservice =
    if subservice == 3
    then imagette
    else if subservice == 4
    then sat_imagette
    else if subservice == 5
    then offset
    else if subservice == 6
    then background
    else if subservice == 7
    then smearing
    else if subservice == 9
    then s_fx
    else if subservice == 10
    then s_fx_efx
    else if subservice == 11
    then s_fx_ncob
    else if subservice == 12
    then s_fx_efx_ncob_ecob
    else if subservice == 13
    then l_fx
    else if subservice == 14
    then l_fx_efx
    else if subservice == 15
    then l_fx_ncob
    else if subservice == 16
    then l_fx_efx_ncob_ecob
    else if subservice == 17
    then f_fx
    else if subservice == 18
    then f_fx_efx
    else if subservice == 19
    then f_fx_ncob
    else if subservice == 20
    then f_fx_efx_ncob_ecob
    else if subservice == 1
    then f_cam_imagette
    else if subservice == 2
    then f_cam_offset
    else if subservice == 25
    then f_cam_background
    else unknown

-- `(uint8_t)-1` for the types without a subservice.
unfoldable pub convert_cmp_data_type_to_subservice : CmpDataType → ℕ
convert_cmp_data_type_to_subservice imagette = 3
convert_cmp_data_type_to_subservice imagette_adaptive = 3
convert_cmp_data_type_to_subservice sat_imagette = 4
convert_cmp_data_type_to_subservice sat_imagette_adaptive = 4
convert_cmp_data_type_to_subservice offset = 5
convert_cmp_data_type_to_subservice background = 6
convert_cmp_data_type_to_subservice smearing = 7
convert_cmp_data_type_to_subservice s_fx = 9
convert_cmp_data_type_to_subservice s_fx_efx = 10
convert_cmp_data_type_to_subservice s_fx_ncob = 11
convert_cmp_data_type_to_subservice s_fx_efx_ncob_ecob = 12
convert_cmp_data_type_to_subservice l_fx = 13
convert_cmp_data_type_to_subservice l_fx_efx = 14
convert_cmp_data_type_to_subservice l_fx_ncob = 15
convert_cmp_data_type_to_subservice l_fx_efx_ncob_ecob = 16
convert_cmp_data_type_to_subservice f_fx = 17
convert_cmp_data_type_to_subservice f_fx_efx = 18
convert_cmp_data_type_to_subservice f_fx_ncob = 19
convert_cmp_data_type_to_subservice f_fx_efx_ncob_ecob = 20
convert_cmp_data_type_to_subservice f_cam_imagette = 1
convert_cmp_data_type_to_subservice f_cam_imagette_adaptive = 1
convert_cmp_data_type_to_subservice f_cam_offset = 2
convert_cmp_data_type_to_subservice f_cam_background = 25
convert_cmp_data_type_to_subservice _ = 255

unfoldable pub sum : List ℕ → ℕ
sum [] = 0
sum (x ∷ xs) = x + sum xs

-- The bytes of the members of the packed structures, in their order; an imagette has one word.
unfoldable pub layout : CmpDataType → List ℕ
layout imagette = 2 ∷ []
layout imagette_adaptive = 2 ∷ []
layout sat_imagette = 2 ∷ []
layout sat_imagette_adaptive = 2 ∷ []
layout f_cam_imagette = 2 ∷ []
layout f_cam_imagette_adaptive = 2 ∷ []
layout offset = 4 ∷ 4 ∷ []
layout f_cam_offset = 4 ∷ 4 ∷ []
layout background = 4 ∷ 4 ∷ 2 ∷ []
layout f_cam_background = 4 ∷ 4 ∷ 2 ∷ []
layout smearing = 4 ∷ 4 ∷ 2 ∷ []
layout s_fx = 1 ∷ 4 ∷ []
layout s_fx_efx = 1 ∷ 4 ∷ 4 ∷ []
layout s_fx_ncob = 1 ∷ 4 ∷ 4 ∷ 4 ∷ []
layout s_fx_efx_ncob_ecob = 1 ∷ 4 ∷ 4 ∷ 4 ∷ 4 ∷ 4 ∷ 4 ∷ []
layout l_fx = 3 ∷ 4 ∷ 4 ∷ []
layout l_fx_efx = 3 ∷ 4 ∷ 4 ∷ 4 ∷ []
layout l_fx_ncob = 3 ∷ 4 ∷ 4 ∷ 4 ∷ 4 ∷ 4 ∷ 4 ∷ []
layout l_fx_efx_ncob_ecob = 3 ∷ 4 ∷ 4 ∷ 4 ∷ 4 ∷ 4 ∷ 4 ∷ 4 ∷ 4 ∷ 4 ∷ []
layout f_fx = 4 ∷ []
layout f_fx_efx = 4 ∷ 4 ∷ []
layout f_fx_ncob = 4 ∷ 4 ∷ 4 ∷ []
layout f_fx_efx_ncob_ecob = 4 ∷ 4 ∷ 4 ∷ 4 ∷ 4 ∷ 4 ∷ []
layout _ = []

-- `sizeof` of a packed structure is the sum of its members.
unfoldable pub size_of_a_sample : CmpDataType → ℕ
unfolding layout sum
size_of_a_sample data_type = sum (layout data_type)
