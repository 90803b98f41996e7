-- ===== src/Collection/Swap.antt =====
-- The conversion of samples, collections and chunks from big-endian to the order of the CPU, in
-- place (cmp_data_types.c, from be24_to_cpu on), on a little-endian CPU. A pointer to data is the
-- list of bytes from there on, `none` for NULL.
use cmp_tool.Base.{
  ℕ, zero, suc, ◌/◌, ◌%◌, List, [], ◌∷◌, ◌++◌, Option, none, some, if◌then◌else◌, ◌==◌, not, take,
  drop,
}
use mathlib.Core.List.{reverse}
use cmp_tool.Support.Types.{
  CmpDataType, imagette, imagette_adaptive, sat_imagette, sat_imagette_adaptive, offset, background,
  smearing, s_fx, s_fx_efx, s_fx_ncob, s_fx_efx_ncob_ecob, l_fx, l_fx_efx, l_fx_ncob,
  l_fx_efx_ncob_ecob, f_fx, f_fx_efx, f_fx_ncob, f_fx_efx_ncob_ecob, f_cam_imagette,
  f_cam_imagette_adaptive, f_cam_offset, f_cam_background,
}
use cmp_tool.Collection.Header.{success, failure, Updated}
use cmp_tool.Collection.DataType.{size_of_a_sample, sum}

-- The members of one sample, each with its bytes reversed.
unfoldable pub swap_members : List ℕ → List ℕ → List ℕ
swap_members [] bytes = bytes
swap_members (width ∷ widths) bytes =
    reverse (take width bytes) ++ swap_members widths (drop width bytes)

-- The loop over the samples; what follows them stays.
unfoldable pub swap_samples : List ℕ → ℕ → List ℕ → List ℕ
unfolding sum swap_members
swap_samples widths zero bytes = bytes
swap_samples widths (suc samples) bytes =
    swap_members widths (take (sum widths) bytes)
    ++ swap_samples widths samples (drop (sum widths) bytes)

unfoldable pub be_to_cpus_16 : List ℕ → ℕ → List ℕ
unfolding swap_samples
be_to_cpus_16 a samples = swap_samples (2 ∷ []) samples a

unfoldable pub be_to_cpus_offset : List ℕ → ℕ → List ℕ
unfolding swap_samples
be_to_cpus_offset a samples = swap_samples (4 ∷ 4 ∷ []) samples a

unfoldable pub be_to_cpus_background : List ℕ → ℕ → List ℕ
unfolding swap_samples
be_to_cpus_background a samples = swap_samples (4 ∷ 4 ∷ 2 ∷ []) samples a

unfoldable pub be_to_cpus_smearing : List ℕ → ℕ → List ℕ
unfolding swap_samples
be_to_cpus_smearing a samples = swap_samples (4 ∷ 4 ∷ 2 ∷ []) samples a

unfoldable pub be_to_cpus_s_fx : List ℕ → ℕ → List ℕ
unfolding swap_samples
be_to_cpus_s_fx a samples = swap_samples (1 ∷ 4 ∷ []) samples a

unfoldable pub be_to_cpus_s_fx_efx : List ℕ → ℕ → List ℕ
unfolding swap_samples
be_to_cpus_s_fx_efx a samples = swap_samples (1 ∷ 4 ∷ 4 ∷ []) samples a

unfoldable pub be_to_cpus_s_fx_ncob : List ℕ → ℕ → List ℕ
unfolding swap_samples
be_to_cpus_s_fx_ncob a samples = swap_samples (1 ∷ 4 ∷ 4 ∷ 4 ∷ []) samples a

unfoldable pub be_to_cpus_s_fx_efx_ncob_ecob : List ℕ → ℕ → List ℕ
unfolding swap_samples
be_to_cpus_s_fx_efx_ncob_ecob a samples = swap_samples (1 ∷ 4 ∷ 4 ∷ 4 ∷ 4 ∷ 4 ∷ 4 ∷ []) samples a

unfoldable pub be_to_cpus_l_fx : List ℕ → ℕ → List ℕ
unfolding swap_samples
be_to_cpus_l_fx a samples = swap_samples (3 ∷ 4 ∷ 4 ∷ []) samples a

unfoldable pub be_to_cpus_l_fx_efx : List ℕ → ℕ → List ℕ
unfolding swap_samples
be_to_cpus_l_fx_efx a samples = swap_samples (3 ∷ 4 ∷ 4 ∷ 4 ∷ []) samples a

unfoldable pub be_to_cpus_l_fx_ncob : List ℕ → ℕ → List ℕ
unfolding swap_samples
be_to_cpus_l_fx_ncob a samples = swap_samples (3 ∷ 4 ∷ 4 ∷ 4 ∷ 4 ∷ 4 ∷ 4 ∷ []) samples a

unfoldable pub be_to_cpus_l_fx_efx_ncob_ecob : List ℕ → ℕ → List ℕ
unfolding swap_samples
be_to_cpus_l_fx_efx_ncob_ecob a samples =
    swap_samples (3 ∷ 4 ∷ 4 ∷ 4 ∷ 4 ∷ 4 ∷ 4 ∷ 4 ∷ 4 ∷ 4 ∷ []) samples a

unfoldable pub be_to_cpus_f_fx : List ℕ → ℕ → List ℕ
unfolding swap_samples
be_to_cpus_f_fx a samples = swap_samples (4 ∷ []) samples a

unfoldable pub be_to_cpus_f_fx_efx : List ℕ → ℕ → List ℕ
unfolding swap_samples
be_to_cpus_f_fx_efx a samples = swap_samples (4 ∷ 4 ∷ []) samples a

unfoldable pub be_to_cpus_f_fx_ncob : List ℕ → ℕ → List ℕ
unfolding swap_samples
be_to_cpus_f_fx_ncob a samples = swap_samples (4 ∷ 4 ∷ 4 ∷ []) samples a

unfoldable pub be_to_cpus_f_fx_efx_ncob_ecob : List ℕ → ℕ → List ℕ
unfolding swap_samples
be_to_cpus_f_fx_efx_ncob_ecob a samples = swap_samples (4 ∷ 4 ∷ 4 ∷ 4 ∷ 4 ∷ 4 ∷ []) samples a

-- The switch of be_to_cpu_data_type on the data type.
unfoldable pub be_to_cpus : CmpDataType → List ℕ → ℕ → Updated
unfolding be_to_cpus_16 be_to_cpus_offset be_to_cpus_background be_to_cpus_smearing be_to_cpus_s_fx
    be_to_cpus_s_fx_efx be_to_cpus_s_fx_ncob be_to_cpus_s_fx_efx_ncob_ecob be_to_cpus_l_fx
    be_to_cpus_l_fx_efx be_to_cpus_l_fx_ncob be_to_cpus_l_fx_efx_ncob_ecob be_to_cpus_f_fx
    be_to_cpus_f_fx_efx be_to_cpus_f_fx_ncob be_to_cpus_f_fx_efx_ncob_ecob
be_to_cpus imagette a samples = (success, some (be_to_cpus_16 a samples))
be_to_cpus imagette_adaptive a samples = (success, some (be_to_cpus_16 a samples))
be_to_cpus sat_imagette a samples = (success, some (be_to_cpus_16 a samples))
be_to_cpus sat_imagette_adaptive a samples = (success, some (be_to_cpus_16 a samples))
be_to_cpus f_cam_imagette a samples = (success, some (be_to_cpus_16 a samples))
be_to_cpus f_cam_imagette_adaptive a samples = (success, some (be_to_cpus_16 a samples))
be_to_cpus offset a samples = (success, some (be_to_cpus_offset a samples))
be_to_cpus f_cam_offset a samples = (success, some (be_to_cpus_offset a samples))
be_to_cpus background a samples = (success, some (be_to_cpus_background a samples))
be_to_cpus f_cam_background a samples = (success, some (be_to_cpus_background a samples))
be_to_cpus smearing a samples = (success, some (be_to_cpus_smearing a samples))
be_to_cpus s_fx a samples = (success, some (be_to_cpus_s_fx a samples))
be_to_cpus s_fx_efx a samples = (success, some (be_to_cpus_s_fx_efx a samples))
be_to_cpus s_fx_ncob a samples = (success, some (be_to_cpus_s_fx_ncob a samples))
be_to_cpus s_fx_efx_ncob_ecob a samples = (success, some (be_to_cpus_s_fx_efx_ncob_ecob a samples))
be_to_cpus l_fx a samples = (success, some (be_to_cpus_l_fx a samples))
be_to_cpus l_fx_efx a samples = (success, some (be_to_cpus_l_fx_efx a samples))
be_to_cpus l_fx_ncob a samples = (success, some (be_to_cpus_l_fx_ncob a samples))
be_to_cpus l_fx_efx_ncob_ecob a samples = (success, some (be_to_cpus_l_fx_efx_ncob_ecob a samples))
be_to_cpus f_fx a samples = (success, some (be_to_cpus_f_fx a samples))
be_to_cpus f_fx_efx a samples = (success, some (be_to_cpus_f_fx_efx a samples))
be_to_cpus f_fx_ncob a samples = (success, some (be_to_cpus_f_fx_ncob a samples))
be_to_cpus f_fx_efx_ncob_ecob a samples = (success, some (be_to_cpus_f_fx_efx_ncob_ecob a samples))
be_to_cpus _ a samples = (failure, some a)

unfoldable pub be_to_cpu_data_type : Option (List ℕ) → ℕ → CmpDataType → Updated
unfolding size_of_a_sample be_to_cpus
be_to_cpu_data_type none data_size_byte data_type = (success, none)
be_to_cpu_data_type (some bytes) data_size_byte data_type =
    let sample_size = size_of_a_sample data_type in
    if sample_size == 0
    then (failure, some bytes)
    else if not (data_size_byte % sample_size == 0)
    then (failure, some bytes)
    else be_to_cpus data_type bytes (data_size_byte / sample_size)
