-- ===== src/Support/Check.antt =====
-- `struct cmp_cfg` without its buffers, and the checks of its parameters. Each check returns the
-- number of errors found, and 0 for a valid configuration. A NULL configuration is `none`.
use cmp_tool.Base.{ℕ, ◌+◌, Bool, true, false, ltb, if◌then◌else◌, Option, none, some}
use cmp_tool.UpModel.{max_model_value}
use cmp_tool.Support.Types.{CmpMode, raw, unsupported}
use cmp_tool.Support.Types.{CmpDataType, cmp_data_type_is_invalid, cmp_mode_is_supported}
use cmp_tool.Support.Types.{model_mode_is_used, cmp_imagette_data_type_is_used}
use cmp_tool.Support.Types.{cmp_fx_cob_data_type_is_used}
use cmp_tool.Support.Spill.{cmp_icu_max_spill, min_non_ima_golomb_par, max_non_ima_golomb_par}
use cmp_tool.Support.Spill.{min_non_ima_spill}

abbrev pub max_icu_round : ℕ
max_icu_round = 3

-- The unions are `cmp_par_1`, … `spill_par_6`; each product names its members of them.
pub record CmpCfg : Type 0 where
  pub samples : ℕ
  pub stream_size : ℕ
  pub data_type : CmpDataType
  pub cmp_mode : CmpMode
  pub model_value : ℕ
  pub round : ℕ
  pub cmp_par_1 : ℕ
  pub spill_par_1 : ℕ
  pub cmp_par_2 : ℕ
  pub spill_par_2 : ℕ
  pub cmp_par_3 : ℕ
  pub spill_par_3 : ℕ
  pub cmp_par_4 : ℕ
  pub spill_par_4 : ℕ
  pub cmp_par_5 : ℕ
  pub spill_par_5 : ℕ
  pub cmp_par_6 : ℕ
  pub spill_par_6 : ℕ

-- `if (test) cfg_invalid++`
abbrev count : Bool → ℕ
count b = if b then 1 else 0

unfoldable pub cmp_cfg_gen_par_is_invalid : Option CmpCfg → ℕ
unfolding cmp_data_type_is_invalid cmp_mode_is_supported model_mode_is_used
cmp_cfg_gen_par_is_invalid none = 1
cmp_cfg_gen_par_is_invalid (some cfg) =
    count (cmp_data_type_is_invalid cfg.data_type)
    + (if cmp_mode_is_supported cfg.cmp_mode then 0 else 1)
    + (if model_mode_is_used cfg.cmp_mode then count (ltb max_model_value cfg.model_value) else 0)
    + count (ltb max_icu_round cfg.round)

-- The checks of one pair in every supported mode but the raw one.
abbrev pair_errors : ℕ → ℕ → ℕ
pair_errors cmp_par spill =
    (if ltb cmp_par min_non_ima_golomb_par then 1 else count (ltb max_non_ima_golomb_par cmp_par))
    + count (ltb spill min_non_ima_spill)
    + count (ltb (cmp_icu_max_spill cmp_par) spill)

unfoldable pub cmp_pars_are_invalid : ℕ → ℕ → CmpMode → ℕ
cmp_pars_are_invalid cmp_par spill raw = 0
cmp_pars_are_invalid cmp_par spill (unsupported n) = 1
cmp_pars_are_invalid cmp_par spill _ = pair_errors cmp_par spill

unfoldable pub cmp_cfg_imagette_is_invalid : Option CmpCfg → ℕ
unfolding cmp_pars_are_invalid cmp_imagette_data_type_is_used
cmp_cfg_imagette_is_invalid none = 1
cmp_cfg_imagette_is_invalid (some cfg) =
    (if cmp_imagette_data_type_is_used cfg.data_type then 0 else 1)
    + cmp_pars_are_invalid cfg.cmp_par_1 cfg.spill_par_1 cfg.cmp_mode

-- `struct fx_cob_par`
pub record FxCobPar : Type 0 where
  pub exp_flags : Bool
  pub fx : Bool
  pub ncob : Bool
  pub efx : Bool
  pub ecob : Bool
  pub fx_cob_variance : Bool

abbrev flux_only : FxCobPar
flux_only = record {
  exp_flags = false;
  fx = true;
  ncob = false;
  efx = false;
  ecob = false;
  fx_cob_variance = false;
}

-- The returned flag is true for 0 and false for -1; the structure is not NULL and is always set.
unfoldable pub cmp_cfg_fx_cob_get_need_pars : CmpDataType → Bool × FxCobPar
cmp_cfg_fx_cob_get_need_pars CmpDataType.s_fx = (true, record flux_only { exp_flags = true })
cmp_cfg_fx_cob_get_need_pars CmpDataType.s_fx_efx =
    (true, record flux_only { exp_flags = true; efx = true })
cmp_cfg_fx_cob_get_need_pars CmpDataType.s_fx_ncob =
    (true, record flux_only { exp_flags = true; ncob = true })
cmp_cfg_fx_cob_get_need_pars CmpDataType.s_fx_efx_ncob_ecob =
    (true, record flux_only { exp_flags = true; ncob = true; efx = true; ecob = true })
cmp_cfg_fx_cob_get_need_pars CmpDataType.l_fx =
    (true, record flux_only { exp_flags = true; fx_cob_variance = true })
cmp_cfg_fx_cob_get_need_pars CmpDataType.l_fx_efx =
    (true, record flux_only { exp_flags = true; efx = true; fx_cob_variance = true })
cmp_cfg_fx_cob_get_need_pars CmpDataType.l_fx_ncob =
    (true, record flux_only { exp_flags = true; ncob = true; fx_cob_variance = true })
cmp_cfg_fx_cob_get_need_pars CmpDataType.l_fx_efx_ncob_ecob = (
  true,
  record flux_only {
    exp_flags = true;
    ncob = true;
    efx = true;
    ecob = true;
    fx_cob_variance = true;
  },
)
cmp_cfg_fx_cob_get_need_pars CmpDataType.f_fx = (true, flux_only)
cmp_cfg_fx_cob_get_need_pars CmpDataType.f_fx_efx = (true, record flux_only { efx = true })
cmp_cfg_fx_cob_get_need_pars CmpDataType.f_fx_ncob = (true, record flux_only { ncob = true })
cmp_cfg_fx_cob_get_need_pars CmpDataType.f_fx_efx_ncob_ecob =
    (true, record flux_only { ncob = true; efx = true; ecob = true })
cmp_cfg_fx_cob_get_need_pars _ = (false, flux_only)

unfoldable pub cmp_cfg_fx_cob_is_invalid : Option CmpCfg → ℕ
unfolding cmp_cfg_fx_cob_get_need_pars cmp_pars_are_invalid cmp_fx_cob_data_type_is_used
cmp_cfg_fx_cob_is_invalid none = 1
cmp_cfg_fx_cob_is_invalid (some cfg) =
    let needed = (cmp_cfg_fx_cob_get_need_pars cfg.data_type).1 in
    let mode = cfg.cmp_mode in
    (if cmp_fx_cob_data_type_is_used cfg.data_type then 0 else 1)
    + (if needed.fx then cmp_pars_are_invalid cfg.cmp_par_2 cfg.spill_par_2 mode else 0)
    + (if needed.exp_flags then cmp_pars_are_invalid cfg.cmp_par_1 cfg.spill_par_1 mode else 0)
    + (if needed.ncob then cmp_pars_are_invalid cfg.cmp_par_3 cfg.spill_par_3 mode else 0)
    + (if needed.efx then cmp_pars_are_invalid cfg.cmp_par_4 cfg.spill_par_4 mode else 0)
    + (if needed.ecob then cmp_pars_are_invalid cfg.cmp_par_5 cfg.spill_par_5 mode else 0)
    + (if needed.fx_cob_variance
        then cmp_pars_are_invalid cfg.cmp_par_6 cfg.spill_par_6 mode
        else 0)

-- offset: mean and variance are the second and third pair; background and smearing: mean,
-- variance and outlier pixels are the fourth, fifth and sixth.
abbrev aux_errors : CmpDataType → CmpCfg → ℕ
aux_errors CmpDataType.offset cfg =
    cmp_pars_are_invalid cfg.cmp_par_2 cfg.spill_par_2 cfg.cmp_mode
    + cmp_pars_are_invalid cfg.cmp_par_3 cfg.spill_par_3 cfg.cmp_mode
aux_errors CmpDataType.f_cam_offset cfg =
    cmp_pars_are_invalid cfg.cmp_par_2 cfg.spill_par_2 cfg.cmp_mode
    + cmp_pars_are_invalid cfg.cmp_par_3 cfg.spill_par_3 cfg.cmp_mode
aux_errors CmpDataType.background cfg =
    cmp_pars_are_invalid cfg.cmp_par_4 cfg.spill_par_4 cfg.cmp_mode
    + cmp_pars_are_invalid cfg.cmp_par_5 cfg.spill_par_5 cfg.cmp_mode
    + cmp_pars_are_invalid cfg.cmp_par_6 cfg.spill_par_6 cfg.cmp_mode
aux_errors CmpDataType.f_cam_background cfg =
    cmp_pars_are_invalid cfg.cmp_par_4 cfg.spill_par_4 cfg.cmp_mode
    + cmp_pars_are_invalid cfg.cmp_par_5 cfg.spill_par_5 cfg.cmp_mode
    + cmp_pars_are_invalid cfg.cmp_par_6 cfg.spill_par_6 cfg.cmp_mode
aux_errors CmpDataType.smearing cfg =
    cmp_pars_are_invalid cfg.cmp_par_4 cfg.spill_par_4 cfg.cmp_mode
    + cmp_pars_are_invalid cfg.cmp_par_5 cfg.spill_par_5 cfg.cmp_mode
    + cmp_pars_are_invalid cfg.cmp_par_6 cfg.spill_par_6 cfg.cmp_mode
aux_errors _ cfg = 1

unfoldable pub cmp_cfg_aux_is_invalid : Option CmpCfg → ℕ
unfolding cmp_pars_are_invalid
cmp_cfg_aux_is_invalid none = 1
cmp_cfg_aux_is_invalid (some cfg) = aux_errors cfg.data_type cfg
