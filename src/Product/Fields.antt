-- ===== src/Product/Fields.antt =====
-- cmp_max_used_bits.h and the parameters that each product names: the members of every product, in
-- the order of the loops. The pairs of struct cmp_cfg are: 1 imagette or exposure flags; 2 flux or
-- offset mean; 3 centre of brightness or offset variance; 4 extended flux or mean; 5 extended
-- centre of brightness or variance; 6 variance of flux and centre, or outlier pixels.
use cmp_tool.Base.{ℕ, List, [], ◌∷◌}
use cmp_tool.Support.Check.{CmpCfg}
use cmp_tool.Product.Field.{Field}

abbrev field_1 : ℕ → CmpCfg → Field
field_1 bits cfg = record { cmp_par = cfg.cmp_par_1; spill = cfg.spill_par_1; max_used_bits = bits }

abbrev field_2 : CmpCfg → Field
field_2 cfg = record { cmp_par = cfg.cmp_par_2; spill = cfg.spill_par_2; max_used_bits = 32 }

abbrev field_3 : CmpCfg → Field
field_3 cfg = record { cmp_par = cfg.cmp_par_3; spill = cfg.spill_par_3; max_used_bits = 32 }

abbrev field_4 : CmpCfg → Field
field_4 cfg = record { cmp_par = cfg.cmp_par_4; spill = cfg.spill_par_4; max_used_bits = 32 }

abbrev field_5 : CmpCfg → Field
field_5 cfg = record { cmp_par = cfg.cmp_par_5; spill = cfg.spill_par_5; max_used_bits = 32 }

abbrev field_6 : ℕ → CmpCfg → Field
field_6 bits cfg = record { cmp_par = cfg.cmp_par_6; spill = cfg.spill_par_6; max_used_bits = bits }

-- All three kinds of imagettes have 16 bits.
abbrev pub imagette_fields : CmpCfg → List Field
imagette_fields cfg = field_1 16 cfg ∷ []

abbrev pub s_fx_fields : CmpCfg → List Field
s_fx_fields cfg = field_1 8 cfg ∷ field_2 cfg ∷ []

abbrev pub s_fx_efx_fields : CmpCfg → List Field
s_fx_efx_fields cfg = field_1 8 cfg ∷ field_2 cfg ∷ field_4 cfg ∷ []

abbrev pub s_fx_ncob_fields : CmpCfg → List Field
s_fx_ncob_fields cfg = field_1 8 cfg ∷ field_2 cfg ∷ field_3 cfg ∷ field_3 cfg ∷ []

abbrev pub s_fx_efx_ncob_ecob_fields : CmpCfg → List Field
s_fx_efx_ncob_ecob_fields cfg =
    field_1 8 cfg
    ∷ field_2 cfg
    ∷ field_3 cfg
    ∷ field_3 cfg
    ∷ field_4 cfg
    ∷ field_5 cfg
    ∷ field_5 cfg
    ∷ []

abbrev pub l_fx_fields : CmpCfg → List Field
l_fx_fields cfg = field_1 24 cfg ∷ field_2 cfg ∷ field_6 32 cfg ∷ []

abbrev pub l_fx_efx_fields : CmpCfg → List Field
l_fx_efx_fields cfg = field_1 24 cfg ∷ field_2 cfg ∷ field_4 cfg ∷ field_6 32 cfg ∷ []

abbrev pub l_fx_ncob_fields : CmpCfg → List Field
l_fx_ncob_fields cfg =
    field_1 24 cfg
    ∷ field_2 cfg
    ∷ field_3 cfg
    ∷ field_3 cfg
    ∷ field_6 32 cfg
    ∷ field_6 32 cfg
    ∷ field_6 32 cfg
    ∷ []

abbrev pub l_fx_efx_ncob_ecob_fields : CmpCfg → List Field
l_fx_efx_ncob_ecob_fields cfg =
    field_1 24 cfg
    ∷ field_2 cfg
    ∷ field_3 cfg
    ∷ field_3 cfg
    ∷ field_4 cfg
    ∷ field_5 cfg
    ∷ field_5 cfg
    ∷ field_6 32 cfg
    ∷ field_6 32 cfg
    ∷ field_6 32 cfg
    ∷ []

-- Mean and variance.
abbrev pub offset_fields : CmpCfg → List Field
offset_fields cfg = field_2 cfg ∷ field_3 cfg ∷ []

-- Mean, variance and outlier pixels, of the background and of the smearing.
abbrev pub background_fields : CmpCfg → List Field
background_fields cfg = field_4 cfg ∷ field_5 cfg ∷ field_6 16 cfg ∷ []

abbrev pub smearing_fields : CmpCfg → List Field
smearing_fields cfg = field_4 cfg ∷ field_5 cfg ∷ field_6 16 cfg ∷ []
