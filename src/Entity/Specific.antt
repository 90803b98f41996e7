-- ===== src/Entity/Specific.antt =====
-- The specific headers behind the generic one, for imagettes and for the other data: their setters
-- and getters (lib/common/cmp_entity.c). They share their bytes.
use cmp_tool.Base.{ℕ, List, Option, none, some}
use cmp_tool.Bytes.{failure, Updated, write_be}
use cmp_tool.Decoder.Reader.{read_be}
use cmp_tool.Entity.Setters.{refuse_above}

unfoldable pub cmp_ent_set_ima_spill : Option (List ℕ) → ℕ → Updated
cmp_ent_set_ima_spill none ima_spill = (failure, none)
cmp_ent_set_ima_spill (some ent) ima_spill =
    refuse_above 0xffff ima_spill ent (write_be ent 32 2 ima_spill)

unfoldable pub cmp_ent_set_ima_golomb_par : Option (List ℕ) → ℕ → Updated
cmp_ent_set_ima_golomb_par none ima_golomb_par = (failure, none)
cmp_ent_set_ima_golomb_par (some ent) ima_golomb_par =
    refuse_above 0xff ima_golomb_par ent (write_be ent 34 1 ima_golomb_par)

unfoldable pub cmp_ent_set_ima_ap1_spill : Option (List ℕ) → ℕ → Updated
cmp_ent_set_ima_ap1_spill none ima_ap1_spill = (failure, none)
cmp_ent_set_ima_ap1_spill (some ent) ima_ap1_spill =
    refuse_above 0xffff ima_ap1_spill ent (write_be ent 35 2 ima_ap1_spill)

unfoldable pub cmp_ent_set_ima_ap1_golomb_par : Option (List ℕ) → ℕ → Updated
cmp_ent_set_ima_ap1_golomb_par none ima_ap1_golomb_par = (failure, none)
cmp_ent_set_ima_ap1_golomb_par (some ent) ima_ap1_golomb_par =
    refuse_above 0xff ima_ap1_golomb_par ent (write_be ent 37 1 ima_ap1_golomb_par)

unfoldable pub cmp_ent_set_ima_ap2_spill : Option (List ℕ) → ℕ → Updated
cmp_ent_set_ima_ap2_spill none ima_ap2_spill = (failure, none)
cmp_ent_set_ima_ap2_spill (some ent) ima_ap2_spill =
    refuse_above 0xffff ima_ap2_spill ent (write_be ent 38 2 ima_ap2_spill)

unfoldable pub cmp_ent_set_ima_ap2_golomb_par : Option (List ℕ) → ℕ → Updated
cmp_ent_set_ima_ap2_golomb_par none ima_ap2_golomb_par = (failure, none)
cmp_ent_set_ima_ap2_golomb_par (some ent) ima_ap2_golomb_par =
    refuse_above 0xff ima_ap2_golomb_par ent (write_be ent 40 1 ima_ap2_golomb_par)

unfoldable pub cmp_ent_set_non_ima_spill1 : Option (List ℕ) → ℕ → Updated
cmp_ent_set_non_ima_spill1 none non_ima_spill1 = (failure, none)
cmp_ent_set_non_ima_spill1 (some ent) non_ima_spill1 =
    refuse_above 0xffffff non_ima_spill1 ent (write_be ent 32 3 non_ima_spill1)

unfoldable pub cmp_ent_set_non_ima_cmp_par1 : Option (List ℕ) → ℕ → Updated
cmp_ent_set_non_ima_cmp_par1 none non_ima_cmp_par1 = (failure, none)
cmp_ent_set_non_ima_cmp_par1 (some ent) non_ima_cmp_par1 =
    refuse_above 0xffff non_ima_cmp_par1 ent (write_be ent 35 2 non_ima_cmp_par1)

unfoldable pub cmp_ent_set_non_ima_spill2 : Option (List ℕ) → ℕ → Updated
cmp_ent_set_non_ima_spill2 none non_ima_spill2 = (failure, none)
cmp_ent_set_non_ima_spill2 (some ent) non_ima_spill2 =
    refuse_above 0xffffff non_ima_spill2 ent (write_be ent 37 3 non_ima_spill2)

unfoldable pub cmp_ent_set_non_ima_cmp_par2 : Option (List ℕ) → ℕ → Updated
cmp_ent_set_non_ima_cmp_par2 none non_ima_cmp_par2 = (failure, none)
cmp_ent_set_non_ima_cmp_par2 (some ent) non_ima_cmp_par2 =
    refuse_above 0xffff non_ima_cmp_par2 ent (write_be ent 40 2 non_ima_cmp_par2)

unfoldable pub cmp_ent_set_non_ima_spill3 : Option (List ℕ) → ℕ → Updated
cmp_ent_set_non_ima_spill3 none non_ima_spill3 = (failure, none)
cmp_ent_set_non_ima_spill3 (some ent) non_ima_spill3 =
    refuse_above 0xffffff non_ima_spill3 ent (write_be ent 42 3 non_ima_spill3)

unfoldable pub cmp_ent_set_non_ima_cmp_par3 : Option (List ℕ) → ℕ → Updated
cmp_ent_set_non_ima_cmp_par3 none non_ima_cmp_par3 = (failure, none)
cmp_ent_set_non_ima_cmp_par3 (some ent) non_ima_cmp_par3 =
    refuse_above 0xffff non_ima_cmp_par3 ent (write_be ent 45 2 non_ima_cmp_par3)

unfoldable pub cmp_ent_set_non_ima_spill4 : Option (List ℕ) → ℕ → Updated
cmp_ent_set_non_ima_spill4 none non_ima_spill4 = (failure, none)
cmp_ent_set_non_ima_spill4 (some ent) non_ima_spill4 =
    refuse_above 0xffffff non_ima_spill4 ent (write_be ent 47 3 non_ima_spill4)

unfoldable pub cmp_ent_set_non_ima_cmp_par4 : Option (List ℕ) → ℕ → Updated
cmp_ent_set_non_ima_cmp_par4 none non_ima_cmp_par4 = (failure, none)
cmp_ent_set_non_ima_cmp_par4 (some ent) non_ima_cmp_par4 =
    refuse_above 0xffff non_ima_cmp_par4 ent (write_be ent 50 2 non_ima_cmp_par4)

unfoldable pub cmp_ent_set_non_ima_spill5 : Option (List ℕ) → ℕ → Updated
cmp_ent_set_non_ima_spill5 none non_ima_spill5 = (failure, none)
cmp_ent_set_non_ima_spill5 (some ent) non_ima_spill5 =
    refuse_above 0xffffff non_ima_spill5 ent (write_be ent 52 3 non_ima_spill5)

unfoldable pub cmp_ent_set_non_ima_cmp_par5 : Option (List ℕ) → ℕ → Updated
cmp_ent_set_non_ima_cmp_par5 none non_ima_cmp_par5 = (failure, none)
cmp_ent_set_non_ima_cmp_par5 (some ent) non_ima_cmp_par5 =
    refuse_above 0xffff non_ima_cmp_par5 ent (write_be ent 55 2 non_ima_cmp_par5)

unfoldable pub cmp_ent_set_non_ima_spill6 : Option (List ℕ) → ℕ → Updated
cmp_ent_set_non_ima_spill6 none non_ima_spill6 = (failure, none)
cmp_ent_set_non_ima_spill6 (some ent) non_ima_spill6 =
    refuse_above 0xffffff non_ima_spill6 ent (write_be ent 57 3 non_ima_spill6)

unfoldable pub cmp_ent_set_non_ima_cmp_par6 : Option (List ℕ) → ℕ → Updated
cmp_ent_set_non_ima_cmp_par6 none non_ima_cmp_par6 = (failure, none)
cmp_ent_set_non_ima_cmp_par6 (some ent) non_ima_cmp_par6 =
    refuse_above 0xffff non_ima_cmp_par6 ent (write_be ent 60 2 non_ima_cmp_par6)

unfoldable pub cmp_ent_get_ima_spill : Option (List ℕ) → ℕ
cmp_ent_get_ima_spill none = 0
cmp_ent_get_ima_spill (some ent) = read_be ent 32 2

unfoldable pub cmp_ent_get_ima_golomb_par : Option (List ℕ) → ℕ
cmp_ent_get_ima_golomb_par none = 0
cmp_ent_get_ima_golomb_par (some ent) = read_be ent 34 1

unfoldable pub cmp_ent_get_ima_ap1_spill : Option (List ℕ) → ℕ
cmp_ent_get_ima_ap1_spill none = 0
cmp_ent_get_ima_ap1_spill (some ent) = read_be ent 35 2

unfoldable pub cmp_ent_get_ima_ap1_golomb_par : Option (List ℕ) → ℕ
cmp_ent_get_ima_ap1_golomb_par none = 0
cmp_ent_get_ima_ap1_golomb_par (some ent) = read_be ent 37 1

unfoldable pub cmp_ent_get_ima_ap2_spill : Option (List ℕ) → ℕ
cmp_ent_get_ima_ap2_spill none = 0
cmp_ent_get_ima_ap2_spill (some ent) = read_be ent 38 2

unfoldable pub cmp_ent_get_ima_ap2_golomb_par : Option (List ℕ) → ℕ
cmp_ent_get_ima_ap2_golomb_par none = 0
cmp_ent_get_ima_ap2_golomb_par (some ent) = read_be ent 40 1

unfoldable pub cmp_ent_get_non_ima_spill1 : Option (List ℕ) → ℕ
cmp_ent_get_non_ima_spill1 none = 0
cmp_ent_get_non_ima_spill1 (some ent) = read_be ent 32 3

unfoldable pub cmp_ent_get_non_ima_cmp_par1 : Option (List ℕ) → ℕ
cmp_ent_get_non_ima_cmp_par1 none = 0
cmp_ent_get_non_ima_cmp_par1 (some ent) = read_be ent 35 2

unfoldable pub cmp_ent_get_non_ima_spill2 : Option (List ℕ) → ℕ
cmp_ent_get_non_ima_spill2 none = 0
cmp_ent_get_non_ima_spill2 (some ent) = read_be ent 37 3

unfoldable pub cmp_ent_get_non_ima_cmp_par2 : Option (List ℕ) → ℕ
cmp_ent_get_non_ima_cmp_par2 none = 0
cmp_ent_get_non_ima_cmp_par2 (some ent) = read_be ent 40 2

unfoldable pub cmp_ent_get_non_ima_spill3 : Option (List ℕ) → ℕ
cmp_ent_get_non_ima_spill3 none = 0
cmp_ent_get_non_ima_spill3 (some ent) = read_be ent 42 3

unfoldable pub cmp_ent_get_non_ima_cmp_par3 : Option (List ℕ) → ℕ
cmp_ent_get_non_ima_cmp_par3 none = 0
cmp_ent_get_non_ima_cmp_par3 (some ent) = read_be ent 45 2

unfoldable pub cmp_ent_get_non_ima_spill4 : Option (List ℕ) → ℕ
cmp_ent_get_non_ima_spill4 none = 0
cmp_ent_get_non_ima_spill4 (some ent) = read_be ent 47 3

unfoldable pub cmp_ent_get_non_ima_cmp_par4 : Option (List ℕ) → ℕ
cmp_ent_get_non_ima_cmp_par4 none = 0
cmp_ent_get_non_ima_cmp_par4 (some ent) = read_be ent 50 2

unfoldable pub cmp_ent_get_non_ima_spill5 : Option (List ℕ) → ℕ
cmp_ent_get_non_ima_spill5 none = 0
cmp_ent_get_non_ima_spill5 (some ent) = read_be ent 52 3

unfoldable pub cmp_ent_get_non_ima_cmp_par5 : Option (List ℕ) → ℕ
cmp_ent_get_non_ima_cmp_par5 none = 0
cmp_ent_get_non_ima_cmp_par5 (some ent) = read_be ent 55 2

unfoldable pub cmp_ent_get_non_ima_spill6 : Option (List ℕ) → ℕ
cmp_ent_get_non_ima_spill6 none = 0
cmp_ent_get_non_ima_spill6 (some ent) = read_be ent 57 3

unfoldable pub cmp_ent_get_non_ima_cmp_par6 : Option (List ℕ) → ℕ
cmp_ent_get_non_ima_cmp_par6 none = 0
cmp_ent_get_non_ima_cmp_par6 (some ent) = read_be ent 60 2
