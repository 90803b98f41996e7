-- ===== src/Support/Spill.antt =====
-- `cmp_ima_max_spill` and `cmp_icu_max_spill`: the greatest spillover threshold for a parameter.
use cmp_tool.Base.{ℕ, ◌+◌, ◌-◌, ◌*◌, ◌/◌, ◌||◌, ltb, leb, ◌==◌, if◌then◌else◌}
use cmp_tool.Base.{u32, sub32, shl32, bit_and, get_or, List, [], ◌∷◌}
use cmp_tool.Support.Log.{ilog_2}

abbrev pub min_non_ima_golomb_par : ℕ
min_non_ima_golomb_par = 1

abbrev pub max_non_ima_golomb_par : ℕ
max_non_ima_golomb_par = 65535

abbrev pub min_non_ima_spill : ℕ
min_non_ima_spill = 2

abbrev pub max_ima_golomb_par : ℕ
max_ima_golomb_par = 63

-- LUT_MAX_RDCU, by the Golomb parameter.
abbrev lut_max_rdcu : List ℕ
lut_max_rdcu =
    0 ∷ 8 ∷ 22 ∷ 35 ∷ 48 ∷ 60 ∷ 72 ∷ 84 ∷ 96 ∷ 107 ∷ 118 ∷ 129 ∷ 140 ∷ 151 ∷ 162 ∷ 173 ∷ 184 ∷ 194
    ∷ 204 ∷ 214 ∷ 224 ∷ 234 ∷ 244 ∷ 254 ∷ 264 ∷ 274 ∷ 284 ∷ 294 ∷ 304 ∷ 314 ∷ 324 ∷ 334 ∷ 344 ∷ 353
    ∷ 362 ∷ 371 ∷ 380 ∷ 389 ∷ 398 ∷ 407 ∷ 416 ∷ 425 ∷ 434 ∷ 443 ∷ 452 ∷ 461 ∷ 470 ∷ 479 ∷ 488 ∷ 497
    ∷ 506 ∷ 515 ∷ 524 ∷ 533 ∷ 542 ∷ 551 ∷ 560 ∷ 569 ∷ 578 ∷ 587 ∷ 596 ∷ 605 ∷ 614 ∷ 623 ∷ []

unfoldable pub cmp_ima_max_spill : ℕ → ℕ
cmp_ima_max_spill golomb_par =
    if leb (max_ima_golomb_par + 1) golomb_par then 0 else get_or lut_max_rdcu golomb_par 0

-- In `unsigned int`; the cutoff is computed before the parameter is checked.
unfoldable pub cmp_icu_max_spill : ℕ → ℕ
cmp_icu_max_spill cmp_par =
    let cutoff = sub32 (shl32 2 (bit_and (ilog_2 cmp_par) 0x1f)) cmp_par in
    let max_n_sym_offset = 32 / 2 - 1 in
    if cmp_par == 0 || ltb max_non_ima_golomb_par cmp_par
    then 0
    else sub32 (sub32 (u32 (u32 (sub32 31 (ilog_2 cmp_par) * cmp_par) + cutoff)) max_n_sym_offset) 1
