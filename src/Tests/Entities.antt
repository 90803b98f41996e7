-- ===== src/Tests/Entities.antt =====
-- An entity for two imagettes: its members, its creation and its errors.
use cmp_tool.Base.{
  ℕ, ◌+◌, ◌≤◌, ◌≡◌, ◌⊎◌, inr, refl, arith, false, List, length, drop, some, replicate, max,
}
use cmp_tool.Bytes.{success, failure}
use cmp_tool.Support.Types.{imagette}
use cmp_tool.Entity.Fields.{EntityField, start, count, model_id, is_checked, set_field, get_field}
use cmp_tool.Entity.FieldLaws.{get_field-set_field, set_field_refused}
use cmp_tool.Entity.Getters.{cmp_ent_get_size, cmp_ent_get_data_type, cmp_ent_get_data_type_raw_bit}
use cmp_tool.Entity.Size.{cmp_ent_cal_hdr_size, cmp_ent_get_cmp_data_size, cmp_ent_create}
use cmp_tool.Entity.CreateLaws.{cmp_ent_create_lem, cmp_ent_create_refused}

abbrev ones : List ℕ
ones = replicate 68 1

get_field-set_field_example :
    (ent' : List ℕ) × (set_field model_id (some ones) 0xabcd ≡ (success, some ent'))
    × (get_field model_id (some ent') ≡ 0xabcd)
    × ((g : EntityField)
        → (start g + count g ≤ start model_id) ⊎ (start model_id + count model_id ≤ start g)
        → get_field g (some ent') ≡ get_field g (some ones))
    × (length ent' ≡ 68)
get_field-set_field_example =
    get_field-set_field model_id ones 0xabcd (omega arith) (unfold count in omega arith)

set_field_refused_example : set_field model_id (some ones) 0x10000 ≡ (failure, some ones)
set_field_refused_example =
    set_field_refused model_id ones 0x10000 (unfold is_checked in refl)
      (unfold count in omega arith)

hdr_36 : cmp_ent_cal_hdr_size imagette false ≡ 36
unfolding cmp_ent_cal_hdr_size
hdr_36 = refl

cmp_ent_create_lem_example :
    (ent' : List ℕ) × (cmp_ent_create (some ones) imagette false 32
      ≡ (max 64 (cmp_ent_cal_hdr_size imagette false + 32), some ent'))
    × (cmp_ent_get_size (some ent') ≡ cmp_ent_cal_hdr_size imagette false + 32)
    × (cmp_ent_get_data_type (some ent') ≡ imagette)
    × (cmp_ent_get_data_type_raw_bit (some ent') ≡ false)
    × (cmp_ent_get_cmp_data_size (some ent') ≡ 32)
    × (drop (cmp_ent_cal_hdr_size imagette false) ent'
        ≡ drop (cmp_ent_cal_hdr_size imagette false) ones)
    × (length ent' ≡ 68)
cmp_ent_create_lem_example =
    cmp_ent_create_lem ones imagette false 32 (omega arith) (omega (arith, hdr_36))
      (omega (arith, hdr_36))

cmp_ent_create_refused_example : cmp_ent_create (some ones) imagette false 0xfffff0 ≡ (0, some ones)
cmp_ent_create_refused_example =
    cmp_ent_create_refused (some ones) imagette false 0xfffff0 (inr (omega (arith, hdr_36)))
