-- ===== src/Entity/Fields.antt =====
-- The members of an entity, each with its place in `struct cmp_entity`, its setter and its getter
-- (lib/common/cmp_entity.h and cmp_entity.c). The data type, which has a flag, is not among them.
use cmp_tool.Base.{ℕ, List, Option, Bool, true, false}
use cmp_tool.Bytes.{Updated}
use cmp_tool.Support.Numbers.{cmp_mode_of_number}
use cmp_tool.Entity.Setters.{
  cmp_ent_set_version_id, cmp_ent_set_size, cmp_ent_set_original_size, cmp_ent_set_start_timestamp,
  cmp_ent_set_coarse_start_time, cmp_ent_set_fine_start_time, cmp_ent_set_end_timestamp,
  cmp_ent_set_coarse_end_time, cmp_ent_set_fine_end_time, cmp_ent_set_cmp_mode,
  cmp_ent_set_model_value, cmp_ent_set_model_id, cmp_ent_set_model_counter, cmp_ent_set_reserved,
  cmp_ent_set_lossy_cmp_par,
}
use cmp_tool.Entity.Getters.{
  cmp_ent_get_version_id, cmp_ent_get_size, cmp_ent_get_original_size, cmp_ent_get_start_timestamp,
  cmp_ent_get_coarse_start_time, cmp_ent_get_fine_start_time, cmp_ent_get_end_timestamp,
  cmp_ent_get_coarse_end_time, cmp_ent_get_fine_end_time, cmp_ent_get_cmp_mode,
  cmp_ent_get_model_value, cmp_ent_get_model_id, cmp_ent_get_model_counter, cmp_ent_get_reserved,
  cmp_ent_get_lossy_cmp_par,
}
use cmp_tool.Entity.Specific.{
  cmp_ent_set_ima_spill, cmp_ent_set_ima_golomb_par, cmp_ent_set_ima_ap1_spill,
  cmp_ent_set_ima_ap1_golomb_par, cmp_ent_set_ima_ap2_spill, cmp_ent_set_ima_ap2_golomb_par,
  cmp_ent_set_non_ima_spill1, cmp_ent_set_non_ima_cmp_par1, cmp_ent_set_non_ima_spill2,
  cmp_ent_set_non_ima_cmp_par2, cmp_ent_set_non_ima_spill3, cmp_ent_set_non_ima_cmp_par3,
  cmp_ent_set_non_ima_spill4, cmp_ent_set_non_ima_cmp_par4, cmp_ent_set_non_ima_spill5,
  cmp_ent_set_non_ima_cmp_par5, cmp_ent_set_non_ima_spill6, cmp_ent_set_non_ima_cmp_par6,
  cmp_ent_get_ima_spill, cmp_ent_get_ima_golomb_par, cmp_ent_get_ima_ap1_spill,
  cmp_ent_get_ima_ap1_golomb_par, cmp_ent_get_ima_ap2_spill, cmp_ent_get_ima_ap2_golomb_par,
  cmp_ent_get_non_ima_spill1, cmp_ent_get_non_ima_cmp_par1, cmp_ent_get_non_ima_spill2,
  cmp_ent_get_non_ima_cmp_par2, cmp_ent_get_non_ima_spill3, cmp_ent_get_non_ima_cmp_par3,
  cmp_ent_get_non_ima_spill4, cmp_ent_get_non_ima_cmp_par4, cmp_ent_get_non_ima_spill5,
  cmp_ent_get_non_ima_cmp_par5, cmp_ent_get_non_ima_spill6, cmp_ent_get_non_ima_cmp_par6,
}

pub data EntityField : Type 0 where
  version_id : EntityField
  size : EntityField
  original_size : EntityField
  start_timestamp : EntityField
  coarse_start_time : EntityField
  fine_start_time : EntityField
  end_timestamp : EntityField
  coarse_end_time : EntityField
  fine_end_time : EntityField
  cmp_mode : EntityField
  model_value : EntityField
  model_id : EntityField
  model_counter : EntityField
  reserved : EntityField
  lossy_cmp_par : EntityField
  ima_spill : EntityField
  ima_golomb_par : EntityField
  ima_ap1_spill : EntityField
  ima_ap1_golomb_par : EntityField
  ima_ap2_spill : EntityField
  ima_ap2_golomb_par : EntityField
  non_ima_spill1 : EntityField
  non_ima_cmp_par1 : EntityField
  non_ima_spill2 : EntityField
  non_ima_cmp_par2 : EntityField
  non_ima_spill3 : EntityField
  non_ima_cmp_par3 : EntityField
  non_ima_spill4 : EntityField
  non_ima_cmp_par4 : EntityField
  non_ima_spill5 : EntityField
  non_ima_cmp_par5 : EntityField
  non_ima_spill6 : EntityField
  non_ima_cmp_par6 : EntityField

-- The offset of a member in the structure.
unfoldable pub start : EntityField → ℕ
start version_id = 0
start size = 4
start original_size = 7
start start_timestamp = 10
start coarse_start_time = 10
start fine_start_time = 14
start end_timestamp = 16
start coarse_end_time = 16
start fine_end_time = 20
start cmp_mode = 24
start model_value = 25
start model_id = 26
start model_counter = 28
start reserved = 29
start lossy_cmp_par = 30
start ima_spill = 32
start ima_golomb_par = 34
start ima_ap1_spill = 35
start ima_ap1_golomb_par = 37
start ima_ap2_spill = 38
start ima_ap2_golomb_par = 40
start non_ima_spill1 = 32
start non_ima_cmp_par1 = 35
start non_ima_spill2 = 37
start non_ima_cmp_par2 = 40
start non_ima_spill3 = 42
start non_ima_cmp_par3 = 45
start non_ima_spill4 = 47
start non_ima_cmp_par4 = 50
start non_ima_spill5 = 52
start non_ima_cmp_par5 = 55
start non_ima_spill6 = 57
start non_ima_cmp_par6 = 60

-- The bytes of a member.
unfoldable pub count : EntityField → ℕ
count version_id = 4
count size = 3
count original_size = 3
count start_timestamp = 6
count coarse_start_time = 4
count fine_start_time = 2
count end_timestamp = 6
count coarse_end_time = 4
count fine_end_time = 2
count cmp_mode = 1
count model_value = 1
count model_id = 2
count model_counter = 1
count reserved = 1
count lossy_cmp_par = 2
count ima_spill = 2
count ima_golomb_par = 1
count ima_ap1_spill = 2
count ima_ap1_golomb_par = 1
count ima_ap2_spill = 2
count ima_ap2_golomb_par = 1
count non_ima_spill1 = 3
count non_ima_cmp_par1 = 2
count non_ima_spill2 = 3
count non_ima_cmp_par2 = 2
count non_ima_spill3 = 3
count non_ima_cmp_par3 = 2
count non_ima_spill4 = 3
count non_ima_cmp_par4 = 2
count non_ima_spill5 = 3
count non_ima_cmp_par5 = 2
count non_ima_spill6 = 3
count non_ima_cmp_par6 = 2

-- The members whose setter takes more bits than the member has.
unfoldable pub is_checked : EntityField → Bool
is_checked version_id = false
is_checked coarse_start_time = false
is_checked fine_start_time = false
is_checked coarse_end_time = false
is_checked fine_end_time = false
is_checked reserved = false
is_checked _ = true

unfoldable pub set_field : EntityField → Option (List ℕ) → ℕ → Updated
set_field version_id ent v = cmp_ent_set_version_id ent v
set_field size ent v = cmp_ent_set_size ent v
set_field original_size ent v = cmp_ent_set_original_size ent v
set_field start_timestamp ent v = cmp_ent_set_start_timestamp ent v
set_field coarse_start_time ent v = cmp_ent_set_coarse_start_time ent v
set_field fine_start_time ent v = cmp_ent_set_fine_start_time ent v
set_field end_timestamp ent v = cmp_ent_set_end_timestamp ent v
set_field coarse_end_time ent v = cmp_ent_set_coarse_end_time ent v
set_field fine_end_time ent v = cmp_ent_set_fine_end_time ent v
set_field cmp_mode ent v = cmp_ent_set_cmp_mode ent (cmp_mode_of_number v)
set_field model_value ent v = cmp_ent_set_model_value ent v
set_field model_id ent v = cmp_ent_set_model_id ent v
set_field model_counter ent v = cmp_ent_set_model_counter ent v
set_field reserved ent v = cmp_ent_set_reserved ent v
set_field lossy_cmp_par ent v = cmp_ent_set_lossy_cmp_par ent v
set_field ima_spill ent v = cmp_ent_set_ima_spill ent v
set_field ima_golomb_par ent v = cmp_ent_set_ima_golomb_par ent v
set_field ima_ap1_spill ent v = cmp_ent_set_ima_ap1_spill ent v
set_field ima_ap1_golomb_par ent v = cmp_ent_set_ima_ap1_golomb_par ent v
set_field ima_ap2_spill ent v = cmp_ent_set_ima_ap2_spill ent v
set_field ima_ap2_golomb_par ent v = cmp_ent_set_ima_ap2_golomb_par ent v
set_field non_ima_spill1 ent v = cmp_ent_set_non_ima_spill1 ent v
set_field non_ima_cmp_par1 ent v = cmp_ent_set_non_ima_cmp_par1 ent v
set_field non_ima_spill2 ent v = cmp_ent_set_non_ima_spill2 ent v
set_field non_ima_cmp_par2 ent v = cmp_ent_set_non_ima_cmp_par2 ent v
set_field non_ima_spill3 ent v = cmp_ent_set_non_ima_spill3 ent v
set_field non_ima_cmp_par3 ent v = cmp_ent_set_non_ima_cmp_par3 ent v
set_field non_ima_spill4 ent v = cmp_ent_set_non_ima_spill4 ent v
set_field non_ima_cmp_par4 ent v = cmp_ent_set_non_ima_cmp_par4 ent v
set_field non_ima_spill5 ent v = cmp_ent_set_non_ima_spill5 ent v
set_field non_ima_cmp_par5 ent v = cmp_ent_set_non_ima_cmp_par5 ent v
set_field non_ima_spill6 ent v = cmp_ent_set_non_ima_spill6 ent v
set_field non_ima_cmp_par6 ent v = cmp_ent_set_non_ima_cmp_par6 ent v

unfoldable pub get_field : EntityField → Option (List ℕ) → ℕ
get_field version_id ent = cmp_ent_get_version_id ent
get_field size ent = cmp_ent_get_size ent
get_field original_size ent = cmp_ent_get_original_size ent
get_field start_timestamp ent = cmp_ent_get_start_timestamp ent
get_field coarse_start_time ent = cmp_ent_get_coarse_start_time ent
get_field fine_start_time ent = cmp_ent_get_fine_start_time ent
get_field end_timestamp ent = cmp_ent_get_end_timestamp ent
get_field coarse_end_time ent = cmp_ent_get_coarse_end_time ent
get_field fine_end_time ent = cmp_ent_get_fine_end_time ent
get_field cmp_mode ent = cmp_ent_get_cmp_mode ent
get_field model_value ent = cmp_ent_get_model_value ent
get_field model_id ent = cmp_ent_get_model_id ent
get_field model_counter ent = cmp_ent_get_model_counter ent
get_field reserved ent = cmp_ent_get_reserved ent
get_field lossy_cmp_par ent = cmp_ent_get_lossy_cmp_par ent
get_field ima_spill ent = cmp_ent_get_ima_spill ent
get_field ima_golomb_par ent = cmp_ent_get_ima_golomb_par ent
get_field ima_ap1_spill ent = cmp_ent_get_ima_ap1_spill ent
get_field ima_ap1_golomb_par ent = cmp_ent_get_ima_ap1_golomb_par ent
get_field ima_ap2_spill ent = cmp_ent_get_ima_ap2_spill ent
get_field ima_ap2_golomb_par ent = cmp_ent_get_ima_ap2_golomb_par ent
get_field non_ima_spill1 ent = cmp_ent_get_non_ima_spill1 ent
get_field non_ima_cmp_par1 ent = cmp_ent_get_non_ima_cmp_par1 ent
get_field non_ima_spill2 ent = cmp_ent_get_non_ima_spill2 ent
get_field non_ima_cmp_par2 ent = cmp_ent_get_non_ima_cmp_par2 ent
get_field non_ima_spill3 ent = cmp_ent_get_non_ima_spill3 ent
get_field non_ima_cmp_par3 ent = cmp_ent_get_non_ima_cmp_par3 ent
get_field non_ima_spill4 ent = cmp_ent_get_non_ima_spill4 ent
get_field non_ima_cmp_par4 ent = cmp_ent_get_non_ima_cmp_par4 ent
get_field non_ima_spill5 ent = cmp_ent_get_non_ima_spill5 ent
get_field non_ima_cmp_par5 ent = cmp_ent_get_non_ima_cmp_par5 ent
get_field non_ima_spill6 ent = cmp_ent_get_non_ima_spill6 ent
get_field non_ima_cmp_par6 ent = cmp_ent_get_non_ima_cmp_par6 ent
