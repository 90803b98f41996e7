-- ===== src/Entity/Setters.antt =====
-- `struct cmp_entity`, a packed structure of big-endian members: the setters of its
-- generic header (lib/common/cmp_entity.c). A pointer to an entity is the list of bytes from there
-- on, `none` for NULL.
use cmp_tool.Base.{ℕ, ◌^◌, List, Option, none, some, if◌then◌else◌, ltb, bit_or, Bool}
use cmp_tool.Bytes.{success, failure, Updated, write_be}
use cmp_tool.Support.Types.{CmpMode, CmpDataType}
use cmp_tool.Support.Numbers.{cmp_mode_number, cmp_data_type_number}

-- A number above the limit of its member is refused.
abbrev pub refuse_above : ℕ → ℕ → List ℕ → List ℕ → Updated
refuse_above limit value ent ent' =
    if ltb limit value then (failure, some ent) else (success, some ent')

unfoldable pub cmp_ent_set_version_id : Option (List ℕ) → ℕ → Updated
cmp_ent_set_version_id none version_id = (failure, none)
cmp_ent_set_version_id (some ent) version_id = (success, some (write_be ent 0 4 version_id))

unfoldable pub cmp_ent_set_size : Option (List ℕ) → ℕ → Updated
cmp_ent_set_size none cmp_ent_size = (failure, none)
cmp_ent_set_size (some ent) cmp_ent_size =
    refuse_above 0xffffff cmp_ent_size ent (write_be ent 4 3 cmp_ent_size)

unfoldable pub cmp_ent_set_original_size : Option (List ℕ) → ℕ → Updated
cmp_ent_set_original_size none original_size = (failure, none)
cmp_ent_set_original_size (some ent) original_size =
    refuse_above 0xffffff original_size ent (write_be ent 7 3 original_size)

unfoldable pub cmp_ent_set_start_timestamp : Option (List ℕ) → ℕ → Updated
cmp_ent_set_start_timestamp none start_timestamp = (failure, none)
cmp_ent_set_start_timestamp (some ent) start_timestamp =
    refuse_above 0xffffffffffff start_timestamp ent (write_be ent 10 6 start_timestamp)

unfoldable pub cmp_ent_set_coarse_start_time : Option (List ℕ) → ℕ → Updated
cmp_ent_set_coarse_start_time none coarse_start_time = (failure, none)
cmp_ent_set_coarse_start_time (some ent) coarse_start_time =
    (success, some (write_be ent 10 4 coarse_start_time))

unfoldable pub cmp_ent_set_fine_start_time : Option (List ℕ) → ℕ → Updated
cmp_ent_set_fine_start_time none fine_start_time = (failure, none)
cmp_ent_set_fine_start_time (some ent) fine_start_time =
    (success, some (write_be ent 14 2 fine_start_time))

unfoldable pub cmp_ent_set_end_timestamp : Option (List ℕ) → ℕ → Updated
cmp_ent_set_end_timestamp none end_timestamp = (failure, none)
cmp_ent_set_end_timestamp (some ent) end_timestamp =
    refuse_above 0xffffffffffff end_timestamp ent (write_be ent 16 6 end_timestamp)

unfoldable pub cmp_ent_set_coarse_end_time : Option (List ℕ) → ℕ → Updated
cmp_ent_set_coarse_end_time none coarse_end_time = (failure, none)
cmp_ent_set_coarse_end_time (some ent) coarse_end_time =
    (success, some (write_be ent 16 4 coarse_end_time))

unfoldable pub cmp_ent_set_fine_end_time : Option (List ℕ) → ℕ → Updated
cmp_ent_set_fine_end_time none fine_end_time = (failure, none)
cmp_ent_set_fine_end_time (some ent) fine_end_time =
    (success, some (write_be ent 20 2 fine_end_time))

unfoldable pub cmp_ent_set_cmp_mode : Option (List ℕ) → CmpMode → Updated
unfolding cmp_mode_number
cmp_ent_set_cmp_mode none cmp_mode_used = (failure, none)
cmp_ent_set_cmp_mode (some ent) cmp_mode_used =
    refuse_above 0xff (cmp_mode_number cmp_mode_used) ent
      (write_be ent 24 1 (cmp_mode_number cmp_mode_used))

unfoldable pub cmp_ent_set_model_value : Option (List ℕ) → ℕ → Updated
cmp_ent_set_model_value none model_value = (failure, none)
cmp_ent_set_model_value (some ent) model_value =
    refuse_above 0xff model_value ent (write_be ent 25 1 model_value)

unfoldable pub cmp_ent_set_model_id : Option (List ℕ) → ℕ → Updated
cmp_ent_set_model_id none model_id = (failure, none)
cmp_ent_set_model_id (some ent) model_id =
    refuse_above 0xffff model_id ent (write_be ent 26 2 model_id)

unfoldable pub cmp_ent_set_model_counter : Option (List ℕ) → ℕ → Updated
cmp_ent_set_model_counter none model_counter = (failure, none)
cmp_ent_set_model_counter (some ent) model_counter =
    refuse_above 0xff model_counter ent (write_be ent 28 1 model_counter)

unfoldable pub cmp_ent_set_reserved : Option (List ℕ) → ℕ → Updated
cmp_ent_set_reserved none reserved = (failure, none)
cmp_ent_set_reserved (some ent) reserved = (success, some (write_be ent 29 1 reserved))

unfoldable pub cmp_ent_set_lossy_cmp_par : Option (List ℕ) → ℕ → Updated
cmp_ent_set_lossy_cmp_par none lossy_cmp_par = (failure, none)
cmp_ent_set_lossy_cmp_par (some ent) lossy_cmp_par =
    refuse_above 0xffff lossy_cmp_par ent (write_be ent 30 2 lossy_cmp_par)

unfoldable pub cmp_ent_set_data_type : Option (List ℕ) → CmpDataType → Bool → Updated
unfolding cmp_data_type_number
cmp_ent_set_data_type none data_type raw_mode_flag = (failure, none)
cmp_ent_set_data_type (some ent) data_type raw_mode_flag =
    refuse_above 0x7ff (cmp_data_type_number data_type) ent (
      write_be ent 22 2 (
        if raw_mode_flag
        then bit_or (cmp_data_type_number data_type) (2 ^ 15)
        else cmp_data_type_number data_type))
