-- ===== src/Entity/Getters.antt =====
-- `struct cmp_entity`, a packed structure of big-endian members: the getters of its
-- generic header (lib/common/cmp_entity.c). A pointer to an entity is the list of bytes from there
-- on, `none` for NULL.
use cmp_tool.Base.{
  ℕ, ◌^◌, ◌-◌, List, Option, none, some, if◌then◌else◌, ◌==◌, shr, bit_and, Bool, false,
}
use cmp_tool.Decoder.Reader.{read_be}
use cmp_tool.Support.Types.{CmpDataType, unknown, cmp_data_type_is_invalid}
use cmp_tool.Support.Numbers.{cmp_data_type_of_number}

unfoldable pub cmp_ent_get_version_id : Option (List ℕ) → ℕ
cmp_ent_get_version_id none = 0
cmp_ent_get_version_id (some ent) = read_be ent 0 4

unfoldable pub cmp_ent_get_size : Option (List ℕ) → ℕ
cmp_ent_get_size none = 0
cmp_ent_get_size (some ent) = read_be ent 4 3

unfoldable pub cmp_ent_get_original_size : Option (List ℕ) → ℕ
cmp_ent_get_original_size none = 0
cmp_ent_get_original_size (some ent) = read_be ent 7 3

unfoldable pub cmp_ent_get_start_timestamp : Option (List ℕ) → ℕ
cmp_ent_get_start_timestamp none = 0
cmp_ent_get_start_timestamp (some ent) = read_be ent 10 6

unfoldable pub cmp_ent_get_coarse_start_time : Option (List ℕ) → ℕ
cmp_ent_get_coarse_start_time none = 0
cmp_ent_get_coarse_start_time (some ent) = read_be ent 10 4

unfoldable pub cmp_ent_get_fine_start_time : Option (List ℕ) → ℕ
cmp_ent_get_fine_start_time none = 0
cmp_ent_get_fine_start_time (some ent) = read_be ent 14 2

unfoldable pub cmp_ent_get_end_timestamp : Option (List ℕ) → ℕ
cmp_ent_get_end_timestamp none = 0
cmp_ent_get_end_timestamp (some ent) = read_be ent 16 6

unfoldable pub cmp_ent_get_coarse_end_time : Option (List ℕ) → ℕ
cmp_ent_get_coarse_end_time none = 0
cmp_ent_get_coarse_end_time (some ent) = read_be ent 16 4

unfoldable pub cmp_ent_get_fine_end_time : Option (List ℕ) → ℕ
cmp_ent_get_fine_end_time none = 0
cmp_ent_get_fine_end_time (some ent) = read_be ent 20 2

unfoldable pub cmp_ent_get_cmp_mode : Option (List ℕ) → ℕ
cmp_ent_get_cmp_mode none = 0
cmp_ent_get_cmp_mode (some ent) = read_be ent 24 1

unfoldable pub cmp_ent_get_model_value : Option (List ℕ) → ℕ
cmp_ent_get_model_value none = 0
cmp_ent_get_model_value (some ent) = read_be ent 25 1

unfoldable pub cmp_ent_get_model_id : Option (List ℕ) → ℕ
cmp_ent_get_model_id none = 0
cmp_ent_get_model_id (some ent) = read_be ent 26 2

unfoldable pub cmp_ent_get_model_counter : Option (List ℕ) → ℕ
cmp_ent_get_model_counter none = 0
cmp_ent_get_model_counter (some ent) = read_be ent 28 1

unfoldable pub cmp_ent_get_reserved : Option (List ℕ) → ℕ
cmp_ent_get_reserved none = 0
cmp_ent_get_reserved (some ent) = read_be ent 29 1

unfoldable pub cmp_ent_get_lossy_cmp_par : Option (List ℕ) → ℕ
cmp_ent_get_lossy_cmp_par none = 0
cmp_ent_get_lossy_cmp_par (some ent) = read_be ent 30 2

-- The number without the flag of raw data, where it is a data type.
abbrev valid_data_type : CmpDataType → CmpDataType
valid_data_type t = if cmp_data_type_is_invalid t then unknown else t

unfoldable pub cmp_ent_get_data_type : Option (List ℕ) → CmpDataType
unfolding cmp_data_type_of_number cmp_data_type_is_invalid
cmp_ent_get_data_type none = unknown
cmp_ent_get_data_type (some ent) =
    valid_data_type (cmp_data_type_of_number (bit_and (read_be ent 22 2) (2 ^ 15 - 1)))

unfoldable pub cmp_ent_get_data_type_raw_bit : Option (List ℕ) → Bool
cmp_ent_get_data_type_raw_bit none = false
cmp_ent_get_data_type_raw_bit (some ent) = bit_and (shr (read_be ent 22 2) 15) 1 == 1
