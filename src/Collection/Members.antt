-- ===== src/Collection/Members.antt =====
-- The members of a collection header, set and got, as one family (cmp_data_types.c).
use cmp_tool.Base.{ℕ, List, Option, Bool, true, false}
use cmp_tool.Collection.Header.{
  Updated, cmp_col_get_timestamp, cmp_col_get_configuration_id, cmp_col_get_col_id,
  cmp_col_get_pkt_type, cmp_col_get_subservice, cmp_col_get_ccd_id, cmp_col_get_sequence_num,
  cmp_col_get_data_length, cmp_col_set_timestamp, cmp_col_set_configuration_id, cmp_col_set_col_id,
  cmp_col_set_pkt_type, cmp_col_set_subservice, cmp_col_set_ccd_id, cmp_col_set_sequence_num,
  cmp_col_set_data_length,
}

-- The members of `union collection_id`, and the other members of the header.
pub data IdMember : Type 0 where
  pkt_type subservice ccd_id sequence_num : IdMember

pub data Member : Type 0 where
  timestamp configuration_id col_id data_length : Member
  in_id : IdMember → Member

-- The bits of a member.
unfoldable pub width : Member → ℕ
width timestamp = 48
width (in_id pkt_type) = 1
width (in_id subservice) = 6
width (in_id ccd_id) = 2
width (in_id sequence_num) = 7
width _ = 16

unfoldable pub get : Member → List ℕ → ℕ
get timestamp = cmp_col_get_timestamp
get configuration_id = cmp_col_get_configuration_id
get col_id = cmp_col_get_col_id
get data_length = cmp_col_get_data_length
get (in_id pkt_type) = cmp_col_get_pkt_type
get (in_id subservice) = cmp_col_get_subservice
get (in_id ccd_id) = cmp_col_get_ccd_id
get (in_id sequence_num) = cmp_col_get_sequence_num

unfoldable pub set_by : Member → Option (List ℕ) → ℕ → Updated
set_by timestamp = cmp_col_set_timestamp
set_by configuration_id = cmp_col_set_configuration_id
set_by col_id = cmp_col_set_col_id
set_by data_length = cmp_col_set_data_length
set_by (in_id pkt_type) = cmp_col_set_pkt_type
set_by (in_id subservice) = cmp_col_set_subservice
set_by (in_id ccd_id) = cmp_col_set_ccd_id
set_by (in_id sequence_num) = cmp_col_set_sequence_num

-- Two members share no bits.
unfoldable pub disjoint : Member → Member → Bool
disjoint timestamp timestamp = false
disjoint configuration_id configuration_id = false
disjoint data_length data_length = false
disjoint col_id col_id = false
disjoint col_id (in_id _) = false
disjoint (in_id _) col_id = false
disjoint (in_id pkt_type) (in_id pkt_type) = false
disjoint (in_id subservice) (in_id subservice) = false
disjoint (in_id ccd_id) (in_id ccd_id) = false
disjoint (in_id sequence_num) (in_id sequence_num) = false
disjoint _ _ = true

-- The members whose setter takes more bits than the member has.
unfoldable pub is_checked : Member → Bool
is_checked timestamp = true
is_checked (in_id _) = true
is_checked _ = false
