-- ===== src/Collection/Header.antt =====
-- `struct collection_hdr`: 12 bytes of big-endian members in front of the data. A pointer to a
-- collection is the list of bytes from there on, `none` for NULL.
use cmp_tool.Base.{ℕ, ◌+◌, ◌*◌, ◌/◌, ◌%◌, ◌^◌, List, Option, none, some, if◌then◌else◌, ltb, shr}
use cmp_tool.Bytes.{write_be}
pub use cmp_tool.Bytes.{Status, success, failure, failure_one, Updated}
use cmp_tool.Decoder.Reader.{read_be}

abbrev pub collection_hdr_size : ℕ
collection_hdr_size = 12

-- `union collection_id`: the members of the 16-bit word, from its low end on.
unfoldable pub extract_bits : ℕ → ℕ → ℕ → ℕ
extract_bits pos width word = word / 2 ^ pos % 2 ^ width

unfoldable pub insert_bits : ℕ → ℕ → ℕ → ℕ → ℕ
insert_bits pos width word value =
    word / 2 ^ (pos + width) * 2 ^ (pos + width) + value % 2 ^ width * 2 ^ pos + word % 2 ^ pos

unfoldable pub cmp_col_get_timestamp : List ℕ → ℕ
cmp_col_get_timestamp col = read_be col 0 6

unfoldable pub cmp_col_get_configuration_id : List ℕ → ℕ
cmp_col_get_configuration_id col = read_be col 6 2

unfoldable pub cmp_col_get_col_id : List ℕ → ℕ
cmp_col_get_col_id col = read_be col 8 2

unfoldable pub cmp_col_get_pkt_type : List ℕ → ℕ
unfolding extract_bits cmp_col_get_col_id
cmp_col_get_pkt_type col = extract_bits 15 1 (cmp_col_get_col_id col)

unfoldable pub cmp_col_get_subservice : List ℕ → ℕ
unfolding extract_bits cmp_col_get_col_id
cmp_col_get_subservice col = extract_bits 9 6 (cmp_col_get_col_id col)

unfoldable pub cmp_col_get_ccd_id : List ℕ → ℕ
unfolding extract_bits cmp_col_get_col_id
cmp_col_get_ccd_id col = extract_bits 7 2 (cmp_col_get_col_id col)

unfoldable pub cmp_col_get_sequence_num : List ℕ → ℕ
unfolding extract_bits cmp_col_get_col_id
cmp_col_get_sequence_num col = extract_bits 0 7 (cmp_col_get_col_id col)

unfoldable pub cmp_col_get_data_length : List ℕ → ℕ
cmp_col_get_data_length col = read_be col 10 2

unfoldable pub cmp_col_get_size : List ℕ → ℕ
unfolding cmp_col_get_data_length
cmp_col_get_size col = collection_hdr_size + cmp_col_get_data_length col

-- A number that does not fit its member is refused.
abbrev refuse_bits_above : ℕ → ℕ → List ℕ → List ℕ → Updated
refuse_bits_above width value col col' =
    if ltb 0 (shr value width) then (failure, some col) else (success, some col')

unfoldable pub cmp_col_set_timestamp : Option (List ℕ) → ℕ → Updated
cmp_col_set_timestamp none timestamp = (failure, none)
cmp_col_set_timestamp (some col) timestamp =
    refuse_bits_above 48 timestamp col (write_be col 0 6 timestamp)

unfoldable pub cmp_col_set_configuration_id : Option (List ℕ) → ℕ → Updated
cmp_col_set_configuration_id none configuration_id = (failure_one, none)
cmp_col_set_configuration_id (some col) configuration_id =
    (success, some (write_be col 6 2 configuration_id))

unfoldable pub cmp_col_set_col_id : Option (List ℕ) → ℕ → Updated
cmp_col_set_col_id none collection_id = (failure, none)
cmp_col_set_col_id (some col) collection_id = (success, some (write_be col 8 2 collection_id))

-- `cmp_col_set_col_id` of a word with one member exchanged.
abbrev set_member : ℕ → ℕ → List ℕ → ℕ → List ℕ
set_member pos width col value =
    write_be col 8 2 (insert_bits pos width (cmp_col_get_col_id col) value)

unfoldable pub cmp_col_set_pkt_type : Option (List ℕ) → ℕ → Updated
unfolding insert_bits cmp_col_get_col_id
cmp_col_set_pkt_type none pkt_type = (failure, none)
cmp_col_set_pkt_type (some col) pkt_type =
    refuse_bits_above 1 pkt_type col (set_member 15 1 col pkt_type)

unfoldable pub cmp_col_set_subservice : Option (List ℕ) → ℕ → Updated
unfolding insert_bits cmp_col_get_col_id
cmp_col_set_subservice none subservice = (failure, none)
cmp_col_set_subservice (some col) subservice =
    refuse_bits_above 6 subservice col (set_member 9 6 col subservice)

unfoldable pub cmp_col_set_ccd_id : Option (List ℕ) → ℕ → Updated
unfolding insert_bits cmp_col_get_col_id
cmp_col_set_ccd_id none ccd_id = (failure, none)
cmp_col_set_ccd_id (some col) ccd_id = refuse_bits_above 2 ccd_id col (set_member 7 2 col ccd_id)

unfoldable pub cmp_col_set_sequence_num : Option (List ℕ) → ℕ → Updated
unfolding insert_bits cmp_col_get_col_id
cmp_col_set_sequence_num none sequence_num = (failure, none)
cmp_col_set_sequence_num (some col) sequence_num =
    refuse_bits_above 7 sequence_num col (set_member 0 7 col sequence_num)

unfoldable pub cmp_col_set_data_length : Option (List ℕ) → ℕ → Updated
cmp_col_set_data_length none len = (failure, none)
cmp_col_set_data_length (some col) len = (success, some (write_be col 10 2 len))
