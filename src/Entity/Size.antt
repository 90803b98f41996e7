-- ===== src/Entity/Size.antt =====
-- The sizes of an entity and the place of its compressed data, and the creation of an entity
-- (cmp_ent_cal_hdr_size and cmp_ent_get_cmp_data to cmp_ent_create of lib/common/cmp_entity.c).
use cmp_tool.Base.{
  ℕ, zero, suc, ◌+◌, ◌-◌, ◌/◌, List, [], ◌∷◌, ◌++◌, Option, none, some, Bool, true, false,
  if◌then◌else◌, ltb, ◌==◌, bit_and, u32, drop, replicate, not,
}
use cmp_tool.Decoder.Reader.{read_be}
use cmp_tool.Support.Types.{
  CmpDataType, unknown, imagette, imagette_adaptive, sat_imagette, sat_imagette_adaptive,
  f_cam_imagette, f_cam_imagette_adaptive, above_chunk, cmp_data_type_is_invalid,
}
use cmp_tool.Entity.Setters.{cmp_ent_set_size, cmp_ent_set_data_type}
use cmp_tool.Entity.Getters.{cmp_ent_get_size, cmp_ent_get_data_type, cmp_ent_get_data_type_raw_bit}

-- The switch of cmp_ent_cal_hdr_size. A number above DATA_TYPE_CHUNK has no case.
unfoldable pub specific_hdr_size : CmpDataType → ℕ
specific_hdr_size imagette = 36
specific_hdr_size sat_imagette = 36
specific_hdr_size f_cam_imagette = 36
specific_hdr_size imagette_adaptive = 44
specific_hdr_size sat_imagette_adaptive = 44
specific_hdr_size f_cam_imagette_adaptive = 44
specific_hdr_size unknown = 0
specific_hdr_size (above_chunk n) = 0
specific_hdr_size _ = 64

unfoldable pub cmp_ent_cal_hdr_size : CmpDataType → Bool → ℕ
unfolding specific_hdr_size cmp_data_type_is_invalid
cmp_ent_cal_hdr_size data_type true = if not (cmp_data_type_is_invalid data_type) then 32 else 0
cmp_ent_cal_hdr_size data_type false = specific_hdr_size data_type

unfoldable pub cmp_ent_get_hdr_size : Option (List ℕ) → ℕ
cmp_ent_get_hdr_size ent =
    cmp_ent_cal_hdr_size (cmp_ent_get_data_type ent) (cmp_ent_get_data_type_raw_bit ent)

-- The bytes from the compressed data on.
unfoldable pub cmp_ent_get_data_buf : Option (List ℕ) → Option (List ℕ)
cmp_ent_get_data_buf none = none
cmp_ent_get_data_buf (some ent) =
    if cmp_ent_get_hdr_size (some ent) == 0
    then none
    else some (drop (cmp_ent_get_hdr_size (some ent)) ent)

unfoldable pub cmp_ent_get_cmp_data_size : Option (List ℕ) → ℕ
cmp_ent_get_cmp_data_size ent =
    if ltb (cmp_ent_get_size ent) (cmp_ent_get_hdr_size ent)
    then 0
    else cmp_ent_get_size ent - cmp_ent_get_hdr_size ent

-- The loop over the copied words, each converted to the order of the CPU.
unfoldable pub words_of : List ℕ → ℕ → ℕ → List ℕ
words_of bytes at zero = []
words_of bytes at (suc n) = read_be bytes at 4 ∷ words_of bytes (at + 4) n

-- The size of the data, `none` for -1, and the data buffer afterwards.
abbrev pub CopiedData : Type 0
CopiedData = Option ℕ × Option (List ℕ)

abbrev copy_data : ℕ → List ℕ → ℕ → Option (List ℕ) → CopiedData
copy_data cmp_size_byte bytes data_buf_size none = (some cmp_size_byte, none)
copy_data cmp_size_byte bytes data_buf_size (some data_buf) =
    if ltb data_buf_size cmp_size_byte then (none, some data_buf) else (
      some cmp_size_byte,
      some (words_of bytes 0 (cmp_size_byte / 4) ++ drop (cmp_size_byte / 4) data_buf),
    )

abbrev copy_from : ℕ → Option (List ℕ) → ℕ → Option (List ℕ) → CopiedData
copy_from cmp_size_byte none data_buf_size data_buf = (none, data_buf)
copy_from cmp_size_byte (some bytes) data_buf_size data_buf =
    if not (bit_and cmp_size_byte 0x3 == 0)
    then (none, data_buf)
    else copy_data cmp_size_byte bytes data_buf_size data_buf

unfoldable pub cmp_ent_get_cmp_data : Option (List ℕ) → Option (List ℕ) → ℕ → CopiedData
unfolding words_of
cmp_ent_get_cmp_data none data_buf data_buf_size = (none, data_buf)
cmp_ent_get_cmp_data (some ent) data_buf data_buf_size =
    copy_from (cmp_ent_get_cmp_data_size (some ent)) (cmp_ent_get_data_buf (some ent)) data_buf_size
      data_buf

abbrev pub cmp_entity_max_size : ℕ
cmp_entity_max_size = 0xffffff

-- `memset(ent, 0, hdr_size)`, then the size and the data type are set.
unfoldable pub cleared_header : ℕ → List ℕ → List ℕ
cleared_header hdr_size ent = replicate hdr_size 0 ++ drop hdr_size ent

-- The size of the entity, 0 for an error, and the entity afterwards.
unfoldable pub cmp_ent_create : Option (List ℕ) → CmpDataType → Bool → ℕ → ℕ × Option (List ℕ)
cmp_ent_create ent data_type raw_mode_flag cmp_size_byte =
    let hdr_size = cmp_ent_cal_hdr_size data_type raw_mode_flag in
    let ent_size = u32 (hdr_size + cmp_size_byte) in
    if hdr_size == 0
    then (0, ent)
    else if ltb cmp_entity_max_size cmp_size_byte
    then (0, ent)
    else if ltb cmp_entity_max_size ent_size
    then (0, ent)
    else (
      if ltb ent_size 64 then 64 else ent_size,
      elim ent [
        | none ↦ none
        | some bytes ↦
            (cmp_ent_set_data_type
              (cmp_ent_set_size (some (cleared_header hdr_size bytes)) ent_size).1 data_type
              raw_mode_flag).1
      ],
    )
