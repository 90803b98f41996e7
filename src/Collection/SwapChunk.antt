-- ===== src/Collection/SwapChunk.antt =====
-- The conversion of a chunk of collections, and of the input of the compressor, in place
-- (be_to_cpu_chunk and cmp_input_big_to_cpu_endianness of cmp_data_types.c).
use cmp_tool.Base.{
  ℕ, zero, suc, ◌+◌, ◌-◌, List, ◌++◌, Option, none, some, if◌then◌else◌, ltb, leb, ◌==◌, take, drop,
  Bool, true, false,
}
use mathlib.Core.Option
use cmp_tool.Support.Types.{CmpDataType, rdcu_supported_data_type_is_used}
use cmp_tool.Collection.Header.{
  Status, success, failure, Updated, collection_hdr_size, cmp_col_get_subservice,
  cmp_col_get_data_length, cmp_col_get_size,
}
use cmp_tool.Collection.DataType.{convert_subservice_to_cmp_data_type}
use cmp_tool.Collection.Swap.{be_to_cpu_data_type}

-- The return value, and the bytes from `col_p` on afterwards.
abbrev pub Swapped : Type 0
Swapped = Option (Status × List ℕ)

-- The bytes in front of `col_p` are put back before the bytes of the later rounds.
abbrev pub behind : List ℕ → Swapped → Swapped
behind before none = none
behind before (some (status, after)) = some (status, before ++ after)

-- A round after the data of the collection at `rest` were converted.
unfoldable pub next_collection : List ℕ → ℕ → Updated → Swapped → Swapped
next_collection rest data_size (success, some converted) later =
    behind (take collection_hdr_size rest ++ take data_size converted) later
next_collection rest data_size _ later = some (failure, rest)

-- The loop: `rest` are the bytes from `col_p` on, of which `left` are in the chunk. `none` means
-- that the fuel ran out.
unfoldable pub swap_collections : ℕ → List ℕ → ℕ → Swapped
unfolding next_collection
swap_collections zero rest left = none
swap_collections (suc fuel) rest left =
    let data_type = convert_subservice_to_cmp_data_type (cmp_col_get_subservice rest) in
    let data_size = cmp_col_get_data_length rest in
    let size = cmp_col_get_size rest in
    let later = swap_collections fuel (drop size rest) (left - size) in
    if leb collection_hdr_size left
    then if ltb left size
      then some (failure, rest)
      else next_collection rest data_size
          (be_to_cpu_data_type (some (drop collection_hdr_size rest)) data_size data_type) later
    else some (if left == 0 then success else failure, rest)

unfoldable pub be_to_cpu_chunk : Option (List ℕ) → ℕ → Option Updated
unfolding swap_collections
be_to_cpu_chunk none chunk_size = some (success, none)
be_to_cpu_chunk (some bytes) chunk_size =
    if ltb chunk_size collection_hdr_size
    then some (failure, some bytes)
    else Option.map (λ r. (r.0, some r.1)) (swap_collections (chunk_size + 1) bytes chunk_size)

-- A collection header is skipped, unless the data type has none.
abbrev pub skip_header : Bool → List ℕ → ℕ → CmpDataType → Updated
skip_header true bytes data_size_byte data_type =
    be_to_cpu_data_type (some bytes) data_size_byte data_type
skip_header false bytes data_size_byte data_type =
    if ltb data_size_byte collection_hdr_size
    then (failure, some bytes)
    else let r =
        be_to_cpu_data_type (some (drop collection_hdr_size bytes))
          (data_size_byte - collection_hdr_size) data_type in
      (r.0, Option.map (λ (converted : List ℕ). take collection_hdr_size bytes ++ converted) r.1)

unfoldable pub cmp_input_big_to_cpu_endianness : Option (List ℕ) → ℕ → CmpDataType → Updated
unfolding be_to_cpu_data_type rdcu_supported_data_type_is_used
cmp_input_big_to_cpu_endianness none data_size_byte data_type =
    be_to_cpu_data_type none data_size_byte data_type
cmp_input_big_to_cpu_endianness (some bytes) data_size_byte data_type =
    skip_header (rdcu_supported_data_type_is_used data_type) bytes data_size_byte data_type
