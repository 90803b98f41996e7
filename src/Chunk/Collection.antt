-- ===== src/Chunk/Collection.antt =====
-- set_cmp_col_size and cmp_collection (cmp_icu.c, lines 1760 to 1885): one collection of a chunk.
use mathlib.Core.Option
use cmp_tool.Base.{
  ℕ, ◌+◌, ◌/◌, ◌%◌, List, ◌++◌, Option, some, if◌then◌else◌, not, ltb, leb, ◌==◌, ◌&&◌, ◌||◌, u32,
  sub32, shl32, take, drop, [], ◌∷◌,
}
use cmp_tool.Error.{
  cmp_error, cmp_is_error, cmp_get_error_code, error_number, small_buffer, col_size_inconsistent,
  int_cmp_col_too_large,
}
use cmp_tool.Support.Types.{raw, raw_mode_is_used, model_mode_is_used}
use cmp_tool.Support.Check.{CmpCfg}
use cmp_tool.Support.Log.{cmp_bit_to_byte}
use cmp_tool.Encoder.Word.{Dst, Written}
use cmp_tool.Encoder.Value.{cmp_stream_size_to_bits}
use cmp_tool.Collection.Header.{
  collection_hdr_size, cmp_col_get_subservice, cmp_col_get_data_length,
}
use cmp_tool.Collection.DataType.{convert_subservice_to_cmp_data_type, size_of_a_sample}
use cmp_tool.Chunk.Memory.{copy_to, copy_to_dst}
use cmp_tool.Chunk.Internal.{
  Buffers, Addresses, Compressed, contents, is_null, compress_data_internal,
  cmp_cfg_icu_is_invalid_error_code,
}

-- `CMP_COLLECTION_FILD_SIZE`
abbrev pub cmp_collection_fild_size : ℕ
cmp_collection_fild_size = 2

-- A collection in its chunk: the bytes from it on, of the chunk, the model and the updated model,
-- and the addresses of these.
pub record Source : Type 0 where
  pub col : List ℕ
  pub model : Option (List ℕ)
  pub updated_model : Option (List ℕ)
  pub addresses : Addresses

unfoldable pub set_cmp_col_size : Dst → ℕ → ℕ → Written
set_cmp_col_size dst field cmp_col_size =
    if ltb 0xffff cmp_col_size
    then (cmp_error int_cmp_col_too_large, dst)
    else (0, copy_to_dst dst field (cmp_col_size / 256 ∷ cmp_col_size % 256 ∷ []))

abbrev skip : Option (List ℕ) → Option (List ℕ)
skip = Option.map (drop collection_hdr_size)

abbrev skip_adr : Option ℕ → Option ℕ
skip_adr = Option.map (λ (a : ℕ). a + collection_hdr_size)

-- The buffers and addresses of the data behind the headers.
abbrev pub entry_buffers : Source → Buffers
entry_buffers s = record {
  src = some (drop collection_hdr_size s.col);
  model_buf = skip s.model;
  updated_model_buf = skip s.updated_model;
}

abbrev pub entry_addresses : Source → Addresses
entry_addresses s = record (s.addresses) {
  src_adr = skip_adr s.addresses.src_adr;
  model_adr = skip_adr s.addresses.model_adr;
  updated_adr = skip_adr s.addresses.updated_adr;
}

-- The raw mode instead of a compression that does not fit; the updated model is a copy of the data.
unfoldable pub compress_uncompressed : CmpCfg → Buffers → ℕ → ℕ → Dst → Option (List ℕ) → Compressed
compress_uncompressed cfg b dst_size col_data_length dst updated =
    let raw_cfg = record cfg { stream_size = u32 (dst_size + col_data_length); cmp_mode = raw } in
    let written = (compress_data_internal (some raw_cfg) b (shl32 dst_size 3) dst).0 in
    (
      written,
      if model_mode_is_used cfg.cmp_mode
          then Option.map (λ (u : List ℕ). copy_to u 0 (take col_data_length (contents b.src)))
              updated
          else updated,
    )

-- The compression of the data behind a header that ends at `dst_size`.
unfoldable pub compress_entry : CmpCfg → Buffers → ℕ → ℕ → ℕ → Dst → Compressed
unfolding raw_mode_is_used
compress_entry cfg b dst_capacity dst_size col_data_length dst =
    let small_cfg = record cfg { stream_size = sub32 (u32 (dst_size + col_data_length)) 1 } in
    let (written, updated) = compress_data_internal (some small_cfg) b (shl32 dst_size 3) dst in
    if (is_null dst || leb (u32 (dst_size + col_data_length)) dst_capacity)
      && not (raw_mode_is_used cfg.cmp_mode)
    then if cmp_get_error_code written.0 == error_number small_buffer
        || (is_null dst && ltb (cmp_stream_size_to_bits small_cfg.stream_size) written.0)
      then compress_uncompressed cfg b dst_size col_data_length written.1 updated
      else (written, updated)
    else compress_data_internal (some (record cfg { stream_size = dst_capacity })) b
        (shl32 dst_size 3) dst

-- The size of the stream in bytes, after the size field is set.
abbrev pub finish_collection : CmpCfg → ℕ → Written → Written
finish_collection cfg dst_size_begin (dst_size_bits, dst) =
    let dst_size = cmp_bit_to_byte dst_size_bits in
    let cmp_col_size =
      sub32 (sub32 (sub32 dst_size dst_size_begin) collection_hdr_size) cmp_collection_fild_size in
    let sized = set_cmp_col_size dst dst_size_begin cmp_col_size in
    if cmp_is_error dst_size_bits
    then (dst_size_bits, dst)
    else if not (raw_mode_is_used cfg.cmp_mode) && not (is_null dst)
    then if cmp_is_error sized.0 then sized else (dst_size, sized.1)
    else (dst_size, dst)

-- The header of the updated model, and the data behind it.
abbrev pub with_header : List ℕ → Option (List ℕ) → Option (List ℕ)
with_header header = Option.map (λ (u : List ℕ). header ++ u)

-- The part behind the checks: the header is copied, and the data are compressed.
unfoldable pub compress_checked : CmpCfg → Source → ℕ → ℕ → ℕ → ℕ → Dst → Compressed
unfolding set_cmp_col_size model_mode_is_used raw_mode_is_used
compress_checked cfg s col_data_length dst_capacity dst_size_begin dst_size dst =
    let header = take collection_hdr_size s.col in
    let entry =
      compress_entry cfg (entry_buffers s) dst_capacity (u32 (dst_size + collection_hdr_size))
        col_data_length (copy_to_dst dst dst_size header) in
    let up_header =
      if model_mode_is_used cfg.cmp_mode
      then header
      else take collection_hdr_size (contents s.updated_model) in
    if not (is_null dst) && ltb dst_capacity (u32 (dst_size + collection_hdr_size))
    then ((cmp_error small_buffer, dst), s.updated_model)
    else (finish_collection cfg dst_size_begin entry.0, with_header up_header entry.1)

-- The samples, the type and the buffer sizes of a configuration are set for each collection again;
-- `cfg` is the one of the chunk. The chunk's type makes sure that a sample has a size.
unfoldable pub cmp_collection : Source → Dst → ℕ → CmpCfg → ℕ → Compressed
cmp_collection s dst dst_capacity cfg dst_size =
    let col_data_length = cmp_col_get_data_length s.col in
    let data_type = convert_subservice_to_cmp_data_type (cmp_col_get_subservice s.col) in
    let sample_size = size_of_a_sample data_type in
    let col_cfg = record cfg {
      data_type = data_type;
      samples = col_data_length / sample_size;
      stream_size = dst_capacity;
    } in
    let checked = cmp_cfg_icu_is_invalid_error_code col_cfg (entry_addresses s) in
    let reserved = if raw_mode_is_used cfg.cmp_mode then 0 else cmp_collection_fild_size in
    if not (col_data_length % sample_size == 0)
    then ((cmp_error col_size_inconsistent, dst), s.updated_model)
    else if cmp_is_error checked
    then ((checked, dst), s.updated_model)
    else compress_checked col_cfg s col_data_length dst_capacity dst_size
        (u32 (dst_size + reserved)) dst
