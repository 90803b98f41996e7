-- ===== src/Chunk/Compress.antt =====
-- compress_chunk and compress_chunk_cmp_size_bound (cmp_icu.c, lines 2095 to 2252; cmp_chunk.h).
use mathlib.Core.Option
use cmp_tool.Base.{
  ℕ, zero, suc, ◌+◌, ◌-◌, ◌*◌, ◌/◌, List, ◌++◌, Option, none, some, Bool, if◌then◌else◌, not, ltb,
  leb, ◌==◌, ◌&&◌, take, drop, length,
}
use cmp_tool.Error.{
  cmp_error, cmp_is_error, chunk_null, par_null, chunk_size_inconsistent, chunk_too_large,
  col_subservice_unsupported, small_buffer, chunk_subservice_inconsistent,
}
use cmp_tool.Support.Check.{CmpCfg}
use cmp_tool.Encoder.Word.{Dst}
use cmp_tool.Product.EndToEnd.{bytes_of}
use cmp_tool.Entity.Size.{words_of, cmp_entity_max_size}
use cmp_tool.Collection.Header.{collection_hdr_size, cmp_col_get_size}
use cmp_tool.Collection.ChunkType.{ChunkType, cmp_col_get_chunk_type}
use cmp_tool.Chunk.Internal.{Compressed, is_null}
use cmp_tool.Chunk.Spill.{CmpPar, init_cmp_cfg_from_cmp_par}
use cmp_tool.Chunk.Collection.{Source, cmp_collection, cmp_collection_fild_size}
use cmp_tool.Chunk.Header.{cmp_ent_build_chunk_header}

-- The numbers of `enum chunk_type`.
unfoldable pub chunk_type_number : ChunkType → ℕ
chunk_type_number ChunkType.unknown = 0
chunk_type_number ChunkType.ncam_imagette = 1
chunk_type_number ChunkType.short_cadence = 2
chunk_type_number ChunkType.long_cadence = 3
chunk_type_number ChunkType.sat_imagette = 4
chunk_type_number ChunkType.offset_background = 5
chunk_type_number ChunkType.smearing = 6
chunk_type_number ChunkType.f_chain = 7

abbrev advance_adr : ℕ → Option ℕ → Option ℕ
advance_adr n = Option.map (λ (a : ℕ). a + n)

-- The source from the next collection on.
abbrev pub advanced : ℕ → Source → Source
advanced n s = record {
  col = drop n s.col;
  model = Option.map (drop n) s.model;
  updated_model = Option.map (drop n) s.updated_model;
  addresses = record (s.addresses) {
    src_adr = advance_adr n s.addresses.src_adr;
    model_adr = advance_adr n s.addresses.model_adr;
    updated_adr = advance_adr n s.addresses.updated_adr;
  };
}

-- The updated model of a round, in front of that of the later rounds.
unfoldable pub join_updated : ℕ → Option (List ℕ) → Option (List ℕ) → Option (List ℕ)
join_updated n none later = none
join_updated n (some u) none = some u
join_updated n (some u) (some l) = some (take n u ++ l)

unfoldable pub after_round : ℕ → Option (List ℕ) → Option Compressed → Option Compressed
unfolding join_updated
after_round n updated none = none
after_round n updated (some (written, later)) = some (written, join_updated n updated later)

-- The loop over the collections: `left` bytes of the chunk are not read yet. `none` means that the
-- fuel ran out.
unfoldable pub compress_collections :
    ℕ → ChunkType → ℕ → Source → Dst → ℕ → CmpCfg → ℕ → Option Compressed
unfolding chunk_type_number after_round
compress_collections zero type left s dst dst_capacity cfg cmp_size_byte = none
compress_collections (suc fuel) type left s dst dst_capacity cfg cmp_size_byte =
    let size = cmp_col_get_size s.col in
    let (written, updated) = cmp_collection s dst dst_capacity cfg cmp_size_byte in
    let later =
      compress_collections fuel type (left - size) (advanced size s) written.1 dst_capacity cfg
        written.0 in
    if leb collection_hdr_size left
    then if not (chunk_type_number (cmp_col_get_chunk_type s.col) == chunk_type_number type)
      then some ((cmp_error chunk_subservice_inconsistent, dst), s.updated_model)
      else if ltb left size
      then some ((cmp_error chunk_size_inconsistent, dst), s.updated_model)
      else if cmp_is_error written.0
      then some (written, updated)
      else after_round size updated later
    else if left == 0
    then some ((cmp_size_byte, dst), s.updated_model)
    else some ((cmp_error chunk_size_inconsistent, dst), s.updated_model)

-- What get_timestamp() returns at the start and at the end, and the version of
-- compress_chunk_init.
pub record Stamps : Type 0 where
  pub version_identifier : ℕ
  pub start_timestamp : ℕ
  pub end_timestamp : ℕ

-- The header is written when the chunk is compressed.
abbrev pub add_header : ℕ → CmpCfg → Stamps → Compressed → Compressed
add_header chunk_size cfg t ((cmp_size_byte, dst), updated) =
    let (built, ent) =
      cmp_ent_build_chunk_header (Option.map bytes_of dst) chunk_size cfg t.version_identifier
        t.start_timestamp t.end_timestamp cmp_size_byte in
    let dst' = Option.map (λ (bytes : List ℕ). words_of bytes 0 (length bytes / 4)) ent in
    if cmp_is_error cmp_size_byte
    then ((cmp_size_byte, dst), updated)
    else if cmp_is_error built
    then ((built, dst'), updated)
    else ((cmp_size_byte, dst'), updated)

abbrev refused : Compressed → Option Compressed
refused c = some c

-- The chunk is `some` in the source's bytes when it is not NULL.
unfoldable pub compress_chunk :
    Bool → ℕ → Source → Dst → ℕ → Option CmpPar → Stamps → Option Compressed
unfolding init_cmp_cfg_from_cmp_par chunk_type_number
compress_chunk chunk_is_null chunk_size s dst dst_capacity none t =
    if chunk_is_null
    then refused ((cmp_error chunk_null, dst), s.updated_model)
    else refused ((cmp_error par_null, dst), s.updated_model)
compress_chunk chunk_is_null chunk_size s dst dst_capacity (some par) t =
    let (type, cfg) = init_cmp_cfg_from_cmp_par s.col par in
    let hdr_size =
      (cmp_ent_build_chunk_header none chunk_size cfg t.version_identifier t.start_timestamp
        t.end_timestamp 0).0 in
    let fail = λ (code : ℕ). refused ((code, dst), s.updated_model) in
    if chunk_is_null
    then fail (cmp_error chunk_null)
    else if ltb chunk_size collection_hdr_size
    then fail (cmp_error chunk_size_inconsistent)
    else if ltb cmp_entity_max_size chunk_size
    then fail (cmp_error chunk_too_large)
    else if chunk_type_number type == chunk_type_number ChunkType.unknown
    then fail (cmp_error col_subservice_unsupported)
    else if not (is_null dst) && ltb dst_capacity hdr_size
    then fail (cmp_error small_buffer)
    else Option.map (add_header chunk_size cfg t)
        (compress_collections (chunk_size + 1) type chunk_size s dst dst_capacity cfg hdr_size)

-- The loop of compress_chunk_cmp_size_bound: the collections, and where the last one ends. Collections
-- that reach over the end of the chunk are counted too.
unfoldable pub count_collections : ℕ → List ℕ → ℕ → ℕ → Option (ℕ × ℕ)
count_collections zero bytes read_bytes chunk_size = none
count_collections (suc fuel) bytes read_bytes chunk_size =
    let later =
      count_collections fuel (drop (cmp_col_get_size bytes) bytes)
        (read_bytes + cmp_col_get_size bytes) chunk_size in
    if leb (read_bytes + collection_hdr_size) chunk_size
    then Option.map (λ (r : ℕ × ℕ). (r.0 + 1, r.1)) later
    else some (0, read_bytes)

-- `ROUND_UP_TO_4` and `COMPRESS_CHUNK_BOUND_UNSAFE`
abbrev pub compress_chunk_bound_unsafe : ℕ → ℕ → ℕ
compress_chunk_bound_unsafe chunk_size num_col =
    (64 + num_col * cmp_collection_fild_size + chunk_size + 3) / 4 * 4

abbrev pub bound_of : ℕ → ℕ × ℕ → ℕ
bound_of chunk_size (num_col, read_bytes) =
    if not (read_bytes == chunk_size)
    then cmp_error chunk_size_inconsistent
    else if ltb cmp_entity_max_size (compress_chunk_bound_unsafe chunk_size num_col)
    then cmp_error chunk_too_large
    else compress_chunk_bound_unsafe chunk_size num_col

unfoldable pub compress_chunk_cmp_size_bound : Option (List ℕ) → ℕ → Option ℕ
unfolding count_collections
compress_chunk_cmp_size_bound none chunk_size = some (cmp_error chunk_null)
compress_chunk_cmp_size_bound (some bytes) chunk_size =
    if ltb chunk_size collection_hdr_size
    then some (cmp_error chunk_size_inconsistent)
    else if ltb (cmp_entity_max_size - 64 - cmp_collection_fild_size) chunk_size
    then some (cmp_error chunk_too_large)
    else Option.map (bound_of chunk_size) (count_collections (chunk_size + 1) bytes 0 chunk_size)
