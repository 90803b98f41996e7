-- ===== src/Chunk/SizeBound.antt =====
-- The size of a compressed chunk (compress_chunk) against the bound that
-- compress_chunk_cmp_size_bound computes (cmp_icu.c).
use cmp_tool.Base.{
  ℕ, ◌+◌, ◌*◌, ◌/◌, ◌%◌, ◌^◌, ◌≤◌, ◌<◌, ◌≡◌, refl, subst, arith, Bool, true, false, u32, sub32,
  ◌==◌, ltb, ◌&&◌, not, take, if◌then◌else◌,
}
use cmp_tool.Error.{cmp_is_error, cmp_error, small_buffer, col_size_inconsistent}
use native.Mathlib.Nat.{div-add-mod'}
use cmp_tool.Support.Types.{CmpDataType, raw_mode_is_used, model_mode_is_used}
use cmp_tool.Support.Log.{cmp_bit_to_byte}
use cmp_tool.Support.Check.{CmpCfg}
use cmp_tool.Encoder.Word.{Dst, Written}
use cmp_tool.Collection.Header.{
  collection_hdr_size, cmp_col_get_size, cmp_col_get_data_length, cmp_col_get_subservice,
}
use cmp_tool.Collection.DataType.{size_of_a_sample, convert_subservice_to_cmp_data_type}
use cmp_tool.Chunk.Memory.{copy_to_dst}
use cmp_tool.Chunk.Internal.{Compressed, is_null, contents, cmp_cfg_icu_is_invalid_error_code}
use cmp_tool.Chunk.Collection.{
  Source, cmp_collection, entry_buffers, entry_addresses, compress_entry, compress_checked,
  finish_collection, with_header, set_cmp_col_size,
}
use cmp_tool.Chunk.EntryBound.{AtMost, if-AtMost, compress_entry-AtMost}

written-AtMost :
    (limit : ℕ) (t : Bool) (x y : Written)
    → (t ≡ true → AtMost limit x)
    → (t ≡ false → AtMost limit y)
    → AtMost limit (if t then x else y)
written-AtMost limit true x y p q = p refl
written-AtMost limit false x y p q = q refl

small_error : cmp_is_error (cmp_error small_buffer) ≡ true
unfolding cmp_is_error cmp_error
small_error = refl

-- What is an error has no size.
pub error-AtMost : (limit : ℕ) (w : Written) → cmp_is_error w.0 ≡ true → AtMost limit w
error-AtMost limit w e ok = absurd (cc (e, ok))

sized : Dst → ℕ → ℕ → Written
sized dst begin bits =
    set_cmp_col_size dst begin
      (sub32 (sub32 (sub32 (cmp_bit_to_byte bits) begin) collection_hdr_size) 2)

finish_collection-AtMost :
    (cfg : CmpCfg) (begin limit : ℕ) (w : Written)
    → AtMost (8 * limit) w
    → limit < 2 ^ 27
    → AtMost limit (finish_collection cfg begin w)
unfolding sized
finish_collection-AtMost cfg begin limit w h small =
    let field = sized w.1 begin w.0 in
    written-AtMost limit (cmp_is_error w.0) w
      (if not (raw_mode_is_used cfg.cmp_mode) && not (is_null w.1)
        then if cmp_is_error field.0 then field else (cmp_bit_to_byte w.0, field.1)
        else (cmp_bit_to_byte w.0, w.1))
      (error-AtMost limit w)
      (λ fine.
        written-AtMost limit (not (raw_mode_is_used cfg.cmp_mode) && not (is_null w.1))
          (if cmp_is_error field.0 then field else (cmp_bit_to_byte w.0, field.1))
          (cmp_bit_to_byte w.0, w.1)
          (λ compressed.
            written-AtMost limit (cmp_is_error field.0) field (cmp_bit_to_byte w.0, field.1)
              (error-AtMost limit field) (λ set. λ ok. bytes (h fine)))
          (λ plain. λ ok. bytes (h fine)))
  where
    bytes : w.0 ≤ 8 * limit → cmp_bit_to_byte w.0 ≤ limit
    bytes e = unfold cmp_bit_to_byte in omega arith

compress_checked-AtMost :
    (cfg : CmpCfg) (s : Source) (len capacity begin n : ℕ) (dst : Dst)
    → cfg.samples * size_of_a_sample cfg.data_type ≡ len
    → n + collection_hdr_size + len < 2 ^ 27
    → AtMost (n + collection_hdr_size + len) (compress_checked cfg s len capacity begin n dst).0
unfolding compress_checked
compress_checked-AtMost cfg s len capacity begin n dst whole small =
    if-AtMost (n + collection_hdr_size + len)
      (not (is_null dst) && ltb capacity (u32 (n + collection_hdr_size)))
      ((cmp_error small_buffer, dst), s.updated_model)
      (
        finish_collection cfg begin entry.0,
        with_header
            (if model_mode_is_used cfg.cmp_mode
              then take collection_hdr_size s.col
              else take collection_hdr_size (contents s.updated_model))
            entry.1,
      )
      (λ over.
        error-AtMost (n + collection_hdr_size + len) (cmp_error small_buffer, dst) small_error)
      (λ fits.
        finish_collection-AtMost cfg begin (n + collection_hdr_size + len) entry.0
          (subst (λ (k : ℕ). AtMost (8 * (k + len)) entry.0) no_wrap
            (compress_entry-AtMost cfg (entry_buffers s) (u32 (n + collection_hdr_size)) len whole
              (omega arith) capacity header (omega arith)))
          small)
  where
    header : Dst
    header = copy_to_dst dst n (take collection_hdr_size s.col)

    entry : Compressed
    entry = compress_entry cfg (entry_buffers s) capacity (u32 (n + collection_hdr_size)) len header

    no_wrap : u32 (n + collection_hdr_size) ≡ n + collection_hdr_size
    no_wrap = omega arith

inconsistent_error : cmp_is_error (cmp_error col_size_inconsistent) ≡ true
unfolding cmp_is_error cmp_error
inconsistent_error = refl

-- The size field of a compressed collection is at most two bytes more.
pub cmp_collection-AtMost :
    (s : Source) (dst : Dst) (capacity : ℕ) (cfg : CmpCfg) (n : ℕ)
    → n + 2 + cmp_col_get_size s.col < 2 ^ 27
    → AtMost (n + 2 + cmp_col_get_size s.col) (cmp_collection s dst capacity cfg n).0
unfolding cmp_collection cmp_col_get_size
cmp_collection-AtMost s dst capacity cfg n small =
    if-AtMost limit (not (len % size == 0))
      ((cmp_error col_size_inconsistent, dst), s.updated_model)
      (if cmp_is_error checked
        then ((checked, dst), s.updated_model)
        else compress_checked col_cfg s len capacity n (u32 (n + reserved)) dst)
      (λ torn. error-AtMost limit (cmp_error col_size_inconsistent, dst) inconsistent_error)
      (λ whole.
        if-AtMost limit (cmp_is_error checked) ((checked, dst), s.updated_model)
          (compress_checked col_cfg s len capacity n (u32 (n + reserved)) dst)
          (error-AtMost limit (checked, dst))
          (λ valid. λ ok. omega (
            arith,
            reserved-le,
            no_wrap,
            compress_checked-AtMost col_cfg s len capacity n (u32 (n + reserved)) dst
                (all_samples whole) (omega (arith, reserved-le)) ok,
          )))
  where
    len : ℕ
    len = cmp_col_get_data_length s.col

    data_type : CmpDataType
    data_type = convert_subservice_to_cmp_data_type (cmp_col_get_subservice s.col)

    size : ℕ
    size = size_of_a_sample data_type

    limit : ℕ
    limit = n + 2 + (collection_hdr_size + len)

    reserved : ℕ
    reserved = if raw_mode_is_used cfg.cmp_mode then 0 else 2

    reserved-le : reserved ≤ 2
    reserved-le = ground arith

    no_wrap : u32 (n + reserved) ≡ n + reserved
    no_wrap = omega (arith, reserved-le)

    col_cfg : CmpCfg
    col_cfg = record cfg { data_type = data_type; samples = len / size; stream_size = capacity }

    checked : ℕ
    checked = cmp_cfg_icu_is_invalid_error_code col_cfg (entry_addresses s)

    all_samples : not (len % size == 0) ≡ false → len / size * size ≡ len
    all_samples e = ground (arith, div-add-mod' len size)
