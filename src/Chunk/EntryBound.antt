-- ===== src/Chunk/EntryBound.antt =====
-- The size of a compressed collection (cmp_collection of cmp_icu.c) against the size of its data.
use cmp_tool.Base.{
  ℕ, ◌+◌, ◌*◌, ◌^◌, ◌≤◌, ◌<◌, ◌≡◌, inl, inr, refl, ap, arith, List, Option, none, some, Bool, true,
  false, Bool-cases, u32, sub32, shl32, ◌==◌, ltb, leb, ◌&&◌, ◌||◌, not, if◌then◌else◌,
}
use cmp_tool.Base.Bits.Fields.{bit_and_high_mask}
use cmp_tool.Error.{cmp_is_error, cmp_get_error_code, error_number, small_buffer}
use cmp_tool.Support.Types.{raw, raw_mode_is_used}
use cmp_tool.Support.Check.{CmpCfg}
use cmp_tool.Encoder.Word.{Dst, Written}
use cmp_tool.Encoder.Value.{cmp_stream_size_to_bits}
use cmp_tool.Chunk.Internal.{Buffers, Compressed, compress_data_internal}
use cmp_tool.Chunk.BoundedData.{compress_data_internal-IsBounded}
use cmp_tool.Chunk.RawSize.{data_size, compress_data_internal-raw}
use cmp_tool.Chunk.Collection.{compress_uncompressed, compress_entry}

bits-le : (n : ℕ) → cmp_stream_size_to_bits n ≤ 8 * n
unfolding cmp_stream_size_to_bits
bits-le n = omega (arith, bit_and_high_mask 2 30 n)

raw_mode : raw_mode_is_used raw ≡ true
unfolding raw_mode_is_used
raw_mode = refl

-- A length that is an error or at most `limit`.
abbrev pub AtMost : ℕ → Written → Type 0
AtMost limit w = cmp_is_error w.0 ≡ false → w.0 ≤ limit

pub if-AtMost :
    (limit : ℕ) (t : Bool) (x y : Compressed)
    → (t ≡ true → AtMost limit x.0)
    → (t ≡ false → AtMost limit y.0)
    → AtMost limit (if t then x else y).0
if-AtMost limit true x y p q = p refl
if-AtMost limit false x y p q = q refl

module _ (cfg : CmpCfg) (b : Buffers) (s len : ℕ) (whole : data_size cfg b s ≡ len)
    (small : s + len < 2 ^ 27) where
  start : shl32 s 3 ≡ 8 * s
  start = omega arith

  uncompressed-AtMost :
      (dst : Dst) (updated : Option (List ℕ))
      → AtMost (8 * (s + len)) (compress_uncompressed cfg b s len dst updated).0
  unfolding compress_uncompressed
  uncompressed-AtMost dst updated ok =
      let raw_cfg : CmpCfg = record cfg { stream_size = u32 (s + len); cmp_mode = raw } in
      omega (
        arith,
        compress_data_internal-raw raw_cfg b (shl32 s 3) dst raw_mode (omega (arith, start, whole))
            ok,
        start,
        whole,
      )

  raw-AtMost :
      (n : ℕ) (dst : Dst)
      → raw_mode_is_used cfg.cmp_mode ≡ true
      → AtMost
          (8 * (s + len))
          (compress_data_internal (some (record cfg { stream_size = n })) b (shl32 s 3) dst).0
  raw-AtMost n dst mode ok = omega (
    arith,
    compress_data_internal-raw (record cfg { stream_size = n }) b (shl32 s 3) dst mode
        (omega (arith, start, whole)) ok,
    start,
    whole,
  )

  -- A stream in a buffer of `n` bytes.
  stream-AtMost :
      (n : ℕ) (ws : List ℕ)
      → n ≤ s + len
      → raw_mode_is_used cfg.cmp_mode ≡ false
      → AtMost
          (8 * (s + len))
          (compress_data_internal (some (record cfg { stream_size = n })) b (shl32 s 3) (some ws)).0
  stream-AtMost n ws fits mode ok =
      let (r, ws', e, _, w) =
        (compress_data_internal-IsBounded (record cfg { stream_size = n }) b mode).within
          (shl32 s 3) ws (omega (arith, start)) in
      omega (arith, ap (λ (p : Written). p.0) e, w (rw e at ok), start, bits-le n)

  -- One byte less than the data take.
  abbrev reduced : ℕ
  reduced = sub32 (u32 (s + len)) 1

  reduced-le : 0 < s → reduced ≤ s + len
  reduced-le pos = omega arith

  abbrev attempt : Dst → Compressed
  attempt dst =
      compress_data_internal (some (record cfg { stream_size = reduced })) b (shl32 s 3) dst

  abbrev instead : Dst → Compressed
  instead dst = compress_uncompressed cfg b s len (attempt dst).0.1 (attempt dst).1

  abbrev plain : ℕ → Dst → Compressed
  plain capacity dst =
      compress_data_internal (some (record cfg { stream_size = capacity })) b (shl32 s 3) dst

  is_raw : not (raw_mode_is_used cfg.cmp_mode) ≡ false → raw_mode_is_used cfg.cmp_mode ≡ true
  is_raw e = ground arith

  -- Without a buffer.
  counted-AtMost :
      (t : Bool)
      → 0 < s
      → AtMost
          (8 * (s + len))
          (if t || ltb (cmp_stream_size_to_bits reduced) (attempt none).0.0
            then instead none
            else attempt none).0
  counted-AtMost t pos =
      if-AtMost (8 * (s + len)) (t || ltb (cmp_stream_size_to_bits reduced) (attempt none).0.0)
        (instead none) (attempt none)
        (λ large. uncompressed-AtMost (attempt none).0.1 (attempt none).1)
        (λ fits. λ ok. omega (arith, not_above t fits, bits-le reduced, reduced-le pos))
    where
      not_above :
          (t : Bool)
          → (t || ltb (cmp_stream_size_to_bits reduced) (attempt none).0.0) ≡ false
          → (attempt none).0.0 ≤ cmp_stream_size_to_bits reduced
      not_above t e = ground arith

  -- With room for the data as they are.
  roomy-AtMost :
      (t : Bool) (ws : List ℕ)
      → 0 < s
      → raw_mode_is_used cfg.cmp_mode ≡ false
      → AtMost (8 * (s + len)) (if t then instead (some ws) else attempt (some ws)).0
  roomy-AtMost t ws pos mode =
      if-AtMost (8 * (s + len)) t (instead (some ws)) (attempt (some ws))
        (λ large. uncompressed-AtMost (attempt (some ws)).0.1 (attempt (some ws)).1)
        (λ fits. stream-AtMost reduced ws (reduced-le pos) mode)

  pub compress_entry-AtMost :
      (capacity : ℕ) (dst : Dst)
      → 0 < s
      → AtMost (8 * (s + len)) (compress_entry cfg b capacity s len dst).0
  unfolding compress_entry
  compress_entry-AtMost capacity none pos =
      if-AtMost (8 * (s + len)) (not (raw_mode_is_used cfg.cmp_mode))
        (if cmp_get_error_code (attempt none).0.0 == error_number small_buffer
            || ltb (cmp_stream_size_to_bits reduced) (attempt none).0.0
          then instead none
          else attempt none)
        (plain capacity none)
        (λ compressing.
          counted-AtMost (cmp_get_error_code (attempt none).0.0 == error_number small_buffer) pos)
        (λ mode. raw-AtMost capacity none (is_raw mode))
  compress_entry-AtMost capacity (some ws) pos =
      if-AtMost (8 * (s + len))
        (leb (u32 (s + len)) capacity && not (raw_mode_is_used cfg.cmp_mode))
        (if cmp_get_error_code (attempt (some ws)).0.0 == error_number small_buffer || false
          then instead (some ws)
          else attempt (some ws))
        (plain capacity (some ws))
        (λ room.
          roomy-AtMost
            (cmp_get_error_code (attempt (some ws)).0.0 == error_number small_buffer || false) ws
            pos (compressing room))
        (λ tight. elim (Bool-cases (raw_mode_is_used cfg.cmp_mode)) [
          | inl mode ↦ raw-AtMost capacity (some ws) mode
          | inr mode ↦ stream-AtMost capacity ws (no_room tight mode) mode
        ])
    where
      compressing :
          (leb (u32 (s + len)) capacity && not (raw_mode_is_used cfg.cmp_mode)) ≡ true
          → raw_mode_is_used cfg.cmp_mode ≡ false
      compressing e = ground arith

      no_room :
          (leb (u32 (s + len)) capacity && not (raw_mode_is_used cfg.cmp_mode)) ≡ false
          → raw_mode_is_used cfg.cmp_mode ≡ false
          → capacity ≤ s + len
      no_room e mode = ground arith
