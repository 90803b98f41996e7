-- ===== src/Chunk/ChunkBound.antt =====
-- The size that compress_chunk returns against compress_chunk_cmp_size_bound (cmp_icu.c).
use mathlib.Core.Option
use cmp_tool.Base.{
  Bool, ℕ, ◌+◌, ◌-◌, ◌*◌, ◌/◌, ◌^◌, ◌≤◌, ◌<◌, ◌≡◌, inl, inr, refl, ap, subst, ◌∙◌, arith, List,
  Option, none, some, true, false, Bool-cases, ◌==◌, ltb, not, ◌&&◌, length, if◌then◌else◌,
}
use cmp_tool.Error.{
  CmpError, cmp_is_error, cmp_error, chunk_size_inconsistent, chunk_too_large, par_null,
  col_subservice_unsupported, small_buffer,
}
use cmp_tool.Support.Check.{CmpCfg}
use cmp_tool.Encoder.Word.{Dst}
use cmp_tool.Collection.Header.{collection_hdr_size}
use cmp_tool.Collection.ChunkType.{ChunkType}
use cmp_tool.Chunk.Internal.{Compressed, is_null}
use cmp_tool.Chunk.Collection.{Source}
use cmp_tool.Chunk.EntryBound.{AtMost, if-AtMost}
use cmp_tool.Chunk.Spill.{CmpPar, init_cmp_cfg_from_cmp_par}
use cmp_tool.Chunk.Header.{cmp_ent_build_chunk_header}
use cmp_tool.Product.EndToEnd.{bytes_of}
use cmp_tool.Entity.Size.{words_of, cmp_entity_max_size}
use cmp_tool.Chunk.SizeBound.{error-AtMost}
use cmp_tool.Chunk.Compress.{
  Stamps, add_header, bound_of, compress_chunk_bound_unsafe, compress_chunk,
  compress_chunk_cmp_size_bound, chunk_type_number, compress_collections, count_collections,
}
use cmp_tool.Chunk.LoopBound.{
  map_inverse, if_result, size_error, large_error, failed, some_eq, compress_collections-AtMost,
}

-- A header in front and the padding to whole words; the bound is that of the macro.
module _ (chunk_size : ℕ) (cfg : CmpCfg) (t : Stamps) where
  add_header-AtMost :
      (limit : ℕ) (c : Compressed)
      → AtMost limit c.0
      → AtMost limit (add_header chunk_size cfg t c).0
  add_header-AtMost limit ((n, dst), u) h =
      let (built, ent) =
        cmp_ent_build_chunk_header (Option.map bytes_of dst) chunk_size cfg t.version_identifier
          t.start_timestamp t.end_timestamp n in
      let dst' = Option.map (λ (bytes : List ℕ). words_of bytes 0 (length bytes / 4)) ent in
      if-AtMost limit (cmp_is_error n) ((n, dst), u)
        (if cmp_is_error built then ((built, dst'), u) else ((n, dst'), u)) (λ bad. h)
        (λ fine.
          if-AtMost limit (cmp_is_error built) ((built, dst'), u) ((n, dst'), u)
            (error-AtMost limit (built, dst')) (λ set. h))

-- No result of the chunk's functions but `b`.
not_failed :
    (code b : ℕ) → cmp_is_error code ≡ true → some code ≡ some b → cmp_is_error b ≡ false → ⊥
not_failed code b bad e ok = absurd (cc (bad, some_eq e, ok))

bound_inverse :
    (chunk_size b num read : ℕ)
    → bound_of chunk_size (num, read) ≡ b
    → cmp_is_error b ≡ false
    → (read ≡ chunk_size) × (64 + 2 * num + chunk_size ≤ b) × (b < 2 ^ 24)
bound_inverse chunk_size b num read e ok = elim (Bool-cases (read == chunk_size)) [
  | inr other ↦
      absurd
        (not_failed (cmp_error chunk_size_inconsistent) b size_error (ap some (rw other at e)) ok)
  | inl whole ↦
      elim (Bool-cases (ltb cmp_entity_max_size (compress_chunk_bound_unsafe chunk_size num))) [
        | inl large ↦ absurd (
            not_failed (cmp_error chunk_too_large) b large_error (ap some (rw (whole, large) at e))
              ok)
        | inr fits ↦
            let exact : compress_chunk_bound_unsafe chunk_size num ≡ b = rw (whole, fits) at e in
            (ground arith, omega (arith, exact), ground (arith, exact))
      ]
]

-- What a bound that is no error says of the chunk.
pub size_bound_inverse :
    (bytes : List ℕ) (chunk_size b : ℕ)
    → compress_chunk_cmp_size_bound (some bytes) chunk_size ≡ some b
    → cmp_is_error b ≡ false
    → (num : ℕ) × (count_collections (chunk_size + 1) bytes 0 chunk_size ≡ some (num, chunk_size))
      × (64 + 2 * num + chunk_size ≤ b)
      × (b < 2 ^ 24)
unfolding compress_chunk_cmp_size_bound
size_bound_inverse bytes chunk_size b e ok =
    elim (Bool-cases (ltb chunk_size collection_hdr_size)) [
      | inl short ↦
          absurd (not_failed (cmp_error chunk_size_inconsistent) b size_error (rw short at e) ok)
      | inr long ↦ elim (Bool-cases (ltb (cmp_entity_max_size - 64 - 2) chunk_size)) [
        | inl large ↦
            absurd (not_failed (cmp_error chunk_too_large) b large_error (rw (long, large) at e) ok)
        | inr small ↦
            let ((num, read), found, same) =
              map_inverse (bound_of chunk_size)
                (count_collections (chunk_size + 1) bytes 0 chunk_size) b (rw (long, small) at e) in
            let (whole, at_most, below) = bound_inverse chunk_size b num read same ok in
            (num, found ∙ ap (λ (r : ℕ). some (num, r)) whole, at_most, below)
      ]
    ]

par_null_error : cmp_is_error (cmp_error par_null) ≡ true
unfolding cmp_is_error cmp_error
par_null_error = refl

unsupported_error : cmp_is_error (cmp_error col_subservice_unsupported) ≡ true
unfolding cmp_is_error cmp_error
unsupported_error = refl

buffer_error : cmp_is_error (cmp_error small_buffer) ≡ true
unfolding cmp_is_error cmp_error
buffer_error = refl

header_size-le :
    (n : ℕ) (cfg : CmpCfg) (version start end size : ℕ)
    → (cmp_ent_build_chunk_header none n cfg version start end size).0 ≤ 64
unfolding cmp_ent_build_chunk_header
header_size-le n cfg version start end size = ground arith

module _ (s : Source) (chunk_size : ℕ) (dst : Dst) (capacity : ℕ) (par : CmpPar) (t : Stamps)
    (c : Compressed) (num : ℕ) where
  abbrev limit : ℕ
  limit = 64 + 2 * num + chunk_size

  abbrev init : ChunkType × CmpCfg
  init = init_cmp_cfg_from_cmp_par s.col par

  abbrev hdr_size : ℕ
  hdr_size =
      (cmp_ent_build_chunk_header none chunk_size init.1 t.version_identifier t.start_timestamp
        t.end_timestamp 0).0

  abbrev loop : Option Compressed
  loop = compress_collections (chunk_size + 1) init.0 chunk_size s dst capacity init.1 hdr_size

  abbrev compressed : Option Compressed
  compressed = Option.map (add_header chunk_size init.1 t) loop

  abbrev refused_with : CmpError → Option Compressed
  refused_with e = some ((cmp_error e, dst), s.updated_model)

  -- A check that is passed, or an error that is returned.
  if_refused :
      (e : CmpError) (b : Bool) (o : Option Compressed)
      → cmp_is_error (cmp_error e) ≡ true
      → (o ≡ some c → AtMost limit c.0)
      → (if b then refused_with e else o) ≡ some c
      → AtMost limit c.0
  if_refused e b o bad h =
      if_result limit c b (refused_with e) o
        (λ hit. failed limit (cmp_error e, dst) s.updated_model c bad) (λ passed. h)

  hdr_size-le : hdr_size ≤ 64
  hdr_size-le =
      header_size-le chunk_size init.1 t.version_identifier t.start_timestamp t.end_timestamp 0

  plus_zero : chunk_size ≡ chunk_size + 0
  plus_zero = omega arith

  module _
      (counted : count_collections (chunk_size + 1) s.col 0 chunk_size ≡ some (num, chunk_size))
      (small : 64 + 2 * num + chunk_size < 2 ^ 27) where
    compressed-AtMost : compressed ≡ some c → AtMost limit c.0
    compressed-AtMost made =
        let (d, found, same) = map_inverse (add_header chunk_size init.1 t) loop c made in
        let from_start =
          subst (λ (m : ℕ). count_collections (chunk_size + 1) s.col 0 m ≡ some (num, m)) plus_zero
            counted in
        subst (λ (x : Compressed). AtMost limit x.0) same
          (add_header-AtMost chunk_size init.1 t limit d (λ ok. omega (
            arith,
            hdr_size-le,
            compress_collections-AtMost (chunk_size + 1) init.0 capacity init.1 chunk_size 0 num s
                dst hdr_size d from_start (omega (arith, hdr_size-le)) found ok,
          )))

    checked_chunk-AtMost :
        compress_chunk false chunk_size s dst capacity (some par) t ≡ some c → AtMost limit c.0
    unfolding compress_chunk
    checked_chunk-AtMost =
        if_refused chunk_size_inconsistent (ltb chunk_size collection_hdr_size) sized size_error (
          if_refused chunk_too_large (ltb cmp_entity_max_size chunk_size) supported large_error (
            if_refused col_subservice_unsupported
              (chunk_type_number init.0 == chunk_type_number ChunkType.unknown) roomy
              unsupported_error
              (if_refused small_buffer (not (is_null dst) && ltb capacity hdr_size) compressed
                buffer_error compressed-AtMost)))
      where
        roomy : Option Compressed
        roomy =
            if not (is_null dst) && ltb capacity hdr_size
            then refused_with small_buffer
            else compressed

        supported : Option Compressed
        supported =
            if chunk_type_number init.0 == chunk_type_number ChunkType.unknown
            then refused_with col_subservice_unsupported
            else roomy

        sized : Option Compressed
        sized =
            if ltb cmp_entity_max_size chunk_size then refused_with chunk_too_large else supported

-- When compress_chunk returns no error for a chunk, with any parameters, destination and
-- capacity, and compress_chunk_cmp_size_bound returns no error for the same chunk and size, the
-- size that compress_chunk returns is at most that bound.
pub compress_chunk-le-compress_chunk_cmp_size_bound :
    (s : Source) (chunk_size : ℕ) (dst : Dst) (capacity : ℕ) (par : Option CmpPar) (t : Stamps)
    (c : Compressed) (b : ℕ)
    → compress_chunk false chunk_size s dst capacity par t ≡ some c
    → cmp_is_error c.0.0 ≡ false
    → compress_chunk_cmp_size_bound (some s.col) chunk_size ≡ some b
    → cmp_is_error b ≡ false
    → c.0.0 ≤ b
compress_chunk-le-compress_chunk_cmp_size_bound s chunk_size dst capacity none t c b e ok f fine =
    failed b (cmp_error par_null, dst) s.updated_model c par_null_error (unfold compress_chunk in e)
      ok
compress_chunk-le-compress_chunk_cmp_size_bound s chunk_size dst capacity (some par) t c b e ok f
      fine =
    let (num, counted, at_most, small) = size_bound_inverse s.col chunk_size b f fine in
    omega (
      arith,
      at_most,
      checked_chunk-AtMost s chunk_size dst capacity par t c num counted (omega arith) e ok,
    )
