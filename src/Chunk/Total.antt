-- ===== src/Chunk/Total.antt =====
-- The loops of compress_chunk and compress_chunk_cmp_size_bound (cmp_icu.c) end.
use cmp_tool.Base.{
  ℕ, zero, suc, ◌+◌, ◌-◌, ◌<◌, ◌≡◌, ◌≢◌, refl, arith, List, Option, none, some, Bool, drop,
}
use cmp_tool.Support.Check.{CmpCfg}
use cmp_tool.Encoder.Word.{Dst}
use cmp_tool.Collection.Header.{cmp_col_get_size}
use cmp_tool.Collection.ChunkType.{ChunkType}
use cmp_tool.Chunk.Internal.{Compressed}
use cmp_tool.Chunk.Spill.{CmpPar, init_cmp_cfg_from_cmp_par}
use cmp_tool.Chunk.Collection.{Source, cmp_collection}
use cmp_tool.Chunk.Header.{cmp_ent_build_chunk_header}
use cmp_tool.Chunk.Compress.{
  compress_collections, compress_chunk, Stamps, count_collections, compress_chunk_cmp_size_bound,
  advanced, after_round,
}

after_round-ne-none :
    (n : ℕ) (u : Option (List ℕ)) (o : Option Compressed) → o ≢ none → after_round n u o ≢ none
unfolding after_round
after_round-ne-none n u none h = h
after_round-ne-none n u (some (w, l)) h = λ e. cc e

-- The rounds take a header of 12 bytes each.
pub compress_collections-ne-none :
    (fuel : ℕ) (type : ChunkType) (left : ℕ) (s : Source) (dst : Dst) (cap : ℕ) (cfg : CmpCfg)
    (size : ℕ)
    → left < fuel
    → compress_collections fuel type left s dst cap cfg size ≢ none
unfolding compress_collections cmp_col_get_size
compress_collections-ne-none zero type left s dst cap cfg size h = absurd (omega arith)
compress_collections-ne-none (suc fuel) type left s dst cap cfg size h =
    let round = cmp_collection s dst cap cfg size in
    let next =
      compress_collections-ne-none fuel type (left - cmp_col_get_size s.col)
        (advanced (cmp_col_get_size s.col) s) round.0.1 cap cfg round.0.0 in
    ground (
      arith,
      after_round-ne-none (cmp_col_get_size s.col) round.1 (
          compress_collections fuel type (left - cmp_col_get_size s.col)
            (advanced (cmp_col_get_size s.col) s) round.0.1 cap cfg round.0.0),
      next,
    )

-- What is not `none` is a result.
pub some_result {ℓ} : {A : Type ℓ} (o : Option A) → o ≢ none → (a : A) × (o ≡ some a)
some_result none h = absurd (h refl)
some_result (some a) h = (a, refl)

-- For every chunk, chunk size, model, destination and parameters, NULL included, the loop of
-- compress_chunk ends with the fuel given, and the call returns.
pub compress_chunk_total :
    (chunk_is_null : Bool) (chunk_size : ℕ) (s : Source) (dst : Dst) (cap : ℕ) (par : Option CmpPar)
    (t : Stamps)
    → (c : Compressed) × (compress_chunk chunk_is_null chunk_size s dst cap par t ≡ some c)
compress_chunk_total null n s dst cap par t =
    some_result (compress_chunk null n s dst cap par t) (never_none par)
  where
    never_none : (p : Option CmpPar) → compress_chunk null n s dst cap p t ≢ none
    never_none none = unfold compress_chunk in ground arith
    never_none (some p) =
        let init = init_cmp_cfg_from_cmp_par s.col p in
        unfold compress_chunk in
        ground (
          arith,
          compress_collections-ne-none (n + 1) init.0 n s dst cap init.1
              (cmp_ent_build_chunk_header none n init.1 t.version_identifier t.start_timestamp
                t.end_timestamp 0).0,
        )

pub count_collections-ne-none :
    (fuel : ℕ) (bytes : List ℕ) (read_bytes chunk_size : ℕ)
    → 0 < fuel
    → chunk_size < read_bytes + fuel
    → count_collections fuel bytes read_bytes chunk_size ≢ none
unfolding count_collections cmp_col_get_size
count_collections-ne-none zero bytes read_bytes n f h = absurd (omega arith)
count_collections-ne-none (suc fuel) bytes read_bytes n f h = ground (
  arith,
  count_collections-ne-none fuel (drop (cmp_col_get_size bytes) bytes)
      (read_bytes + cmp_col_get_size bytes) n,
)

pub compress_chunk_cmp_size_bound_total :
    (o : Option (List ℕ)) (chunk_size : ℕ)
    → (b : ℕ) × (compress_chunk_cmp_size_bound o chunk_size ≡ some b)
compress_chunk_cmp_size_bound_total o n =
    some_result (compress_chunk_cmp_size_bound o n) (never_none o)
  where
    never_none : (p : Option (List ℕ)) → compress_chunk_cmp_size_bound p n ≢ none
    never_none none = unfold compress_chunk_cmp_size_bound in ground arith
    never_none (some bytes) =
        unfold compress_chunk_cmp_size_bound in
        ground (arith, count_collections-ne-none (n + 1) bytes 0 n)
