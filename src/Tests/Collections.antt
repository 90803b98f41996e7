-- ===== src/Tests/Collections.antt =====
-- Collections of imagettes and of short cadence data, their header and their conversion.
use cmp_tool.Base.{ℕ, ◌≡◌, refl, arith, true, List, [], ◌∷◌, ◌++◌, length, drop, some, All}
use cmp_tool.Bytes.{success, Updated}
use cmp_tool.Decoder.Reader.{read_be}
use cmp_tool.Decoder.Refill.Bytes.{IsBytes}
use cmp_tool.Collection.Header.{
  extract_bits, cmp_col_get_col_id, cmp_col_get_subservice, cmp_col_get_data_length,
  cmp_col_get_size,
}
use cmp_tool.Collection.Members.{Member, in_id, ccd_id, width, get, set_by, disjoint}
use cmp_tool.Collection.HeaderLaws.{get-set_by}
use cmp_tool.Collection.DataType.{
  convert_subservice_to_cmp_data_type, size_of_a_sample, layout, sum,
}
use cmp_tool.Collection.ChunkType.{chunk_type_of_subservice}
use cmp_tool.Collection.DataTypeLaws.{chunk_of, chunk_type_of_subservice_lem}
use cmp_tool.Collection.Swap.{swap_members, swap_samples, be_to_cpus, be_to_cpu_data_type}
use cmp_tool.Collection.SwapChunk.{swap_collections, be_to_cpu_chunk}
use cmp_tool.Collection.DataLaws.{is_convertible}
use cmp_tool.Collection.ChunkLaws.{Collection, IsCollection, data_type_of, chunk_bytes}
use cmp_tool.Collection.Reversed.{AreReversed, be_to_cpu_chunk-AreReversed}
use cmp_tool.Collection.ChunkTotal.{be_to_cpu_chunk_total}
use cmp_tool.Collection.ChunkParse.{be_to_cpu_chunk_accepts}
use cmp_tool.Collection.ChunkUndone.{be_to_cpu_chunk_undone}

-- Two pixels of an imagette.
abbrev pixels : Collection
pixels = record {
  header = 0 ∷ 0 ∷ 0 ∷ 0 ∷ 0 ∷ 1 ∷ 0 ∷ 2 ∷ 6 ∷ 0 ∷ 0 ∷ 4 ∷ [];
  entry = 1 ∷ 2 ∷ 3 ∷ 4 ∷ [];
}

-- One sample of short cadence data.
abbrev fluxes : Collection
fluxes = record {
  header = 0 ∷ 0 ∷ 0 ∷ 0 ∷ 0 ∷ 1 ∷ 0 ∷ 2 ∷ 18 ∷ 0 ∷ 0 ∷ 5 ∷ [];
  entry = 7 ∷ 1 ∷ 2 ∷ 3 ∷ 4 ∷ [];
}

get-set_by_example :
    (col' : List ℕ) × (set_by (in_id ccd_id) (some pixels.header) 2 ≡ (success, some col'))
    × (get (in_id ccd_id) col' ≡ 2)
    × ((g : Member) → disjoint (in_id ccd_id) g ≡ true → get g col' ≡ get g pixels.header)
    × IsBytes col'
    × (length col' ≡ 12)
get-set_by_example =
    get-set_by (in_id ccd_id) pixels.header 2 (omega arith) (omega arith)
      (unfold width in omega arith)

chunk_type_of_subservice_lem_example :
    chunk_type_of_subservice 9 ≡ chunk_of (convert_subservice_to_cmp_data_type 9)
chunk_type_of_subservice_lem_example = chunk_type_of_subservice_lem 9

pixels-IsCollection : IsCollection pixels
unfolding is_convertible size_of_a_sample data_type_of convert_subservice_to_cmp_data_type
    extract_bits cmp_col_get_subservice cmp_col_get_col_id cmp_col_get_data_length read_be layout
    sum
pixels-IsCollection = record { whole_header = refl; announced = refl; whole_samples = refl }

fluxes-IsCollection : IsCollection fluxes
unfolding is_convertible size_of_a_sample data_type_of convert_subservice_to_cmp_data_type
    extract_bits cmp_col_get_subservice cmp_col_get_col_id cmp_col_get_data_length read_be layout
    sum
fluxes-IsCollection = record { whole_header = refl; announced = refl; whole_samples = refl }

abbrev both : List ℕ
both = pixels.header ++ (pixels.entry ++ (fluxes.header ++ fluxes.entry))

abbrev both_converted : List ℕ
both_converted =
    pixels.header ++ ((2 ∷ 1 ∷ 4 ∷ 3 ∷ []) ++ (fluxes.header ++ (7 ∷ 4 ∷ 3 ∷ 2 ∷ 1 ∷ [])))

be_to_cpu_chunk-AreReversed_example :
    (cs' : List Collection) × (be_to_cpu_chunk
        (some (chunk_bytes (pixels ∷ fluxes ∷ []) ++ (9 ∷ [])))
        (length (chunk_bytes (pixels ∷ fluxes ∷ [])))
      ≡ some (success, some (chunk_bytes cs' ++ (9 ∷ []))))
    × AreReversed (pixels ∷ fluxes ∷ []) cs'
be_to_cpu_chunk-AreReversed_example =
    be_to_cpu_chunk-AreReversed pixels (fluxes ∷ []) (9 ∷ [])
      (pixels-IsCollection, (fluxes-IsCollection, tt))

-- The loop at these bytes.
both_runs : be_to_cpu_chunk (some both) 33 ≡ some (success, some both_converted)
unfolding be_to_cpu_chunk swap_collections be_to_cpu_data_type be_to_cpus swap_samples swap_members
    size_of_a_sample convert_subservice_to_cmp_data_type extract_bits cmp_col_get_subservice
    cmp_col_get_col_id cmp_col_get_data_length cmp_col_get_size read_be layout sum
both_runs = refl

be_to_cpu_chunk_total_example : (u : Updated) × (be_to_cpu_chunk (some both) 33 ≡ some u)
be_to_cpu_chunk_total_example = be_to_cpu_chunk_total (some both) 33

be_to_cpu_chunk_accepts_example :
    (c : Collection) × (cs : List Collection) × All IsCollection (c ∷ cs)
    × (both ≡ chunk_bytes (c ∷ cs) ++ drop 33 both)
    × (length (chunk_bytes (c ∷ cs)) ≡ 33)
be_to_cpu_chunk_accepts_example =
    be_to_cpu_chunk_accepts both 33 (some both_converted) (omega arith) both_runs

be_to_cpu_chunk_undone_example :
    be_to_cpu_chunk (some both_converted) 33 ≡ some (success, some both)
be_to_cpu_chunk_undone_example =
    be_to_cpu_chunk_undone both both_converted 33 (omega arith) both_runs
