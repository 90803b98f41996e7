-- ===== src/Collection/ChunkTotal.antt =====
-- The loop of be_to_cpu_chunk (cmp_data_types.c) ends.
use cmp_tool.Base.{
  ℕ, zero, suc, ◌+◌, ◌-◌, ◌<◌, ◌≡◌, inl, inr, refl, ap, arith, List, ◌++◌, Option, none, some, take,
  drop, true, ltb, leb, if◌then◌else◌, Bool-cases, ◌==◌,
}
use cmp_tool.Collection.Header.{
  Status, success, failure, Updated, cmp_col_get_data_length, cmp_col_get_size,
}
use cmp_tool.Collection.DataLaws.{}
use cmp_tool.Collection.SwapChunk.{
  Swapped, behind, next_collection, swap_collections, be_to_cpu_chunk,
}
use cmp_tool.Collection.ChunkLaws.{}

next_collection_total :
    (rest : List ℕ) (size : ℕ) (u : Updated) (later : Swapped)
    → ((r : Status × List ℕ) × (later ≡ some r))
    → (r : Status × List ℕ) × (next_collection rest size u later ≡ some r)
unfolding next_collection
next_collection_total rest size (success, some b) later ((s, l), e) =
    ((s, (take 12 rest ++ take size b) ++ l), ap (behind (take 12 rest ++ take size b)) e)
next_collection_total rest size (success, none) later r = ((failure, rest), refl)
next_collection_total rest size (_, b) later r = ((failure, rest), refl)

-- The loop ends with fuel above the bytes of the chunk.
pub swap_collections_total :
    (fuel : ℕ) (rest : List ℕ) (left : ℕ)
    → left < fuel
    → (r : Status × List ℕ) × (swap_collections fuel rest left ≡ some r)
unfolding swap_collections
swap_collections_total zero rest left h = absurd (omega arith)
swap_collections_total (suc fuel) rest left h = elim (Bool-cases (leb 12 left)) [
  | inr e ↦ ((if left == 0 then success else failure, rest), rw e)
  | inl e ↦ elim (Bool-cases (ltb left (cmp_col_get_size rest))) [
    | inl over ↦ ((failure, rest), rw (e, over))
    | inr fits ↦
        rw (e, fits)
          (next_collection_total rest (cmp_col_get_data_length rest) _ _ (
            swap_collections_total fuel (drop (cmp_col_get_size rest) rest)
              (left - cmp_col_get_size rest) (shorter e)))
  ]
]
  where
    shorter : leb 12 left ≡ true → left - cmp_col_get_size rest < fuel
    shorter e = unfold cmp_col_get_size in ground arith

-- For every buffer, NULL included, and every chunk size, the loop of be_to_cpu_chunk ends with
-- the fuel given, and the call returns.
pub be_to_cpu_chunk_total :
    (o : Option (List ℕ)) (chunk_size : ℕ) → (u : Updated) × (be_to_cpu_chunk o chunk_size ≡ some u)
unfolding be_to_cpu_chunk
be_to_cpu_chunk_total none n = ((success, none), refl)
be_to_cpu_chunk_total (some b) n = elim (Bool-cases (ltb n 12)) [
  | inl e ↦ ((failure, some b), rw e)
  | inr e ↦
      let (r, ends) = swap_collections_total (n + 1) b n (omega arith) in
      ((r.0, some r.1), rw (e, ends))
]
