-- ===== src/Collection/ChunkUndone.antt =====
-- The conversion of a chunk (be_to_cpu_chunk of cmp_data_types.c) against itself.
use cmp_tool.Base.{
  ℕ, ◌≤◌, ◌≡◌, refl, sym, ap, ap₂, ◌∙◌, arith, List, [], ◌∷◌, ◌++◌, some, length, drop,
  length-append, map, All,
}
use cmp_tool.Collection.Header.{success}
use cmp_tool.Collection.SwapChunk.{be_to_cpu_chunk}
use cmp_tool.Collection.DataLaws.{is_convertible, converted, length-converted, converted-converted}
use cmp_tool.Collection.ChunkLaws.{
  Collection, IsCollection, data_type_of, to_bytes, convert, chunk_bytes,
  be_to_cpu_chunk-collections,
}
use cmp_tool.Collection.ChunkParse.{be_to_cpu_chunk_accepts}

convert-IsCollection : (c : Collection) → IsCollection c → IsCollection (convert c)
convert-IsCollection c v = record {
  whole_header = v.whole_header;
  announced = v.announced ∙ sym (length-converted (data_type_of c.header) c.entry);
  whole_samples =
      ap (is_convertible (data_type_of c.header)) (length-converted (data_type_of c.header) c.entry)
      ∙ v.whole_samples;
}

map-convert-IsCollection :
    (cs : List Collection) → All IsCollection cs → All IsCollection (map convert cs)
map-convert-IsCollection [] v = v
map-convert-IsCollection (c ∷ cs) v = (convert-IsCollection c v.0, map-convert-IsCollection cs v.1)

convert-convert_bytes :
    (c : Collection) → IsCollection c → to_bytes (convert (convert c)) ≡ to_bytes c
convert-convert_bytes c v =
    ap (λ (e : List ℕ). c.header ++ e)
      (converted-converted (data_type_of c.header) c.entry v.whole_samples)

chunk_bytes-convert-convert :
    (cs : List Collection)
    → All IsCollection cs
    → chunk_bytes (map convert (map convert cs)) ≡ chunk_bytes cs
unfolding chunk_bytes
chunk_bytes-convert-convert [] v = refl
chunk_bytes-convert-convert (c ∷ cs) v =
    ap₂ ◌++◌ (convert-convert_bytes c v.0) (chunk_bytes-convert-convert cs v.1)

length-chunk_bytes-convert :
    (cs : List Collection) → length (chunk_bytes (map convert cs)) ≡ length (chunk_bytes cs)
unfolding chunk_bytes
length-chunk_bytes-convert [] = refl
length-chunk_bytes-convert (c ∷ cs) =
    length-append (to_bytes (convert c)) (chunk_bytes (map convert cs))
    ∙ omega (
      arith,
      length-append (to_bytes c) (chunk_bytes cs),
      length-append c.header c.entry,
      length-append c.header (converted (data_type_of c.header) c.entry),
      length-converted (data_type_of c.header) c.entry,
      length-chunk_bytes-convert cs,
    )

-- The chunk of whole collections, converted twice.
twice :
    (c : Collection) (cs : List Collection) (tail bytes' : List ℕ)
    → All IsCollection (c ∷ cs)
    → be_to_cpu_chunk (some (chunk_bytes (c ∷ cs) ++ tail)) (length (chunk_bytes (c ∷ cs)))
      ≡ some (success, some bytes')
    → be_to_cpu_chunk (some bytes') (length (chunk_bytes (c ∷ cs)))
      ≡ some (success, some (chunk_bytes (c ∷ cs) ++ tail))
twice c cs tail bytes' v e =
    let once : chunk_bytes (map convert (c ∷ cs)) ++ tail ≡ bytes' =
      cc (be_to_cpu_chunk-collections c cs tail v, e) in
    ap₂ (λ (b : List ℕ) (n : ℕ). be_to_cpu_chunk (some b) n) (sym once)
      (sym (length-chunk_bytes-convert (c ∷ cs)))
    ∙ be_to_cpu_chunk-collections (convert c) (map convert cs) tail
        (map-convert-IsCollection (c ∷ cs) v)
    ∙ ap (λ (b : List ℕ). some (success, some (b ++ tail))) (chunk_bytes-convert-convert (c ∷ cs) v)

-- If be_to_cpu_chunk succeeds on a buffer that holds the chunk, then a second call on the result
-- succeeds and gives the buffer back.
pub be_to_cpu_chunk_undone :
    (bytes bytes' : List ℕ) (chunk_size : ℕ)
    → chunk_size ≤ length bytes
    → be_to_cpu_chunk (some bytes) chunk_size ≡ some (success, some bytes')
    → be_to_cpu_chunk (some bytes') chunk_size ≡ some (success, some bytes)
be_to_cpu_chunk_undone bytes bytes' n l e =
    let (c, cs, v, parts, whole) = be_to_cpu_chunk_accepts bytes n (some bytes') l e in
    let tail : List ℕ = drop n bytes in
    ap (be_to_cpu_chunk (some bytes')) (sym whole)
    ∙ twice c cs tail bytes' v
        (ap₂ (λ (b : List ℕ) (k : ℕ). be_to_cpu_chunk (some b) k) (sym parts) whole ∙ e)
    ∙ ap (λ (b : List ℕ). some (success, some b)) (sym parts)
