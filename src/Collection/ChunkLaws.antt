-- ===== src/Collection/ChunkLaws.antt =====
-- The conversion of a chunk, collection by collection (be_to_cpu_chunk of cmp_data_types.c).
use mathlib.Core.List.{append_assoc}
use cmp_tool.Base.{
  ℕ, zero, suc, ◌+◌, ◌-◌, ◌*◌, ◌^◌, ◌≤◌, ◌<◌, ◌≡◌, refl, sym, ap, ap₂, ◌∙◌, arith, List, [], ◌∷◌,
  ◌++◌, some, length, take, drop, length-append, take-append, drop-append, map, true, leb,
  get_or-append_left, le→ltb, All,
}
use cmp_tool.Decoder.Reader.{read_be}
use cmp_tool.Collection.Header.{
  success, cmp_col_get_subservice, cmp_col_get_data_length, cmp_col_get_size, extract_bits,
}
use cmp_tool.Support.Types.{CmpDataType}
use cmp_tool.Collection.DataType.{convert_subservice_to_cmp_data_type}
use cmp_tool.Collection.DataLaws.{is_convertible, converted, length-converted, data_type-converted}
use cmp_tool.Collection.SwapChunk.{behind, swap_collections, be_to_cpu_chunk}

pub read_be-append :
    (xs ys : List ℕ) (at n : ℕ) → at + n ≤ length xs → read_be (xs ++ ys) at n ≡ read_be xs at n
unfolding read_be
read_be-append xs ys at zero h = refl
read_be-append xs ys at (suc n) h = omega (
  arith,
  ap (λ (b : ℕ). b * 2 ^ (8 * n)) (get_or-append_left xs ys at 0 (omega arith)),
  read_be-append xs ys (at + 1) n (omega arith),
)

-- A collection: its header, and the data that the header announces.
pub record Collection : Type 0 where
  pub header : List ℕ
  pub entry : List ℕ

unfoldable pub data_type_of : List ℕ → CmpDataType
data_type_of header = convert_subservice_to_cmp_data_type (cmp_col_get_subservice header)

-- A whole collection, with whole samples of its type.
pub record IsCollection (c : Collection) : Type 0 where
  pub whole_header : length c.header ≡ 12
  pub announced : cmp_col_get_data_length c.header ≡ length c.entry
  pub whole_samples : is_convertible (data_type_of c.header) (length c.entry) ≡ true

abbrev pub to_bytes : Collection → List ℕ
to_bytes c = c.header ++ c.entry

abbrev pub convert : Collection → Collection
convert c = record c { entry = converted (data_type_of c.header) c.entry }

-- The collections of a chunk, one after the other.
unfoldable pub chunk_bytes : List Collection → List ℕ
chunk_bytes [] = []
chunk_bytes (c ∷ cs) = to_bytes c ++ chunk_bytes cs

-- What the loop reads in the bytes from a collection on.
record Reads (c : Collection) (bytes tail : List ℕ) : Type 0 where
  data_length : cmp_col_get_data_length bytes ≡ length c.entry
  size : cmp_col_get_size bytes ≡ 12 + length c.entry
  data_type :
      convert_subservice_to_cmp_data_type (cmp_col_get_subservice bytes) ≡ data_type_of c.header
  header_part : take 12 bytes ≡ c.header
  entry_part : drop 12 bytes ≡ c.entry ++ tail
  next_part : drop (12 + length c.entry) bytes ≡ tail

to_bytes-Reads :
    (c : Collection) (tail : List ℕ) → IsCollection c → Reads c (to_bytes c ++ tail) tail
unfolding data_type_of cmp_col_get_data_length cmp_col_get_subservice cmp_col_get_size
to_bytes-Reads c tail v = record {
  data_length = len;
  size = ap (λ (n : ℕ). 12 + n) len;
  data_type = ap convert_subservice_to_cmp_data_type same_subservice;
  header_part = ap (take 12) assoc ∙ take-append 12 c.header _ (sym v.whole_header);
  entry_part = ap (drop 12) assoc ∙ drop-append 12 c.header _ (sym v.whole_header);
  next_part =
      drop-append (12 + length c.entry) (to_bytes c) tail
        (omega (arith, length-append c.header c.entry, v.whole_header));
}
  where
    assoc : to_bytes c ++ tail ≡ c.header ++ (c.entry ++ tail)
    assoc = append_assoc c.header c.entry tail

    read : (at n : ℕ) → at + n ≤ 12 → read_be (to_bytes c ++ tail) at n ≡ read_be c.header at n
    read at n h =
        ap (λ (l : List ℕ). read_be l at n) assoc
        ∙ read_be-append c.header (c.entry ++ tail) at n (omega (arith, v.whole_header))

    len : cmp_col_get_data_length (to_bytes c ++ tail) ≡ length c.entry
    len = read 10 2 (omega arith) ∙ v.announced

    same_subservice : cmp_col_get_subservice (to_bytes c ++ tail) ≡ cmp_col_get_subservice c.header
    same_subservice = ap (extract_bits 9 6) (read 8 2 (omega arith))

-- A round of the loop over a whole collection.
swap_collections-round :
    (fuel : ℕ) (c : Collection) (tail : List ℕ) (left : ℕ)
    → IsCollection c
    → 12 + length c.entry ≤ left
    → swap_collections (suc fuel) (to_bytes c ++ tail) left
      ≡ behind (to_bytes (convert c)) (swap_collections fuel tail (left - (12 + length c.entry)))
unfolding swap_collections
swap_collections-round fuel c tail left v h =
    let r : Reads c (to_bytes c ++ tail) tail = to_bytes-Reads c tail v in
    let t : CmpDataType = data_type_of c.header in
    rw
      (
        lt→leb 12 left (omega arith),
        r.data_length,
        r.size,
        r.data_type,
        r.entry_part,
        r.next_part,
        le→ltb left (12 + length c.entry) h,
        data_type-converted t c.entry tail v.whole_samples,
      )
      (ap₂
        (λ (x : List ℕ) (y : List ℕ).
          behind (x ++ y) (swap_collections fuel tail (left - (12 + length c.entry))))
        r.header_part
        (take-append (length c.entry) (converted t c.entry) tail
          (sym (length-converted t c.entry))))
  where
    lt→leb : (a b : ℕ) → a ≤ b → leb a b ≡ true
    lt→leb a b q = ground arith

-- The loop over a chunk of whole collections, with bytes behind it.
pub swap_collections-chunk :
    (cs : List Collection) (fuel : ℕ) (tail : List ℕ)
    → All IsCollection cs
    → length (chunk_bytes cs) < fuel
    → swap_collections fuel (chunk_bytes cs ++ tail) (length (chunk_bytes cs))
      ≡ some (success, chunk_bytes (map convert cs) ++ tail)
unfolding chunk_bytes
swap_collections-chunk cs zero tail v f = absurd (omega arith)
swap_collections-chunk [] (suc fuel) tail v f = unfold swap_collections in refl
swap_collections-chunk (c ∷ cs) (suc fuel) tail v f =
    ap (λ (l : List ℕ). swap_collections (suc fuel) l (length (to_bytes c ++ chunk_bytes cs)))
      (append_assoc (to_bytes c) (chunk_bytes cs) tail)
    ∙ swap_collections-round fuel c (chunk_bytes cs ++ tail) (length (to_bytes c ++ chunk_bytes cs))
        v.0 (omega (arith, size))
    ∙ ap
        (λ (k : ℕ).
          behind (to_bytes (convert c)) (swap_collections fuel (chunk_bytes cs ++ tail) k))
        (omega (arith, size))
    ∙ ap (behind (to_bytes (convert c)))
        (swap_collections-chunk cs fuel tail v.1 (omega (arith, size)))
    ∙ ap (λ (l : List ℕ). some (success, l))
        (sym (append_assoc (to_bytes (convert c)) (chunk_bytes (map convert cs)) tail))
  where
    size : length (to_bytes c ++ chunk_bytes cs) ≡ 12 + length c.entry + length (chunk_bytes cs)
    size =
        length-append (to_bytes c) (chunk_bytes cs)
        ∙ omega (arith, length-append c.header c.entry, v.0.whole_header)

-- The bytes of one whole collection or more are those of the converted collections after the call.
pub be_to_cpu_chunk-collections :
    (c : Collection) (cs : List Collection) (tail : List ℕ)
    → All IsCollection (c ∷ cs)
    → be_to_cpu_chunk (some (chunk_bytes (c ∷ cs) ++ tail)) (length (chunk_bytes (c ∷ cs)))
      ≡ some (success, some (chunk_bytes (map convert (c ∷ cs)) ++ tail))
unfolding be_to_cpu_chunk
be_to_cpu_chunk-collections c cs tail v = rw (
  le→ltb (length (chunk_bytes (c ∷ cs))) 12 (at_least_12 v.0),
  swap_collections-chunk (c ∷ cs) (length (chunk_bytes (c ∷ cs)) + 1) tail v (omega arith),
)
  where
    at_least_12 : IsCollection c → 12 ≤ length (chunk_bytes (c ∷ cs))
    at_least_12 w =
        unfold chunk_bytes in
        omega (
          arith,
          length-append (to_bytes c) (chunk_bytes cs),
          length-append c.header c.entry,
          w.whole_header,
        )
