-- ===== src/Collection/ChunkParse.antt =====
-- The chunks that be_to_cpu_chunk (cmp_data_types.c) accepts.
use mathlib.Core.Option
use mathlib.Core.List.{append_assoc}
use cmp_tool.Base.{
  ℕ, zero, suc, ◌+◌, ◌-◌, ◌≤◌, ◌≡◌, ◌⊎◌, inl, inr, refl, sym, ap, ap₂, ◌∙◌, arith, List, [], ◌∷◌,
  ◌++◌, Option, none, some, length, take, drop, length-append, true, false, ltb, leb, if◌then◌else◌,
  All, Bool-cases, length-take, length-drop, ◌==◌, take-append-drop, drop-drop,
}
use cmp_tool.Collection.Header.{
  Status, success, failure, Updated, cmp_col_get_subservice, cmp_col_get_data_length,
  cmp_col_get_size, extract_bits,
}
use cmp_tool.Collection.DataType.{convert_subservice_to_cmp_data_type}
use cmp_tool.Collection.Swap.{be_to_cpu_data_type}
use cmp_tool.Collection.DataLaws.{is_convertible, data_type_refused}
use cmp_tool.Collection.SwapChunk.{
  Swapped, behind, next_collection, swap_collections, be_to_cpu_chunk,
}
use cmp_tool.Decoder.Reader.{read_be}
use cmp_tool.Collection.ChunkLaws.{
  read_be-append, Collection, IsCollection, chunk_bytes, to_bytes, data_type_of,
}

-- What a round that succeeds leaves for the next one.
next_collection-eq-success :
    (rest : List ℕ) (size : ℕ) (u : Updated) (later : Swapped) (rest' : List ℕ)
    → next_collection rest size u later ≡ some (success, rest')
    → (b : List ℕ) × (l : List ℕ) × (u ≡ (success, some b)) × (later ≡ some (success, l))
unfolding next_collection
next_collection-eq-success rest size (success, some b) later rest' e = later_success later e
  where
    later_success :
        (o : Swapped)
        → behind (take 12 rest ++ take size b) o ≡ some (success, rest')
        → (c : List ℕ) × (l : List ℕ) × ◌≡◌ {A = Updated} (success, some b) (success, some c)
          × (o ≡ some (success, l))
    later_success none p = absurd (cc p)
    later_success (some (s, l)) p = (b, l, refl, cc p)
next_collection-eq-success rest size (success, none) later rest' e = absurd (cc e)
next_collection-eq-success rest size (_, b) later rest' e = absurd (cc e)

-- The first collection of the bytes.
abbrev first_of : List ℕ → Collection
first_of rest = record {
  header = take 12 rest;
  entry = take (cmp_col_get_data_length rest) (drop 12 rest);
}

split_first :
    (rest : List ℕ) (n : ℕ) → (take 12 rest ++ take n (drop 12 rest)) ++ drop (12 + n) rest ≡ rest
split_first rest n =
    append_assoc (take 12 rest) (take n (drop 12 rest)) (drop (12 + n) rest)
    ∙ ap (λ (l : List ℕ). take 12 rest ++ (take n (drop 12 rest) ++ l)) (sym (drop-drop n 12 rest))
    ∙ ap (λ (l : List ℕ). take 12 rest ++ l) (take-append-drop n (drop 12 rest))
    ∙ take-append-drop 12 rest

-- A round that succeeds: the end of the chunk, or a whole collection and a later round.
swap_collections-eq-success :
    (fuel : ℕ) (rest : List ℕ) (left : ℕ) (rest' : List ℕ)
    → swap_collections (suc fuel) rest left ≡ some (success, rest')
    → (left ≡ 0)
      ⊎ ((12 ≤ left)
          × (cmp_col_get_size rest ≤ left)
          × (is_convertible
                (convert_subservice_to_cmp_data_type (cmp_col_get_subservice rest))
                (cmp_col_get_data_length rest)
              ≡ true)
          × (l : List ℕ) × (swap_collections fuel
                (drop (cmp_col_get_size rest) rest)
                (left - cmp_col_get_size rest)
              ≡ some (success, l)))
unfolding swap_collections
swap_collections-eq-success fuel rest left rest' e = elim (Bool-cases (leb 12 left)) [
  | inr short ↦ inl (ended (rw short at e))
  | inl long ↦ elim (Bool-cases (ltb left (cmp_col_get_size rest))) [
    | inl over ↦ absurd (cc (rw (long, over) at e))
    | inr fits ↦
        let (b, l, u, later) =
          next_collection-eq-success rest (cmp_col_get_data_length rest) _ _ rest'
            (rw (long, fits) at e) in
        inr (ground arith, ground arith, convertible b u, l, later)
  ]
]
  where
    ended :
        ◌≡◌ {A = Swapped}
          (some (if left == 0 then success else failure, rest))
          (some (success, rest'))
        → left ≡ 0
    ended p = ground arith

    convertible :
        (b : List ℕ)
        → be_to_cpu_data_type
            (some (drop 12 rest))
            (cmp_col_get_data_length rest)
            (convert_subservice_to_cmp_data_type (cmp_col_get_subservice rest))
          ≡ (success, some b)
        → is_convertible
            (convert_subservice_to_cmp_data_type (cmp_col_get_subservice rest))
            (cmp_col_get_data_length rest)
          ≡ true
    convertible b u =
        elim (Bool-cases (
          is_convertible (convert_subservice_to_cmp_data_type (cmp_col_get_subservice rest))
            (cmp_col_get_data_length rest))) [
              | inl ok ↦ ok
              | inr bad ↦ absurd (cc (data_type_refused _ (drop 12 rest) _ bad, u))
            ]

read_be-take :
    (rest : List ℕ) (at n : ℕ)
    → at + n ≤ 12
    → 12 ≤ length rest
    → read_be (take 12 rest) at n ≡ read_be rest at n
read_be-take rest at n h l =
    sym (read_be-append (take 12 rest) (drop 12 rest) at n (omega (arith, length-take 12 rest)))
    ∙ ap (λ (b : List ℕ). read_be b at n) (take-append-drop 12 rest)

first_of-IsCollection :
    (rest : List ℕ)
    → 12 ≤ length rest
    → cmp_col_get_size rest ≤ length rest
    → is_convertible
        (convert_subservice_to_cmp_data_type (cmp_col_get_subservice rest))
        (cmp_col_get_data_length rest)
      ≡ true
    → IsCollection (first_of rest)
unfolding cmp_col_get_size
first_of-IsCollection rest long fits ok = record {
  whole_header = omega (arith, length-take 12 rest);
  announced = same_length ∙ sym entry_length;
  whole_samples = ap₂ is_convertible same_type entry_length ∙ ok;
}
  where
    entry_length :
        length (take (cmp_col_get_data_length rest) (drop 12 rest)) ≡ cmp_col_get_data_length rest
    entry_length =
        omega
          (arith, length-take (cmp_col_get_data_length rest) (drop 12 rest), length-drop 12 rest)

    same_length : cmp_col_get_data_length (take 12 rest) ≡ cmp_col_get_data_length rest
    same_length = unfold cmp_col_get_data_length in read_be-take rest 10 2 (omega arith) long

    same_type :
        data_type_of (take 12 rest)
        ≡ convert_subservice_to_cmp_data_type (cmp_col_get_subservice rest)
    same_type =
        unfold data_type_of cmp_col_get_subservice in
        ap (λ (w : ℕ). convert_subservice_to_cmp_data_type (extract_bits 9 6 w))
          (read_be-take rest 8 2 (omega arith) long)

no_fuel : (rest : List ℕ) (left : ℕ) → swap_collections zero rest left ≡ none
unfolding swap_collections
no_fuel rest left = refl

-- The bytes that the loop accepts are those of whole collections.
pub swap_collections_accepts :
    (fuel : ℕ) (rest : List ℕ) (left : ℕ) (rest' : List ℕ)
    → left ≤ length rest
    → swap_collections fuel rest left ≡ some (success, rest')
    → (cs : List Collection) × All IsCollection cs
      × (rest ≡ chunk_bytes cs ++ drop left rest)
      × (length (chunk_bytes cs) ≡ left)
unfolding chunk_bytes
swap_collections_accepts zero rest left rest' l e = absurd (cc (no_fuel rest left, e))
swap_collections_accepts (suc fuel) rest left rest' l e =
    elim (swap_collections-eq-success fuel rest left rest' e) [
      | inl ended ↦ ([], tt, ap (λ (n : ℕ). drop n rest) (sym ended), sym ended)
      | inr (long, fits, ok, l', later) ↦
          let size : ℕ = cmp_col_get_size rest in
          let v : IsCollection (first_of rest) =
            first_of-IsCollection rest (omega arith) (omega arith) ok in
          let split : to_bytes (first_of rest) ++ drop size rest ≡ rest =
            unfold cmp_col_get_size in split_first rest (cmp_col_get_data_length rest) in
          let (cs, vs, parts, whole) =
            swap_collections_accepts fuel (drop size rest) (left - size) l'
              (omega (arith, length-drop size rest)) later in
          (
            first_of rest ∷ cs,
            (v, vs),
            sym split
                ∙ ap (λ (b : List ℕ). to_bytes (first_of rest) ++ b)
                    (parts
                      ∙ ap (λ (b : List ℕ). chunk_bytes cs ++ b)
                          (drop-drop (left - size) size rest
                            ∙ ap (λ (n : ℕ). drop n rest) (omega arith)))
                ∙ sym (append_assoc (to_bytes (first_of rest)) (chunk_bytes cs) (drop left rest)),
            length-append (to_bytes (first_of rest)) (chunk_bytes cs)
                ∙ omega (
                  arith,
                  length-append (to_bytes (first_of rest)) (drop size rest),
                  ap length split,
                  length-drop size rest,
                ),
          )
    ]

be_to_cpu_chunk-short :
    (bytes : List ℕ) (n : ℕ)
    → ltb n 12 ≡ true
    → be_to_cpu_chunk (some bytes) n ≡ some (failure, some bytes)
unfolding be_to_cpu_chunk
be_to_cpu_chunk-short bytes n p = rw p

-- If be_to_cpu_chunk succeeds on a buffer that holds the chunk, then the chunk is the bytes of
-- one whole collection or more, each with a header of 12 bytes that announces the length of its
-- data and with whole samples of its data type.
pub be_to_cpu_chunk_accepts :
    (bytes : List ℕ) (chunk_size : ℕ) (o : Option (List ℕ))
    → chunk_size ≤ length bytes
    → be_to_cpu_chunk (some bytes) chunk_size ≡ some (success, o)
    → (c : Collection) × (cs : List Collection) × All IsCollection (c ∷ cs)
      × (bytes ≡ chunk_bytes (c ∷ cs) ++ drop chunk_size bytes)
      × (length (chunk_bytes (c ∷ cs)) ≡ chunk_size)
be_to_cpu_chunk_accepts bytes n o l e =
    let (r, run) = loop_ran in
    let (cs, vs, parts, whole) = swap_collections_accepts (n + 1) bytes n r l run in
    not_empty cs vs parts whole
  where
    ran_to :
        (s : Swapped)
        → Option.map {B = Updated} (λ (r : Status × List ℕ). (r.0, some r.1)) s ≡ some (success, o)
        → (r : List ℕ) × (s ≡ some (success, r))
    ran_to none p = absurd (cc p)
    ran_to (some (s, r)) p = (r, cc p)

    long : ltb n 12 ≡ false
    long = elim (Bool-cases (ltb n 12)) [
      | inr p ↦ p
      | inl p ↦ absurd (cc (be_to_cpu_chunk-short bytes n p, e))
    ]

    loop_ran : (r : List ℕ) × (swap_collections (n + 1) bytes n ≡ some (success, r))
    loop_ran = ran_to (swap_collections (n + 1) bytes n) (unfold be_to_cpu_chunk in rw long at e)

    not_empty :
        (cs : List Collection)
        → All IsCollection cs
        → bytes ≡ chunk_bytes cs ++ drop n bytes
        → length (chunk_bytes cs) ≡ n
        → (c : Collection) × (ds : List Collection) × All IsCollection (c ∷ ds)
          × (bytes ≡ chunk_bytes (c ∷ ds) ++ drop n bytes)
          × (length (chunk_bytes (c ∷ ds)) ≡ n)
    not_empty [] vs parts whole = absurd (unfold chunk_bytes in ground (arith, long))
    not_empty (c ∷ ds) vs parts whole = (c, ds, vs, parts, whole)
