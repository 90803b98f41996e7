-- ===== src/Collection/Reversed.antt =====
-- The order of bytes in a converted chunk (be_to_cpu_chunk of cmp_data_types.c), byte by byte.
use mathlib.Core.List.{reverse, reverse-cons}
use cmp_tool.Base.{
  ℕ, zero, suc, ◌+◌, ◌-◌, ◌*◌, ◌/◌, ◌≤◌, ◌<◌, ◌≡◌, refl, ap, ◌∙◌, arith, List, [], ◌∷◌, ◌++◌, some,
  map, All, length, take, drop, get_or, length-take, length-drop, get_or-append_left,
  get_or-append_right, get_or-drop, get_or-take,
}
use cmp_tool.Collection.Header.{success}
use cmp_tool.Collection.DataType.{sum, layout, size_of_a_sample}
use cmp_tool.Collection.Swap.{swap_members, swap_samples}
use cmp_tool.Collection.SwapLaws.{length-reverse, length-swap_members}
use cmp_tool.Collection.DataLaws.{converted, length-converted}
use cmp_tool.Collection.SwapChunk.{be_to_cpu_chunk}
use cmp_tool.Collection.ChunkLaws.{
  Collection, IsCollection, data_type_of, convert, chunk_bytes, be_to_cpu_chunk-collections,
}
use native.Mathlib.Decide.{dec_lt}
use native.Mathlib.Nat.{div-add-mod'}

reverse-at :
    (xs : List ℕ) (j : ℕ)
    → j < length xs
    → get_or (reverse xs) j 0 ≡ get_or xs (length xs - 1 - j) 0
reverse-at [] j h = absurd (omega arith)
reverse-at (x ∷ xs) j h =
    ap (λ (l : List ℕ). get_or l j 0) (reverse-cons x xs) ∙ elim (dec_lt j (length xs)) [
      | yes l ↦
          get_or-append_left (reverse xs) (x ∷ []) j 0 (omega (arith, length-reverse xs))
          ∙ reverse-at xs j l
          ∙ ap (λ (k : ℕ). get_or (x ∷ xs) k 0) (inside l)
      | no g ↦
          get_or-append_right (reverse xs) (x ∷ []) j 0 (omega (arith, length-reverse xs))
          ∙ ap (λ (k : ℕ). get_or (x ∷ []) k 0) (last g)
          ∙ ap (λ (k : ℕ). get_or (x ∷ xs) k 0) (first g)
    ]
  where
    inside : j < length xs → suc (length xs - 1 - j) ≡ length (x ∷ xs) - 1 - j
    inside l = omega arith

    last : (j < length xs → ⊥) → j - length (reverse xs) ≡ 0
    last g = omega (arith, length-reverse xs)

    first : (j < length xs → ⊥) → 0 ≡ length (x ∷ xs) - 1 - j
    first g = omega arith

-- A byte of a member is the one at the same distance from its other end.
swap_members-at :
    (widths bytes : List ℕ) (k j : ℕ)
    → k < length widths
    → j < get_or widths k 0
    → sum widths ≤ length bytes
    → get_or (swap_members widths bytes) (sum (take k widths) + j) 0
      ≡ get_or bytes (sum (take k widths) + (get_or widths k 0 - 1 - j)) 0
unfolding swap_members sum
swap_members-at [] bytes k j h l fits = absurd (omega arith)
swap_members-at (w ∷ widths) bytes zero j h l fits =
    get_or-append_left (reverse (take w bytes)) (swap_members widths (drop w bytes)) (0 + j) 0
      (omega (arith, whole))
    ∙ ap (λ (n : ℕ). get_or (reverse (take w bytes)) n 0) (omega arith)
    ∙ reverse-at (take w bytes) j (omega (arith, taken))
    ∙ get_or-take w bytes (length (take w bytes) - 1 - j) 0 (omega (arith, taken))
    ∙ ap (λ (n : ℕ). get_or bytes n 0) (omega (arith, taken))
  where
    taken : length (take w bytes) ≡ w
    taken = omega (arith, length-take w bytes)

    whole : length (reverse (take w bytes)) ≡ w
    whole = length-reverse (take w bytes) ∙ taken
swap_members-at (w ∷ widths) bytes (suc k) j h l fits =
    get_or-append_right (reverse (take w bytes)) (swap_members widths (drop w bytes)) _ 0
      (omega (arith, whole))
    ∙ ap (λ (n : ℕ). get_or (swap_members widths (drop w bytes)) n 0) (omega (arith, whole))
    ∙ swap_members-at widths (drop w bytes) k j (omega arith) l (omega (arith, length-drop w bytes))
    ∙ get_or-drop w bytes _ 0
    ∙ ap (λ (n : ℕ). get_or bytes n 0) (omega arith)
  where
    whole : length (reverse (take w bytes)) ≡ w
    whole = length-reverse (take w bytes) ∙ omega (arith, length-take w bytes)

offset-lt :
    (widths : List ℕ) (k j : ℕ)
    → k < length widths
    → j < get_or widths k 0
    → sum (take k widths) + j < sum widths
unfolding sum
offset-lt [] k j h l = absurd (omega arith)
offset-lt (w ∷ widths) zero j h l = omega arith
offset-lt (w ∷ widths) (suc k) j h l = omega (arith, offset-lt widths k j (omega arith) l)

swap_samples-at :
    (widths : List ℕ) (n : ℕ) (bytes : List ℕ) (i k j : ℕ)
    → i < n
    → n * sum widths ≤ length bytes
    → k < length widths
    → j < get_or widths k 0
    → get_or (swap_samples widths n bytes) (i * sum widths + (sum (take k widths) + j)) 0
      ≡ get_or bytes (i * sum widths + (sum (take k widths) + (get_or widths k 0 - 1 - j))) 0
unfolding swap_samples
swap_samples-at widths zero bytes i k j h fits l b = absurd (omega arith)
swap_samples-at widths (suc n) bytes zero k j h fits l b =
    get_or-append_left (swap_members widths (take (sum widths) bytes)) _ _ 0
      (omega (arith, whole, offset-lt widths k j l b))
    ∙ ap (λ (m : ℕ). get_or (swap_members widths (take (sum widths) bytes)) m 0) (omega arith)
    ∙ swap_members-at widths (take (sum widths) bytes) k j l b (omega (arith, taken))
    ∙ get_or-take (sum widths) bytes _ 0
        (offset-lt widths k (get_or widths k 0 - 1 - j) l (omega arith))
    ∙ ap (λ (m : ℕ). get_or bytes m 0) (omega arith)
  where
    taken : length (take (sum widths) bytes) ≡ sum widths
    taken = omega (arith, length-take (sum widths) bytes)

    whole : length (swap_members widths (take (sum widths) bytes)) ≡ sum widths
    whole = length-swap_members widths (take (sum widths) bytes) ∙ taken
swap_samples-at widths (suc n) bytes (suc i) k j h fits l b =
    get_or-append_right (swap_members widths (take (sum widths) bytes))
      (swap_samples widths n (drop (sum widths) bytes)) _ 0 (omega (arith, whole))
    ∙ ap (λ (m : ℕ). get_or (swap_samples widths n (drop (sum widths) bytes)) m 0)
        (omega (arith, whole))
    ∙ swap_samples-at widths n (drop (sum widths) bytes) i k j (omega arith)
        (omega (arith, length-drop (sum widths) bytes)) l b
    ∙ get_or-drop (sum widths) bytes _ 0
    ∙ ap (λ (m : ℕ). get_or bytes m 0) (omega arith)
  where
    whole : length (swap_members widths (take (sum widths) bytes)) ≡ sum widths
    whole =
        length-swap_members widths (take (sum widths) bytes)
        ∙ omega (arith, length-take (sum widths) bytes)

-- The same collection, where every member of every sample has its bytes in the opposite order.
pub record IsReversed (c c' : Collection) : Type 0 where
  pub same_header : c'.header ≡ c.header
  pub same_length : length c'.entry ≡ length c.entry
  pub opposite :
      (i k j : ℕ)
      → i < length c.entry / size_of_a_sample (data_type_of c.header)
      → k < length (layout (data_type_of c.header))
      → j < get_or (layout (data_type_of c.header)) k 0
      → get_or c'.entry
          (i * size_of_a_sample (data_type_of c.header)
            + (sum (take k (layout (data_type_of c.header))) + j))
          0
        ≡ get_or c.entry
            (i * size_of_a_sample (data_type_of c.header)
              + (sum (take k (layout (data_type_of c.header)))
                  + (get_or (layout (data_type_of c.header)) k 0 - 1 - j)))
            0

convert-IsReversed : (c : Collection) → IsReversed c (convert c)
unfolding size_of_a_sample converted
convert-IsReversed c = record {
  same_header = refl;
  same_length = length-converted (data_type_of c.header) c.entry;
  opposite = λ i k j h l b.
      swap_samples-at (layout (data_type_of c.header))
        (length c.entry / sum (layout (data_type_of c.header))) c.entry i k j h
        (whole (length c.entry) (sum (layout (data_type_of c.header)))) l b;
}
  where
    whole : (n d : ℕ) → n / d * d ≤ n
    whole n d = omega (arith, div-add-mod' n d)

abbrev pub AreReversed : List Collection → List Collection → Type 0
AreReversed [] [] = Unit
AreReversed (c ∷ cs) (c' ∷ cs') = IsReversed c c' × AreReversed cs cs'
AreReversed _ _ = ⊥

convert-AreReversed : (cs : List Collection) → AreReversed cs (map convert cs)
convert-AreReversed [] = tt
convert-AreReversed (c ∷ cs) = (convert-IsReversed c, convert-AreReversed cs)

-- For one whole collection or more, each with a header of 12 bytes that announces the length of
-- its data and with whole samples of its data type, be_to_cpu_chunk succeeds; the headers, the
-- lengths of the data and what follows the chunk stay, and each byte of each member of each
-- sample is the one at the same distance from the other end of that member before.
pub be_to_cpu_chunk-AreReversed :
    (c : Collection) (cs : List Collection) (tail : List ℕ)
    → All IsCollection (c ∷ cs)
    → (cs' : List Collection) × (be_to_cpu_chunk
          (some (chunk_bytes (c ∷ cs) ++ tail))
          (length (chunk_bytes (c ∷ cs)))
        ≡ some (success, some (chunk_bytes cs' ++ tail)))
      × AreReversed (c ∷ cs) cs'
be_to_cpu_chunk-AreReversed c cs tail v =
    (map convert (c ∷ cs), be_to_cpu_chunk-collections c cs tail v, convert-AreReversed (c ∷ cs))
