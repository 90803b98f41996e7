-- ===== src/Collection/DataLaws.antt =====
-- The conversion of the data of a collection (be_to_cpu_data_type of cmp_data_types.c).
use cmp_tool.Base.{
  ℕ, ◌+◌, ◌*◌, ◌/◌, ◌%◌, ◌≤◌, ◌≡◌, inl, inr, refl, sym, ap, ap₂, subst, ◌∙◌, arith, List, ◌++◌,
  some, length, take, drop, length-append, length-take, drop-append, take-append-drop, ◌==◌, ==_iff,
  Bool, true, false, Bool-cases, ◌&&◌, not,
}
use cmp_tool.Support.Types.{CmpDataType, unknown, chunk, above_chunk}
use cmp_tool.Collection.Header.{success, failure, Updated}
use cmp_tool.Collection.DataType.{sum, layout, size_of_a_sample}
use cmp_tool.Collection.Swap.{swap_samples, be_to_cpus, be_to_cpu_data_type}
use cmp_tool.Collection.SwapLaws.{
  length-swap_samples, swap_samples-swap_samples, swap_samples-append,
}
use cmp_tool.Collection.SwapChunk.{}

-- The data are whole samples of a type with samples.
unfoldable pub is_convertible : CmpDataType → ℕ → Bool
is_convertible t size = not (size_of_a_sample t == 0) && size % size_of_a_sample t == 0

-- The samples of `bytes`, converted.
unfoldable pub converted : CmpDataType → List ℕ → List ℕ
converted t bytes = swap_samples (layout t) (length bytes / size_of_a_sample t) bytes

be_to_cpus-layout :
    (t : CmpDataType) (a : List ℕ) (n : ℕ)
    → (size_of_a_sample t == 0) ≡ false
    → be_to_cpus t a n ≡ (success, some (swap_samples (layout t) n a))
unfolding be_to_cpus layout size_of_a_sample
be_to_cpus-layout unknown a n h = absurd (cc h)
be_to_cpus-layout chunk a n h = absurd (cc h)
be_to_cpus-layout (above_chunk k) a n h = absurd (cc h)
be_to_cpus-layout _ a n h = refl

samples_fit : (s size : ℕ) → size % s ≡ 0 → size / s * s ≡ size
samples_fit s size h = grind arith

-- The three outcomes of the conversion of data.
pub data_type-converted :
    (t : CmpDataType) (d tail : List ℕ)
    → is_convertible t (length d) ≡ true
    → be_to_cpu_data_type (some (d ++ tail)) (length d) t ≡ (success, some (converted t d ++ tail))
unfolding be_to_cpu_data_type is_convertible converted
data_type-converted t d tail h =
    let sized : (size_of_a_sample t == 0) ≡ false = ground arith in
    let whole : (length d % size_of_a_sample t == 0) ≡ true = ground arith in
    rw (
      sized,
      whole,
      be_to_cpus-layout t (d ++ tail) (length d / size_of_a_sample t) sized,
      swap_samples-append (layout t) (length d / size_of_a_sample t) d tail
          (fits ((==_iff (length d % size_of_a_sample t) 0).0 whole)),
    )
  where
    fits :
        length d % size_of_a_sample t ≡ 0
        → length d / size_of_a_sample t * sum (layout t) ≤ length d
    fits e = unfold size_of_a_sample in omega (arith, samples_fit (size_of_a_sample t) (length d) e)

pub data_type_refused :
    (t : CmpDataType) (bytes : List ℕ) (size : ℕ)
    → is_convertible t size ≡ false
    → be_to_cpu_data_type (some bytes) size t ≡ (failure, some bytes)
unfolding be_to_cpu_data_type is_convertible
data_type_refused t bytes size h = ground arith

pub length-converted : (t : CmpDataType) (d : List ℕ) → length (converted t d) ≡ length d
unfolding converted
length-converted t d = length-swap_samples (layout t) (length d / size_of_a_sample t) d

pub converted-converted :
    (t : CmpDataType) (d : List ℕ)
    → is_convertible t (length d) ≡ true
    → converted t (converted t d) ≡ d
unfolding converted is_convertible
converted-converted t d h =
    ap (λ (l : ℕ). swap_samples (layout t) (l / size_of_a_sample t) (converted t d))
      (length-converted t d)
    ∙ swap_samples-swap_samples (layout t) (length d / size_of_a_sample t) d (fits (ground arith))
  where
    fits :
        length d % size_of_a_sample t ≡ 0
        → length d / size_of_a_sample t * sum (layout t) ≤ length d
    fits e = unfold size_of_a_sample in omega (arith, samples_fit (size_of_a_sample t) (length d) e)

-- What a second conversion makes of the result of the first.
abbrev Undone : CmpDataType → ℕ → List ℕ → List ℕ → Type 0
Undone t size bytes bytes' =
    (be_to_cpu_data_type (some bytes') size t ≡ (success, some bytes))
    × (drop size bytes' ≡ drop size bytes)
    × (length bytes' ≡ length bytes)

Undone-append :
    (t : CmpDataType) (d tail : List ℕ)
    → is_convertible t (length d) ≡ true
    → Undone t (length d) (d ++ tail) (converted t d ++ tail)
Undone-append t d tail ok =
    let same : length (converted t d) ≡ length d = length-converted t d in
    let again : is_convertible t (length (converted t d)) ≡ true =
      ap (is_convertible t) same ∙ ok in
    (
      ap (λ (k : ℕ). be_to_cpu_data_type (some (converted t d ++ tail)) k t) (sym same)
          ∙ data_type-converted t (converted t d) tail again
          ∙ ap (λ (x : List ℕ). (success, some (x ++ tail))) (converted-converted t d ok),
      drop-append (length d) (converted t d) tail (sym same)
          ∙ sym (drop-append (length d) d tail refl),
      length-append (converted t d) tail
          ∙ ap (λ (k : ℕ). k + length tail) same
          ∙ sym (length-append d tail),
    )

some_of : {a b : List ℕ} → ◌≡◌ {A = Updated} (success, some a) (success, some b) → a ≡ b
some_of e = cc e

-- A conversion that succeeds is undone by a second one, and leaves what follows the data.
pub be_to_cpu_data_type_undone :
    (bytes bytes' : List ℕ) (size : ℕ) (t : CmpDataType)
    → size ≤ length bytes
    → be_to_cpu_data_type (some bytes) size t ≡ (success, some bytes')
    → (be_to_cpu_data_type (some bytes') size t ≡ (success, some bytes))
      × (drop size bytes' ≡ drop size bytes)
      × (length bytes' ≡ length bytes)
be_to_cpu_data_type_undone bytes bytes' size t l e = elim (Bool-cases (is_convertible t size)) [
  | inr bad ↦ absurd (cc (data_type_refused t bytes size bad, e))
  | inl ok ↦
      let d : List ℕ = take size bytes in
      let tail : List ℕ = drop size bytes in
      let n : size ≡ length d = omega (arith, length-take size bytes) in
      let ok' : is_convertible t (length d) ≡ true = ap (is_convertible t) (sym n) ∙ ok in
      let parts : d ++ tail ≡ bytes = take-append-drop size bytes in
      let result : converted t d ++ tail ≡ bytes' = some_of (
        sym (data_type-converted t d tail ok')
        ∙ ap₂ (λ (b : List ℕ) (k : ℕ). be_to_cpu_data_type (some b) k t) parts (sym n)
        ∙ e) in
      subst (λ (k : ℕ). Undone t k bytes bytes') (sym n)
        (subst (λ (b : List ℕ). Undone t (length d) b bytes') parts
          (subst (λ (b' : List ℕ). Undone t (length d) (d ++ tail) b') result
            (Undone-append t d tail ok')))
]
