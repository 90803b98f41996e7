-- ===== src/Collection/SwapLaws.antt =====
-- The order of bytes in samples: the conversions of cmp_data_types.c against themselves.
use mathlib.Core.List.{reverse, reverse-cons, reverse-reverse, append_assoc}
use cmp_tool.Base.{
  ℕ, zero, suc, ◌+◌, ◌-◌, ◌*◌, ◌≤◌, ◌≡◌, refl, sym, ap, ap₂, ◌∙◌, arith, List, [], ◌∷◌, ◌++◌,
  length, take, drop, length-append, length-take, length-drop, take-append, drop-append,
  take-append-drop,
}
use cmp_tool.Collection.DataType.{sum}
use cmp_tool.Collection.Swap.{swap_members, swap_samples}

pub length-reverse {ℓ} : {A : Type ℓ} (xs : List A) → length (reverse xs) ≡ length xs
length-reverse [] = refl
length-reverse (x ∷ xs) =
    ap length (reverse-cons x xs)
    ∙ length-append (reverse xs) (x ∷ [])
    ∙ omega (arith, length-reverse xs)

length-parts : (w : ℕ) (b : List ℕ) → length (take w b) + length (drop w b) ≡ length b
length-parts w b = sym (length-append (take w b) (drop w b)) ∙ ap length (take-append-drop w b)

pub length-swap_members :
    (widths bytes : List ℕ) → length (swap_members widths bytes) ≡ length bytes
unfolding swap_members
length-swap_members [] bytes = refl
length-swap_members (w ∷ widths) bytes =
    length-append (reverse (take w bytes)) (swap_members widths (drop w bytes))
    ∙ omega (
      arith,
      length-reverse (take w bytes),
      length-swap_members widths (drop w bytes),
      length-parts w bytes,
    )

length-take_of_le : (n : ℕ) (xs : List ℕ) → n ≤ length xs → length (take n xs) ≡ n
length-take_of_le n xs h = omega (arith, length-take n xs)

pub swap_members-swap_members :
    (widths bytes : List ℕ)
    → sum widths ≤ length bytes
    → swap_members widths (swap_members widths bytes) ≡ bytes
unfolding swap_members sum
swap_members-swap_members [] bytes h = refl
swap_members-swap_members (w ∷ widths) bytes h =
    ap₂ (λ (x : List ℕ) (y : List ℕ). reverse x ++ swap_members widths y)
      (take-append w (reverse (take w bytes)) (swap_members widths (drop w bytes)) front)
      (drop-append w (reverse (take w bytes)) (swap_members widths (drop w bytes)) front)
    ∙ ap₂ ◌++◌ (reverse-reverse (take w bytes))
        (swap_members-swap_members widths (drop w bytes) (omega (arith, length-drop w bytes)))
    ∙ take-append-drop w bytes
  where
    front : w ≡ length (reverse (take w bytes))
    front = omega (arith, length-reverse (take w bytes), length-take_of_le w bytes)

pub length-swap_samples :
    (widths : List ℕ) (samples : ℕ) (bytes : List ℕ)
    → length (swap_samples widths samples bytes) ≡ length bytes
unfolding swap_samples
length-swap_samples widths zero bytes = refl
length-swap_samples widths (suc n) bytes =
    length-append (swap_members widths (take (sum widths) bytes)) _
    ∙ omega (
      arith,
      length-swap_members widths (take (sum widths) bytes),
      length-swap_samples widths n (drop (sum widths) bytes),
      length-parts (sum widths) bytes,
    )

one_sample : (n s l : ℕ) → suc n * s ≤ l → s ≤ l
one_sample n s l h = grind arith

later_samples : (n s l : ℕ) → suc n * s ≤ l → n * s ≤ l - s
later_samples n s l h = grind arith

-- The conversion is its own inverse.
pub swap_samples-swap_samples :
    (widths : List ℕ) (samples : ℕ) (bytes : List ℕ)
    → samples * sum widths ≤ length bytes
    → swap_samples widths samples (swap_samples widths samples bytes) ≡ bytes
unfolding swap_samples
swap_samples-swap_samples widths zero bytes h = refl
swap_samples-swap_samples widths (suc n) bytes h =
    ap₂ (λ (x : List ℕ) (y : List ℕ). swap_members widths x ++ swap_samples widths n y)
      (take-append size (swap_members widths (take size bytes)) _ front)
      (drop-append size (swap_members widths (take size bytes)) _ front)
    ∙ ap₂ ◌++◌ (swap_members-swap_members widths (take size bytes) (omega (arith, whole))) (
        swap_samples-swap_samples widths n (drop size bytes)
          (omega (arith, length-drop size bytes, later_samples n size (length bytes))))
    ∙ take-append-drop size bytes
  where
    size : ℕ
    size = sum widths

    whole : length (take size bytes) ≡ size
    whole = length-take_of_le size bytes (one_sample n size (length bytes) h)

    front : size ≡ length (swap_members widths (take size bytes))
    front = sym (length-swap_members widths (take size bytes) ∙ whole)

take-append_left : (n : ℕ) (xs ys : List ℕ) → n ≤ length xs → take n (xs ++ ys) ≡ take n xs
take-append_left zero xs ys h = refl
take-append_left (suc n) [] ys h = absurd (omega arith)
take-append_left (suc n) (x ∷ xs) ys h = rw (take-append_left n xs ys (omega arith))

drop-append_left : (n : ℕ) (xs ys : List ℕ) → n ≤ length xs → drop n (xs ++ ys) ≡ drop n xs ++ ys
drop-append_left zero xs ys h = refl
drop-append_left (suc n) [] ys h = absurd (omega arith)
drop-append_left (suc n) (x ∷ xs) ys h = drop-append_left n xs ys (omega arith)

-- What follows the samples stays.
pub swap_samples-append :
    (widths : List ℕ) (samples : ℕ) (xs ys : List ℕ)
    → samples * sum widths ≤ length xs
    → swap_samples widths samples (xs ++ ys) ≡ swap_samples widths samples xs ++ ys
unfolding swap_samples
swap_samples-append widths zero xs ys h = refl
swap_samples-append widths (suc n) xs ys h =
    let fits : sum widths ≤ length xs = one_sample n (sum widths) (length xs) h in
    ap₂ (λ (x : List ℕ) (y : List ℕ). swap_members widths x ++ swap_samples widths n y)
      (take-append_left (sum widths) xs ys fits) (drop-append_left (sum widths) xs ys fits)
    ∙ ap (λ (l : List ℕ). swap_members widths (take (sum widths) xs) ++ l)
        (swap_samples-append widths n (drop (sum widths) xs) ys
          (omega (arith, length-drop (sum widths) xs, later_samples n (sum widths) (length xs))))
    ∙ sym (append_assoc (swap_members widths (take (sum widths) xs)) _ ys)
