-- ===== src/Base/Bits/Digits.antt =====
-- Lists of digits: their length, their elements, and how they split.
use cmp_tool.Base.Bits.{bit, bits}
use cmp_tool.Base.Bits.Digit.{bit-div, bit-mod, bit-zero, bit_ext}
use cmp_tool.Base.Tests.{lt→ltb}
use cmp_tool.Base.Lists.{length, get_or, replicate}
use Prim.Native.Nat.{ℕ, zero, suc, ◌+◌, ◌-◌, ◌*◌, ◌/◌, ◌%◌, ◌^◌, ◌<◌}
use mathlib.Core.Path.{◌≡◌, refl, sym, ap, ap₂, ◌∙◌}
use mathlib.Core.Bool.{Bool, false}
use mathlib.Core.List.{List, ◌∷◌, ◌++◌}
use native.Mathlib.Omega.{arith}
use native.Mathlib.Nat.{one-le-pow}

pub length-bits : (n v : ℕ) → length (bits n v) ≡ n
unfolding bits
length-bits zero v = refl
length-bits (suc n) v = ap suc (length-bits n v)

pub get_or-bits : (n v i : ℕ) → i < n → get_or (bits n v) i false ≡ bit v (n - 1 - i)
unfolding bits
get_or-bits zero v i h = absurd (omega arith)
get_or-bits (suc n) v zero h = ap (bit v) (omega arith)
get_or-bits (suc n) v (suc i) h = get_or-bits n v i (omega arith) ∙ ap (bit v) (omega arith)

pub bits_ext : (n a b : ℕ) → ((k : ℕ) → k < n → bit a k ≡ bit b k) → bits n a ≡ bits n b
unfolding bits
bits_ext zero a b h = refl
bits_ext (suc n) a b h = ap₂ ◌∷◌ (h n (omega arith)) (bits_ext n a b (λ k p. h k (omega arith)))

pub bits-mod : (n v : ℕ) → bits n (v % 2 ^ n) ≡ bits n v
bits-mod n v = bits_ext n (v % 2 ^ n) v (λ k p. bit-mod n v k ∙ rw (lt→ltb k n p))

-- A list of digits determines the number.
pub bits_injective : (n a b : ℕ) → a < 2 ^ n → b < 2 ^ n → bits n a ≡ bits n b → a ≡ b
bits_injective n a b p q e = bit_ext n a b p q same
  where
    place : (x y : ℕ) → y < x → x - 1 - (x - 1 - y) ≡ y
    place x y h = omega arith

    same : (k : ℕ) → k < n → bit a k ≡ bit b k
    same k h =
        ap (bit a) (sym (place n k h))
        ∙ sym (get_or-bits n a (n - 1 - k) (omega arith))
        ∙ ap (λ (l : List Bool). get_or l (n - 1 - k) false) e
        ∙ get_or-bits n b (n - 1 - k) (omega arith)
        ∙ ap (bit b) (place n k h)

pub bits-append : (i j v : ℕ) → bits (i + j) v ≡ bits i (v / 2 ^ j) ++ bits j v
unfolding bits
bits-append zero j v = ap (λ (n : ℕ). bits n v) (omega arith)
bits-append (suc i) j v =
    ap (λ (n : ℕ). bits n v) (shift i j) ∙ ap₂ ◌∷◌ (sym (bit-div j v i)) (bits-append i j v)
  where
    shift : (a b : ℕ) → suc a + b ≡ suc (a + b)
    shift a b = omega arith

-- The digits of two fields put side by side.
pub bits_fields :
    (i j hi lo : ℕ) → lo < 2 ^ j → bits (i + j) (hi * 2 ^ j + lo) ≡ bits i hi ++ bits j lo
bits_fields i j hi lo h =
    bits-append i j (hi * 2 ^ j + lo)
    ∙ ap₂ ◌++◌ (ap (bits i) (grind (arith, one-le-pow j 2)))
        (sym (bits-mod j (hi * 2 ^ j + lo)) ∙ ap (bits j) (grind (arith, one-le-pow j 2)))

pub bits-zero : (n : ℕ) → bits n 0 ≡ replicate n false
unfolding bits
bits-zero zero = refl
bits-zero (suc n) = ap₂ ◌∷◌ (bit-zero n) (bits-zero n)
