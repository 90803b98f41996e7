-- ===== src/Encoder/CodeWord/Unary.antt =====
-- The digits of a code word: a unary number, a zero and a remainder.
use cmp_tool.Base.{ℕ, zero, suc, ◌+◌, ◌-◌, ◌*◌, ◌^◌, ◌≤◌, ◌<◌, ◌≡◌, refl, sym, ap, ap₂, ◌∙◌, arith}
use cmp_tool.Base.{Bool, true, false, List, ◌∷◌, ◌++◌, length, replicate}
use cmp_tool.Base.{sub32, shl32}
use cmp_tool.Base.Bits.{bit, bits}
use cmp_tool.Base.Bits.Digit.{bit-complement, bit-zero}
use cmp_tool.Base.Bits.Digits.{bits_fields}
use cmp_tool.Golomb.{length-unary, pow-add}
use cmp_tool.Support.Log.Laws.{bit_top}
use cmp_tool.Encoder.Word.{CodeWord}
use native.Mathlib.Nat.{mod-eq_of_lt, pow-suc, one-le-pow, pow-le-pow_right}

bits_all : (n v : ℕ) → ((k : ℕ) → k < n → bit v k ≡ true) → bits n v ≡ replicate n true
unfolding bits
bits_all zero v h = refl
bits_all (suc n) v h = ap₂ ◌∷◌ (h n (omega arith)) (bits_all n v (λ k p. h k (omega arith)))

pub bits-ones : (q : ℕ) → bits q (2 ^ q - 1) ≡ replicate q true
bits-ones q = bits_all q (2 ^ q - 1) λ k h.
    ap (λ (y : ℕ). bit y k) (minus q)
    ∙ bit-complement q 0 k (one-le-pow q 2 (omega arith))
    ∙ ground (arith, bit-zero k)
  where
    minus : (n : ℕ) → 2 ^ n - 1 ≡ 2 ^ n - 1 - 0
    minus n = omega arith

-- A unary quotient in front of `n` digits.
pub unary_digits :
    (q n y : ℕ) → y < 2 ^ n → bits (q + n) ((2 ^ q - 1) * 2 ^ n + y) ≡ replicate q true ++ bits n y
unary_digits q n y h =
    bits_fields q n (2 ^ q - 1) y h ∙ ap (λ (l : List Bool). l ++ bits n y) (bits-ones q)

-- A zero in front of a number that needs no digit there.
pub zero_digit : (n y : ℕ) → y < 2 ^ n → bits (suc n) y ≡ false ∷ bits n y
unfolding bits
zero_digit n y h =
    ap (λ (b : Bool). b ∷ bits n y) (bit_top n y (omega (arith, pow-suc 2 n)) ∙ ground arith)

-- A code word is the digits `l`.
abbrev pub HasDigits : CodeWord → List Bool → Type 0
HasDigits w l = (w.len ≡ length l) × (bits w.len w.cw ≡ l)

-- The unary part shifted into place does not leave the 32-bit word.
product_le : (a b : ℕ) → 0 < b → a ≤ a * b
product_le a b h = grind arith

pub unary_fits : (q n : ℕ) → q + n ≤ 32 → 2 ^ q * 2 ^ n ≤ 2 ^ 32
unary_fits q n h = rw (← pow-add q n) (pow-le-pow_right {n = 2} (omega arith) h)

pub product_fits : (a b : ℕ) → 0 < a → 0 < b → a * b ≤ 2 ^ 32 → (a - 1) * b < 2 ^ 32
product_fits a b ha hb h = grind arith

pub shift_unary : (q n : ℕ) → q + n ≤ 32 → shl32 (sub32 (shl32 1 q) 1) n ≡ (2 ^ q - 1) * 2 ^ n
shift_unary q n h = rw minus_one (
    mod-eq_of_lt (
      product_fits (2 ^ q) (2 ^ n) (one-le-pow q 2 (omega arith)) (one-le-pow n 2 (omega arith))
        (unary_fits q n h)))
  where
    minus_one : sub32 (shl32 1 q) 1 ≡ 2 ^ q - 1
    minus_one = omega (
      arith,
      one-le-pow q 2,
      unary_fits q n h,
      product_le (2 ^ q) (2 ^ n) (one-le-pow n 2 (omega arith)),
    )

pub HasDigits-unary :
    (q n y : ℕ) (w : CodeWord)
    → y < 2 ^ n
    → w.len ≡ q + suc n
    → w.cw ≡ (2 ^ q - 1) * 2 ^ suc n + y
    → HasDigits w (replicate q true ++ (false ∷ bits n y))
HasDigits-unary q n y w h len_eq cw_eq = (
  len_eq ∙ sym (length-unary q n y),
  ap₂ bits len_eq cw_eq
      ∙ unary_digits q (suc n) y (omega (arith, pow-suc 2 n))
      ∙ ap (λ (l : List Bool). replicate q true ++ l) (zero_digit n y h),
)
