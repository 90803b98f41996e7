-- ===== src/Base/Bits/Fields.antt =====
-- `bit_or` of fields and `bit_and` with a mask, as arithmetic, for every width.
use cmp_tool.Base.Bits.Step.{bit_and_step, bit_or_step}
use cmp_tool.Base.Bits.Digit.{half_of_mod}
use Prim.Native.Nat.{
  ℕ, zero, suc, ◌+◌, ◌-◌, ◌*◌, ◌/◌, ◌%◌, ◌^◌, ◌≤◌, ◌<◌, bit_and, bit_or, bit_or-bitwise,
}
use mathlib.Core.Path.{◌≡◌, refl, ap}
use native.Mathlib.Omega.{arith}
use native.Mathlib.Nat.{pow-suc, one-le-pow, mul_comm, div-div-eq-div-mul}

bit_and-zero : (n a : ℕ) → a ≤ n → bit_and a 0 ≡ 0
bit_and-zero n zero h = refl
bit_and-zero zero (suc a) h = absurd (omega arith)
bit_and-zero (suc n) (suc a) h =
    omega (arith, bit_and_step (suc a) 0, bit_and-zero n (suc a / 2) (omega arith))

bit_or-zero : (n a : ℕ) → a ≤ n → bit_or a 0 ≡ a
bit_or-zero n zero h = refl
bit_or-zero zero (suc a) h = absurd (omega arith)
bit_or-zero (suc n) (suc a) h =
    omega (arith, bit_or_step (suc a) 0, bit_or-zero n (suc a / 2) (omega arith))

-- A mask of `k` ones keeps the remainder.
pub bit_and_mask : (k a : ℕ) → bit_and a (2 ^ k - 1) ≡ a % 2 ^ k
bit_and_mask zero a = omega (arith, bit_and-zero a a (omega arith))
bit_and_mask (suc k) a = ground (
  arith,
  bit_and_step a (2 ^ suc k - 1),
  bit_and_mask k (a / 2),
  half_of_mod k a,
  pow-suc 2 k,
  one-le-pow k 2,
)

-- The `or` of a high field and a low field is their sum.
pub bit_or_fields : (k hi lo : ℕ) → lo < 2 ^ k → bit_or (hi * 2 ^ k) lo ≡ hi * 2 ^ k + lo
bit_or_fields zero hi lo h = ground (arith, bit_or-zero (hi * 1) (hi * 1) (omega arith))
bit_or_fields (suc k) hi lo h = ground (
  arith,
  bit_or_step (hi * 2 ^ suc k) lo,
  ap (λ (t : ℕ). hi * t) (pow-suc 2 k),
  pow-suc 2 k,
  bit_or_fields k hi (lo / 2),
)

zero-bit_or : (b : ℕ) → bit_or 0 b ≡ b
zero-bit_or b = bit_or-bitwise 0 b

pub bit_or_fields_low : (k hi lo : ℕ) → lo < 2 ^ k → bit_or lo (hi * 2 ^ k) ≡ hi * 2 ^ k + lo
bit_or_fields_low zero hi zero h = omega (arith, zero-bit_or (hi * 1))
bit_or_fields_low zero hi (suc lo) h = absurd (omega arith)
bit_or_fields_low (suc k) hi lo h = ground (
  arith,
  bit_or_step lo (hi * 2 ^ suc k),
  ap (λ (t : ℕ). hi * t) (pow-suc 2 k),
  pow-suc 2 k,
  bit_or_fields_low k hi (lo / 2),
)

-- A mask of `k` ones above `b` zeros keeps the field there.
pub bit_and_high_mask : (b k a : ℕ) → bit_and a ((2 ^ k - 1) * 2 ^ b) ≡ a / 2 ^ b % 2 ^ k * 2 ^ b
bit_and_high_mask zero k a = ground (arith, bit_and_mask k a)
bit_and_high_mask (suc b) k a = ground (
  arith,
  bit_and_step a ((2 ^ k - 1) * 2 ^ suc b),
  ap (λ (t : ℕ). (2 ^ k - 1) * t) (pow-suc 2 b),
  ap (λ (t : ℕ). a / 2 ^ suc b % 2 ^ k * t) (pow-suc 2 b),
  bit_and_high_mask b k (a / 2),
  half_of_div a b,
)
  where
    half_of_div : (x n : ℕ) → x / 2 ^ suc n ≡ x / 2 / 2 ^ n
    half_of_div x n = rw (pow-suc, mul_comm (2 ^ n) 2, div-div-eq-div-mul)
