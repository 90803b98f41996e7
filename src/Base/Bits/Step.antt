-- ===== src/Base/Bits/Step.antt =====
-- `bit_and` and `bit_or` by their lowest digit. The native operations count down fuel; a unit of it
-- that is left over makes no difference.
use Prim.Native.Nat.{ℕ, zero, suc, ◌+◌, ◌-◌, ◌*◌, ◌/◌, ◌%◌, ◌≤◌, min, max}
use Prim.Native.Nat.{bit_and, bit_or, digits, bit_and-bitwise, bit_or-bitwise}
use mathlib.Core.Path.{◌≡◌, refl, ap, ◌∙◌}
use native.Mathlib.Omega.{arith}

module _ (base : ℕ → ℕ) (digit : ℕ → ℕ → ℕ) where
  spare_unit : (x n y : ℕ) → x ≤ n → digits base digit n x y ≡ digits base digit (suc n) x y
  spare_unit zero n y h = both n
    where
      both : (k : ℕ) → digits base digit k 0 y ≡ digits base digit (suc k) 0 y
      both zero = refl
      both (suc k) = refl
  spare_unit (suc x) zero y h = absurd (omega arith)
  spare_unit (suc x) (suc n) y h =
      ap (λ (r : ℕ). r * 2 + digit (suc x % 2) (y % 2))
        (spare_unit (suc x / 2) n (y / 2) (omega arith))

  spare_fuel : (k x y : ℕ) → digits base digit x x y ≡ digits base digit (k + x) x y
  spare_fuel zero x y = ap (λ (n : ℕ). digits base digit n x y) (omega arith)
  spare_fuel (suc k) x y =
      spare_fuel k x y
      ∙ spare_unit x (k + x) y (omega arith)
      ∙ ap (λ (n : ℕ). digits base digit n x y) (next k x)
    where
      next : (i j : ℕ) → suc (i + j) ≡ suc i + j
      next i j = omega arith

  -- The fuel of a number is enough for its half.
  half_fuel :
      (x y : ℕ) → digits base digit (suc x / 2) (suc x / 2) y ≡ digits base digit x (suc x / 2) y
  half_fuel x y =
      spare_fuel (x - suc x / 2) (suc x / 2) y
      ∙ ap (λ (n : ℕ). digits base digit n (suc x / 2) y) (whole x)
    where
      whole : (j : ℕ) → j - suc j / 2 + suc j / 2 ≡ j
      whole j = omega arith

pub bit_or_step : (x y : ℕ) → bit_or x y ≡ bit_or (x / 2) (y / 2) * 2 + max (x % 2) (y % 2)
bit_or_step zero y = simp bit_or-bitwise (omega arith)
bit_or_step (suc x) y = simp bit_or-bitwise (omega (arith, half_fuel (λ r. r) max x (y / 2)))

pub bit_and_step : (x y : ℕ) → bit_and x y ≡ bit_and (x / 2) (y / 2) * 2 + min (x % 2) (y % 2)
bit_and_step zero y = simp bit_and-bitwise (omega arith)
bit_and_step (suc x) y = simp bit_and-bitwise (omega (arith, half_fuel (λ r. zero) min x (y / 2)))
