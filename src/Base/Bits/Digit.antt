-- ===== src/Base/Bits/Digit.antt =====
-- The laws of one digit under the operations of C.
use cmp_tool.Base.Bits.{bit}
use cmp_tool.Base.Bits.Step.{bit_and_step, bit_or_step}
use cmp_tool.Base.Tests.{ltb, ◌==◌, if◌then◌else◌}
use Prim.Native.Nat.{ℕ, zero, suc, ◌+◌, ◌-◌, ◌*◌, ◌/◌, ◌%◌, ◌^◌, ◌<◌, bit_and, bit_or}
use mathlib.Core.Path.{◌≡◌, refl, ap, ap₂, ◌∙◌}
use mathlib.Core.Bool.{false, not, ◌&&◌, ◌||◌}
use native.Mathlib.Omega.{arith}
use native.Mathlib.Nat.{pow-suc, div-div-eq-div-mul, one-le-pow}

pub bit-zero : (k : ℕ) → bit 0 k ≡ false
unfolding bit
bit-zero zero = refl
bit-zero (suc k) = bit-zero k

pub bit-div : (s x k : ℕ) → bit (x / 2 ^ s) k ≡ bit x (k + s)
unfolding bit
bit-div zero x k = ground (arith, ap₂ bit (unit x) (plus k))
  where
    unit : (y : ℕ) → y / 1 ≡ y
    unit y = omega arith

    plus : (y : ℕ) → y ≡ y + 0
    plus y = omega arith
bit-div (suc s) x k =
    ap (λ (y : ℕ). bit y k) (half_of_div s x) ∙ bit-div s x (suc k) ∙ ap (bit x) (shift k s)
  where
    half_of_div : (t y : ℕ) → y / 2 ^ suc t ≡ y / 2 ^ t / 2
    half_of_div t y = rw (pow-suc, div-div-eq-div-mul)

    shift : (a b : ℕ) → suc a + b ≡ a + suc b
    shift a b = omega arith

double_pow : (s x : ℕ) → x * 2 ^ suc s ≡ 2 * (x * 2 ^ s)
double_pow s x = omega (arith, ap (λ (t : ℕ). x * t) (pow-suc 2 s))

pub bit-mul : (s x k : ℕ) → bit (x * 2 ^ s) k ≡ (if ltb k s then false else bit x (k - s))
unfolding bit
bit-mul zero x k = ground (arith, ap₂ bit (unit x) (less k))
  where
    unit : (y : ℕ) → y * 1 ≡ y
    unit y = omega arith

    less : (y : ℕ) → y ≡ y - 0
    less y = omega arith
bit-mul (suc s) x zero = ground (arith, double_pow s x)
bit-mul (suc s) x (suc k) =
    ap (λ (y : ℕ). bit y k) (half_of_double s x)
    ∙ bit-mul s x k
    ∙ ground (arith, ap (bit x) (less k s))
  where
    half_of_double : (t y : ℕ) → y * 2 ^ suc t / 2 ≡ y * 2 ^ t
    half_of_double t y = omega (arith, double_pow t y)

    less : (a b : ℕ) → a - b ≡ suc a - suc b
    less a b = omega arith

pub half_of_mod : (m x : ℕ) → (x % 2 ^ suc m / 2 ≡ x / 2 % 2 ^ m) × (x % 2 ^ suc m % 2 ≡ x % 2)
half_of_mod m x = rw pow-suc (grind arith)

pub bit-mod : (m x k : ℕ) → bit (x % 2 ^ m) k ≡ (ltb k m && bit x k)
unfolding bit
bit-mod zero x k = ap (λ (y : ℕ). bit y k) (omega arith) ∙ bit-zero k ∙ ground arith
bit-mod (suc m) x zero = ground (arith, (half_of_mod m x).1)
bit-mod (suc m) x (suc k) =
    ap (λ (y : ℕ). bit y k) ((half_of_mod m x).0) ∙ bit-mod m (x / 2) k ∙ ground arith

pub bit-bit_and : (a b k : ℕ) → bit (bit_and a b) k ≡ (bit a k && bit b k)
unfolding bit
bit-bit_and a b zero = ground (arith, bit_and_step a b)
bit-bit_and a b (suc k) = ground (arith, bit_and_step a b, bit-bit_and (a / 2) (b / 2) k)

pub bit-bit_or : (a b k : ℕ) → bit (bit_or a b) k ≡ (bit a k || bit b k)
unfolding bit
bit-bit_or a b zero = ground (arith, bit_or_step a b)
bit-bit_or a b (suc k) = ground (arith, bit_or_step a b, bit-bit_or (a / 2) (b / 2) k)

pub bit-complement : (m x k : ℕ) → x < 2 ^ m → bit (2 ^ m - 1 - x) k ≡ (ltb k m && not (bit x k))
unfolding bit
bit-complement zero x k h = ap (λ (y : ℕ). bit y k) (omega arith) ∙ bit-zero k ∙ ground arith
bit-complement (suc m) x zero h = ground (arith, pow-suc 2 m, one-le-pow m 2)
bit-complement (suc m) x (suc k) h =
    ap (λ (y : ℕ). bit y k) half ∙ bit-complement m (x / 2) k below ∙ ground arith
  where
    below : x / 2 < 2 ^ m
    below = omega (arith, pow-suc 2 m)

    half : (2 ^ suc m - 1 - x) / 2 ≡ 2 ^ m - 1 - x / 2
    half = omega (arith, pow-suc 2 m)

-- Numbers with the same digits are equal.
pub bit_ext : (n a b : ℕ) → a < 2 ^ n → b < 2 ^ n → ((k : ℕ) → k < n → bit a k ≡ bit b k) → a ≡ b
unfolding bit
bit_ext zero a b p q h = omega arith
bit_ext (suc n) a b p q h =
    let lowest : (a % 2 == 1) ≡ (b % 2 == 1) = h 0 (omega arith) in
    ground (
      arith,
      lowest,
      bit_ext n (a / 2) (b / 2) (omega (arith, pow-suc 2 n)) (omega (arith, pow-suc 2 n))
          (λ k r. h (suc k) (omega arith)),
    )
