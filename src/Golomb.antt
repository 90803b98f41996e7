-- ===== src/Golomb.antt =====
-- The Golomb code with truncated binary remainders, as the literature defines it: the reference that
-- the encoders of cmp_icu.c and the decoders of decmp.c are held against.
use cmp_tool.Base.{ℕ, zero, suc, ◌+◌, ◌-◌, ◌*◌, ◌/◌, ◌%◌, ◌^◌, ◌≤◌, ◌<◌, ◌≡◌, ap, ◌∙◌, arith}
use cmp_tool.Base.{
  Bool, true, false, List, ◌∷◌, ◌++◌, ltb, lt→ltb, le→ltb, if◌then◌else◌, length, replicate,
  length-append, length-replicate,
}
use cmp_tool.Base.{sub32, shl32}
use cmp_tool.Base.Bits.{bits}
use cmp_tool.Base.Bits.Digits.{length-bits}
use cmp_tool.Support.Log.Laws.{IsLog}
use native.Mathlib.Nat.{pow-suc, pow-le-pow_right, mul-le-mul_right}
use native.Mathlib.Decide.{dec_lt}

-- Remainders below the cutoff take `L` digits, the others `L + 1`.
unfoldable pub cutoff : ℕ → ℕ → ℕ
cutoff m L = 2 ^ suc L - m

unfoldable pub remainder_code : ℕ → ℕ → ℕ → List Bool
remainder_code m L r = if ltb r (cutoff m L) then bits L r else bits (suc L) (r + cutoff m L)

-- The quotient in unary, closed by a zero, and the remainder; `L` is the logarithm of `m`.
unfoldable pub golomb_code : ℕ → ℕ → ℕ → List Bool
unfolding remainder_code
golomb_code m L value = replicate (value / m) true ++ (false ∷ remainder_code m L (value % m))

-- A valid compression parameter and its logarithm.
pub record IsParam (m L : ℕ) : Type 0 where
  pub is_log : IsLog m L
  pub small : m ≤ 65535

-- The values whose code has at most 32 digits.
abbrev pub IsCodable : ℕ → ℕ → ℕ → Type 0
IsCodable m L value = value < (31 - L) * m + (2 ^ suc L - m)

pub div_mod_unique : (m q r v : ℕ) → r < m → v ≡ q * m + r → (v / m ≡ q) × (v % m ≡ r)
div_mod_unique m q r v h e = (grind arith, grind arith)

pub two_pow_mono : (i j : ℕ) → i ≤ j → 2 ^ i ≤ 2 ^ j
two_pow_mono i j h = pow-le-pow_right (omega arith) h

pub pow-add : (a b : ℕ) → 2 ^ (a + b) ≡ 2 ^ a * 2 ^ b
pow-add a zero = ap (λ (k : ℕ). 2 ^ k) (plus a) ∙ omega arith
  where
    plus : (n : ℕ) → n + 0 ≡ n
    plus n = omega arith
pow-add a (suc b) =
    ap (λ (k : ℕ). 2 ^ k) (shift a b)
    ∙ omega (
      arith,
      pow-suc 2 (a + b),
      pow-suc 2 b,
      pow-add a b,
      ap (λ (t : ℕ). 2 ^ a * t) (pow-suc 2 b),
    )
  where
    shift : (n k : ℕ) → n + suc k ≡ suc (n + k)
    shift n k = omega arith

pub log-le_15 : {m L : ℕ} → IsParam m L → L ≤ 15
log-le_15 {m} {L} p = elim (dec_lt 15 L) [
  | yes h ↦ absurd (omega (arith, pow-le-pow_right {n = 2} (omega arith) h, p.is_log, p.small))
  | no h ↦ omega arith
]

quotient_le : (q k r c m : ℕ) → q * m + r < k * m + c → c ≤ m → q ≤ k
quotient_le q k r c m h hc = elim (dec_lt k q) [
  | yes over ↦ absurd (omega (arith, h, mul-le-mul_right m over))
  | no fits ↦ omega arith
]

quotient_lt : (q k r c m : ℕ) → q * m + r < k * m + c → c ≤ r → q < k
quotient_lt q k r c m h hc = elim (dec_lt q k) [
  | yes fits ↦ fits
  | no over ↦ absurd (omega (arith, h, grown (omega arith)))
]
  where
    grown : k ≤ q → k * m ≤ q * m
    grown a = mul-le-mul_right m a

-- At most 32 digits.
pub length-golomb_code-le :
    {m L : ℕ} (value : ℕ) → IsParam m L → IsCodable m L value → length (golomb_code m L value) ≤ 32
unfolding golomb_code cutoff
length-golomb_code-le {m} {L} value p h = ground (
  arith,
  length-append (replicate (value / m) true) (false ∷ remainder_code m L (value % m)),
  length-replicate (value / m) true,
  length-bits L (value % m),
  length-bits (suc L) (value % m + (2 ^ suc L - m)),
  quotient_le (value / m) (31 - L) (value % m) (2 ^ suc L - m) m parts below,
  quotient_lt (value / m) (31 - L) (value % m) (2 ^ suc L - m) m parts,
  log-le_15 p,
)
  where
    below : 2 ^ suc L - m ≤ m
    below = omega (arith, pow-suc 2 L, p.is_log)

    parts : value / m * m + value % m < (31 - L) * m + (2 ^ suc L - m)
    parts = omega (arith, h)

-- The two forms of the code, by the remainder.
pub golomb_code_low :
    (m L value : ℕ)
    → value % m < 2 ^ suc L - m
    → golomb_code m L value ≡ replicate (value / m) true ++ (false ∷ bits L (value % m))
unfolding golomb_code cutoff
golomb_code_low m L value h = rw (lt→ltb _ _ h)

pub golomb_code_high :
    (m L value : ℕ)
    → 2 ^ suc L - m ≤ value % m
    → golomb_code m L value
      ≡ replicate (value / m) true ++ (false ∷ bits (suc L) (value % m + (2 ^ suc L - m)))
unfolding golomb_code cutoff
golomb_code_high m L value h = rw (le→ltb _ _ h)

-- A unary number in front of a zero and `n` digits.
pub length-unary : (q n y : ℕ) → length (replicate q true ++ (false ∷ bits n y)) ≡ q + suc n
length-unary q n y =
    length-append (replicate q true) (false ∷ bits n y)
    ∙ omega (arith, length-replicate q true, length-bits n y)

-- The cutoff as the code computes it.
pub cutoff_word : {m L : ℕ} → IsParam m L → sub32 (shl32 2 L) m ≡ 2 ^ suc L - m
cutoff_word {m} {L} p = omega (arith, pow-suc 2 L, p.is_log, p.small)

pub below_word : {m L : ℕ} (value : ℕ) → IsParam m L → IsCodable m L value → value < 2 ^ 30
below_word {m} {L} value p h = omega (arith, h, few, p.is_log, p.small, pow-suc 2 L)
  where
    few : (31 - L) * m ≤ 31 * m
    few = mul-le-mul_right m (omega arith)
