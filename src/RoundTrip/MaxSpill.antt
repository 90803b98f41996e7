-- ===== src/RoundTrip/MaxSpill.antt =====
-- cmp_icu_max_spill (cmp_support.c) against the Golomb code.
use cmp_tool.Base.{
  ℕ, suc, ◌+◌, ◌-◌, ◌*◌, ◌/◌, ◌%◌, ◌^◌, ◌≤◌, ◌<◌, ◌≡◌, ◌↔◌, ap, arith, true, false, ◌∷◌, length,
  replicate, length-append, length-replicate,
}
use cmp_tool.Base.Bits.Digits.{length-bits}
use cmp_tool.Support.Log.{ilog_2}
use cmp_tool.Support.Spill.{cmp_icu_max_spill}
use cmp_tool.Golomb.{IsParam, golomb_code, remainder_code, cutoff, log-le_15, length-golomb_code-le}
use cmp_tool.RoundTrip.Setup.{pair-IsParam, cmp_icu_max_spill-eq}
use native.Mathlib.Decide.{dec_lt}
use native.Mathlib.Nat.{mul-le-mul_right, div-add-mod', mod-lt, one-le-pow}

-- A value past those that are codable has a longer code.
length-golomb_code-lt :
    {m L : ℕ} (value : ℕ)
    → IsParam m L
    → (31 - L) * m + (2 ^ suc L - m) ≤ value
    → 32 < length (golomb_code m L value)
unfolding golomb_code remainder_code cutoff
length-golomb_code-lt {m} {L} value p h = ground (
  arith,
  length-append (replicate (value / m) true) (false ∷ remainder_code m L (value % m)),
  length-replicate (value / m) true,
  length-bits L (value % m),
  length-bits (suc L) (value % m + (2 ^ suc L - m)),
  log-le_15 p,
  at_least,
  past,
)
  where
    parts : value / m * m + value % m ≡ value
    parts = div-add-mod' value m

    pos : 0 < m
    pos = omega (arith, p.is_log, one-le-pow L 2)

    below : value % m < m
    below = omega (arith, mod-lt value pos)

    at_least : 31 - L ≤ value / m
    at_least = elim (dec_lt (value / m) (31 - L)) [
      | yes l ↦ absurd (omega (arith, h, parts, below, next l))
      | no g ↦ omega arith
    ]
      where
        next : value / m < 31 - L → (value / m + 1) * m ≤ (31 - L) * m
        next l = mul-le-mul_right m (omega arith)

    past : value / m < 32 - L → 2 ^ suc L - m ≤ value % m
    past l = omega (arith, h, parts, log-le_15 p, ap (λ (k : ℕ). k * m) (last l))
      where
        last : value / m < 32 - L → value / m ≡ 31 - L
        last q = omega (arith, at_least, log-le_15 p)

-- For a parameter from 1 to 65535, the values whose Golomb code, with the logarithm that ilog_2
-- gives, has at most 32 digits are exactly those below the result of cmp_icu_max_spill plus 16.
pub length-golomb_code_iff :
    (cmp_par value : ℕ)
    → 0 < cmp_par
    → cmp_par ≤ 65535
    → (length (golomb_code cmp_par (ilog_2 cmp_par) value) ≤ 32)
      ↔ (value < cmp_icu_max_spill cmp_par + 16)
length-golomb_code_iff m value pos small = (
  λ short. elim (dec_lt value (cmp_icu_max_spill m + 16)) [
    | yes l ↦ l
    | no g ↦ absurd (
        omega (
          arith,
          short,
          length-golomb_code-lt value (pair-IsParam m pos small)
              (omega (arith, cmp_icu_max_spill-eq m pos small)),
        ))
  ],
  λ l.
      length-golomb_code-le value (pair-IsParam m pos small)
        (omega (arith, l, cmp_icu_max_spill-eq m pos small)),
)
