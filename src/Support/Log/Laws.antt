-- ===== src/Support/Log/Laws.antt =====
-- lib/common/cmp_support.c: laws of `ilog_2` and `is_a_pow_of_2`.
use cmp_tool.Support.Log.{clz, ilog_2, is_a_pow_of_2}
use cmp_tool.Base.{ℕ, zero, suc, ◌+◌, ◌-◌, ◌*◌, ◌/◌, ◌^◌, ◌≤◌, ◌<◌, ◌≡◌, refl, sym, ap, ◌∙◌, arith}
use cmp_tool.Base.{true, false, Bool-cases, inl, inr, IsU32, sub32, ◌==◌, ◌↔◌}
use cmp_tool.Base.{bit_and, leb}
use cmp_tool.Base.Bits.{bit}
use cmp_tool.Base.Bits.Digit.{bit-div, bit-zero, bit-bit_and}
use native.Mathlib.Nat.{pow-suc, one-le-pow, pow-le-pow_right}
use native.Mathlib.Decide.{dec_lt, ℕ_discrete}
use cmp_tool.Base.{◌≢◌}
use cmp_tool.Base.Bits.Step.{bit_and_step}

quotient_above : (p x : ℕ) → 0 < p → p ≤ x → x < p * 2 → x / p ≡ 1
quotient_above p x h a b = grind arith

quotient_below : (p x : ℕ) → x < p → x / p ≡ 0
quotient_below p x h = grind arith

-- The highest digit of a number of `suc w` digits.
pub bit_top : (w x : ℕ) → x < 2 ^ suc w → bit x w ≡ leb (2 ^ w) x
unfolding bit
bit_top w x h =
    ap (bit x) (plus w)
    ∙ sym (bit-div w x 0)
    ∙ ground
        (arith, pow-suc 2 w, one-le-pow w 2, quotient_above (2 ^ w) x, quotient_below (2 ^ w) x)
  where
    plus : (n : ℕ) → n ≡ 0 + n
    plus n = omega arith

-- `L` is the floor of the binary logarithm of `x`.
abbrev pub IsLog : ℕ → ℕ → Type 0
IsLog x L = (2 ^ L ≤ x) × (x < 2 ^ suc L)

pub clz-IsLog : (w x : ℕ) → 0 < x → x < 2 ^ w → (L : ℕ) × (clz w x + suc L ≡ w) × IsLog x L
unfolding clz
clz-IsLog zero x p h = absurd (omega arith)
clz-IsLog (suc w) x p h = elim (Bool-cases (bit x w)) [
  | inl e ↦ rw e (w, omega arith, (ground (arith, bit_top w x), h))
  | inr e ↦
      let (L, sum, is_log) = clz-IsLog w x p (ground (arith, bit_top w x)) in
      rw e (L, omega arith, is_log)
]

pub IsLog-unique : (x a b : ℕ) → IsLog x a → IsLog x b → a ≡ b
IsLog-unique x a b p q = elim (dec_lt a b) [
  | yes l ↦ absurd (omega (arith, pow-le-pow_right {n = 2} (omega arith) l))
  | no l ↦ elim (dec_lt b a) [
    | yes m ↦ absurd (omega (arith, pow-le-pow_right {n = 2} (omega arith) m))
    | no m ↦ omega arith
  ]
]

pub ilog_2-IsLog : (x : ℕ) → 0 < x → IsU32 x → IsLog x (ilog_2 x)
unfolding ilog_2
ilog_2-IsLog x p h =
    let (L, sum, is_log) = clz-IsLog 32 x p h in rw (nonzero x p, ilog L sum) is_log
  where
    nonzero : (y : ℕ) → 0 < y → (y == 0) ≡ false
    nonzero y q = ground arith

    ilog : (L : ℕ) → clz 32 x + suc L ≡ 32 → 31 - clz 32 x ≡ L
    ilog L e = omega arith

pub ilog_2-eq_of_IsLog : (x L : ℕ) → IsU32 x → IsLog x L → ilog_2 x ≡ L
ilog_2-eq_of_IsLog x L h q =
    IsLog-unique x (ilog_2 x) L (ilog_2-IsLog x (omega (arith, one-le-pow L 2)) h) q

pub ilog_2-le_31 : (x : ℕ) → 0 < x → IsU32 x → ilog_2 x ≤ 31
unfolding ilog_2
ilog_2-le_31 x p h = ground arith

-- A power of two and its predecessor share no digit.
power_shares_nothing : (L : ℕ) → bit_and (2 ^ L) (2 ^ L - 1) ≡ 0
power_shares_nothing zero = refl
power_shares_nothing (suc L) = ground (
  arith,
  bit_and_step (2 ^ suc L) (2 ^ suc L - 1),
  power_shares_nothing L,
  pow-suc 2 L,
  one-le-pow L 2,
)

-- Any other number shares its highest digit with its predecessor.
shares_top : (v L : ℕ) → IsLog v L → v ≢ 2 ^ L → bit_and v (v - 1) ≢ 0
shares_top v L p ne e = cc (
  ap (λ (y : ℕ). bit y L) e,
  bit-bit_and v (v - 1) L,
  bit-zero L,
  top v p.0 p.1,
  top (v - 1) (omega arith) (omega arith),
)
  where
    top : (y : ℕ) → 2 ^ L ≤ y → y < 2 ^ suc L → bit y L ≡ true
    top y a b = ground (arith, bit_top L y)

-- is_a_pow_of_2 recognises a positive 32-bit number exactly when it is 2 to the power of its
-- ilog_2.
pub is_a_pow_of_2_iff : (v : ℕ) → 0 < v → IsU32 v → (is_a_pow_of_2 v ≡ true) ↔ (v ≡ 2 ^ ilog_2 v)
unfolding is_a_pow_of_2
is_a_pow_of_2_iff v p h = (to, from)
  where
    pred_of : sub32 v 1 ≡ v - 1
    pred_of = omega arith

    to : (bit_and v (sub32 v 1) == 0) ≡ true → v ≡ 2 ^ ilog_2 v
    to e = elim (ℕ_discrete v (2 ^ ilog_2 v)) [
      | yes q ↦ q
      | no q ↦ absurd (
          shares_top v (ilog_2 v) (ilog_2-IsLog v p h) q
            (ap (bit_and v) (sym pred_of) ∙ ground (arith, e)))
    ]

    from : v ≡ 2 ^ ilog_2 v → (bit_and v (sub32 v 1) == 0) ≡ true
    from e = ground (arith, pred_of, power_shares_nothing (ilog_2 v))
