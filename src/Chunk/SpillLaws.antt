-- ===== src/Chunk/SpillLaws.antt =====
-- The spillover thresholds that a chunk's parameters get (cmp_get_spill of cmp_icu.c) pass the check
-- of the parameters.
use cmp_tool.Base.{
  ℕ, zero, suc, ◌+◌, ◌-◌, ◌*◌, ◌^◌, ◌≤◌, ◌<◌, ◌≡◌, sym, ◌↔◌, arith, u32, sub32, shl32,
}
use cmp_tool.Support.Types.{CmpMode}
use cmp_tool.Support.Log.{ilog_2}
use cmp_tool.Support.Log.Laws.{IsLog}
use cmp_tool.Support.Spill.{cmp_icu_max_spill}
use cmp_tool.Support.Check.{cmp_pars_are_invalid}
use cmp_tool.Golomb.{IsParam, log-le_15, cutoff_word}
use cmp_tool.RoundTrip.Setup.{
  IsCompressing, by_model_zero, by_diff_zero, by_model_multi, by_diff_multi, pair-IsParam,
  cmp_pars_are_invalid_iff, cmp_icu_max_spill-eq,
}
use cmp_tool.Chunk.Spill.{cmp_best_zero_spill, cmp_get_spill}
use native.Mathlib.Decide.{dec_lt}
use native.Mathlib.Nat.{mul-le-mul_right, pow-suc, one-le-pow}

module _ (par bits : ℕ) (pos : 0 < par) (small : par ≤ 65535) (some_bits : 0 < bits)
    (word_bits : bits ≤ 32) where
  L : ℕ
  L = ilog_2 par

  is_param : IsParam par L
  unfolding L
  is_param = pair-IsParam par pos small

  digits : (31 - L) * par + (2 ^ suc L - par) ≡ cmp_icu_max_spill par + 16
  unfolding L
  digits = sym (cmp_icu_max_spill-eq par pos small)

  enough : 16 * par ≤ (31 - L) * par
  enough = mul-le-mul_right par (omega (arith, log-le_15 is_param))

  max_spill-ge : 2 ≤ cmp_icu_max_spill par
  max_spill-ge = elim (dec_lt 1 par) [
    | yes more ↦ omega (arith, digits, enough)
    | no one ↦ omega (arith, digits, log_zero one, enough)
  ]
    where
      log_zero : (1 < par → ⊥) → (31 - L) * par ≡ 31
      log_zero one = at L is_param.is_log
        where
          at : (k : ℕ) → IsLog par k → (31 - k) * par ≡ 31
          at (suc k) l = absurd (omega (arith, l, one, pow-suc 2 k, one-le-pow k 2))
          at zero l = omega (arith, one)

  zero_spill : ℕ
  zero_spill = u32 (u32 (bits * par) + sub32 (shl32 2 (ilog_2 par)) par)

  few : bits * par ≤ 32 * par
  few = mul-le-mul_right par (omega arith)

  positive : 1 * par ≤ bits * par
  positive = mul-le-mul_right par (omega arith)

  zero_spill-ge : 2 ≤ zero_spill
  unfolding L zero_spill
  zero_spill-ge =
      rw (cutoff_word is_param)
        (omega (arith, few, positive, is_param.is_log, pow-suc 2 (ilog_2 par)))

  best-range :
      (2 ≤ cmp_best_zero_spill par bits) × (cmp_best_zero_spill par bits ≤ cmp_icu_max_spill par)
  unfolding cmp_best_zero_spill zero_spill
  best-range = (ground (arith, max_spill-ge, zero_spill-ge), ground (arith, max_spill-ge))

  get-range :
      {mode : CmpMode}
      → IsCompressing mode
      → (2 ≤ cmp_get_spill par mode bits) × (cmp_get_spill par mode bits ≤ cmp_icu_max_spill par)
  unfolding cmp_get_spill
  get-range by_model_zero = best-range
  get-range by_diff_zero = best-range
  get-range by_model_multi = (max_spill-ge, omega arith)
  get-range by_diff_multi = (max_spill-ge, omega arith)

-- In a compressing mode, the check of a parameter with the threshold that cmp_get_spill gives it,
-- for samples of 1 to 32 bits, finds no error exactly for parameters from 1 to 65535.
pub cmp_pars_are_invalid-cmp_get_spill :
    (par bits : ℕ) (mode : CmpMode)
    → IsCompressing mode
    → 0 < bits
    → bits ≤ 32
    → (cmp_pars_are_invalid par (cmp_get_spill par mode bits) mode ≡ 0)
      ↔ ((0 < par) × (par ≤ 65535))
cmp_pars_are_invalid-cmp_get_spill par bits mode m some_bits word_bits = (
  λ e.
      let valid = (cmp_pars_are_invalid_iff par (cmp_get_spill par mode bits) mode m).0 e in
      (valid.positive, valid.small),
  λ (pos, small).
      let range = get-range par bits pos small some_bits word_bits m in
      (cmp_pars_are_invalid_iff par (cmp_get_spill par mode bits) mode m).1
        (record { positive = pos; small = small; spill_low = range.0; spill_high = range.1 }),
)
