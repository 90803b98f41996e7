-- ===== src/Encoder/CodeWord/Groups.antt =====
-- `golomb_encoder` of cmp_icu.c, which works with groups of code words of one length behind a
-- cutoff, and not with quotients.
use cmp_tool.Base.{ℕ, zero, suc, ◌+◌, ◌-◌, ◌*◌, ◌/◌, ◌%◌, ◌^◌, ◌≤◌, ◌<◌, ◌≡◌, ◌∙◌, arith}
use cmp_tool.Base.{lt→ltb, le→ltb}
use cmp_tool.Base.{u32, sub32, shl32, bit_and}
use cmp_tool.Base.Bits.Fields.{bit_and_mask}
use cmp_tool.Golomb.{
  div_mod_unique, golomb_code_low, golomb_code_high, golomb_code, IsParam, IsCodable, log-le_15,
}
use cmp_tool.Encoder.Word.{CodeWord, golomb_encoder}
use native.Mathlib.Nat.{mul-le-mul, pow-suc, one-le-pow}
use native.Mathlib.Decide.{dec_lt}
use cmp_tool.Encoder.CodeWord.Unary.{HasDigits, HasDigits-unary, shift_unary, unary_fits}

div_below : (v m k : ℕ) → v < k * m → v / m < k
div_below v m k h = grind arith

next_place :
    (P N P' N' c m r : ℕ)
    → 0 < P
    → P' ≡ P * 2
    → N' ≡ N * 2
    → N ≡ m + c
    → m ≤ r + c
    → (P - 1) * N' + (r + c + c) ≡ (P' - 1) * N + (r + c - m)
next_place (suc k) N P' N' c m r pos e f e' h = rw (e, f, e') (rw (less k, more k) (omega arith))
  where
    less : (n : ℕ) → suc n - 1 ≡ n
    less n = omega arith

    more : (n : ℕ) → suc n * 2 - 1 ≡ n * 2 + 1
    more n = omega arith
next_place zero N P' N' c m r pos e f e' h = absurd (omega arith)

sum_fits : (a b : ℕ) → 0 < a → a * b ≤ 2 ^ 32 → (a - 1) * b + b ≤ 2 ^ 32
sum_fits a b ha h = grind arith

-- A value above the cutoff: its group `g` and its place `r` in the group.
module _ {m L : ℕ} (g r : ℕ) (p : IsParam m L) (in_group : r < m)
    (short : g + suc (suc L) ≤ 32) where
  abbrev c : ℕ
  c = 2 ^ suc L - m

  abbrev word : CodeWord
  word = golomb_encoder (g * m + r + c) m L

  gm_small : g * m ≤ 30 * 65535
  gm_small = mul-le-mul {n₁ = g} {n₂ = 30} (omega arith) p.small

  cut : sub32 (shl32 2 L) m ≡ c
  cut = omega (arith, pow-suc 2 L, p.is_log, p.small)

  c_small : c ≤ m
  c_small = omega (arith, pow-suc 2 L, p.is_log)

  minus : sub32 (g * m + r + c) c ≡ g * m + r
  minus = omega (arith, gm_small, c_small, p.small)

  quotient : (g * m + r) / m ≡ g
  quotient = grind arith

  rest : sub32 (g * m + r) (u32 (g * m)) ≡ r
  rest = omega (arith, gm_small, p.small)

  shift : bit_and (u32 (u32 (L + 1) + 1)) 0x1f ≡ suc (suc L)
  shift = bit_and_mask 5 (u32 (u32 (L + 1) + 1)) ∙ omega (arith, log-le_15 p)

  unshifted : bit_and g 0x1f ≡ g
  unshifted = bit_and_mask 5 g ∙ omega arith

  -- The two parts of the code word do not overlap.
  parts_fit : (2 ^ g - 1) * 2 ^ suc (suc L) + (r + c + c) < 2 ^ 32
  parts_fit = omega (
    arith,
    sum_fits (2 ^ g) (2 ^ suc (suc L)) (one-le-pow g 2 (omega arith))
        (unary_fits g (suc (suc L)) short),
    pow-suc 2 L,
    pow-suc 2 (suc L),
    p.is_log,
  )

  group_word :
      (word.len ≡ g + suc (suc L)) × (word.cw ≡ (2 ^ g - 1) * 2 ^ suc (suc L) + (r + c + c))
  unfolding golomb_encoder
  group_word =
      rw
        (
          cut,
          le→ltb (g * m + r + c) c (omega arith),
          minus,
          quotient,
          rest,
          shift,
          unshifted,
          shift_unary g (suc (suc L)) short,
        )
        (omega (arith, log-le_15 p), omega (arith, parts_fit, c_small, p.small))

  same_group : r + c < m → HasDigits word (golomb_code m L (g * m + r + c))
  same_group h =
      rw (golomb_code_high m L (g * m + r + c) (omega (arith, whole)), whole.0, whole.1)
        (HasDigits-unary g (suc L) (r + c + c) word (omega (arith, p.is_log)) group_word.0
          group_word.1)
    where
      whole : ((g * m + r + c) / m ≡ g) × ((g * m + r + c) % m ≡ r + c)
      whole = div_mod_unique m g (r + c) (g * m + r + c) h (omega arith)

  next_group : m ≤ r + c → HasDigits word (golomb_code m L (g * m + r + c))
  next_group h =
      rw (golomb_code_low m L (g * m + r + c) (omega (arith, whole)), whole.0, whole.1)
        (HasDigits-unary (suc g) L (r + c - m) word (omega (arith, pow-suc 2 L, p.is_log))
          (group_word.0 ∙ omega arith) place)
    where
      whole : ((g * m + r + c) / m ≡ suc g) × ((g * m + r + c) % m ≡ r + c - m)
      whole =
          div_mod_unique m (suc g) (r + c - m) (g * m + r + c) (omega (arith, c_small))
            (omega arith)

      place : word.cw ≡ (2 ^ suc g - 1) * 2 ^ suc L + (r + c - m)
      place =
          group_word.1
          ∙ next_place (2 ^ g) (2 ^ suc L) (2 ^ suc g) (2 ^ suc (suc L)) c m r
              (one-le-pow g 2 (omega arith)) (pow-suc 2 g) (pow-suc 2 (suc L))
              (omega (arith, p.is_log)) h

module _ {m L : ℕ} (value : ℕ) (p : IsParam m L) where
  lowest_group :
      value < 2 ^ suc L - m → HasDigits (golomb_encoder value m L) (golomb_code m L value)
  lowest_group below =
      rw (golomb_code_low m L value (omega (arith, whole)), whole.0, whole.1)
        (HasDigits-unary 0 L value (golomb_encoder value m L) (omega (arith, pow-suc 2 L, p.is_log))
          word_is.0 word_is.1)
    where
      whole : (value / m ≡ 0) × (value % m ≡ value)
      whole = div_mod_unique m 0 value value (omega (arith, pow-suc 2 L, p.is_log)) (omega arith)

      cut : sub32 (shl32 2 L) m ≡ 2 ^ suc L - m
      cut = omega (arith, pow-suc 2 L, p.is_log, p.small)

      word_is :
          ((golomb_encoder value m L).len ≡ 0 + suc L)
          × ((golomb_encoder value m L).cw ≡ (2 ^ 0 - 1) * 2 ^ suc L + value)
      word_is =
          unfold golomb_encoder in
          rw (cut, lt→ltb value _ below) (omega (arith, log-le_15 p), omega arith)

  upper_group :
      (g r : ℕ)
      → value ≡ g * m + r + (2 ^ suc L - m)
      → r < m
      → g + suc (suc L) ≤ 32
      → HasDigits (golomb_encoder value m L) (golomb_code m L value)
  upper_group g r e in_group short = rw e (elim (dec_lt (r + (2 ^ suc L - m)) m) [
    | yes same ↦ same_group g r p in_group short same
    | no next ↦ next_group g r p in_group short (omega arith)
  ])

  -- For a valid parameter and a codable value, the code word of golomb_encoder has the digits of
  -- the Golomb code of the value.
  pub golomb_encoder-HasDigits :
      IsCodable m L value → HasDigits (golomb_encoder value m L) (golomb_code m L value)
  golomb_encoder-HasDigits h = elim (dec_lt value (2 ^ suc L - m)) [
    | yes below ↦ lowest_group below
    | no above ↦
        let v : ℕ = value - (2 ^ suc L - m) in
        upper_group (v / m) (v % m) (omega arith) (omega (arith, pow_pos, p.is_log))
          (omega (arith, log-le_15 p, div_below v m (31 - L) (omega arith)))
  ]
    where
      pow_pos : 0 < 2 ^ L
      pow_pos = one-le-pow L 2 (omega arith)
