-- ===== src/Encoder/Mapping.antt =====
-- `map_to_pos` in plain arithmetic: a `b`-bit two's complement number to an even number if it is not
-- negative, and to an odd one if it is.
use cmp_tool.Base.{ℕ, zero, suc, ◌+◌, ◌-◌, ◌*◌, ◌/◌, ◌%◌, ◌^◌, ◌≤◌, ◌<◌, ◌≡◌, ap, ◌∙◌, arith}
use cmp_tool.Base.{ltb, ◌==◌, if◌then◌else◌}
use cmp_tool.Base.{sub32, shr, bit_or, not32}
use cmp_tool.Base.Bits.Fields.{bit_and_mask, bit_or_fields_low}
use cmp_tool.Golomb.{two_pow_mono, pow-add, div_mod_unique}
use cmp_tool.Encoder.Value.{map_to_pos}
use native.Mathlib.Nat.{pow-suc, one-le-pow}
use native.Mathlib.Decide.{dec_lt}

quotient_ones : (a b : ℕ) → 2 ^ 32 ≡ a * b → 0 < a → 0xffff_ffff / a ≡ b - 1
quotient_ones a zero e h = absurd (omega arith)
quotient_ones a (suc b) e h =
    (div_mod_unique a b (a - 1) 0xffff_ffff (omega arith) (omega (arith, e, swap a b))).0
    ∙ omega arith
  where
    swap : (x y : ℕ) → x * suc y ≡ y * x + x
    swap x y = omega arith

-- The powers of two of a width `suc c` of at most 32 bits.
module _ (c : ℕ) (h : suc c ≤ 32) where
  pub split_word : 2 ^ 32 ≡ 2 ^ (31 - c) * 2 ^ suc c
  split_word = ap (λ (k : ℕ). 2 ^ k) (total c h) ∙ pow-add (31 - c) (suc c)
    where
      total : (n : ℕ) → suc n ≤ 32 → 32 ≡ 31 - n + suc n
      total n p = omega arith

  width : sub32 32 (suc c) ≡ 31 - c
  width = omega arith

  -- The mask of the used bits.
  pub mask_lem : shr 0xffff_ffff (sub32 32 (suc c)) ≡ 2 ^ suc c - 1
  mask_lem =
      rw width
        (quotient_ones (2 ^ (31 - c)) (2 ^ suc c) split_word (one-le-pow (31 - c) 2 (omega arith)))

pub high : (a b : ℕ) → 2 ^ 32 ≡ a * b → 0 < b → not32 (b - 1) ≡ (a - 1) * b
high zero b e h = absurd (omega arith)
high (suc a) b e h = omega (arith, e, step a b)
  where
    step : (x y : ℕ) → suc x * y ≡ (suc x - 1) * y + y
    step x y = rw (minus x) (omega arith)
      where
        minus : (n : ℕ) → suc n - 1 ≡ n
        minus n = omega arith

sign : (p x : ℕ) → 0 < p → ((x / p == 0) ≡ ltb x p)
sign p x h = elim (dec_lt x p) [
  | yes l ↦ ground (arith, small l)
  | no g ↦ ground (arith, large (omega arith))
]
  where
    small : x < p → x / p ≡ 0
    small l = grind arith

    large : p ≤ x → 0 < x / p
    large g = grind arith

-- The signed value, as the number that it is mapped to.
abbrev pub mapped : ℕ → ℕ → ℕ
mapped c x = if ltb x (2 ^ c) then x * 2 else (2 ^ suc c - x) * 2 - 1

pub map_to_pos-mapped :
    (value c : ℕ) → suc c ≤ 32 → map_to_pos value (suc c) ≡ mapped c (value % 2 ^ suc c)
unfolding map_to_pos
map_to_pos-mapped value c h =
    rw (mask_lem c h, bit_and_mask (suc c) value, top, negative)
      (ground (
        arith,
        below,
        pow-suc 2 c,
        two_pow_mono (suc c) (32) h,
        sign (2 ^ c) (value % 2 ^ suc c) (one-le-pow c 2 (omega arith)),
      ))
  where
    below : value % 2 ^ suc c < 2 ^ suc c
    below = omega (arith, one-le-pow (suc c) 2 (omega arith))

    top : sub32 (suc c) 1 ≡ c
    top = omega arith

    negative :
        bit_or (value % 2 ^ suc c) (not32 (2 ^ suc c - 1))
        ≡ value % 2 ^ suc c + (2 ^ 32 - 2 ^ suc c)
    negative =
        ap (bit_or (value % 2 ^ suc c))
          (high (2 ^ (31 - c)) (2 ^ suc c) (split_word c h) (one-le-pow (suc c) 2 (omega arith)))
        ∙ bit_or_fields_low (suc c) (2 ^ (31 - c) - 1) (value % 2 ^ suc c) below
        ∙ omega (
          arith,
          high (2 ^ (31 - c)) (2 ^ suc c) (split_word c h) (one-le-pow (suc c) 2 (omega arith)),
          one-le-pow (suc c) 2 (omega arith),
          two_pow_mono (suc c) (32) h,
        )

pub mapped-lt : (c x : ℕ) → x < 2 ^ suc c → mapped c x < 2 ^ suc c
mapped-lt c x h = ground (arith, pow-suc 2 c)
