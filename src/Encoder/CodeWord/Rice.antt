-- ===== src/Encoder/CodeWord/Rice.antt =====
-- `rice_encoder` of cmp_icu.c.
use cmp_tool.Base.{ℕ, suc, ◌+◌, ◌-◌, ◌*◌, ◌/◌, ◌%◌, ◌^◌, ◌≤◌, ◌≡◌, sym, ap, ◌∙◌, arith}
use cmp_tool.Base.{true, false, ◌∷◌, ◌++◌, length, replicate}
use cmp_tool.Base.{u32, sub32, shr, bit_and}
use cmp_tool.Base.Bits.{bits}
use cmp_tool.Base.Bits.Fields.{bit_and_mask, bit_or_fields}
use cmp_tool.Golomb.{
  golomb_code_low, length-unary, golomb_code, IsParam, IsCodable, log-le_15, length-golomb_code-le,
}
use cmp_tool.Encoder.Word.{rice_encoder}
use native.Mathlib.Nat.{pow-suc, one-le-pow}
use cmp_tool.Encoder.CodeWord.Unary.{HasDigits, HasDigits-unary, shift_unary}

module _ {m L : ℕ} (value : ℕ) (p : IsParam m L) (h : IsCodable m L value) where
  -- For a valid parameter that is a power of two and a codable value, the code word of
  -- rice_encoder has the digits of the Golomb code of the value.
  pub rice_encoder-HasDigits :
      m ≡ 2 ^ L → HasDigits (rice_encoder value m L) (golomb_code m L value)
  unfolding rice_encoder
  rice_encoder-HasDigits power = rw low (
      HasDigits-unary (value / m) L (value % m) (rice_encoder value m L)
        (omega (arith, power, p.is_log)) len_eq cw_eq)
    where
      low : golomb_code m L value ≡ replicate (value / m) true ++ (false ∷ bits L (value % m))
      low = golomb_code_low m L value (omega (arith, pow-suc 2 L, p.is_log, power))

      short : value / m + suc L ≤ 32
      short = omega (
        arith,
        length-golomb_code-le value p h,
        ap length low,
        length-unary (value / m) L (value % m),
      )

      remainder : bit_and value (sub32 m 1) ≡ value % m
      remainder =
          ap (bit_and value) pred_mask
          ∙ bit_and_mask L value
          ∙ ap (λ (k : ℕ). value % k) (sym power)
        where
          pred_mask : sub32 m 1 ≡ 2 ^ L - 1
          pred_mask = omega (arith, power, p.small, p.is_log, one-le-pow L 2)

      quotient : shr value L ≡ value / m
      quotient = ap (λ (k : ℕ). value / k) (sym power)

      shift : bit_and (u32 (L + 1)) 0x1f ≡ suc L
      shift = bit_and_mask 5 (u32 (L + 1)) ∙ omega (arith, log-le_15 p)

      len_eq : (rice_encoder value m L).len ≡ value / m + suc L
      len_eq = rw quotient (omega (arith, short, log-le_15 p))

      cw_eq : (rice_encoder value m L).cw ≡ (2 ^ (value / m) - 1) * 2 ^ suc L + value % m
      cw_eq =
          rw (quotient, shift, remainder, shift_unary (value / m) (suc L) short)
            (bit_or_fields (suc L) (2 ^ (value / m) - 1) (value % m)
              (omega (arith, power, pow-suc 2 L, p.is_log)))
