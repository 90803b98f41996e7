-- ===== src/Encoder/Digits.antt =====
-- The digits for `encode_normal` and the two escape mechanisms of cmp_icu.c.
use cmp_tool.Base.{ℕ, zero, suc, ◌+◌, ◌-◌, ◌*◌, ◌/◌, ◌%◌, ◌^◌, ◌≤◌, ◌<◌, ◌≡◌, refl, arith, subst}
use cmp_tool.Base.{Bool, false, List, ◌++◌, ltb, lt→ltb, le→ltb, ◌==◌, if◌then◌else◌}
use cmp_tool.Base.{u32, sub32, shl32, IsU32}
use cmp_tool.Base.Bits.{bits}
use cmp_tool.Support.Log.{clz}
use cmp_tool.Support.Log.Laws.{clz-IsLog}
use cmp_tool.Golomb.{two_pow_mono, golomb_code, IsParam, IsCodable, length-golomb_code-le}
use cmp_tool.Encoder.Value.{
  EncoderSetup, rice, golomb, generate_cw, map_to_pos, encode_normal, encode_value_zero,
  encode_value_multi, escape_sym_offset,
}
use cmp_tool.Encoder.CodeWord.Unary.{HasDigits}
use cmp_tool.Encoder.CodeWord.Rice.{rice_encoder-HasDigits}
use cmp_tool.Encoder.CodeWord.Groups.{golomb_encoder-HasDigits}
use cmp_tool.Encoder.Mapping.{map_to_pos-mapped, mapped-lt}
use cmp_tool.Encoder.Emits.{Emits-cong, Emits, IsLength, put_n_bits32-Emits, >>=-Emits}
use native.Mathlib.Nat.{mul-le-mul_right, pow-suc}
use native.Mathlib.Decide.{dec_lt}

-- A setup that checked parameters give.
pub record IsSetup (s : EncoderSetup) : Type 0 where
  pub param : IsParam s.encoder_par1 s.encoder_par2
  pub power : s.generate_cw_f ≡ rice → s.encoder_par1 ≡ 2 ^ s.encoder_par2
  pub capacity : IsLength s.max_stream_len
  pub some_bits : 0 < s.max_data_bits
  pub word_bits : s.max_data_bits ≤ 32
  pub spill_low : 2 ≤ s.spillover_par
  pub spill_high : IsCodable s.encoder_par1 s.encoder_par2 (s.spillover_par + 15)

abbrev pub symbol : EncoderSetup → ℕ → List Bool
symbol s value = golomb_code s.encoder_par1 s.encoder_par2 value

-- The digits for a mapped value.
unfoldable pub zero_digits : EncoderSetup → ℕ → List Bool
zero_digits s value =
    if ltb value (s.spillover_par - 1)
    then symbol s (value + 1)
    else symbol s 0 ++ bits s.max_data_bits (u32 (value + 1))

unfoldable pub multi_digits : EncoderSetup → ℕ → List Bool
multi_digits s value =
    let offset = escape_sym_offset (value - s.spillover_par) in
    if ltb value s.spillover_par
    then symbol s value
    else symbol s (s.spillover_par + offset) ++ bits ((offset + 1) * 2) (value - s.spillover_par)

generate_cw-HasDigits :
    (s : EncoderSetup) (value : ℕ)
    → IsSetup s
    → IsCodable s.encoder_par1 s.encoder_par2 value
    → HasDigits (generate_cw s.generate_cw_f value s.encoder_par1 s.encoder_par2) (symbol s value)
generate_cw-HasDigits s value v h = cases s.generate_cw_f refl
  where
    cases :
        (e : _)
        → s.generate_cw_f ≡ e
        → HasDigits (generate_cw e value s.encoder_par1 s.encoder_par2) (symbol s value)
    cases rice q = unfold generate_cw in rice_encoder-HasDigits value v.param h (v.power q)
    cases golomb q = unfold generate_cw in golomb_encoder-HasDigits value v.param h

-- `encode_normal` emits the Golomb code of its value.
pub encode_normal-Emits :
    (s : EncoderSetup) (value : ℕ)
    → IsSetup s
    → IsCodable s.encoder_par1 s.encoder_par2 value
    → Emits s.max_stream_len (encode_normal s value) (symbol s value)
unfolding encode_normal
encode_normal-Emits s value v h =
    let (len_eq, digits_eq) = generate_cw-HasDigits s value v h in
    subst (Emits s.max_stream_len (encode_normal s value)) digits_eq (
      put_n_bits32-Emits _ _ s.max_stream_len
        (omega (arith, len_eq, length-golomb_code-le value v.param h)) v.capacity)

-- For a 32-bit value, the offset of the escape symbol is at most 15, the value fits the digits
-- that it stands for, and uses one of the highest two of them unless the offset is 0.
pub escape_sym_offset_bounds :
    (u : ℕ)
    → IsU32 u
    → (escape_sym_offset u ≤ 15)
      × (u < 2 ^ ((escape_sym_offset u + 1) * 2))
      × (0 < escape_sym_offset u → 2 ^ (escape_sym_offset u * 2) ≤ u)
unfolding escape_sym_offset
escape_sym_offset_bounds zero h = omega arith
escape_sym_offset_bounds (suc u) h =
    let (K, sum, is_log) = clz-IsLog 32 (suc u) (omega arith) h in
    rw (nonzero u, log (clz 32 (suc u)) K sum)
      (
        omega arith,
        omega (arith, is_log, two_pow_mono (suc K) ((K / 2 + 1) * 2) (omega arith)),
        λ p. omega (arith, is_log, two_pow_mono (K / 2 * 2) K (omega arith)),
      )
  where
    nonzero : (n : ℕ) → (suc n == 0) ≡ false
    nonzero n = ground arith

    log : (z k : ℕ) → z + suc k ≡ 32 → 31 - z ≡ k
    log z k e = omega arith

-- The mapped difference of two values.
abbrev pub difference : EncoderSetup → ℕ → ℕ → ℕ
difference s input model = map_to_pos (sub32 input model) s.max_data_bits

pub difference-lt :
    (s : EncoderSetup) (input model : ℕ)
    → IsSetup s
    → (difference s input model < 2 ^ s.max_data_bits) × IsU32 (difference s input model)
difference-lt s input model v =
    (below, omega (arith, below, two_pow_mono s.max_data_bits 32 v.word_bits))
  where
    width : suc (s.max_data_bits - 1) ≡ s.max_data_bits
    width = omega (arith, v.some_bits)

    narrow : (c : ℕ) → suc c ≤ 32 → map_to_pos (sub32 input model) (suc c) < 2 ^ suc c
    narrow c h = rw (map_to_pos-mapped (sub32 input model) c h) (
        mapped-lt c (sub32 input model % 2 ^ suc c)
          (omega (arith, two_pow_mono 0 (suc c) (omega arith))))

    below : difference s input model < 2 ^ s.max_data_bits
    below =
        subst (λ b. map_to_pos (sub32 input model) b < 2 ^ b) width
          (narrow (s.max_data_bits - 1) (omega (arith, v.some_bits, v.word_bits)))

-- Smaller values are codable too.
pub below_spill :
    (s : EncoderSetup) (value : ℕ)
    → IsSetup s
    → value ≤ s.spillover_par + 15
    → IsCodable s.encoder_par1 s.encoder_par2 value
below_spill s value v h = omega (arith, v.spill_high)

-- A spillover threshold is far below the range of a word.
pub spill_small : (s : EncoderSetup) → IsSetup s → s.spillover_par < 2 ^ 30
spill_small s v =
    omega (arith, v.spill_high, few, v.param.is_log, v.param.small, pow-suc 2 s.encoder_par2)
  where
    few : (31 - s.encoder_par2) * s.encoder_par1 ≤ 31 * s.encoder_par1
    few = mul-le-mul_right s.encoder_par1 (omega arith)

-- With a valid setup, encode_value_zero emits the code of the successor of a difference below the
-- threshold less one, and otherwise the code of 0 and the successor in the data bits.
pub encode_value_zero-Emits :
    (s : EncoderSetup) (input model : ℕ)
    → IsSetup s
    → Emits s.max_stream_len
        (encode_value_zero s input model)
        (zero_digits s (difference s input model))
unfolding encode_value_zero zero_digits
encode_value_zero-Emits s input model v = elim (dec_lt d (s.spillover_par - 1)) [
  | yes h ↦
      Emits-cong (λ o dst. rw (spill, lt→ltb d (s.spillover_par - 1) h, no_wrap h))
        (rw (lt→ltb d (s.spillover_par - 1) h))
        (encode_normal-Emits s (d + 1) v (below_spill s (d + 1) v (omega arith)))
  | no h ↦
      Emits-cong (λ o dst. rw (spill, le→ltb d (s.spillover_par - 1) (omega arith)))
        (rw (le→ltb d (s.spillover_par - 1) (omega arith)))
        (>>=-Emits v.capacity (encode_normal-Emits s 0 v (below_spill s 0 v (omega arith))) (
          put_n_bits32-Emits (u32 (d + 1)) s.max_data_bits s.max_stream_len v.word_bits v.capacity))
]
  where
    d : ℕ
    d = difference s input model

    spill : sub32 s.spillover_par 1 ≡ s.spillover_par - 1
    spill = omega (arith, v.spill_low, spill_small s v)

    no_wrap : d < s.spillover_par - 1 → u32 (d + 1) ≡ d + 1
    no_wrap h = omega (arith, h, spill_small s v)

-- With a valid setup, encode_value_multi emits the code of a difference below the threshold, and
-- otherwise an escape symbol and the difference to the threshold in the number of digits that the
-- symbol stands for.
pub encode_value_multi-Emits :
    (s : EncoderSetup) (input model : ℕ)
    → IsSetup s
    → Emits s.max_stream_len
        (encode_value_multi s input model)
        (multi_digits s (difference s input model))
unfolding encode_value_multi multi_digits
encode_value_multi-Emits s input model v = elim (dec_lt d s.spillover_par) [
  | yes h ↦
      Emits-cong (λ o dst. rw (lt→ltb d s.spillover_par h)) (rw (lt→ltb d s.spillover_par h))
        (encode_normal-Emits s d v (below_spill s d v (omega arith)))
  | no h ↦ escaped (omega arith)
]
  where
    d : ℕ
    d = difference s input model

    unencoded : s.spillover_par ≤ d → sub32 d s.spillover_par ≡ d - s.spillover_par
    unencoded h = omega (arith, h, difference-lt s input model v)

    sym_of : (k : ℕ) → k ≤ 15 → u32 (s.spillover_par + k) ≡ s.spillover_par + k
    sym_of k h = omega (arith, h, spill_small s v)

    len_of : (k : ℕ) → k ≤ 15 → shl32 (u32 (k + 1)) 1 ≡ (k + 1) * 2
    len_of k h = omega arith

    bound : escape_sym_offset (d - s.spillover_par) ≤ 15
    bound =
        (escape_sym_offset_bounds (d - s.spillover_par)
          (omega (arith, difference-lt s input model v))).0

    offset : ℕ
    offset = escape_sym_offset (d - s.spillover_par)

    escaped :
        s.spillover_par ≤ d
        → Emits s.max_stream_len (encode_value_multi s input model) (multi_digits s d)
    escaped h =
        Emits-cong
          (λ o dst.
            rw (le→ltb d s.spillover_par h, unencoded h, sym_of offset bound, len_of offset bound))
          (rw (le→ltb d s.spillover_par h))
          (>>=-Emits v.capacity
            (encode_normal-Emits s (s.spillover_par + offset) v
              (below_spill s (s.spillover_par + offset) v (omega (arith, bound))))
            (put_n_bits32-Emits (d - s.spillover_par) ((offset + 1) * 2) s.max_stream_len
              (omega (arith, bound)) v.capacity))
