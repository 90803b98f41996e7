-- ===== src/Encoder/Range.antt =====
-- `encode_value` of cmp_icu.c: its test of the range, and its digits.
use cmp_tool.Base.{ℕ, suc, ◌-◌, ◌*◌, ◌/◌, ◌^◌, ◌≤◌, ◌<◌, ◌≡◌, refl, arith, subst}
use cmp_tool.Base.{Bool, true, List, ltb, lt→ltb, le→ltb, ◌==◌, ◌⊎◌}
use cmp_tool.Base.{u32, sub32, shr, bit_and, not32, IsU32}
use cmp_tool.Base.Bits.Fields.{bit_and_high_mask}
use cmp_tool.UpModel.{round_fwd}
use cmp_tool.Error.{cmp_error, data_value_too_large}
use cmp_tool.Encoder.Word.{Dst}
use cmp_tool.Encoder.Value.{
  EncoderSetup, EncodeMethod, zero_escape, multi_escape, encode_method, encode_value,
}
use cmp_tool.Encoder.Mapping.{mask_lem, high, split_word}
use cmp_tool.Encoder.Emits.{Emits, Emits-cong}
use cmp_tool.Encoder.Digits.{
  IsSetup, zero_digits, multi_digits, difference, encode_value_zero-Emits, encode_value_multi-Emits,
}
use native.Mathlib.Nat.{div-eq_of_lt, lt-div-mul-add, one-le-pow, mod-eq_of_lt}
use native.Mathlib.Decide.{dec_lt}

-- The digits for a mapped value, by the escape mechanism.
unfoldable pub method_digits : EncodeMethod → EncoderSetup → ℕ → List Bool
unfolding zero_digits multi_digits
method_digits zero_escape s value = zero_digits s value
method_digits multi_escape s value = multi_digits s value

abbrev pub value_digits : EncoderSetup → ℕ → List Bool
value_digits s value = method_digits s.encode_method_f s value

encode_method-Emits :
    (e : EncodeMethod) (s : EncoderSetup) (input model : ℕ)
    → IsSetup s
    → Emits s.max_stream_len
        (encode_method e s input model)
        (method_digits e s (difference s input model))
unfolding encode_method method_digits
encode_method-Emits zero_escape s input model v = encode_value_zero-Emits s input model v
encode_method-Emits multi_escape s input model v = encode_value_multi-Emits s input model v

div_below : (v m k : ℕ) → v < k * m → v / m < k
div_below v m k h = grind arith

div_le : (v m : ℕ) → v / m ≤ v
div_le v m = omega arith

field_zero : (p x : ℕ) → 0 < p → (x / p * p == 0) ≡ ltb x p
field_zero p x h = elim (dec_lt x p) [
  | yes below ↦ rw (lt→ltb x p below, div-eq_of_lt below) (zero_times p)
  | no above ↦ rw (le→ltb x p (omega arith)) (ground (arith, large (omega arith)))
]
  where
    zero_times : (n : ℕ) → (0 * n == 0) ≡ true
    zero_times n = ground arith

    large : p ≤ x → 0 < x / p * p
    large g = omega (arith, lt-div-mul-add {a = x} h)

-- The test of a value against the mask of the unused bits.
fits_iff :
    (c x : ℕ)
    → suc c ≤ 32
    → IsU32 x
    → (bit_and x (not32 (shr 0xffff_ffff (sub32 32 (suc c)))) == 0) ≡ ltb x (2 ^ suc c)
fits_iff c x h hx =
    rw
      (
        mask_lem c h,
        high _ _ (split_word c h) pos,
        bit_and_high_mask (suc c) (31 - c) x,
        mod-eq_of_lt quotient,
      )
      (field_zero (2 ^ suc c) x pos)
  where
    pos : 0 < 2 ^ suc c
    pos = one-le-pow (suc c) 2 (omega arith)

    quotient : x / 2 ^ suc c < 2 ^ (31 - c)
    quotient = div_below x (2 ^ suc c) (2 ^ (31 - c)) (omega (arith, hx, split_word c h))

abbrev pub IsInRange : EncoderSetup → ℕ → Type 0
IsInRange s input = round_fwd input s.lossy_par < 2 ^ s.max_data_bits

round_fwd-IsU32 : (x r : ℕ) → IsU32 (round_fwd x r)
unfolding round_fwd
round_fwd-IsU32 x r = omega (arith, div_le (u32 x) (2 ^ r))

fits_setup :
    (s : EncoderSetup) (input : ℕ)
    → IsSetup s
    → (bit_and (round_fwd input s.lossy_par) (not32 (shr 0xffff_ffff (sub32 32 s.max_data_bits)))
        == 0)
      ≡ ltb (round_fwd input s.lossy_par) (2 ^ s.max_data_bits)
fits_setup s input v =
    subst (λ b. (bit_and x (not32 (shr 0xffff_ffff (sub32 32 b))) == 0) ≡ ltb x (2 ^ b)) width
      (fits_iff (s.max_data_bits - 1) x (omega (arith, v.some_bits, v.word_bits))
        (round_fwd-IsU32 input s.lossy_par))
  where
    x : ℕ
    x = round_fwd input s.lossy_par

    width : suc (s.max_data_bits - 1) ≡ s.max_data_bits
    width = omega (arith, v.some_bits)

-- With a valid setup, encode_value of an input and a model in range appends exactly the digits of
-- their rounded difference to the stream, reports a small buffer when they do not fit, and
-- returns the length alone when there is no buffer.
pub encode_value-Emits :
    (s : EncoderSetup) (input model : ℕ)
    → IsSetup s
    → IsInRange s input
    → IsInRange s model
    → Emits s.max_stream_len
        (encode_value s input model)
        (value_digits s (difference s (round_fwd input s.lossy_par) (round_fwd model s.lossy_par)))
unfolding encode_value
encode_value-Emits s input model v hi hm =
    Emits-cong
      (λ o dst. rw (fits_setup s input v, fits_setup s model v, lt→ltb _ _ hi, lt→ltb _ _ hm)) refl
      (encode_method-Emits s.encode_method_f s (round_fwd input s.lossy_par)
        (round_fwd model s.lossy_par) v)

-- With a valid setup, encode_value refuses an input or a model that does not fit the data bits
-- after rounding, and leaves the buffer unchanged.
pub encode_value_too_large :
    (s : EncoderSetup) (input model o : ℕ) (dst : Dst)
    → IsSetup s
    → (2 ^ s.max_data_bits ≤ round_fwd input s.lossy_par)
      ⊎ (2 ^ s.max_data_bits ≤ round_fwd model s.lossy_par)
    → encode_value s input model o dst ≡ (cmp_error data_value_too_large, dst)
unfolding encode_value
encode_value_too_large s input model o dst v h =
    rw (fits_setup s input v, fits_setup s model v) (ground arith)
