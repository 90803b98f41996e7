-- ===== src/RoundTrip/Setup.antt =====
-- `cmp_pars_are_invalid`, `configure_encoder_setup` and `configure_decoder_setup`: the conditions
-- on parameters, and the setups that are made of them.
use cmp_tool.Base.{
  ℕ, zero, suc, ◌+◌, ◌-◌, ◌*◌, ◌%◌, ◌^◌, ◌≤◌, ◌<◌, ◌≡◌, refl, ap, ◌∙◌, arith, Bool, true, false,
  ltb, ◌==◌, if◌then◌else◌, u32, sub32, Bool-cases, inl, inr, ==_iff, ◌||◌, ◌↔◌,
}
use cmp_tool.Base.Bits.Fields.{bit_and_mask, bit_and_high_mask}
use cmp_tool.Support.Types.{
  CmpMode, model_zero, diff_zero, model_multi, diff_multi, multi_escape_mech_is_used,
}
use cmp_tool.Support.Log.{ilog_2, is_a_pow_of_2}
use cmp_tool.Support.Log.Laws.{IsLog, ilog_2-IsLog, is_a_pow_of_2_iff}
use cmp_tool.Support.Spill.{cmp_icu_max_spill}
use cmp_tool.Support.Check.{cmp_pars_are_invalid}
use cmp_tool.Golomb.{IsParam, log-le_15, cutoff_word}
use cmp_tool.Encoder.Value.{
  CodeWordEncoder, configure_encoder_setup, cmp_stream_size_to_bits, zero_mode,
}
use cmp_tool.Encoder.Digits.{IsSetup}
use cmp_tool.Encoder.Emits.{IsLength}
use cmp_tool.Decoder.Value.{DecodeMethod, configure_decoder_setup, select_decoder}
use cmp_tool.Decoder.Select.{IsDecoderFor}
use cmp_tool.RoundTrip.Reads.{Agrees, decoder_of}
use native.Mathlib.Nat.{mul-le-mul_right, pow-suc}

-- The modes that compress.
pub data IsCompressing : CmpMode → Type 0 where
  by_model_zero : IsCompressing model_zero
  by_diff_zero : IsCompressing diff_zero
  by_model_multi : IsCompressing model_multi
  by_diff_multi : IsCompressing diff_multi

-- A pair of a compression parameter and a spillover threshold inside of the limits.
pub record IsValidPair (cmp_par spill : ℕ) : Type 0 where
  pub positive : 0 < cmp_par
  pub small : cmp_par ≤ 65535
  pub spill_low : 2 ≤ spill
  pub spill_high : spill ≤ cmp_icu_max_spill cmp_par

-- In a compressing mode, cmp_pars_are_invalid finds no error exactly for parameters from 1 to
-- 65535 with a threshold from 2 to the result of cmp_icu_max_spill.
pub cmp_pars_are_invalid_iff :
    (cmp_par spill : ℕ) (mode : CmpMode)
    → IsCompressing mode
    → (cmp_pars_are_invalid cmp_par spill mode ≡ 0) ↔ IsValidPair cmp_par spill
unfolding cmp_pars_are_invalid
cmp_pars_are_invalid_iff cmp_par spill mode m = (from m, to m)
  where
    from :
        {k : CmpMode}
        → IsCompressing k
        → cmp_pars_are_invalid cmp_par spill k ≡ 0
        → IsValidPair cmp_par spill
    from by_model_zero e = record {
      positive = ground arith;
      small = ground arith;
      spill_low = ground arith;
      spill_high = ground arith;
    }
    from by_diff_zero e = record {
      positive = ground arith;
      small = ground arith;
      spill_low = ground arith;
      spill_high = ground arith;
    }
    from by_model_multi e = record {
      positive = ground arith;
      small = ground arith;
      spill_low = ground arith;
      spill_high = ground arith;
    }
    from by_diff_multi e = record {
      positive = ground arith;
      small = ground arith;
      spill_low = ground arith;
      spill_high = ground arith;
    }

    to :
        {k : CmpMode}
        → IsCompressing k
        → IsValidPair cmp_par spill
        → cmp_pars_are_invalid cmp_par spill k ≡ 0
    to by_model_zero v = ground arith
    to by_diff_zero v = ground arith
    to by_model_multi v = ground arith
    to by_diff_multi v = ground arith

module _ (cmp_par : ℕ) (pos : 0 < cmp_par) (small : cmp_par ≤ 65535) where
  pub pair-IsParam : IsParam cmp_par (ilog_2 cmp_par)
  pair-IsParam = record { is_log = ilog_2-IsLog cmp_par pos (omega arith); small = small }

  -- No step of the computation wraps around.
  pub cmp_icu_max_spill-eq :
      cmp_icu_max_spill cmp_par + 16
      ≡ (31 - ilog_2 cmp_par) * cmp_par + (2 ^ suc (ilog_2 cmp_par) - cmp_par)
  unfolding cmp_icu_max_spill
  cmp_icu_max_spill-eq =
      rw
        (
          bit_and_mask 5 (ilog_2 cmp_par) ∙ in_word,
          cutoff_word pair-IsParam,
          in_limits,
          minus,
          product,
        )
        (omega (arith, few, enough, pair-IsParam.is_log, pow-suc 2 (ilog_2 cmp_par)))
    where
      L : ℕ
      L = ilog_2 cmp_par

      in_word : L % 2 ^ 5 ≡ L
      in_word = omega (arith, log-le_15 pair-IsParam)

      in_limits : (cmp_par == 0 || ltb 65535 cmp_par) ≡ false
      in_limits = ground arith

      minus : sub32 31 L ≡ 31 - L
      minus = omega (arith, log-le_15 pair-IsParam)

      few : (31 - L) * cmp_par ≤ 31 * cmp_par
      few = mul-le-mul_right cmp_par (omega arith)

      enough : 16 * cmp_par ≤ (31 - L) * cmp_par
      enough = mul-le-mul_right cmp_par (omega (arith, log-le_15 pair-IsParam))

      product : u32 ((31 - L) * cmp_par) ≡ (31 - L) * cmp_par
      product = omega (arith, few)

  rice-power : is_a_pow_of_2 cmp_par ≡ true → cmp_par ≡ 2 ^ ilog_2 cmp_par
  rice-power e = (is_a_pow_of_2_iff cmp_par pos (omega arith)).0 e

  pub encoder-power :
      (if is_a_pow_of_2 cmp_par then CodeWordEncoder.rice else CodeWordEncoder.golomb)
        ≡ CodeWordEncoder.rice
      → cmp_par ≡ 2 ^ ilog_2 cmp_par
  encoder-power e = elim (Bool-cases (is_a_pow_of_2 cmp_par)) [
    | inl t ↦ rice-power t
    | inr f ↦
        absurd
          (cc (e, ap (λ (b : Bool). if b then CodeWordEncoder.rice else CodeWordEncoder.golomb) f))
  ]

  log_pos : (cmp_par == 1) ≡ false → 0 < ilog_2 cmp_par
  log_pos e = at (ilog_2 cmp_par) pair-IsParam.is_log
    where
      at : (k : ℕ) → IsLog cmp_par k → 0 < k
      at (suc k) l = omega arith
      at zero l = absurd (cc (e, (==_iff cmp_par 1).1 (omega (arith, l))))

  -- The decoder that is selected fits the parameter.
  pub select_decoder-IsDecoderFor : IsDecoderFor (select_decoder cmp_par) cmp_par (ilog_2 cmp_par)
  unfolding select_decoder
  select_decoder-IsDecoderFor = elim (Bool-cases (cmp_par == 1)) [
    | inl e ↦ rw e (record {
      for_one = λ q. (==_iff cmp_par 1).0 e;
      for_power = λ q. absurd (cc q);
      for_any = λ q. absurd (cc q);
    })
    | inr n ↦ elim (Bool-cases (is_a_pow_of_2 cmp_par)) [
      | inl e ↦
          rw (n, e)
            (record {
              for_one = λ q. absurd (cc q);
              for_power = λ q. (rice-power e, log_pos n);
              for_any = λ q. absurd (cc q);
            })
      | inr e ↦
          rw (n, e)
            (record {
              for_one = λ q. absurd (cc q);
              for_power = λ q. absurd (cc q);
              for_any = λ q. log_pos n;
            })
    ]
  ]

-- A compressed stream whose size in bits is not mistaken for an error.
pub stream_size-IsLength :
    (stream_size : ℕ) → stream_size < 2 ^ 29 - 16 → IsLength (cmp_stream_size_to_bits stream_size)
unfolding cmp_stream_size_to_bits
stream_size-IsLength stream_size h = rw (bit_and_high_mask 2 30 stream_size) (omega arith)

setup_method :
    {mode : CmpMode}
    → IsCompressing mode
    → (if multi_escape_mech_is_used mode
        then DecodeMethod.multi_escape
        else DecodeMethod.zero_escape)
      ≡ decoder_of (zero_mode mode)
unfolding multi_escape_mech_is_used
setup_method by_model_zero = refl
setup_method by_diff_zero = refl
setup_method by_model_multi = refl
setup_method by_diff_multi = refl

module _ (cmp_par spill lossy_par max_data_bits stream_size : ℕ) (mode : CmpMode)
    (m : IsCompressing mode) (valid : cmp_pars_are_invalid cmp_par spill mode ≡ 0)
    (some_bits : 0 < max_data_bits) (word_bits : max_data_bits ≤ 32) where
  pair : IsValidPair cmp_par spill
  pair = (cmp_pars_are_invalid_iff cmp_par spill mode m).0 valid

  -- Parameters that cmp_pars_are_invalid accepts in a compressing mode, 1 to 32 data bits and a
  -- stream below 2^29 - 16 bytes give a valid encoder setup, whose escape symbols too have code
  -- words of at most 32 bits.
  pub configure_encoder_setup-IsSetup :
      stream_size < 2 ^ 29 - 16
      → IsSetup (configure_encoder_setup cmp_par spill lossy_par max_data_bits mode stream_size)
  unfolding configure_encoder_setup
  configure_encoder_setup-IsSetup h = record {
    param = pair-IsParam cmp_par pair.positive pair.small;
    power = encoder-power cmp_par pair.positive pair.small;
    capacity = stream_size-IsLength stream_size h;
    some_bits = some_bits;
    word_bits = word_bits;
    spill_low = pair.spill_low;
    spill_high =
        omega (arith, pair.spill_high, cmp_icu_max_spill-eq cmp_par pair.positive pair.small);
  }

  -- For accepted parameters in a compressing mode, and 1 to 32 data bits, the decoder setup
  -- agrees with the encoder setup of the same parameters: a fitting code word decoder and the
  -- same escape mechanism.
  pub configure_decoder_setup-Agrees :
      Agrees
        (configure_decoder_setup mode cmp_par spill lossy_par max_data_bits)
        (configure_encoder_setup cmp_par spill lossy_par max_data_bits mode stream_size)
  unfolding configure_encoder_setup configure_decoder_setup
  configure_decoder_setup-Agrees = record {
    method = setup_method m;
    decoder = select_decoder-IsDecoderFor cmp_par pair.positive pair.small;
    par1 = refl;
    par2 = refl;
    outlier = refl;
    lossy = refl;
    data_bits = refl;
  }
