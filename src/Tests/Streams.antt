-- ===== src/Tests/Streams.antt =====
-- Concrete setups, buffers and readers, at which the theorems are applied.
use cmp_tool.Base.{All, ℕ, ◌≡◌, refl, arith, List, [], ◌∷◌}
use cmp_tool.Base.Bits.{bit}
use cmp_tool.Support.Types.{CmpDataType, diff_zero, model_multi}
use cmp_tool.Support.Log.{clz, ilog_2}
use cmp_tool.Support.Spill.{cmp_icu_max_spill}
use cmp_tool.Support.Check.{CmpCfg, cmp_pars_are_invalid}
use cmp_tool.Product.Fields.{imagette_fields}
use cmp_tool.Product.Emits.{IsField}
use cmp_tool.Encoder.Value.{EncoderSetup, configure_encoder_setup}
use cmp_tool.Encoder.Digits.{IsSetup}
use cmp_tool.Decoder.Reader.{BitDecoder, bit_init_decoder, bit_read_unaligned_64be, read_be}
use cmp_tool.Decoder.Value.{DecoderSetup, configure_decoder_setup}
use cmp_tool.Decoder.Refill.Bytes.{IsBytes}
use cmp_tool.Decoder.Refill.Init.{Starts, bit_init_decoder-Starts}
use cmp_tool.RoundTrip.Reads.{Agrees}
use cmp_tool.RoundTrip.Setup.{
  by_diff_zero, by_model_multi, configure_encoder_setup-IsSetup, configure_decoder_setup-Agrees,
}

-- A Rice code with the zero escape, and a Golomb code with the multi escape.
abbrev pub rice_setup : EncoderSetup
rice_setup = configure_encoder_setup 4 8 0 16 diff_zero 8

abbrev pub golomb_setup : EncoderSetup
golomb_setup = configure_encoder_setup 5 9 1 16 model_multi 8

abbrev pub rice_decoder_setup : DecoderSetup
rice_decoder_setup = configure_decoder_setup diff_zero 4 8 0 16

abbrev pub golomb_decoder_setup : DecoderSetup
golomb_decoder_setup = configure_decoder_setup model_multi 5 9 1 16

pub valid_rice : cmp_pars_are_invalid 4 8 diff_zero ≡ 0
unfolding cmp_pars_are_invalid cmp_icu_max_spill ilog_2 clz bit
valid_rice = refl

pub valid_golomb : cmp_pars_are_invalid 5 9 model_multi ≡ 0
unfolding cmp_pars_are_invalid cmp_icu_max_spill ilog_2 clz bit
valid_golomb = refl

pub rice_setup-IsSetup : IsSetup rice_setup
rice_setup-IsSetup =
    configure_encoder_setup-IsSetup 4 8 0 16 8 diff_zero by_diff_zero valid_rice (omega arith)
      (omega arith) (omega arith)

pub golomb_setup-IsSetup : IsSetup golomb_setup
golomb_setup-IsSetup =
    configure_encoder_setup-IsSetup 5 9 1 16 8 model_multi by_model_multi valid_golomb (omega arith)
      (omega arith) (omega arith)

pub rice-Agrees : Agrees rice_decoder_setup rice_setup
rice-Agrees =
    configure_decoder_setup-Agrees 4 8 0 16 8 diff_zero by_diff_zero valid_rice (omega arith)
      (omega arith)

pub golomb-Agrees : Agrees golomb_decoder_setup golomb_setup
golomb-Agrees =
    configure_decoder_setup-Agrees 5 9 1 16 8 model_multi by_model_multi valid_golomb (omega arith)
      (omega arith)

-- Eight bytes, and the reader at their start.
abbrev pub buffer : List ℕ
buffer = 0xb0 ∷ 0x12 ∷ 0x34 ∷ 0x56 ∷ 0x78 ∷ 0x9a ∷ 0xbc ∷ 0xde ∷ 0xf0 ∷ []

pub buffer-IsBytes : IsBytes buffer
buffer-IsBytes = omega arith

abbrev pub reader : BitDecoder
reader = record { bit_container = 0xb0123456789abcde; bits_consumed = 0; cursor = 0; limit_ptr = 1 }

pub reader-Starts : Starts buffer reader
unfolding bit_init_decoder bit_read_unaligned_64be read_be
reader-Starts = bit_init_decoder-Starts buffer buffer-IsBytes

-- A configuration for imagettes in the model mode with the multi escape, and lossy rounding by a bit.
abbrev pub imagette_cfg : CmpCfg
imagette_cfg = record {
  samples = 2;
  stream_size = 8;
  data_type = CmpDataType.imagette;
  cmp_mode = model_multi;
  model_value = 8;
  round = 1;
  cmp_par_1 = 5;
  spill_par_1 = 9;
  cmp_par_2 = 0;
  spill_par_2 = 0;
  cmp_par_3 = 0;
  spill_par_3 = 0;
  cmp_par_4 = 0;
  spill_par_4 = 0;
  cmp_par_5 = 0;
  spill_par_5 = 0;
  cmp_par_6 = 0;
  spill_par_6 = 0;
}

pub imagette-IsField : All (IsField imagette_cfg) (imagette_fields imagette_cfg)
imagette-IsField =
    (record { pars = valid_golomb; some_bits = omega arith; word_bits = omega arith }, _)
