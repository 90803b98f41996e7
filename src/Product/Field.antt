-- ===== src/Product/Field.antt =====
-- A member of a data product, as the loops of cmp_icu.c and decmp.c handle it.
use cmp_tool.Base.{ℕ, ◌/◌, ◌%◌, ◌^◌, List}
use cmp_tool.UpModel.{cmp_up_model}
use cmp_tool.Support.Check.{CmpCfg}
use cmp_tool.Encoder.Value.{EncoderSetup, configure_encoder_setup}
use cmp_tool.Decoder.Value.{DecoderSetup, configure_decoder_setup}

-- A pair of parameters and the bits of the member; MAX_USED_BITS is the size of each member.
pub record Field : Type 0 where
  pub cmp_par : ℕ
  pub spill : ℕ
  pub max_used_bits : ℕ

-- A product's structure: its members, in the order in which they are compressed.
abbrev pub Sample : Type 0
Sample = List ℕ

abbrev pub encoder_setup : CmpCfg → Field → EncoderSetup
encoder_setup cfg f =
    configure_encoder_setup f.cmp_par f.spill cfg.round f.max_used_bits cfg.cmp_mode cfg.stream_size

abbrev pub decoder_setup : CmpCfg → Field → DecoderSetup
decoder_setup cfg f =
    configure_decoder_setup cfg.cmp_mode f.cmp_par f.spill cfg.round f.max_used_bits

-- A member of the updated model. A member of 24 bits is updated by `cmp_up_model32`.
unfoldable pub updated : CmpCfg → Field → ℕ → ℕ → ℕ
unfolding cmp_up_model
updated cfg f value model =
    cmp_up_model (f.max_used_bits / 8) value model cfg.model_value cfg.round % 2 ^ f.max_used_bits
