-- ===== src/Product/Reads.antt =====
-- `decode_fields` of Product/Decompress, and lossy rounding.
use cmp_tool.Base.{
  ℕ, ◌-◌, ◌*◌, ◌/◌, ◌%◌, ◌^◌, ◌≤◌, ◌<◌, ◌≡◌, refl, sym, ap, ap₂, ◌∙◌, arith, subst, Bool, List, [],
  ◌∷◌, ◌++◌, All, get_or, drop, u32,
}
use cmp_tool.Golomb.{two_pow_mono}
use cmp_tool.UpModel.{round_fwd, round_inv}
use cmp_tool.Support.Check.{CmpCfg}
use cmp_tool.Encoder.Value.{configure_encoder_setup}
use cmp_tool.Decoder.Reader.{BitDecoder}
use cmp_tool.Decoder.Value.{success, decode_value}
use cmp_tool.Decoder.Refill.Bytes.{IsBytes}
use cmp_tool.RoundTrip.Reads.{IsReady, Reads}
use cmp_tool.RoundTrip.Value.{decode_value-Reads}
use cmp_tool.RoundTrip.Setup.{IsCompressing, configure_decoder_setup-Agrees}
use cmp_tool.Product.Field.{Field, Sample, encoder_setup, decoder_setup}
use cmp_tool.Product.Decompress.{FieldsRead, decode_fields}
use cmp_tool.Product.Emits.{IsField, Fits, field_digits, sample_digits, field-IsSetup, round_fwd-le}
use native.Mathlib.Nat.{one-le-pow, mod-eq_of_lt, mul-div_cancel}
use mathlib.Core.List.{append_assoc}

-- A value after lossy rounding and back.
abbrev pub rounded_value : CmpCfg → ℕ → ℕ
rounded_value cfg value = round_inv (round_fwd value cfg.round) cfg.round

abbrev pub rounded : CmpCfg → List Field → Sample → Sample
rounded cfg [] sample = []
rounded cfg (f ∷ fs) sample = rounded_value cfg (get_or sample 0 0) ∷ rounded cfg fs (drop 1 sample)

times_back : (x p : ℕ) → 0 < p → x / p * p ≤ x
times_back x p h = grind arith

round_inv-eq : (x r : ℕ) → x < 2 ^ 32 → round_inv (round_fwd x r) r ≡ x / 2 ^ r * 2 ^ r
unfolding round_fwd round_inv
round_inv-eq x r h =
    ap (λ (y : ℕ). u32 (u32 y * 2 ^ r)) (ap (λ (y : ℕ). y / 2 ^ r) (mod-eq_of_lt h))
    ∙ ap (λ (y : ℕ). u32 (y * 2 ^ r)) (mod-eq_of_lt (omega (arith, h, quotient_le x (2 ^ r))))
    ∙ mod-eq_of_lt (omega (arith, h, times_back x (2 ^ r) (one-le-pow r 2 (omega arith))))
  where
    quotient_le : (a b : ℕ) → a / b ≤ a
    quotient_le a b = omega arith

pub rounded-le : (x r : ℕ) → x < 2 ^ 32 → round_inv (round_fwd x r) r ≤ x
rounded-le x r h =
    omega (arith, round_inv-eq x r h, times_back x (2 ^ r) (one-le-pow r 2 (omega arith)))

-- Rounding twice is rounding once.
pub round_fwd-rounded :
    (x r : ℕ) → x < 2 ^ 32 → round_fwd (round_inv (round_fwd x r) r) r ≡ round_fwd x r
round_fwd-rounded x r h =
    ap (λ (y : ℕ). round_fwd y r) (round_inv-eq x r h)
    ∙ unfold round_fwd in
      (ap (λ (y : ℕ). y / 2 ^ r)
          (mod-eq_of_lt (omega (arith, h, times_back x (2 ^ r) (one-le-pow r 2 (omega arith)))))
        ∙ mul-div_cancel (x / 2 ^ r) (one-le-pow r 2 (omega arith))
        ∙ ap (λ (y : ℕ). y / 2 ^ r) (sym (mod-eq_of_lt h)))

-- The members of a sample are read back, and the reader is ready at the next sample.
pub record FieldsReads (mem : List ℕ) (read : FieldsRead) (sample : Sample) (rest : List Bool)
    : Type 0 where
  pub no_error : read.result ≡ success
  pub as_written : read.sample ≡ sample
  pub ready : IsReady mem read.dec rest

module _ (mem : List ℕ) (bytes : IsBytes mem) (cfg : CmpCfg) (mode : IsCompressing cfg.cmp_mode)
    (size : cfg.stream_size < 2 ^ 29 - 16) where
  field-Reads :
      (f : Field) (value model : ℕ) (dec : BitDecoder) (rest : List Bool)
      → IsField cfg f
      → value < 2 ^ f.max_used_bits
      → model < 2 ^ f.max_used_bits
      → IsReady mem dec (field_digits cfg f value model ++ rest)
      → Reads mem (decode_value mem (decoder_setup cfg f) model dec) (rounded_value cfg value) rest
  unfolding configure_encoder_setup
  field-Reads f value model dec rest v hs hm r =
      decode_value-Reads mem bytes dec (decoder_setup cfg f) (encoder_setup cfg f)
        (configure_decoder_setup-Agrees f.cmp_par f.spill cfg.round f.max_used_bits cfg.stream_size
          cfg.cmp_mode mode v.pars v.some_bits v.word_bits)
        (field-IsSetup cfg f mode size v) value model
        (omega (arith, hs, round_fwd-le value cfg.round))
        (omega (arith, hm, round_fwd-le model cfg.round)) rest r

  pub decode_fields-Reads :
      (fs : List Field) (sample model : Sample) (dec : BitDecoder) (rest : List Bool)
      → All (IsField cfg) fs
      → Fits fs sample
      → Fits fs model
      → IsReady mem dec (sample_digits cfg fs sample model ++ rest)
      → FieldsReads mem (decode_fields cfg fs mem model dec) (rounded cfg fs sample) rest
  unfolding decode_fields
  decode_fields-Reads [] sample model dec rest v hs hm r = record {
    no_error = refl;
    as_written = refl;
    ready = r;
  }
  decode_fields-Reads (f ∷ fs) sample model dec rest v hs hm r =
      let later =
        decode_fields-Reads fs (drop 1 sample) (drop 1 model) _ rest v.1 hs.1 hm.1 first.ready in
      rw first.no_error (record {
        no_error = later.no_error;
        as_written =
            ap₂ ◌∷◌ (ap (λ (y : ℕ). y % 2 ^ f.max_used_bits) first.as_written ∙ mod-eq_of_lt small)
              later.as_written;
        ready = later.ready;
      })
    where
      x : ℕ
      x = get_or sample 0 0

      first :
          Reads mem
            (decode_value mem (decoder_setup cfg f) (get_or model 0 0) dec)
            (rounded_value cfg x)
            (sample_digits cfg fs (drop 1 sample) (drop 1 model) ++ rest)
      first = field-Reads f x (get_or model 0 0) dec _ v.0 hs.0 hm.0 (
          subst (IsReady mem dec) (append_assoc (field_digits cfg f x (get_or model 0 0)) _ rest) r)

      small : rounded_value cfg x < 2 ^ f.max_used_bits
      small = omega (
        arith,
        hs.0,
        v.0.word_bits,
        two_pow_mono f.max_used_bits 32 v.0.word_bits,
        rounded-le x cfg.round,
      )
