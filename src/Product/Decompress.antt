-- ===== src/Product/Decompress.antt =====
-- lib/decompress/decmp.c, lines 414 to 1450: the products are decompressed sample by sample. The
-- loop is the same in every function, but for the members of a sample.
use cmp_tool.Base.{
  ℕ, zero, suc, sub32, ◌%◌, ◌^◌, Bool, false, List, [], ◌∷◌, if◌then◌else◌, get_or, drop, Option,
  none, some,
}
use cmp_tool.Support.Types.{model_mode_is_used}
use cmp_tool.Support.Check.{CmpCfg}
use cmp_tool.Decoder.Reader.{BitDecoder}
use cmp_tool.Decoder.Value.{Outcome, success, decode_value}
use cmp_tool.Product.Field.{Field, Sample, decoder_setup}
use cmp_tool.Product.Compress.{update_fields}
use cmp_tool.Product.Fields.{
  imagette_fields, s_fx_fields, s_fx_efx_fields, s_fx_ncob_fields, s_fx_efx_ncob_ecob_fields,
  l_fx_fields, l_fx_efx_fields, l_fx_ncob_fields, l_fx_efx_ncob_ecob_fields, offset_fields,
  background_fields, smearing_fields,
}

-- What is decoded of a sample: all its members, unless there is an error.
pub record FieldsRead : Type 0 where
  pub result : Outcome
  pub sample : Sample
  pub dec : BitDecoder

-- What is decoded of a product.
pub record Decompressed : Type 0 where
  pub result : Outcome
  pub samples : List Sample
  pub updates : List Sample
  pub dec : BitDecoder

-- `if (err) break;`
abbrev pub unless_error {ℓ} : {A : Type ℓ} → Outcome → A → A → A
unless_error success go_on stop = go_on
unless_error _ go_on stop = stop

unfoldable pub decode_fields : CmpCfg → List Field → List ℕ → Sample → BitDecoder → FieldsRead
decode_fields cfg [] mem model dec = record { result = success; sample = []; dec = dec }
decode_fields cfg (f ∷ fs) mem model dec =
    let decoded = decode_value mem (decoder_setup cfg f) (get_or model 0 0) dec in
    let later = decode_fields cfg fs mem (drop 1 model) decoded.dec in
    unless_error decoded.result
      (record later { sample = decoded.value % 2 ^ f.max_used_bits ∷ later.sample })
      (record { result = decoded.result; sample = []; dec = decoded.dec })

-- `model = next_model_p[i]`: without a model buffer it is the sample that was decoded last.
abbrev pub step_model : Sample → Option (List Sample) → Sample × Option (List Sample)
step_model sample none = (sample, none)
step_model sample (some models) = (get_or models 0 [], some (drop 1 models))

-- The loop `for (i = 0;; i++)`, which ends behind its test `i >= cfg->samples-1`: a first sample, and
-- `more` samples after it. Without a model buffer the next model is the decoded sample.
unfoldable pub decompress_samples :
    CmpCfg
    → List Field
    → Bool
    → List ℕ
    → ℕ
    → Sample
    → Option (List Sample)
    → BitDecoder
    → Decompressed
decompress_samples cfg fs up_model mem zero model next_model dec =
    let read = decode_fields cfg fs mem model dec in
    unless_error read.result
      (record {
        result = success;
        samples = read.sample ∷ [];
        updates = if up_model then update_fields cfg fs read.sample model ∷ [] else [];
        dec = read.dec;
      })
      (record { result = read.result; samples = read.sample ∷ []; updates = []; dec = read.dec })
decompress_samples cfg fs up_model mem (suc more) model next_model dec =
    let read = decode_fields cfg fs mem model dec in
    let (model', next_model') = step_model read.sample next_model in
    let later = decompress_samples cfg fs up_model mem more model' next_model' read.dec in
    unless_error read.result
      (record later {
        samples = read.sample ∷ later.samples;
        updates =
            if up_model
            then update_fields cfg fs read.sample model ∷ later.updates
            else later.updates;
      })
      (record { result = read.result; samples = read.sample ∷ []; updates = []; dec = read.dec })

-- `cfg->samples-1` wraps around when there are no samples.
unfoldable pub decompress_product :
    List Field → CmpCfg → List Sample → Bool → List ℕ → BitDecoder → Decompressed
decompress_product fs cfg model_buf updated_model_buf mem dec =
    if model_mode_is_used cfg.cmp_mode
    then decompress_samples cfg fs updated_model_buf mem (sub32 cfg.samples 1)
        (get_or model_buf 0 []) (some (drop 1 model_buf)) dec
    else decompress_samples cfg fs false mem (sub32 cfg.samples 1) [] none dec

-- The model, whether there is a buffer for the updated model, the compressed data and the reader.
abbrev Decompressor : Type 0
Decompressor = CmpCfg → List Sample → Bool → List ℕ → BitDecoder → Decompressed

unfoldable pub decompress_imagette : Decompressor
decompress_imagette cfg = decompress_product (imagette_fields cfg) cfg

unfoldable pub decompress_s_fx : Decompressor
decompress_s_fx cfg = decompress_product (s_fx_fields cfg) cfg

unfoldable pub decompress_s_fx_efx : Decompressor
decompress_s_fx_efx cfg = decompress_product (s_fx_efx_fields cfg) cfg

unfoldable pub decompress_s_fx_ncob : Decompressor
decompress_s_fx_ncob cfg = decompress_product (s_fx_ncob_fields cfg) cfg

unfoldable pub decompress_s_fx_efx_ncob_ecob : Decompressor
decompress_s_fx_efx_ncob_ecob cfg = decompress_product (s_fx_efx_ncob_ecob_fields cfg) cfg

unfoldable pub decompress_l_fx : Decompressor
decompress_l_fx cfg = decompress_product (l_fx_fields cfg) cfg

unfoldable pub decompress_l_fx_efx : Decompressor
decompress_l_fx_efx cfg = decompress_product (l_fx_efx_fields cfg) cfg

unfoldable pub decompress_l_fx_ncob : Decompressor
decompress_l_fx_ncob cfg = decompress_product (l_fx_ncob_fields cfg) cfg

unfoldable pub decompress_l_fx_efx_ncob_ecob : Decompressor
decompress_l_fx_efx_ncob_ecob cfg = decompress_product (l_fx_efx_ncob_ecob_fields cfg) cfg

unfoldable pub decompress_offset : Decompressor
decompress_offset cfg = decompress_product (offset_fields cfg) cfg

unfoldable pub decompress_background : Decompressor
decompress_background cfg = decompress_product (background_fields cfg) cfg

unfoldable pub decompress_smearing : Decompressor
decompress_smearing cfg = decompress_product (smearing_fields cfg) cfg
