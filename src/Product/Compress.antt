-- ===== src/Product/Compress.antt =====
-- lib/icu_compress/cmp_icu.c, lines 490 to 1450: the products are compressed sample by sample. The
-- loop is the same in every function, but for the members of a sample. The updated model is the list
-- of the samples that are written to its buffer.
use cmp_tool.Base.{ℕ, zero, suc, sub32, Bool, false, List, [], ◌∷◌, if◌then◌else◌, get_or, drop}
use cmp_tool.Error.{cmp_is_error}
use cmp_tool.Support.Types.{model_mode_is_used}
use cmp_tool.Support.Check.{CmpCfg}
use cmp_tool.Encoder.Word.{Dst, Written}
use cmp_tool.Encoder.Value.{encode_value, ◌>>=◌}
use cmp_tool.Product.Field.{Field, Sample, encoder_setup, updated}
use cmp_tool.Product.Fields.{
  imagette_fields, s_fx_fields, s_fx_efx_fields, s_fx_ncob_fields, s_fx_efx_ncob_ecob_fields,
  l_fx_fields, l_fx_efx_fields, l_fx_ncob_fields, l_fx_efx_ncob_ecob_fields, offset_fields,
  background_fields, smearing_fields,
}

-- The calls of `encode_value` for one sample: the first error ends them.
unfoldable pub encode_fields : CmpCfg → List Field → Sample → Sample → ℕ → Dst → Written
encode_fields cfg [] sample model stream_len dst = (stream_len, dst)
encode_fields cfg (f ∷ fs) sample model stream_len dst =
    encode_value (encoder_setup cfg f) (get_or sample 0 0) (get_or model 0 0) stream_len dst
    >>= encode_fields cfg fs (drop 1 sample) (drop 1 model)

unfoldable pub update_fields : CmpCfg → List Field → Sample → Sample → Sample
update_fields cfg [] sample model = []
update_fields cfg (f ∷ fs) sample model =
    updated cfg f (get_or sample 0 0) (get_or model 0 0)
    ∷ update_fields cfg fs (drop 1 sample) (drop 1 model)

abbrev with_update : Bool → Sample → List Sample → List Sample
with_update up_model update updates = if up_model then update ∷ updates else updates

-- The loop `for (i = 0;; i++)`, which ends behind its test `i >= cfg->samples-1`: a first sample, and
-- `more` samples after it. `next_model` is what `next_model_p` points to, and `up_model` whether there
-- is a buffer for the updated model. A sample past the end of `src` is read as zeros.
unfoldable pub compress_samples :
    CmpCfg
    → List Field
    → Bool
    → ℕ
    → List Sample
    → Sample
    → List Sample
    → ℕ
    → Dst
    → Written × List Sample
compress_samples cfg fs up_model zero src model next_model stream_len dst =
    let sample = get_or src 0 [] in
    let written = encode_fields cfg fs sample model stream_len dst in
    if cmp_is_error written.0
    then (written, [])
    else (written, with_update up_model (update_fields cfg fs sample model) [])
compress_samples cfg fs up_model (suc more) src model next_model stream_len dst =
    let sample = get_or src 0 [] in
    let written = encode_fields cfg fs sample model stream_len dst in
    let (later, updates) =
      compress_samples cfg fs up_model more (drop 1 src) (get_or next_model 0 [])
        (drop 1 next_model) written.0 written.1 in
    if cmp_is_error written.0
    then (written, [])
    else (later, with_update up_model (update_fields cfg fs sample model) updates)

-- Without a model the first sample is compressed against zeros, and every other one against the
-- sample before it. `cfg->samples-1` wraps around when there are no samples.
unfoldable pub compress_product :
    List Field → CmpCfg → List Sample → List Sample → Bool → ℕ → Dst → Written × List Sample
compress_product fs cfg src model_buf updated_model_buf stream_len dst =
    if model_mode_is_used cfg.cmp_mode
    then compress_samples cfg fs updated_model_buf (sub32 cfg.samples 1) src (get_or model_buf 0 [])
        (drop 1 model_buf) stream_len dst
    else compress_samples cfg fs false (sub32 cfg.samples 1) src [] src stream_len dst

-- The source, the model, whether there is a buffer for the updated model, and the bitstream.
abbrev Compressor : Type 0
Compressor = CmpCfg → List Sample → List Sample → Bool → ℕ → Dst → Written × List Sample

unfoldable pub compress_imagette : Compressor
compress_imagette cfg = compress_product (imagette_fields cfg) cfg

unfoldable pub compress_s_fx : Compressor
compress_s_fx cfg = compress_product (s_fx_fields cfg) cfg

unfoldable pub compress_s_fx_efx : Compressor
compress_s_fx_efx cfg = compress_product (s_fx_efx_fields cfg) cfg

unfoldable pub compress_s_fx_ncob : Compressor
compress_s_fx_ncob cfg = compress_product (s_fx_ncob_fields cfg) cfg

unfoldable pub compress_s_fx_efx_ncob_ecob : Compressor
compress_s_fx_efx_ncob_ecob cfg = compress_product (s_fx_efx_ncob_ecob_fields cfg) cfg

unfoldable pub compress_l_fx : Compressor
compress_l_fx cfg = compress_product (l_fx_fields cfg) cfg

unfoldable pub compress_l_fx_efx : Compressor
compress_l_fx_efx cfg = compress_product (l_fx_efx_fields cfg) cfg

unfoldable pub compress_l_fx_ncob : Compressor
compress_l_fx_ncob cfg = compress_product (l_fx_ncob_fields cfg) cfg

unfoldable pub compress_l_fx_efx_ncob_ecob : Compressor
compress_l_fx_efx_ncob_ecob cfg = compress_product (l_fx_efx_ncob_ecob_fields cfg) cfg

unfoldable pub compress_offset : Compressor
compress_offset cfg = compress_product (offset_fields cfg) cfg

unfoldable pub compress_background : Compressor
compress_background cfg = compress_product (background_fields cfg) cfg

unfoldable pub compress_smearing : Compressor
compress_smearing cfg = compress_product (smearing_fields cfg) cfg
