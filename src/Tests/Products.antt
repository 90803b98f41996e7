-- ===== src/Tests/Products.antt =====
-- The theorems on products at concrete imagettes.
use cmp_tool.Base.{ℕ, refl, ◌∙◌, arith, Bool, true, List, [], ◌∷◌, ◌++◌, drop, map, some}
use cmp_tool.Base.Bits.{bit, bits}
use cmp_tool.UpModel.{round_fwd}
use cmp_tool.Support.Types.{model_mode_is_used}
use cmp_tool.Support.Log.{clz, ilog_2}
use cmp_tool.Golomb.{golomb_code, remainder_code, cutoff}
use cmp_tool.Encoder.Value.{configure_encoder_setup, cmp_stream_size_to_bits, map_to_pos}
use cmp_tool.Encoder.Emits.{Emits}
use cmp_tool.Encoder.Digits.{multi_digits}
use cmp_tool.Encoder.Range.{method_digits}
use cmp_tool.Decoder.Register.{byte_stream}
use cmp_tool.RoundTrip.Reads.{IsReady}
use cmp_tool.RoundTrip.Setup.{by_model_multi}
use cmp_tool.Product.Field.{Sample}
use cmp_tool.Product.Fields.{imagette_fields}
use cmp_tool.Product.Compress.{compress_product}
use cmp_tool.Product.Decompress.{decompress_product}
use cmp_tool.Product.Emits.{product_digits, compress_product-Emits}
use cmp_tool.Product.Reads.{rounded}
use cmp_tool.Product.RoundTrip.{ProductReads, product_updates, decompress_product-Reads}
use cmp_tool.Product.EndToEnd.{Restores, compress_then_decompress}
use cmp_tool.Product.Weighted.{IsUpdated, compress_product-updates}
use cmp_tool.Product.Rounds.{IsCount}
use cmp_tool.Tests.Streams.{
  buffer, buffer-IsBytes, reader, reader-Starts, imagette_cfg, imagette-IsField,
}

-- The digits 10110, for the difference 4, and 000, for the difference 0.
abbrev src : List Sample
src = (20 ∷ []) ∷ (7 ∷ []) ∷ []

abbrev model : List Sample
model = (12 ∷ []) ∷ (6 ∷ []) ∷ []

abbrev after : List Bool
after = drop 8 (byte_stream buffer)

product-IsReady :
    IsReady buffer reader
      (product_digits imagette_cfg (imagette_fields imagette_cfg) src model ++ after)
unfolding byte_stream bits bit model_mode_is_used method_digits multi_digits map_to_pos round_fwd
    golomb_code remainder_code cutoff configure_encoder_setup ilog_2 clz
product-IsReady = record {
  reader = reader-Starts.reader;
  in_register = reader-Starts.in_register;
  loaded = reader-Starts.loaded;
  left = reader-Starts.everything ∙ refl;
}

two-IsCount : IsCount imagette_cfg.samples src
two-IsCount = record { all = refl; some_samples = omega arith; word = omega arith }

decompress_product-Reads_example :
    ProductReads buffer
      (decompress_product (imagette_fields imagette_cfg) imagette_cfg model true buffer reader)
      (map (rounded imagette_cfg (imagette_fields imagette_cfg)) src)
      (product_updates imagette_cfg (imagette_fields imagette_cfg) src model true)
      after
decompress_product-Reads_example =
    decompress_product-Reads buffer buffer-IsBytes imagette_cfg by_model_multi (omega arith)
      (imagette_fields imagette_cfg) src model true reader after imagette-IsField (omega arith)
      (omega arith) two-IsCount product-IsReady

compress_product-Emits_example :
    Emits
      (cmp_stream_size_to_bits 8)
      (λ o dst.
        (compress_product (imagette_fields imagette_cfg) imagette_cfg src model true o dst).0)
      (product_digits imagette_cfg (imagette_fields imagette_cfg) src model)
compress_product-Emits_example =
    compress_product-Emits imagette_cfg by_model_multi (omega arith) (imagette_fields imagette_cfg)
      src model true imagette-IsField (omega arith) (omega arith) two-IsCount

compress_product-updates_example :
    IsUpdated imagette_cfg
      (imagette_fields imagette_cfg)
      src
      model
      (compress_product
        (imagette_fields imagette_cfg)
        imagette_cfg
        src
        model
        true
        0
        (some (0 ∷ 0 ∷ []))).1
unfolding model_mode_is_used method_digits multi_digits map_to_pos round_fwd golomb_code
    remainder_code cutoff configure_encoder_setup ilog_2 clz bit bits cmp_stream_size_to_bits
compress_product-updates_example =
    compress_product-updates imagette_cfg (imagette_fields imagette_cfg) src model 0 (0 ∷ 0 ∷ [])
      by_model_multi refl (omega arith) (omega arith) imagette-IsField (omega arith) (omega arith)
      (omega arith) two-IsCount (omega arith) (omega arith)

compress_then_decompress_example :
    (ws' : List ℕ) × Restores imagette_cfg
      (imagette_fields imagette_cfg)
      src
      model
      true
      (0 ∷ 0 ∷ [])
      ws'
unfolding model_mode_is_used method_digits multi_digits map_to_pos round_fwd golomb_code
    remainder_code cutoff configure_encoder_setup ilog_2 clz bit bits cmp_stream_size_to_bits
compress_then_decompress_example =
    compress_then_decompress imagette_cfg (imagette_fields imagette_cfg) src model true (0 ∷ 0 ∷ [])
      by_model_multi (omega arith) imagette-IsField (omega arith) (omega arith) two-IsCount
      (omega arith) (omega arith)
