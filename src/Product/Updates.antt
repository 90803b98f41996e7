-- ===== src/Product/Updates.antt =====
-- The updated model that the compressor of cmp_icu.c writes.
use cmp_tool.Base.{
  ℕ, ◌+◌, ◌-◌, ◌*◌, ◌^◌, ◌≤◌, ◌<◌, ◌≡◌, refl, arith, Bool, false, List, [], ◌∷◌, ◌++◌, All, get_or,
  drop, length, length-append, if◌then◌else◌, Bool-cases, inl, inr, some,
}
use cmp_tool.Support.Types.{model_mode_is_used}
use cmp_tool.Support.Check.{CmpCfg}
use cmp_tool.Encoder.Value.{cmp_stream_size_to_bits}
use cmp_tool.Encoder.Emits.{not_error}
use cmp_tool.RoundTrip.Setup.{IsCompressing, stream_size-IsLength}
use cmp_tool.Product.Field.{Field, Sample}
use cmp_tool.Product.Compress.{compress_product}
use cmp_tool.Product.Rounds.{IsCount, compress_list, compress_samples-eq}
use cmp_tool.Product.Emits.{
  IsField, Fits, Fits-zeros, Fits-first, Fits-later, sample_digits, samples_digits, product_digits,
  encode_fields-Emits,
}
use cmp_tool.Product.RoundTrip.{model_updates, product_updates, no_updates, add_update}

module _ (cfg : CmpCfg) (mode : IsCompressing cfg.cmp_mode)
    (size : cfg.stream_size < 2 ^ 29 - 16) where
  abbrev max : ℕ
  max = cmp_stream_size_to_bits cfg.stream_size

  samples-updates :
      (fs : List Field) (up : Bool) (ds : List Sample) (model : Sample) (next : List Sample) (o : ℕ)
      (ws : List ℕ)
      → All (IsField cfg) fs
      → All (Fits fs) ds
      → Fits fs model
      → All (Fits fs) next
      → o + length (samples_digits cfg fs ds model next) ≤ max
      → max ≤ 32 * length ws
      → (compress_list cfg fs up ds model next o (some ws)).1
        ≡ (if up then model_updates cfg fs ds model next else [])
  unfolding compress_list
  samples-updates fs up [] model next o ws v hs hm hn h fits = no_updates up
  samples-updates fs up (d ∷ ds) model next o ws v hs hm hn h fits =
      let (ws', e, len, s) =
        (encode_fields-Emits cfg mode size fs d model v hs.0 hm).writes o ws (omega (arith, both))
          fits in
      rw
        (
          e,
          not_error (o + length (sample_digits cfg fs d model))
              (omega (arith, both, stream_size-IsLength cfg.stream_size size)),
        )
        (add_update up _ _ _ _ refl (
          samples-updates fs up ds (get_or next 0 []) (drop 1 next)
            (o + length (sample_digits cfg fs d model)) ws' v hs.1 (Fits-first fs next hn)
            (Fits-later fs next hn) (omega (arith, both)) (omega (arith, len))))
    where
      both :
          length (
            sample_digits cfg fs d model
            ++ samples_digits cfg fs ds (get_or next 0 []) (drop 1 next))
          ≡ length (sample_digits cfg fs d model)
            + length (samples_digits cfg fs ds (get_or next 0 []) (drop 1 next))
      both = length-append (sample_digits cfg fs d model) _

  -- The updates as a list, one for every sample.
  pub compress_product-list :
      (fs : List Field) (src model_buf : List Sample) (updated_model_buf : Bool) (o : ℕ)
      (ws : List ℕ)
      → All (IsField cfg) fs
      → All (Fits fs) src
      → All (Fits fs) model_buf
      → IsCount cfg.samples src
      → o + length (product_digits cfg fs src model_buf) ≤ max
      → max ≤ 32 * length ws
      → (compress_product fs cfg src model_buf updated_model_buf o (some ws)).1
        ≡ product_updates cfg fs src model_buf updated_model_buf
  unfolding compress_product
  compress_product-list fs src model_buf up o ws v hs hm c h fits =
      elim (Bool-cases (model_mode_is_used cfg.cmp_mode)) [
        | inl e ↦
            rw
              (
                e,
                compress_samples-eq cfg fs up src (get_or model_buf 0 []) (drop 1 model_buf) o
                    (some ws) c,
              )
              (samples-updates fs up src (get_or model_buf 0 []) (drop 1 model_buf) o ws v hs
                (Fits-first fs model_buf hm) (Fits-later fs model_buf hm) (rw e at h) fits)
        | inr e ↦
            rw (e, compress_samples-eq cfg fs false src [] src o (some ws) c)
              (samples-updates fs false src [] src o ws v hs (Fits-zeros fs) hs (rw e at h) fits)
      ]
