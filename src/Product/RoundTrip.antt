-- ===== src/Product/RoundTrip.antt =====
-- `decompress_product` of Product/Decompress against the digits of a product.
use cmp_tool.Base.{
  ℕ, ◌-◌, ◌^◌, ◌<◌, ◌≡◌, refl, sym, ap, ap₂, ◌∙◌, arith, subst, Bool, true, false, List, [], ◌∷◌,
  ◌++◌, All, get_or, drop, length, map, if◌then◌else◌, Bool-cases, inl, inr, none, some,
}
use cmp_tool.Golomb.{two_pow_mono}
use cmp_tool.UpModel.{cmp_up_model, cmp_up_model16, cmp_up_model32}
use cmp_tool.Support.Types.{model_mode_is_used}
use cmp_tool.Support.Check.{CmpCfg}
use cmp_tool.Decoder.Reader.{BitDecoder}
use cmp_tool.Decoder.Value.{success}
use cmp_tool.Decoder.Refill.Bytes.{IsBytes}
use cmp_tool.RoundTrip.Reads.{IsReady}
use cmp_tool.RoundTrip.Setup.{IsCompressing}
use cmp_tool.Product.Field.{Field, Sample, updated}
use cmp_tool.Product.Compress.{update_fields}
use cmp_tool.Product.Decompress.{Decompressed, decode_fields, decompress_product}
use cmp_tool.Product.Emits.{
  IsField, Fits, Fits-zeros, Fits-first, Fits-later, field_digits, sample_digits, samples_digits,
  product_digits,
}
use cmp_tool.Product.Rounds.{IsCount, decompress_list, decompress_samples-eq}
use mathlib.Core.List.{append_assoc}
use cmp_tool.Product.Reads.{
  rounded_value, rounded, round_fwd-rounded, rounded-le, decode_fields-Reads,
}

-- The samples of a product are read back with the updates of the model, and the reader is ready at
-- what follows.
pub record ProductReads (mem : List ℕ) (read : Decompressed) (samples updates : List Sample)
    (rest : List Bool) : Type 0 where
  pub no_error : read.result ≡ success
  pub as_written : read.samples ≡ samples
  pub as_updated : read.updates ≡ updates
  pub ready : IsReady mem read.dec rest

-- The updated model of a product.
abbrev pub model_updates : CmpCfg → List Field → List Sample → Sample → List Sample → List Sample
model_updates cfg fs [] model next_model = []
model_updates cfg fs (d ∷ ds) model next_model =
    update_fields cfg fs d model
    ∷ model_updates cfg fs ds (get_or next_model 0 []) (drop 1 next_model)

module _ (cfg : CmpCfg) where
  -- An update depends on the rounded value only, which the decoder knows.
  updated-rounded :
      (f : Field) (x model : ℕ)
      → x < 2 ^ 32
      → updated cfg f (rounded_value cfg x) model ≡ updated cfg f x model
  unfolding updated cmp_up_model cmp_up_model16 cmp_up_model32
  updated-rounded f x model h = rw (round_fwd-rounded x cfg.round h) refl

  update_fields-rounded :
      (fs : List Field) (sample model : Sample)
      → All (IsField cfg) fs
      → Fits fs sample
      → update_fields cfg fs (rounded cfg fs sample) model ≡ update_fields cfg fs sample model
  unfolding update_fields
  update_fields-rounded [] sample model v h = refl
  update_fields-rounded (f ∷ fs) sample model v h =
      ap₂ ◌∷◌
        (updated-rounded f (get_or sample 0 0) (get_or model 0 0)
          (omega (arith, h.0, two_pow_mono f.max_used_bits 32 v.0.word_bits)))
        (update_fields-rounded fs (drop 1 sample) (drop 1 model) v.1 h.1)

  -- The digits depend on the rounded model only.
  sample_digits-rounded :
      (fs : List Field) (sample model : Sample)
      → All (IsField cfg) fs
      → Fits fs model
      → sample_digits cfg fs sample (rounded cfg fs model) ≡ sample_digits cfg fs sample model
  sample_digits-rounded [] sample model v h = refl
  sample_digits-rounded (f ∷ fs) sample model v h =
      rw
        (round_fwd-rounded (get_or model 0 0) cfg.round
          (omega (arith, h.0, two_pow_mono f.max_used_bits 32 v.0.word_bits)))
        (ap (λ (l : List Bool). field_digits cfg f (get_or sample 0 0) (get_or model 0 0) ++ l)
          (sample_digits-rounded fs (drop 1 sample) (drop 1 model) v.1 h.1))

  Fits-rounded :
      (fs : List Field) (sample : Sample)
      → All (IsField cfg) fs
      → Fits fs sample
      → Fits fs (rounded cfg fs sample)
  Fits-rounded [] sample v h = _
  Fits-rounded (f ∷ fs) sample v h = (
    omega (
      arith,
      h.0,
      two_pow_mono f.max_used_bits 32 v.0.word_bits,
      rounded-le (get_or sample 0 0) cfg.round,
    ),
    Fits-rounded fs (drop 1 sample) v.1 h.1,
  )

  samples_digits-rounded :
      (fs : List Field) (ds : List Sample) (model : Sample)
      → All (IsField cfg) fs
      → Fits fs model
      → samples_digits cfg fs ds (rounded cfg fs model) ds ≡ samples_digits cfg fs ds model ds
  samples_digits-rounded fs [] model v h = refl
  samples_digits-rounded fs (d ∷ ds) model v h =
      ap (λ (l : List Bool). l ++ samples_digits cfg fs ds d ds)
        (sample_digits-rounded fs d model v h)

pub no_updates : (up : Bool) → ◌≡◌ {A = List Sample} [] (if up then [] else [])
no_updates true = refl
no_updates false = refl

pub add_update :
    (up : Bool) (s s' : Sample) (later later' : List Sample)
    → s ≡ s'
    → later ≡ (if up then later' else [])
    → (if up then s ∷ later else later) ≡ (if up then s' ∷ later' else [])
add_update true s s' later later' e h = ap₂ ◌∷◌ e h
add_update false s s' later later' e h = h

-- The updated model of a product, if there is a model and a buffer for the updated one.
abbrev pub product_updates : CmpCfg → List Field → List Sample → List Sample → Bool → List Sample
product_updates cfg fs src model_buf updated_model_buf =
    if model_mode_is_used cfg.cmp_mode
    then (if updated_model_buf
        then model_updates cfg fs src (get_or model_buf 0 []) (drop 1 model_buf)
        else [])
    else []

module _ (mem : List ℕ) (bytes : IsBytes mem) (cfg : CmpCfg) (mode : IsCompressing cfg.cmp_mode)
    (size : cfg.stream_size < 2 ^ 29 - 16) where
  -- With a model buffer.
  with_model :
      (fs : List Field) (up : Bool) (ds : List Sample) (model : Sample) (next : List Sample)
      (dec : BitDecoder) (rest : List Bool)
      → All (IsField cfg) fs
      → All (Fits fs) ds
      → Fits fs model
      → All (Fits fs) next
      → IsReady mem dec (samples_digits cfg fs ds model next ++ rest)
      → ProductReads mem
          (decompress_list cfg fs up mem (length ds) model (some next) dec)
          (map (rounded cfg fs) ds)
          (if up then model_updates cfg fs ds model next else [])
          rest
  unfolding decompress_list
  with_model fs up [] model next dec rest v hs hm hn r = record {
    no_error = refl;
    as_written = refl;
    as_updated = no_updates up;
    ready = r;
  }
  with_model fs up (d ∷ ds) model next dec rest v hs hm hn r =
      let first =
        decode_fields-Reads mem bytes cfg mode size fs d model dec _ v hs.0 hm
          (subst (IsReady mem dec) (append_assoc (sample_digits cfg fs d model) _ rest) r) in
      let later =
        with_model fs up ds (get_or next 0 []) (drop 1 next) _ rest v hs.1 (Fits-first fs next hn)
          (Fits-later fs next hn) first.ready in
      rw first.no_error (record {
        no_error = later.no_error;
        as_written = ap₂ ◌∷◌ first.as_written later.as_written;
        as_updated =
            add_update up _ _ _ _
              (ap (λ (x : Sample). update_fields cfg fs x model) first.as_written
                ∙ update_fields-rounded cfg fs d model v hs.0)
              later.as_updated;
        ready = later.ready;
      })

  -- Without a model buffer: the model is the sample before, as the decoder knows it.
  without_model :
      (fs : List Field) (ds : List Sample) (model : Sample) (dec : BitDecoder) (rest : List Bool)
      → All (IsField cfg) fs
      → All (Fits fs) ds
      → Fits fs model
      → IsReady mem dec (samples_digits cfg fs ds model ds ++ rest)
      → ProductReads mem
          (decompress_list cfg fs false mem (length ds) model none dec)
          (map (rounded cfg fs) ds)
          []
          rest
  unfolding decompress_list
  without_model fs [] model dec rest v hs hm r = record {
    no_error = refl;
    as_written = refl;
    as_updated = refl;
    ready = r;
  }
  without_model fs (d ∷ ds) model dec rest v hs hm r =
      let first =
        decode_fields-Reads mem bytes cfg mode size fs d model dec _ v hs.0 hm
          (subst (IsReady mem dec) (append_assoc (sample_digits cfg fs d model) _ rest) r) in
      let later =
        without_model fs ds (rounded cfg fs d) (decode_fields cfg fs mem model dec).dec rest v hs.1
          (Fits-rounded cfg fs d v hs.0)
          (subst (λ l. IsReady mem (decode_fields cfg fs mem model dec).dec (l ++ rest))
            (sym (samples_digits-rounded cfg fs ds d v hs.0)) first.ready) in
      let again : ProductReads mem
          (decompress_list cfg fs false mem (length ds) (decode_fields cfg fs mem model dec).sample
            none (decode_fields cfg fs mem model dec).dec)
          (map (rounded cfg fs) ds) [] rest =
        subst
          (λ m.
            ProductReads mem
              (decompress_list cfg fs false mem (length ds) m none
                (decode_fields cfg fs mem model dec).dec)
              (map (rounded cfg fs) ds) [] rest)
          (sym first.as_written) later in
      rw first.no_error (record {
        no_error = again.no_error;
        as_written = ap₂ ◌∷◌ first.as_written again.as_written;
        as_updated = again.as_updated;
        ready = again.ready;
      })

  -- For accepted parameters of every member in a compressing mode, a stream size below 2^29 - 16
  -- bytes, samples and models that fit their members, from one to 2^32 - 1 samples, as many as
  -- configured, and a reader that is ready in a buffer of bytes, decompress_product reads the
  -- digits that compress_product emits back as the rounded samples, with the updates of the
  -- model, and without an error.
  pub decompress_product-Reads :
      (fs : List Field) (src model_buf : List Sample) (updated_model_buf : Bool) (dec : BitDecoder)
      (rest : List Bool)
      → All (IsField cfg) fs
      → All (Fits fs) src
      → All (Fits fs) model_buf
      → IsCount cfg.samples src
      → IsReady mem dec (product_digits cfg fs src model_buf ++ rest)
      → ProductReads mem
          (decompress_product fs cfg model_buf updated_model_buf mem dec)
          (map (rounded cfg fs) src)
          (product_updates cfg fs src model_buf updated_model_buf)
          rest
  unfolding decompress_product
  decompress_product-Reads fs src model_buf up dec rest v hs hm c r =
      elim (Bool-cases (model_mode_is_used cfg.cmp_mode)) [
        | inl e ↦
            rw
              (
                e,
                decompress_samples-eq cfg fs up mem src (get_or model_buf 0 [])
                    (some (drop 1 model_buf)) dec c,
              )
              (with_model fs up src (get_or model_buf 0 []) (drop 1 model_buf) dec rest v hs
                (Fits-first fs model_buf hm) (Fits-later fs model_buf hm)
                (subst (λ l. IsReady mem dec (l ++ rest)) (rw e refl) r))
        | inr e ↦
            rw (e, decompress_samples-eq cfg fs false mem src [] none dec c)
              (without_model fs src [] dec rest v hs (Fits-zeros fs)
                (subst (λ l. IsReady mem dec (l ++ rest)) (rw e refl) r))
      ]
