-- ===== src/Product/Rounds.antt =====
-- The loops of Product/Compress and Product/Decompress for one sample or more, as recursion on the
-- samples: a reference that the theorems on products use.
use cmp_tool.Base.{
  ℕ, zero, suc, sub32, ◌^◌, ◌<◌, ◌≡◌, refl, subst, arith, Bool, List, [], ◌∷◌, if◌then◌else◌,
  get_or, drop, length, Option,
}
use cmp_tool.Error.{cmp_is_error}
use cmp_tool.Support.Check.{CmpCfg}
use cmp_tool.Encoder.Word.{Dst, Written}
use cmp_tool.Decoder.Reader.{BitDecoder}
use cmp_tool.Decoder.Value.{success}
use cmp_tool.Product.Field.{Field, Sample}
use cmp_tool.Product.Compress.{encode_fields, update_fields, compress_samples}
use cmp_tool.Product.Decompress.{
  Decompressed, decode_fields, step_model, unless_error, decompress_samples,
}

-- As many samples as configured, at least one, in an `uint32_t`.
pub record IsCount (samples : ℕ) (src : List Sample) : Type 0 where
  pub all : samples ≡ length src
  pub some_samples : 0 < samples
  pub word : samples < 2 ^ 32

unfoldable pub compress_list :
    CmpCfg
    → List Field
    → Bool
    → List Sample
    → Sample
    → List Sample
    → ℕ
    → Dst
    → Written × List Sample
compress_list cfg fs up_model [] model next_model stream_len dst = ((stream_len, dst), [])
compress_list cfg fs up_model (d ∷ ds) model next_model stream_len dst =
    let written = encode_fields cfg fs d model stream_len dst in
    let (later, updates) =
      compress_list cfg fs up_model ds (get_or next_model 0 []) (drop 1 next_model) written.0
        written.1 in
    if cmp_is_error written.0
    then (written, [])
    else (later, if up_model then update_fields cfg fs d model ∷ updates else updates)

-- For `d ∷ ds`, the loop goes on for the length of `ds`.
compress_samples-list :
    (cfg : CmpCfg) (fs : List Field) (up : Bool) (d : Sample) (ds : List Sample) (model : Sample)
    (next : List Sample) (o : ℕ) (dst : Dst)
    → compress_samples cfg fs up (length ds) (d ∷ ds) model next o dst
      ≡ compress_list cfg fs up (d ∷ ds) model next o dst
unfolding compress_samples compress_list
compress_samples-list cfg fs up d [] model next o dst = refl
compress_samples-list cfg fs up d (d' ∷ ds) model next o dst =
    let w = encode_fields cfg fs d model o dst in
    rw (compress_samples-list cfg fs up d' ds (get_or next 0 []) (drop 1 next) w.0 w.1) refl

pub compress_samples-eq :
    (cfg : CmpCfg) (fs : List Field) (up : Bool) (src : List Sample) (model : Sample)
    (next : List Sample) (o : ℕ) (dst : Dst)
    → IsCount cfg.samples src
    → compress_samples cfg fs up (sub32 cfg.samples 1) src model next o dst
      ≡ compress_list cfg fs up src model next o dst
compress_samples-eq cfg fs up [] model next o dst c = absurd (omega (arith, c.all, c.some_samples))
compress_samples-eq cfg fs up (d ∷ ds) model next o dst c =
    subst
      (λ k.
        compress_samples cfg fs up k (d ∷ ds) model next o dst
        ≡ compress_list cfg fs up (d ∷ ds) model next o dst)
      (omega (arith, c.all, c.some_samples, c.word))
      (compress_samples-list cfg fs up d ds model next o dst)

unfoldable pub decompress_list :
    CmpCfg
    → List Field
    → Bool
    → List ℕ
    → ℕ
    → Sample
    → Option (List Sample)
    → BitDecoder
    → Decompressed
decompress_list cfg fs up_model mem zero model next_model dec = record {
  result = success;
  samples = [];
  updates = [];
  dec = dec;
}
decompress_list cfg fs up_model mem (suc n) model next_model dec =
    let read = decode_fields cfg fs mem model dec in
    let (model', next_model') = step_model read.sample next_model in
    let later = decompress_list cfg fs up_model mem n model' next_model' read.dec in
    unless_error read.result
      (record later {
        samples = read.sample ∷ later.samples;
        updates =
            if up_model
            then update_fields cfg fs read.sample model ∷ later.updates
            else later.updates;
      })
      (record { result = read.result; samples = read.sample ∷ []; updates = []; dec = read.dec })

decompress_samples-list :
    (cfg : CmpCfg) (fs : List Field) (up : Bool) (mem : List ℕ) (more : ℕ) (model : Sample)
    (next : Option (List Sample)) (dec : BitDecoder)
    → decompress_samples cfg fs up mem more model next dec
      ≡ decompress_list cfg fs up mem (suc more) model next dec
unfolding decompress_samples decompress_list
decompress_samples-list cfg fs up mem zero model next dec = refl
decompress_samples-list cfg fs up mem (suc more) model next dec =
    let read = decode_fields cfg fs mem model dec in
    let step = step_model read.sample next in
    rw (decompress_samples-list cfg fs up mem more step.0 step.1 read.dec) refl

pub decompress_samples-eq :
    (cfg : CmpCfg) (fs : List Field) (up : Bool) (mem : List ℕ) (src : List Sample) (model : Sample)
    (next : Option (List Sample)) (dec : BitDecoder)
    → IsCount cfg.samples src
    → decompress_samples cfg fs up mem (sub32 cfg.samples 1) model next dec
      ≡ decompress_list cfg fs up mem (length src) model next dec
decompress_samples-eq cfg fs up mem src model next dec c =
    subst
      (λ k.
        decompress_samples cfg fs up mem (sub32 cfg.samples 1) model next dec
        ≡ decompress_list cfg fs up mem k model next dec)
      (omega (arith, c.all, c.some_samples, c.word))
      (decompress_samples-list cfg fs up mem (sub32 cfg.samples 1) model next dec)
