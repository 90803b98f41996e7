-- ===== src/Product/Emits.antt =====
-- The loops of cmp_icu.c, and the digits of the members of a product.
use cmp_tool.Base.{
  ap, ℕ, ◌-◌, ◌/◌, ◌%◌, ◌^◌, ◌≤◌, ◌<◌, ◌≡◌, refl, arith, Bool, false, List, [], ◌∷◌, ◌++◌, All,
  get_or, drop, if◌then◌else◌, Bool-cases, inl, inr,
}
use cmp_tool.Error.{cmp_is_error}
use cmp_tool.UpModel.{round_fwd}
use cmp_tool.Support.Types.{model_mode_is_used}
use cmp_tool.Support.Check.{CmpCfg, cmp_pars_are_invalid}
use cmp_tool.Encoder.Word.{Dst, Written}
use cmp_tool.Encoder.Value.{configure_encoder_setup, cmp_stream_size_to_bits, ◌>>=◌}
use cmp_tool.Encoder.Emits.{Emits, IsLength, Emits-cong, >>=-Emits, nothing-Emits}
use cmp_tool.Encoder.Digits.{IsSetup, difference}
use cmp_tool.Encoder.Range.{value_digits, encode_value-Emits}
use cmp_tool.RoundTrip.Setup.{IsCompressing, stream_size-IsLength, configure_encoder_setup-IsSetup}
use cmp_tool.Product.Field.{Field, Sample, encoder_setup}
use cmp_tool.Product.Compress.{encode_fields, update_fields, compress_product}
use cmp_tool.Product.Rounds.{IsCount, compress_list, compress_samples-eq}
use native.Mathlib.Nat.{one-le-pow}

-- A member with accepted parameters.
pub record IsField (cfg : CmpCfg) (f : Field) : Type 0 where
  pub pars : cmp_pars_are_invalid f.cmp_par f.spill cfg.cmp_mode ≡ 0
  pub some_bits : 0 < f.max_used_bits
  pub word_bits : f.max_used_bits ≤ 32

-- A sample whose members fit their bits, as the types of the members make sure.
abbrev pub Fits : List Field → Sample → Type 0
Fits [] sample = Unit
Fits (f ∷ fs) sample = (get_or sample 0 0 < 2 ^ f.max_used_bits) × Fits fs (drop 1 sample)

abbrev pub field_digits : CmpCfg → Field → ℕ → ℕ → List Bool
field_digits cfg f value model =
    let s = encoder_setup cfg f in
    value_digits s (difference s (round_fwd value cfg.round) (round_fwd model cfg.round))

abbrev pub sample_digits : CmpCfg → List Field → Sample → Sample → List Bool
sample_digits cfg [] sample model = []
sample_digits cfg (f ∷ fs) sample model =
    field_digits cfg f (get_or sample 0 0) (get_or model 0 0)
    ++ sample_digits cfg fs (drop 1 sample) (drop 1 model)

abbrev pub samples_digits : CmpCfg → List Field → List Sample → Sample → List Sample → List Bool
samples_digits cfg fs [] model next_model = []
samples_digits cfg fs (d ∷ ds) model next_model =
    sample_digits cfg fs d model
    ++ samples_digits cfg fs ds (get_or next_model 0 []) (drop 1 next_model)

abbrev pub product_digits : CmpCfg → List Field → List Sample → List Sample → List Bool
product_digits cfg fs src model_buf =
    if model_mode_is_used cfg.cmp_mode
    then samples_digits cfg fs src (get_or model_buf 0 []) (drop 1 model_buf)
    else samples_digits cfg fs src [] src

pub round_fwd-le : (x r : ℕ) → round_fwd x r ≤ x
unfolding round_fwd
round_fwd-le x r = omega (arith, quotient_le (x % 2 ^ 32) (2 ^ r))
  where
    quotient_le : (a b : ℕ) → a / b ≤ a
    quotient_le a b = omega arith

pub Fits-zeros : (fs : List Field) → Fits fs []
Fits-zeros [] = _
Fits-zeros (f ∷ fs) = (one-le-pow f.max_used_bits 2 (omega arith), Fits-zeros fs)

pub Fits-first : (fs : List Field) (ss : List Sample) → All (Fits fs) ss → Fits fs (get_or ss 0 [])
Fits-first fs [] h = Fits-zeros fs
Fits-first fs (s ∷ ss) h = h.0

pub Fits-later : (fs : List Field) (ss : List Sample) → All (Fits fs) ss → All (Fits fs) (drop 1 ss)
Fits-later fs [] h = h
Fits-later fs (s ∷ ss) h = h.1

pub field-IsSetup :
    (cfg : CmpCfg) (f : Field)
    → IsCompressing cfg.cmp_mode
    → cfg.stream_size < 2 ^ 29 - 16
    → IsField cfg f
    → IsSetup (encoder_setup cfg f)
field-IsSetup cfg f mode size v =
    configure_encoder_setup-IsSetup f.cmp_par f.spill cfg.round f.max_used_bits cfg.stream_size
      cfg.cmp_mode mode v.pars v.some_bits v.word_bits size

module _ (cfg : CmpCfg) (mode : IsCompressing cfg.cmp_mode)
    (size : cfg.stream_size < 2 ^ 29 - 16) where
  capacity : IsLength (cmp_stream_size_to_bits cfg.stream_size)
  capacity = stream_size-IsLength cfg.stream_size size

  pub encode_fields-Emits :
      (fs : List Field) (sample model : Sample)
      → All (IsField cfg) fs
      → Fits fs sample
      → Fits fs model
      → Emits
          (cmp_stream_size_to_bits cfg.stream_size)
          (encode_fields cfg fs sample model)
          (sample_digits cfg fs sample model)
  unfolding encode_fields configure_encoder_setup
  encode_fields-Emits [] sample model v hs hm = nothing-Emits _
  encode_fields-Emits (f ∷ fs) sample model v hs hm =
      >>=-Emits capacity
        (encode_value-Emits (encoder_setup cfg f) (get_or sample 0 0) (get_or model 0 0)
          (field-IsSetup cfg f mode size v.0)
          (omega (arith, hs.0, round_fwd-le (get_or sample 0 0) cfg.round))
          (omega (arith, hm.0, round_fwd-le (get_or model 0 0) cfg.round)))
        (encode_fields-Emits fs (drop 1 sample) (drop 1 model) v.1 hs.1 hm.1)

  compress_list-Emits :
      (fs : List Field) (up_model : Bool) (ds : List Sample) (model : Sample)
      (next_model : List Sample)
      → All (IsField cfg) fs
      → All (Fits fs) ds
      → Fits fs model
      → All (Fits fs) next_model
      → Emits
          (cmp_stream_size_to_bits cfg.stream_size)
          (λ o dst. (compress_list cfg fs up_model ds model next_model o dst).0)
          (samples_digits cfg fs ds model next_model)
  unfolding compress_list
  compress_list-Emits fs up [] model next v hs hm hn = nothing-Emits _
  compress_list-Emits fs up (d ∷ ds) model next v hs hm hn =
      Emits-cong (λ o dst. split (encode_fields cfg fs d model o dst)) refl
        (>>=-Emits capacity (encode_fields-Emits fs d model v hs.0 hm) (
          compress_list-Emits fs up ds (get_or next 0 []) (drop 1 next) v hs.1
            (Fits-first fs next hn) (Fits-later fs next hn)))
    where
      later : ℕ → Dst → Written × List Sample
      later o dst = compress_list cfg fs up ds (get_or next 0 []) (drop 1 next) o dst

      split :
          (w : Written)
          → (λ (r : Written × List Sample). r.0)
              (if cmp_is_error w.0 then (w, []) else (
                (later w.0 w.1).0,
                if up then update_fields cfg fs d model ∷ (later w.0 w.1).1 else (later w.0 w.1).1,
              ))
            ≡ (w >>= λ o dst. (later o dst).0)
      split w = elim (Bool-cases (cmp_is_error w.0)) [ inl e ↦ rw e refl | inr e ↦ rw e refl ]

  -- For accepted parameters of every member in a compressing mode, a stream size below 2^29 - 16
  -- bytes, samples and models that fit their members, and from one to 2^32 - 1 samples, as many
  -- as configured, compress_product appends the digits of every member of every sample in order,
  -- reports a small buffer when they do not fit, and returns the length alone when there is no
  -- buffer.
  pub compress_product-Emits :
      (fs : List Field) (src model_buf : List Sample) (updated_model_buf : Bool)
      → All (IsField cfg) fs
      → All (Fits fs) src
      → All (Fits fs) model_buf
      → IsCount cfg.samples src
      → Emits
          (cmp_stream_size_to_bits cfg.stream_size)
          (λ o dst. (compress_product fs cfg src model_buf updated_model_buf o dst).0)
          (product_digits cfg fs src model_buf)
  unfolding compress_product
  compress_product-Emits fs src model_buf up v hs hm c =
      elim (Bool-cases (model_mode_is_used cfg.cmp_mode)) [
        | inl e ↦
            Emits-cong
              (λ o dst. rw e (
                ap (λ (r : Written × List Sample). r.0)
                  (compress_samples-eq cfg fs up src (get_or model_buf 0 []) (drop 1 model_buf) o
                    dst c)))
              (rw e refl)
              (compress_list-Emits fs up src (get_or model_buf 0 []) (drop 1 model_buf) v hs
                (Fits-first fs model_buf hm) (Fits-later fs model_buf hm))
        | inr e ↦
            Emits-cong
              (λ o dst. rw e (
                ap (λ (r : Written × List Sample). r.0)
                  (compress_samples-eq cfg fs false src [] src o dst c)))
              (rw e refl) (compress_list-Emits fs false src [] src v hs (Fits-zeros fs) hs)
      ]
