-- ===== src/Product/Weighted.antt =====
-- The updated model of the compressor (cmp_icu.c) against the equation of the model update, member by
-- member.
use cmp_tool.Base.{
  ℕ, zero, suc, ◌+◌, ◌-◌, ◌*◌, ◌/◌, ◌%◌, ◌^◌, ◌≤◌, ◌<◌, ◌≡◌, refl, sym, ap, ap₂, ◌∙◌, arith, true,
  List, [], ◌∷◌, All, get_or, drop, length, inl, inr, some, get_or-drop, u16, u32, u64, ltb,
  Bool-cases,
}
use cmp_tool.Support.Types.{model_mode_is_used}
use cmp_tool.Support.Check.{CmpCfg}
use cmp_tool.UpModel.{cmp_up_model, cmp_up_model16, cmp_up_model32, round_fwd, round_inv}
use cmp_tool.Encoder.Value.{cmp_stream_size_to_bits}
use cmp_tool.RoundTrip.Setup.{IsCompressing}
use cmp_tool.Product.Field.{Field, Sample, updated}
use cmp_tool.Product.Compress.{update_fields, compress_product}
use cmp_tool.Product.Rounds.{IsCount}
use cmp_tool.Product.Emits.{IsField, Fits, Fits-zeros, product_digits}
use cmp_tool.Product.RoundTrip.{model_updates}
use cmp_tool.Product.Updates.{compress_product-list}
use cmp_tool.Golomb.{two_pow_mono}
use native.Mathlib.Nat.{div-add-mod', mul-le-mul_right, mod-eq_of_lt, mul-add}

-- The weighted mean of the model and the rounded value, in sixteenths.
abbrev pub weighted : CmpCfg → ℕ → ℕ → ℕ
weighted cfg value model =
    (model * cfg.model_value + value / 2 ^ cfg.round * 2 ^ cfg.round * (16 - cfg.model_value)) / 16

module _ (cfg : CmpCfg) (weight : cfg.model_value ≤ 16) where
  rounded_below : (value : ℕ) → value / 2 ^ cfg.round * 2 ^ cfg.round ≤ value
  rounded_below value = omega (arith, div-add-mod' value (2 ^ cfg.round))

  -- A weighted mean is no greater than the greatest weighted value.
  weighted_sum :
      (b value model : ℕ)
      → value < b
      → model < b
      → model * cfg.model_value + value * (16 - cfg.model_value) + 16 ≤ b * 16
  weighted_sum b value model h k =
      let mean : (b - 1) * cfg.model_value + (b - 1) * (16 - cfg.model_value) ≡ (b - 1) * 16 =
        sym (mul-add (b - 1) cfg.model_value (16 - cfg.model_value))
        ∙ ap (λ (k : ℕ). (b - 1) * k) (omega arith) in
      omega (arith, mean, sum_model, sum_value)
    where
      sum_model : model * cfg.model_value ≤ (b - 1) * cfg.model_value
      sum_model = mul-le-mul_right cfg.model_value (omega arith)

      sum_value : value * (16 - cfg.model_value) ≤ (b - 1) * (16 - cfg.model_value)
      sum_value = mul-le-mul_right (16 - cfg.model_value) (omega arith)

  no_wrap :
      (value : ℕ)
      → value < 2 ^ 32
      → round_inv (round_fwd value cfg.round) cfg.round ≡ value / 2 ^ cfg.round * 2 ^ cfg.round
  unfolding round_inv round_fwd
  no_wrap value h =
      rw
        (
          in_word value h,
          in_word (value / 2 ^ cfg.round) (omega (arith, quotient_le (2 ^ cfg.round))),
        )
        (in_word (value / 2 ^ cfg.round * 2 ^ cfg.round) (omega (arith, rounded_below value)))
    where
      quotient_le : (d : ℕ) → value / d ≤ value
      quotient_le d = omega arith

      in_word : (n : ℕ) → n < 2 ^ 32 → u32 n ≡ n
      in_word n l = omega arith

  -- Neither routine wraps around.
  narrow :
      (p q b : ℕ) → p + q + 16 ≤ b * 16 → b ≤ 2 ^ 16 → u16 (u32 (u32 p + u32 q) / 16) ≡ (p + q) / 16
  narrow p q b h l = omega arith

  wide :
      (p q b : ℕ) → p + q + 16 ≤ b * 16 → b ≤ 2 ^ 32 → u32 (u64 (u64 p + u64 q) / 16) ≡ (p + q) / 16
  wide p q b h l = omega arith

  below : (p q b : ℕ) → p + q + 16 ≤ b * 16 → (p + q) / 16 % b ≡ (p + q) / 16
  below p q b h = mod-eq_of_lt (omega arith)

  updated-weighted :
      (f : Field) (value model : ℕ)
      → IsField cfg f
      → f.max_used_bits % 8 ≡ 0
      → value < 2 ^ f.max_used_bits
      → model < 2 ^ f.max_used_bits
      → updated cfg f value model ≡ weighted cfg value model
  unfolding updated cmp_up_model cmp_up_model16 cmp_up_model32
  updated-weighted f value model v whole h k = elim (Bool-cases (ltb (f.max_used_bits / 8) 3)) [
    | inl e ↦
        rw (e, no_wrap value (omega (arith, h, word)), narrow P Q b sum (small e), bytes)
          (ap (λ (n : ℕ). n % b) (below P Q b sum) ∙ below P Q b sum)
    | inr e ↦ rw (e, no_wrap value (omega (arith, h, word)), wide P Q b sum word) (below P Q b sum)
  ]
    where
      b : ℕ
      b = 2 ^ f.max_used_bits

      P : ℕ
      P = model * cfg.model_value

      Q : ℕ
      Q = value / 2 ^ cfg.round * 2 ^ cfg.round * (16 - cfg.model_value)

      word : b ≤ 2 ^ 32
      word = two_pow_mono f.max_used_bits 32 v.word_bits

      small : ltb (f.max_used_bits / 8) 3 ≡ true → b ≤ 2 ^ 16
      small e = two_pow_mono f.max_used_bits 16 (ground arith)

      bytes : 8 * (f.max_used_bits / 8) ≡ f.max_used_bits
      bytes = omega arith

      sum : P + Q + 16 ≤ b * 16
      sum =
          weighted_sum b (value / 2 ^ cfg.round * 2 ^ cfg.round) model
            (omega (arith, h, rounded_below value)) k

  -- The members of an updated sample.
  update_fields-weighted :
      (fs : List Field) (sample model : Sample) (j : ℕ)
      → All (IsField cfg) fs
      → All (λ (f : Field). f.max_used_bits % 8 ≡ 0) fs
      → Fits fs sample
      → Fits fs model
      → j < length fs
      → get_or (update_fields cfg fs sample model) j 0
        ≡ weighted cfg (get_or sample j 0) (get_or model j 0)
  unfolding update_fields
  update_fields-weighted [] sample model j v w hs hm l = absurd (omega arith)
  update_fields-weighted (f ∷ fs) sample model zero v w hs hm l =
      updated-weighted f (get_or sample 0 0) (get_or model 0 0) v.0 w.0 hs.0 hm.0
  update_fields-weighted (f ∷ fs) sample model (suc j) v w hs hm l =
      update_fields-weighted fs (drop 1 sample) (drop 1 model) j v.1 w.1 hs.1 hm.1 (omega arith)
      ∙ ap₂ (weighted cfg) (get_or-drop 1 sample j 0 ∙ next sample)
          (get_or-drop 1 model j 0 ∙ next model)
    where
      next : (s : Sample) → get_or s (1 + j) 0 ≡ get_or s (suc j) 0
      next s = ap (λ (k : ℕ). get_or s k 0) (omega arith)

  length-update_fields :
      (fs : List Field) (sample model : Sample)
      → length (update_fields cfg fs sample model) ≡ length fs
  unfolding update_fields
  length-update_fields [] sample model = refl
  length-update_fields (f ∷ fs) sample model =
      omega (arith, length-update_fields fs (drop 1 sample) (drop 1 model))

  -- The first model and those after it are the models in order.
  models_in_order :
      (ms : List Sample) (i : ℕ) → get_or (get_or ms 0 [] ∷ drop 1 ms) i [] ≡ get_or ms i []
  models_in_order [] zero = refl
  models_in_order [] (suc i) = refl
  models_in_order (m ∷ ms) zero = refl
  models_in_order (m ∷ ms) (suc i) = refl

  model_updates-at :
      (fs : List Field) (ds : List Sample) (model : Sample) (next : List Sample) (i : ℕ)
      → i < length ds
      → get_or (model_updates cfg fs ds model next) i []
        ≡ update_fields cfg fs (get_or ds i []) (get_or (model ∷ next) i [])
  model_updates-at fs [] model next i l = absurd (omega arith)
  model_updates-at fs (d ∷ ds) model next zero l = refl
  model_updates-at fs (d ∷ ds) model next (suc i) l =
      model_updates-at fs ds (get_or next 0 []) (drop 1 next) i (omega arith)
      ∙ ap (update_fields cfg fs (get_or ds i [])) (models_in_order next i)

  length-model_updates :
      (fs : List Field) (ds : List Sample) (model : Sample) (next : List Sample)
      → length (model_updates cfg fs ds model next) ≡ length ds
  length-model_updates fs [] model next = refl
  length-model_updates fs (d ∷ ds) model next =
      omega (arith, length-model_updates fs ds (get_or next 0 []) (drop 1 next))

  Fits-at :
      (fs : List Field) (ss : List Sample) (i : ℕ) → All (Fits fs) ss → Fits fs (get_or ss i [])
  Fits-at fs [] i h = Fits-zeros fs
  Fits-at fs (s ∷ ss) zero h = h.0
  Fits-at fs (s ∷ ss) (suc i) h = Fits-at fs ss i h.1

-- The samples of an updated model: as many as there are samples, each with every member, and each
-- member the weighted mean of the same member of the model at the same place.
pub record IsUpdated (cfg : CmpCfg) (fs : List Field) (src model_buf updates : List Sample)
    : Type 0 where
  pub every_sample : length updates ≡ length src
  pub every_member : (i : ℕ) → i < length src → length (get_or updates i []) ≡ length fs
  pub mean :
      (i j : ℕ)
      → i < length src
      → j < length fs
      → get_or (get_or updates i []) j 0
        ≡ weighted cfg (get_or (get_or src i []) j 0) (get_or (get_or model_buf i []) j 0)

-- In a compressing mode with a model, with a model value of at most 16, a stream size below 2^29
-- - 16 bytes, accepted parameters of every member, members of whole bytes, samples and models
-- that fit their members, from one to 2^32 - 1 samples, as many as configured, and a buffer as
-- large as the stream size that the digits fit, compress_product writes to the buffer of the
-- updated model one sample for every sample of the data, with all its members, and each member is
-- the sum of the same member of the model at the same place, weighted with the model value, and
-- that of the data, rounded down to a multiple of 2 to the power of the rounding parameter and
-- weighted with 16 less the model value, divided by 16.
pub compress_product-updates :
    (cfg : CmpCfg) (fs : List Field) (src model_buf : List Sample) (o : ℕ) (ws : List ℕ)
    → IsCompressing cfg.cmp_mode
    → model_mode_is_used cfg.cmp_mode ≡ true
    → cfg.model_value ≤ 16
    → cfg.stream_size < 2 ^ 29 - 16
    → All (IsField cfg) fs
    → All (λ (f : Field). f.max_used_bits % 8 ≡ 0) fs
    → All (Fits fs) src
    → All (Fits fs) model_buf
    → IsCount cfg.samples src
    → o + length (product_digits cfg fs src model_buf) ≤ cmp_stream_size_to_bits cfg.stream_size
    → cmp_stream_size_to_bits cfg.stream_size ≤ 32 * length ws
    → IsUpdated cfg fs src model_buf (compress_product fs cfg src model_buf true o (some ws)).1
compress_product-updates cfg fs src model_buf o ws mode model weight size v w hs hm c h fits =
    let list = compress_product-list cfg mode size fs src model_buf true o ws v hs hm c h fits in
    rw (list, model)
      (record {
        every_sample =
            length-model_updates cfg weight fs src (get_or model_buf 0 []) (drop 1 model_buf);
        every_member = λ i l.
            ap length
              (model_updates-at cfg weight fs src (get_or model_buf 0 []) (drop 1 model_buf) i l)
            ∙ length-update_fields cfg weight fs (get_or src i []) _;
        mean = λ i j l k.
            ap (λ (s : Sample). get_or s j 0)
              (model_updates-at cfg weight fs src (get_or model_buf 0 []) (drop 1 model_buf) i l
                ∙ ap (update_fields cfg fs (get_or src i []))
                    (models_in_order cfg weight model_buf i))
            ∙ update_fields-weighted cfg weight fs (get_or src i []) (get_or model_buf i []) j v w
                (Fits-at cfg weight fs src i hs) (Fits-at cfg weight fs model_buf i hm) k;
      })
