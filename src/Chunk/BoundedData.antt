-- ===== src/Chunk/BoundedData.antt =====
-- compress_data_internal (cmp_icu.c) does not go past the end of its buffer.
use cmp_tool.Base.{
  zero, suc, sub32, ℕ, ◌-◌, ◌≡◌, inl, inr, refl, ◌∙◌, arith, List, [], ◌∷◌, Option, none, some,
  Bool, true, false, Bool-cases, get_or, drop, if◌then◌else◌, bit_and, ◌==◌, ltb,
}
use cmp_tool.Error.{cmp_is_error, cmp_error, generic, int_data_type_unsupported}
use cmp_tool.Support.Types.{
  imagette, imagette_adaptive, sat_imagette, sat_imagette_adaptive, f_cam_imagette,
  f_cam_imagette_adaptive, s_fx, s_fx_efx, s_fx_ncob, s_fx_efx_ncob_ecob, l_fx, l_fx_efx, l_fx_ncob,
  l_fx_efx_ncob_ecob, offset, f_cam_offset, background, f_cam_background, smearing, CmpDataType,
  raw_mode_is_used, model_mode_is_used,
}
use cmp_tool.Support.Check.{CmpCfg}
use cmp_tool.Encoder.Word.{Dst, Written}
use cmp_tool.Encoder.Value.{◌>>=◌, cmp_stream_size_to_bits, configure_encoder_setup, encode_value}
use cmp_tool.Product.Field.{Field, Sample, encoder_setup}
use cmp_tool.Product.Compress.{
  encode_fields, compress_samples, compress_product, compress_imagette, compress_s_fx,
  compress_s_fx_efx, compress_s_fx_ncob, compress_s_fx_efx_ncob_ecob, compress_l_fx,
  compress_l_fx_efx, compress_l_fx_ncob, compress_l_fx_efx_ncob_ecob, compress_offset,
  compress_background, compress_smearing,
}
use cmp_tool.Chunk.Internal.{
  Buffers, Compressor, pad_bitstream, select_compressor, compress_with, compress_data_internal,
}
use cmp_tool.Chunk.Bounded.{
  IsBounded, error-IsBounded, nothing-IsBounded, put_n_bits32-IsBounded, >>=-IsBounded,
  encode_value-IsBounded,
}

abbrev pub limit_of : CmpCfg → ℕ
limit_of cfg = cmp_stream_size_to_bits cfg.stream_size

IsBounded-cong :
    (limit : ℕ) (f g : ℕ → Dst → Written)
    → ((o : ℕ) (dst : Dst) → f o dst ≡ g o dst)
    → IsBounded limit g
    → IsBounded limit f
IsBounded-cong limit f g same b = record {
  within =
      λ o ws u. let (r, ws', e, l, w) = b.within o ws u in (r, ws', same o (some ws) ∙ e, l, w);
}

encode_member-IsBounded :
    (cfg : CmpCfg) (f : Field) (v m : ℕ)
    → IsBounded (limit_of cfg) (encode_value (encoder_setup cfg f) v m)
unfolding configure_encoder_setup
encode_member-IsBounded cfg f v m = encode_value-IsBounded (encoder_setup cfg f) v m

encode_fields-IsBounded :
    (cfg : CmpCfg) (fs : List Field) (s m : Sample)
    → IsBounded (limit_of cfg) (encode_fields cfg fs s m)
unfolding encode_fields
encode_fields-IsBounded cfg [] s m = nothing-IsBounded (limit_of cfg)
encode_fields-IsBounded cfg (f ∷ fs) s m =
    >>=-IsBounded (limit_of cfg) _ _ (encode_member-IsBounded cfg f (get_or s 0 0) (get_or m 0 0))
      (encode_fields-IsBounded cfg fs (drop 1 s) (drop 1 m))

first_of_if :
    (b : Bool) (w l : Written) (k : List Sample)
    → (if◌then◌else◌ {A = Written × List Sample} b (w, []) (l, k)).0 ≡ (if b then w else l)
first_of_if true w l k = refl
first_of_if false w l k = refl

same_of_if :
    (t : Bool) (w : Written) (x y : List Sample)
    → (λ (r : Written × List Sample). r.0) (if t then (w, x) else (w, y)) ≡ w
same_of_if true w x y = refl
same_of_if false w x y = refl

compress_samples-IsBounded :
    (cfg : CmpCfg) (fs : List Field) (up : Bool) (more : ℕ) (src : List Sample) (m : Sample)
    (next : List Sample)
    → IsBounded (limit_of cfg) (λ o dst. (compress_samples cfg fs up more src m next o dst).0)
unfolding compress_samples
compress_samples-IsBounded cfg fs up zero src m next =
    IsBounded-cong (limit_of cfg) _ _
      (λ o dst.
        same_of_if (cmp_is_error (encode_fields cfg fs (get_or src 0 []) m o dst).0)
          (encode_fields cfg fs (get_or src 0 []) m o dst) _ _)
      (encode_fields-IsBounded cfg fs (get_or src 0 []) m)
compress_samples-IsBounded cfg fs up (suc more) src m next =
    IsBounded-cong (limit_of cfg) _ _
      (λ o dst. first_of_if (cmp_is_error (encode_fields cfg fs (get_or src 0 []) m o dst).0) _ _ _)
      (>>=-IsBounded (limit_of cfg) (encode_fields cfg fs (get_or src 0 []) m)
        (λ o dst.
          (compress_samples cfg fs up more (drop 1 src) (get_or next 0 []) (drop 1 next) o dst).0)
        (encode_fields-IsBounded cfg fs (get_or src 0 []) m)
        (compress_samples-IsBounded cfg fs up more (drop 1 src) (get_or next 0 []) (drop 1 next)))

compress_product-IsBounded :
    (fs : List Field) (cfg : CmpCfg) (src model : List Sample) (up : Bool)
    → IsBounded (limit_of cfg) (λ o dst. (compress_product fs cfg src model up o dst).0)
unfolding compress_product
compress_product-IsBounded fs cfg src model up =
    elim (Bool-cases (model_mode_is_used cfg.cmp_mode)) [
      | inl e ↦ rw e (
          compress_samples-IsBounded cfg fs up (sub32 cfg.samples 1) src (get_or model 0 [])
            (drop 1 model))
      | inr e ↦ rw e (compress_samples-IsBounded cfg fs false (sub32 cfg.samples 1) src [] src)
    ]

-- Every function that the data type selects.
AreBounded : CmpCfg → Option Compressor → Type 0
AreBounded cfg none = Unit
AreBounded cfg (some f) =
    (src model : List Sample) (up : Bool)
    → IsBounded (limit_of cfg) (λ o dst. (f src model up o dst).0)

select_compressor-AreBounded :
    (cfg : CmpCfg) (t : CmpDataType) → AreBounded cfg (select_compressor cfg t)
unfolding AreBounded select_compressor compress_imagette compress_s_fx compress_s_fx_efx
    compress_s_fx_ncob compress_s_fx_efx_ncob_ecob compress_l_fx compress_l_fx_efx
    compress_l_fx_ncob compress_l_fx_efx_ncob_ecob compress_offset compress_background
    compress_smearing
select_compressor-AreBounded cfg imagette = compress_product-IsBounded _ cfg
select_compressor-AreBounded cfg imagette_adaptive = compress_product-IsBounded _ cfg
select_compressor-AreBounded cfg sat_imagette = compress_product-IsBounded _ cfg
select_compressor-AreBounded cfg sat_imagette_adaptive = compress_product-IsBounded _ cfg
select_compressor-AreBounded cfg f_cam_imagette = compress_product-IsBounded _ cfg
select_compressor-AreBounded cfg f_cam_imagette_adaptive = compress_product-IsBounded _ cfg
select_compressor-AreBounded cfg s_fx = compress_product-IsBounded _ cfg
select_compressor-AreBounded cfg s_fx_efx = compress_product-IsBounded _ cfg
select_compressor-AreBounded cfg s_fx_ncob = compress_product-IsBounded _ cfg
select_compressor-AreBounded cfg s_fx_efx_ncob_ecob = compress_product-IsBounded _ cfg
select_compressor-AreBounded cfg l_fx = compress_product-IsBounded _ cfg
select_compressor-AreBounded cfg l_fx_efx = compress_product-IsBounded _ cfg
select_compressor-AreBounded cfg l_fx_ncob = compress_product-IsBounded _ cfg
select_compressor-AreBounded cfg l_fx_efx_ncob_ecob = compress_product-IsBounded _ cfg
select_compressor-AreBounded cfg offset = compress_product-IsBounded _ cfg
select_compressor-AreBounded cfg f_cam_offset = compress_product-IsBounded _ cfg
select_compressor-AreBounded cfg background = compress_product-IsBounded _ cfg
select_compressor-AreBounded cfg f_cam_background = compress_product-IsBounded _ cfg
select_compressor-AreBounded cfg smearing = compress_product-IsBounded _ cfg
select_compressor-AreBounded cfg _ = tt

compress_with-IsBounded :
    (c : Option Compressor) (cfg : CmpCfg) (b : Buffers)
    → AreBounded cfg c
    → IsBounded (limit_of cfg) (λ o dst. (compress_with c cfg b o dst).0)
unfolding compress_with
compress_with-IsBounded none cfg b h =
    error-IsBounded (limit_of cfg) int_data_type_unsupported unsupported-error
  where
    unsupported-error : cmp_is_error (cmp_error int_data_type_unsupported) ≡ true
    unsupported-error = unfold cmp_is_error cmp_error in refl
compress_with-IsBounded (some f) cfg b h = unfold AreBounded in h _ _ _

-- The padding keeps the length.
pad_bitstream-IsBounded : (cfg : CmpCfg) → IsBounded (limit_of cfg) (pad_bitstream cfg)
unfolding pad_bitstream
pad_bitstream-IsBounded cfg = record {
  within = λ o ws u.
      let n : ℕ = 32 - bit_and o 0x1f in
      let (r, ws', e, l, w) = (put_n_bits32-IsBounded 0 n (limit_of cfg)).within o ws u in
      elim (Bool-cases (raw_mode_is_used cfg.cmp_mode)) [
        | inl raw ↦ (o, ws, rw raw refl, u, λ ok. omega arith)
        | inr compressing ↦ elim (Bool-cases (ltb n 32)) [
          | inr full ↦ (o, ws, rw (compressing, full) refl, u, λ ok. omega arith)
          | inl partial ↦ elim (Bool-cases (cmp_is_error r)) [
            | inl bad ↦ (r, ws', rw (compressing, partial, e, bad) refl, l, w)
            | inr good ↦ (o, ws', rw (compressing, partial, e, good) refl, u, λ ok. omega arith)
          ]
        ]
      ];
}

-- In a mode that compresses, from every 32-bit length on and for every buffer of words,
-- compress_data_internal leaves a buffer, and its result is a 32-bit number that is an error or
-- at most the greater of the size of the stream in bits and the length at the start.
pub compress_data_internal-IsBounded :
    (cfg : CmpCfg) (b : Buffers)
    → raw_mode_is_used cfg.cmp_mode ≡ false
    → IsBounded (limit_of cfg) (λ o dst. (compress_data_internal (some cfg) b o dst).0)
unfolding compress_data_internal
compress_data_internal-IsBounded cfg b mode = record {
  within = λ o ws u. elim (Bool-cases (cmp_is_error o)) [
    | inl bad ↦ (o, ws, rw bad refl, u, λ ok. omega arith)
    | inr good ↦ elim (Bool-cases (bit_and o 7 == 0)) [
      | inr odd ↦
          let (r, ws', e, l, w) =
            (error-IsBounded (limit_of cfg) generic generic-error).within o ws u in
          (r, ws', rw (good, odd) e, l, w)
      | inl even ↦ elim (Bool-cases (cfg.samples == 0)) [
        | inl empty ↦ (o, ws, rw (good, even, empty) refl, u, λ ok. omega arith)
        | inr full ↦
            let (r, ws', e, l, w) = both.within o ws u in
            (r, ws', rw (good, even, full, mode) e, l, w)
      ]
    ]
  ];
}
  where
    generic-error : cmp_is_error (cmp_error generic) ≡ true
    generic-error = unfold cmp_is_error cmp_error in refl

    both : IsBounded (limit_of cfg) (λ o dst.
        (compress_with (select_compressor cfg cfg.data_type) cfg b o dst).0 >>= pad_bitstream cfg)
    both =
        >>=-IsBounded (limit_of cfg)
          (λ o dst. (compress_with (select_compressor cfg cfg.data_type) cfg b o dst).0)
          (pad_bitstream cfg)
          (compress_with-IsBounded (select_compressor cfg cfg.data_type) cfg b
            (select_compressor-AreBounded cfg cfg.data_type))
          (pad_bitstream-IsBounded cfg)
