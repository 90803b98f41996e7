-- ===== src/Chunk/Bounded.antt =====
-- No operation of cmp_icu.c that writes to the bitstream goes past the end of its buffer.
use cmp_tool.Base.{
  ℕ, ◌+◌, ◌^◌, ◌≤◌, ◌<◌, ◌≡◌, inl, inr, refl, arith, List, some, Bool, true, false, Bool-cases, max,
  u32, sub32, ltb, leb, if◌then◌else◌, ◌==◌,
}
use cmp_tool.Error.{cmp_is_error, cmp_error, data_value_too_large, small_buffer, int_decoder}
use cmp_tool.Encoder.Word.{Dst, Written, put_n_bits32, put_words}
use cmp_tool.Encoder.Value.{
  ◌>>=◌, EncoderSetup, encode_normal, encode_value_zero, encode_value_multi, encode_method,
  EncodeMethod, zero_escape, multi_escape, encode_value,
}

-- The buffer stays, and the new length is an error or at most the greater of `limit` and the old
-- length.
pub record IsBounded (limit : ℕ) (f : ℕ → Dst → Written) : Type 0 where
  pub within :
      (o : ℕ) (ws : List ℕ)
      → o < 2 ^ 32
      → (r : ℕ) × (ws' : List ℕ) × (f o (some ws) ≡ (r, some ws'))
        × (r < 2 ^ 32)
        × (cmp_is_error r ≡ false → r ≤ max limit o)

error-lt : (e : _) → cmp_error e < 2 ^ 32
unfolding cmp_error
error-lt e = omega arith

pub error-IsBounded :
    (limit : ℕ) (e : _)
    → cmp_is_error (cmp_error e) ≡ true
    → IsBounded limit (λ o dst. (cmp_error e, dst))
error-IsBounded limit e h = record {
  within = λ o ws u. (cmp_error e, ws, refl, error-lt e, λ ok. absurd (cc (h, ok)));
}

pub nothing-IsBounded : (limit : ℕ) → IsBounded limit (λ o dst. (o, dst))
nothing-IsBounded limit = record { within = λ o ws u. (o, ws, refl, u, λ ok. omega arith) }

pub put_n_bits32-IsBounded : (v n limit : ℕ) → IsBounded limit (put_n_bits32 v n limit)
unfolding put_n_bits32 cmp_error cmp_is_error
put_n_bits32-IsBounded v n limit = record {
  within = λ o ws u. elim (Bool-cases (leb (2 ^ 31) (sub32 32 n))) [
    | inl wide ↦
        (cmp_error int_decoder, ws, rw wide refl, error-lt int_decoder, λ ok. absurd (cc ok))
    | inr narrow ↦ elim (Bool-cases (n == 0)) [
      | inl none_left ↦
          (u32 (n + o), ws, rw (narrow, none_left) refl, omega arith, λ ok. unchanged o u none_left)
      | inr some_left ↦ elim (Bool-cases (ltb limit (u32 (n + o)))) [
        | inl over ↦ (
          cmp_error small_buffer,
          ws,
          rw (narrow, some_left, over) refl,
          error-lt small_buffer,
          λ ok. absurd (cc ok),
        )
        | inr fits ↦ (
          u32 (n + o),
          put_words v n o ws,
          rw (narrow, some_left, fits) refl,
          omega arith,
          λ ok. ground arith,
        )
      ]
    ]
  ];
}
  where
    unchanged : (o : ℕ) → o < 2 ^ 32 → (n == 0) ≡ true → u32 (n + o) ≤ max limit o
    unchanged o u e = ground arith

pub >>=-IsBounded :
    (limit : ℕ) (f g : ℕ → Dst → Written)
    → IsBounded limit f
    → IsBounded limit g
    → IsBounded limit (λ o dst. f o dst >>= g)
>>=-IsBounded limit f g bf bg = record {
  within = λ o ws u.
      let (r, ws', e, l, b) = bf.within o ws u in
      elim (Bool-cases (cmp_is_error r)) [
        | inl bad ↦ (r, ws', rw (e, bad) refl, l, λ ok. absurd (cc (bad, ok)))
        | inr good ↦
            let (r', ws'', e', l', b') = bg.within r ws' l in
            (r', ws'', rw (e, good) e', l', λ ok. omega (arith, b good, b' ok))
      ];
}

pub if-IsBounded :
    (limit : ℕ) (b : Bool) (f g : ℕ → Dst → Written)
    → IsBounded limit f
    → IsBounded limit g
    → IsBounded limit (λ o dst. if b then f o dst else g o dst)
if-IsBounded limit true f g bf bg = bf
if-IsBounded limit false f g bf bg = bg

pub encode_normal-IsBounded :
    (s : EncoderSetup) (v : ℕ) → IsBounded s.max_stream_len (encode_normal s v)
unfolding encode_normal
encode_normal-IsBounded s v = put_n_bits32-IsBounded _ _ s.max_stream_len

pub encode_value_zero-IsBounded :
    (s : EncoderSetup) (v m : ℕ) → IsBounded s.max_stream_len (encode_value_zero s v m)
unfolding encode_value_zero
encode_value_zero-IsBounded s v m =
    if-IsBounded s.max_stream_len _ _ _ (encode_normal-IsBounded s _) (
      >>=-IsBounded s.max_stream_len _ _ (encode_normal-IsBounded s 0)
        (put_n_bits32-IsBounded _ _ s.max_stream_len))

pub encode_value_multi-IsBounded :
    (s : EncoderSetup) (v m : ℕ) → IsBounded s.max_stream_len (encode_value_multi s v m)
unfolding encode_value_multi
encode_value_multi-IsBounded s v m =
    if-IsBounded s.max_stream_len _ _ _ (encode_normal-IsBounded s _) (
      >>=-IsBounded s.max_stream_len _ _ (encode_normal-IsBounded s _)
        (put_n_bits32-IsBounded _ _ s.max_stream_len))

encode_method-IsBounded :
    (k : EncodeMethod) (s : EncoderSetup) (v m : ℕ)
    → IsBounded s.max_stream_len (encode_method k s v m)
unfolding encode_method
encode_method-IsBounded zero_escape s v m = encode_value_zero-IsBounded s v m
encode_method-IsBounded multi_escape s v m = encode_value_multi-IsBounded s v m

too_large-error : cmp_is_error (cmp_error data_value_too_large) ≡ true
unfolding cmp_is_error cmp_error
too_large-error = refl

pub encode_value-IsBounded :
    (s : EncoderSetup) (v m : ℕ) → IsBounded s.max_stream_len (encode_value s v m)
unfolding encode_value
encode_value-IsBounded s v m =
    if-IsBounded s.max_stream_len _ _ _
      (error-IsBounded s.max_stream_len data_value_too_large too_large-error)
      (encode_method-IsBounded s.encode_method_f s _ _)
