-- ===== src/Chunk/RawSize.antt =====
-- The size that the raw mode of compress_data_internal (cmp_icu.c) returns.
use cmp_tool.Base.{
  ℕ, ◌+◌, ◌*◌, ◌^◌, ◌≤◌, ◌<◌, ◌≡◌, ◌⊎◌, inl, inr, refl, sym, ◌∙◌, arith, List, none, some, true,
  false, Bool-cases, u32, shr, bit_and, ◌==◌, ltb,
}
use cmp_tool.Error.{cmp_is_error, cmp_error, generic}
use cmp_tool.Support.Types.{raw_mode_is_used}
use cmp_tool.Support.Check.{CmpCfg}
use cmp_tool.Encoder.Word.{Dst, Written}
use cmp_tool.Encoder.Value.{◌>>=◌}
use cmp_tool.Bytes.{Updated, success}
use cmp_tool.Collection.DataType.{size_of_a_sample}
use cmp_tool.Chunk.Internal.{
  Buffers, pad_bitstream, converted_raw, compress_raw, compress_data_internal,
}

-- An error or exactly this size.
abbrev Gives : ℕ → ℕ → Type 0
Gives size r = (r ≡ size) ⊎ (cmp_is_error r ≡ true)

converted_raw-Gives :
    (u : Updated) (bits at n : ℕ) (ws : List ℕ) → Gives bits (converted_raw u bits at n ws).0
unfolding cmp_is_error cmp_error converted_raw
converted_raw-Gives (success, o) bits at n ws = inl refl
converted_raw-Gives (_, o) bits at n ws = inr refl

pad_raw :
    (cfg : CmpCfg) (n : ℕ) (dst : Dst)
    → raw_mode_is_used cfg.cmp_mode ≡ true
    → (pad_bitstream cfg n dst).0 ≡ n
unfolding pad_bitstream
pad_raw cfg n none e = refl
pad_raw cfg n (some ws) e = rw e refl

module _ (cfg : CmpCfg) (b : Buffers) (o : ℕ) where
  abbrev pub data_size : ℕ
  data_size = cfg.samples * size_of_a_sample cfg.data_type

  compress_raw-Gives :
      (dst : Dst)
      → o + 8 * data_size < 2 ^ 31
      → Gives (o + 8 * data_size) (compress_raw cfg b o dst).0
  unfolding compress_raw
  compress_raw-Gives none small = inl (no_wrap small)
    where
      no_wrap : o + 8 * data_size < 2 ^ 31 → u32 (o + u32 (u32 data_size * 8)) ≡ o + 8 * data_size
      no_wrap h = omega arith
  compress_raw-Gives (some ws) small =
      elim (Bool-cases (ltb cfg.stream_size (u32 (shr o 3 + u32 data_size)))) [
        | inl over ↦ rw over (inr (unfold cmp_is_error cmp_error in refl))
        | inr fits ↦
            rw (fits, sym (no_wrap small))
              (converted_raw-Gives _ (u32 (o + u32 (u32 data_size * 8))) (shr o 3) (u32 data_size)
                ws)
      ]
    where
      no_wrap : o + 8 * data_size < 2 ^ 31 → u32 (o + u32 (u32 data_size * 8)) ≡ o + 8 * data_size
      no_wrap h = omega arith

  padded-Gives :
      (w : Written)
      → raw_mode_is_used cfg.cmp_mode ≡ true
      → Gives (o + 8 * data_size) w.0
      → Gives (o + 8 * data_size) (w >>= pad_bitstream cfg).0
  padded-Gives w mode (inr bad) = inr (rw bad bad)
  padded-Gives w mode (inl e) = elim (Bool-cases (cmp_is_error w.0)) [
    | inl bad ↦ inr (rw bad bad)
    | inr good ↦ rw good (inl (pad_raw cfg w.0 w.1 mode ∙ e))
  ]

  generic-error : cmp_is_error (cmp_error generic) ≡ true
  unfolding cmp_is_error cmp_error
  generic-error = refl

  -- The raw mode gives at most the size of the data behind the start.
  pub compress_data_internal-raw :
      (dst : Dst)
      → raw_mode_is_used cfg.cmp_mode ≡ true
      → o + 8 * data_size < 2 ^ 31
      → cmp_is_error (compress_data_internal (some cfg) b o dst).0.0 ≡ false
      → (compress_data_internal (some cfg) b o dst).0.0 ≤ o + 8 * data_size
  unfolding compress_data_internal
  compress_data_internal-raw dst mode small ok = elim (Bool-cases (cmp_is_error o)) [
    | inl bad ↦ rw bad (omega arith)
    | inr good ↦ elim (Bool-cases (bit_and o 7 == 0)) [
      | inr odd ↦ absurd (cc (generic-error, rw (good, odd) at ok))
      | inl even ↦ elim (Bool-cases (cfg.samples == 0)) [
        | inl empty ↦ rw (good, even, empty) (omega arith)
        | inr full ↦
            elim (padded-Gives (compress_raw cfg b o dst) mode (compress_raw-Gives dst small)) [
              | inl e ↦ rw (good, even, full, mode) (omega (arith, e))
              | inr bad ↦ absurd (cc (bad, rw (good, even, full, mode) at ok))
            ]
      ]
    ]
  ]
