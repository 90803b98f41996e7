-- ===== src/RoundTrip/Value.antt =====
-- `decode_value` of decmp.c against the digits of `encode_value`.
use cmp_tool.Base.{ℕ, zero, suc, ◌+◌, ◌-◌, ◌^◌, ◌≤◌, ◌<◌, ◌≡◌, sym, ap, ap₂, ◌∙◌, arith, subst}
use cmp_tool.Base.{Bool, List, ◌++◌}
use cmp_tool.Base.{u32, sub32, bit_and}
use cmp_tool.Encoder.Value.{EncoderSetup}
use cmp_tool.Encoder.Digits.{IsSetup}
use cmp_tool.Decoder.Reader.{BitDecoder, bit_mask}
use cmp_tool.Decoder.Value.{DecoderSetup}
use cmp_tool.Decoder.Refill.Bytes.{IsBytes}
use cmp_tool.UpModel.{round_fwd, round_inv}
use cmp_tool.Encoder.Value.{EncodeMethod, map_to_pos}
use cmp_tool.Encoder.Digits.{difference, difference-lt}
use cmp_tool.Encoder.Range.{method_digits, value_digits, IsInRange}
use cmp_tool.Decoder.Value.{decode_method, decode_value, re_map_to_pos}
use cmp_tool.RoundTrip.Mapping.{re_map_to_pos-restores}
use cmp_tool.RoundTrip.Reads.{IsReady, Reads, Agrees, decoder_of}
use cmp_tool.RoundTrip.Zero.{decode_zero-Reads}
use cmp_tool.RoundTrip.Multi.{decode_multi-Reads}

method-Reads :
    (e : EncodeMethod) (mem : List ℕ) (dec : BitDecoder) (ds : DecoderSetup) (s : EncoderSetup)
    (value : ℕ) (rest : List Bool)
    → IsBytes mem
    → Agrees ds s
    → IsSetup s
    → value < 2 ^ s.max_data_bits
    → IsReady mem dec (method_digits e s value ++ rest)
    → Reads mem (decode_method (decoder_of e) mem ds dec) value rest
unfolding method_digits decode_method
method-Reads EncodeMethod.zero_escape mem dec ds s value rest bytes a v small r =
    decode_zero-Reads mem bytes dec ds s a v value small rest r
method-Reads EncodeMethod.multi_escape mem dec ds s value rest bytes a v small r =
    decode_multi-Reads mem bytes dec ds s a v value small rest r

restores_at :
    (b x y : ℕ)
    → 0 < b
    → b ≤ 32
    → x < 2 ^ b
    → y < 2 ^ b
    → bit_and (u32 (re_map_to_pos (map_to_pos (sub32 x y) b) + y)) (2 ^ b - 1) ≡ x
restores_at zero x y pos h hx hy = absurd (omega arith)
restores_at (suc c) x y pos h hx hy = re_map_to_pos-restores c h x y hx hy

-- What `decode_value` makes of a decoded symbol.
abbrev restore : ℕ → ℕ → ℕ → ℕ → ℕ
restore model value lossy data_bits =
    round_inv (bit_and (u32 (re_map_to_pos value + round_fwd model lossy)) (bit_mask data_bits))
      lossy

module _ (mem : List ℕ) (bytes : IsBytes mem) (dec : BitDecoder) (ds : DecoderSetup)
    (s : EncoderSetup) (a : Agrees ds s) (v : IsSetup s) (input model : ℕ) (hi : IsInRange s input)
    (hm : IsInRange s model) (rest : List Bool) where
  -- For a setup that is valid and agrees between both sides, and an input and a model in range,
  -- decode_value reads the digits that encode_value emits for them back as the rounded input,
  -- without an error, and leaves the reader ready at what follows.
  pub decode_value-Reads :
      IsReady mem dec (
        value_digits s (difference s (round_fwd input s.lossy_par) (round_fwd model s.lossy_par))
        ++ rest)
      → Reads mem
          (decode_value mem ds model dec)
          (round_inv (round_fwd input s.lossy_par) s.lossy_par)
          rest
  unfolding decode_value
  decode_value-Reads r = record {
    no_error = read.no_error;
    as_written =
        ap (λ (k : ℕ). restore model k ds.lossy_par ds.max_data_bits) read.as_written
        ∙ ap₂ (λ (l b : ℕ). restore model d l b) a.lossy a.data_bits
        ∙ restored;
    ready = read.ready;
  }
    where
      d : ℕ
      d = difference s (round_fwd input s.lossy_par) (round_fwd model s.lossy_par)

      read : Reads mem (decode_method ds.decode_method_f mem ds dec) d rest
      read =
          subst (λ e. Reads mem (decode_method e mem ds dec) d rest) (sym a.method)
            (method-Reads s.encode_method_f mem dec ds s d rest bytes a v (difference-lt s _ _ v).0
              r)

      restored :
          restore model d s.lossy_par s.max_data_bits
          ≡ round_inv (round_fwd input s.lossy_par) s.lossy_par
      restored =
          ap (λ (k : ℕ). round_inv k s.lossy_par)
            (restores_at s.max_data_bits _ _ v.some_bits v.word_bits hi hm)
