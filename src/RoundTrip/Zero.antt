-- ===== src/RoundTrip/Zero.antt =====
-- `decode_zero` of decmp.c against the digits of `encode_value_zero`.
use cmp_tool.Base.{ℕ, ◌+◌, ◌-◌, ◌%◌, ◌^◌, ◌≤◌, ◌<◌, ◌≡◌, refl, sym, ap, ◌∙◌, arith, subst}
use cmp_tool.Base.{Bool, false, List, ◌++◌, leb, lt→ltb, le→ltb, ◌==◌, length}
use cmp_tool.Base.{u32, sub32}
use cmp_tool.Base.Bits.{bits}
use cmp_tool.Base.Bits.Digits.{length-bits}
use cmp_tool.Golomb.{two_pow_mono}
use cmp_tool.Encoder.Value.{EncoderSetup}
use cmp_tool.Encoder.Digits.{IsSetup, symbol, zero_digits, below_spill, spill_small}
use cmp_tool.Decoder.Reader.{BitDecoder, bit_refill, bit_read_bits32_sub_1}
use cmp_tool.Decoder.Value.{DecoderSetup, decode_zero}
use cmp_tool.Decoder.Register.{advance}
use cmp_tool.Decoder.Refill.Bytes.{IsBytes}
use native.Mathlib.Decide.{dec_lt}
use native.Mathlib.Nat.{mod-eq_of_lt}
use mathlib.Core.List.{append_assoc}
use cmp_tool.RoundTrip.Mapping.{mod-word}
use cmp_tool.RoundTrip.Reads.{
  IsReady, Reads, Agrees, refill-IsReady, refilled-Reads, SymbolReads, symbol-reads, sub_1-reads,
}

module _ (mem : List ℕ) (bytes : IsBytes mem) (dec : BitDecoder) (ds : DecoderSetup)
    (s : EncoderSetup) (a : Agrees ds s) (v : IsSetup s) (value : ℕ)
    (small : value < 2 ^ s.max_data_bits) (rest : List Bool) where
  spill : sub32 s.spillover_par 1 ≡ s.spillover_par - 1
  spill = omega (arith, v.spill_low, spill_small s v)

  plain :
      value < s.spillover_par - 1
      → IsReady mem dec (symbol s (value + 1) ++ rest)
      → Reads mem (decode_zero mem ds dec) value rest
  unfolding decode_zero
  plain h r =
      rw (word.1, nonzero, a.outlier, le→leb, back)
        (refilled-Reads mem dec (symbol s (value + 1)) rest r word.0 bytes _ refl value)
    where
      word : SymbolReads dec ds s (value + 1)
      word =
          symbol-reads mem dec rest ds s (value + 1) a v (below_spill s (value + 1) v (omega arith))
            r

      nonzero : (value + 1 == 0) ≡ false
      nonzero = ground arith

      le→leb : leb s.spillover_par (value + 1) ≡ false
      le→leb = ground arith

      back : sub32 (value + 1) 1 ≡ value
      back = omega (arith, spill_small s v)

  escaped :
      s.spillover_par - 1 ≤ value
      → IsReady mem dec (symbol s 0 ++ (bits s.max_data_bits (u32 (value + 1)) ++ rest))
      → Reads mem (decode_zero mem ds dec) value rest
  unfolding decode_zero
  escaped h r =
      rw (word.1, a.data_bits, raw_value, a.outlier, spill, le→ltb value (s.spillover_par - 1) h)
        (refilled-Reads mem after (bits s.max_data_bits (u32 (value + 1))) rest ready
          (omega (arith, length-bits s.max_data_bits (u32 (value + 1)), v.word_bits)) bytes
          s.max_data_bits (sym (length-bits s.max_data_bits (u32 (value + 1)))) value)
    where
      word : SymbolReads dec ds s 0
      word = symbol-reads mem dec _ ds s 0 a v (below_spill s 0 v (omega arith)) r

      after : BitDecoder
      after = (bit_refill mem (advance dec (length (symbol s 0)))).1

      ready : IsReady mem after (bits s.max_data_bits (u32 (value + 1)) ++ rest)
      ready = refill-IsReady mem dec (symbol s 0) _ r word.0 bytes _ refl

      in_word : ((value + 1) % 2 ^ 32 + (2 ^ 32 - 1)) % 2 ^ 32 ≡ value
      in_word = omega (arith, small, two_pow_mono s.max_data_bits 32 v.word_bits)

      back : (u32 (value + 1) + (2 ^ 32 - 1)) % 2 ^ s.max_data_bits ≡ value
      back =
          sym (mod-word s.max_data_bits _ v.word_bits)
          ∙ ap (λ (k : ℕ). k % 2 ^ s.max_data_bits) in_word
          ∙ mod-eq_of_lt small

      raw_value :
          bit_read_bits32_sub_1 after s.max_data_bits ≡ (value, advance after s.max_data_bits)
      raw_value =
          sub_1-reads mem after s.max_data_bits (u32 (value + 1)) rest v.some_bits v.word_bits ready
          ∙ ap (λ (k : ℕ). (k, advance after s.max_data_bits)) back

  -- For agreeing setups and a value in the data bits, decode_zero reads the digits of the zero
  -- escape mechanism back, none of its corruption checks applies, and the reader is ready at what
  -- follows.
  pub decode_zero-Reads :
      IsReady mem dec (zero_digits s value ++ rest) → Reads mem (decode_zero mem ds dec) value rest
  unfolding zero_digits
  decode_zero-Reads r = elim (dec_lt value (s.spillover_par - 1)) [
    | yes h ↦ plain h (subst (λ l. IsReady mem dec (l ++ rest)) (rw (lt→ltb _ _ h) refl) r)
    | no h ↦ escaped (omega arith) (
        subst (λ l. IsReady mem dec l)
          (rw (le→ltb value (s.spillover_par - 1) (omega arith)) (append_assoc (symbol s 0) _ rest))
          r)
  ]
