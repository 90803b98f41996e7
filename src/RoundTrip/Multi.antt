-- ===== src/RoundTrip/Multi.antt =====
-- `decode_multi` of decmp.c against the digits of `encode_value_multi`.
use cmp_tool.Base.{ℕ, ◌+◌, ◌-◌, ◌*◌, ◌/◌, ◌%◌, ◌^◌, ◌≤◌, ◌<◌, ◌≡◌, refl, sym, ap, ◌∙◌, arith, subst}
use cmp_tool.Base.{Bool, false, ◌&&◌, List, ◌++◌, ltb, lt→ltb, le→ltb, ◌==◌, length}
use cmp_tool.Base.{u32, sub32, shl32, shr, not32, bit_and}
use cmp_tool.Base.Bits.{bits}
use cmp_tool.Base.Bits.Digits.{length-bits}
use cmp_tool.Base.Bits.Fields.{bit_and_mask, bit_and_high_mask}
use cmp_tool.Golomb.{two_pow_mono}
use cmp_tool.Encoder.Value.{EncoderSetup, escape_sym_offset}
use cmp_tool.Encoder.Digits.{
  IsSetup, symbol, multi_digits, escape_sym_offset_bounds, below_spill, spill_small,
}
use cmp_tool.Decoder.Reader.{BitDecoder, bit_refill, bit_read_bits32}
use cmp_tool.Decoder.Value.{DecoderSetup, decode_multi}
use cmp_tool.Decoder.Register.{advance}
use cmp_tool.Decoder.CodeWord.{bits-reads}
use cmp_tool.Decoder.Refill.Bytes.{IsBytes}
use native.Mathlib.Decide.{dec_lt}
use native.Mathlib.Nat.{one-le-pow, mod-eq_of_lt}
use mathlib.Core.List.{append_assoc}
use cmp_tool.RoundTrip.Reads.{
  IsReady, Reads, Agrees, SymbolReads, enough, refill-IsReady, refilled-Reads, symbol-reads,
}

-- The data bits, rounded up to an even number.
even_bits : (n : ℕ) → n ≤ 32 → bit_and (u32 (n + 1)) (not32 1) ≡ (n + 1) / 2 * 2
even_bits n h = bit_and_high_mask 1 31 (u32 (n + 1)) ∙ omega arith

module _ (mem : List ℕ) (bytes : IsBytes mem) (dec : BitDecoder) (ds : DecoderSetup)
    (s : EncoderSetup) (a : Agrees ds s) (v : IsSetup s) (value : ℕ)
    (small : value < 2 ^ s.max_data_bits) (rest : List Bool) where
  plain :
      value < s.spillover_par
      → IsReady mem dec (symbol s value ++ rest)
      → Reads mem (decode_multi mem ds dec) value rest
  unfolding decode_multi
  plain h r =
      rw (word.1, a.outlier, lt→ltb value s.spillover_par h)
        (refilled-Reads mem dec (symbol s value) rest r word.0 bytes _ refl value)
    where
      word : SymbolReads dec ds s value
      word = symbol-reads mem dec rest ds s value a v (below_spill s value v (omega arith)) r

  abbrev raw : ℕ
  raw = value - s.spillover_par

  abbrev offset : ℕ
  offset = escape_sym_offset raw

  bounds : (offset ≤ 15) × (raw < 2 ^ ((offset + 1) * 2)) × (0 < offset → 2 ^ (offset * 2) ≤ raw)
  bounds =
      escape_sym_offset_bounds raw
        (omega (arith, small, two_pow_mono s.max_data_bits 32 v.word_bits))

  -- The escape symbol announces no more digits than the data have.
  announced : (offset + 1) * 2 ≤ (s.max_data_bits + 1) / 2 * 2
  announced = elim (dec_lt (offset * 2) s.max_data_bits) [
    | yes h ↦ omega arith
    | no h ↦ elim (dec_lt 0 offset) [
      | yes p ↦ absurd (
          omega (arith, small, bounds.2 p, two_pow_mono s.max_data_bits (offset * 2) (omega arith)))
      | no p ↦ omega (arith, v.some_bits)
    ]
  ]

  -- More than two digits are announced only if one of the highest two is set.
  used : 0 < offset → 0 < raw / 2 ^ (offset * 2)
  used p =
      quotient_pos raw (2 ^ (offset * 2)) (one-le-pow (offset * 2) 2 (omega arith)) (bounds.2 p)
    where
      quotient_pos : (x y : ℕ) → 0 < y → y ≤ x → 0 < x / y
      quotient_pos x y pos h = grind arith

  escaped :
      s.spillover_par ≤ value
      → IsReady mem dec
          (symbol s (s.spillover_par + offset) ++ (bits ((offset + 1) * 2) raw ++ rest))
      → Reads mem (decode_multi mem ds dec) value rest
  unfolding decode_multi
  escaped h r =
      rw
        (
          word.1,
          a.data_bits,
          a.outlier,
          len,
          raw_value,
          whole,
          le→ltb (s.spillover_par + offset) s.spillover_par (omega arith),
          even_bits s.max_data_bits v.word_bits,
          le→ltb _ _ announced,
          highest,
          bit_and_mask s.max_data_bits value,
          mod-eq_of_lt small,
          le→ltb value s.spillover_par h,
        )
        (refilled-Reads mem after (bits ((offset + 1) * 2) raw) rest ready
          (omega (arith, length-bits ((offset + 1) * 2) raw, bounds)) bytes ((offset + 1) * 2)
          (sym (length-bits ((offset + 1) * 2) raw)) value)
    where
      word : SymbolReads dec ds s (s.spillover_par + offset)
      word =
          symbol-reads mem dec _ ds s (s.spillover_par + offset) a v
            (below_spill s (s.spillover_par + offset) v (omega (arith, bounds))) r

      after : BitDecoder
      after = (bit_refill mem (advance dec (length (symbol s (s.spillover_par + offset))))).1

      ready : IsReady mem after (bits ((offset + 1) * 2) raw ++ rest)
      ready = refill-IsReady mem dec (symbol s (s.spillover_par + offset)) _ r word.0 bytes _ refl

      len : shl32 (u32 (sub32 (s.spillover_par + offset) s.spillover_par + 1)) 1 ≡ (offset + 1) * 2
      len = omega (arith, bounds, spill_small s v)

      in_word : raw % 2 ^ 32 ≡ raw
      in_word = omega (arith, small, two_pow_mono s.max_data_bits 32 v.word_bits)

      raw_value : bit_read_bits32 after ((offset + 1) * 2) ≡ (raw, advance after ((offset + 1) * 2))
      raw_value =
          bits-reads mem after ((offset + 1) * 2) raw rest (omega arith) (omega (arith, bounds))
            fits bounds.1 ready.left
          ∙ ap (λ (k : ℕ). (k, advance after ((offset + 1) * 2))) in_word
        where
          fits : after.bits_consumed + (offset + 1) * 2 ≤ 64
          fits = omega (
            arith,
            length-bits ((offset + 1) * 2) raw,
            enough mem after (bits ((offset + 1) * 2) raw) rest ready
                (omega (arith, length-bits ((offset + 1) * 2) raw, bounds)),
          )

      whole : u32 (raw + s.spillover_par) ≡ value
      whole = omega (arith, h, small, two_pow_mono s.max_data_bits 32 v.word_bits)

      highest : (shr raw ((offset + 1) * 2 - 2) == 0 && ltb 2 ((offset + 1) * 2)) ≡ false
      highest = rw (down offset) (ground (arith, used))
        where
          down : (k : ℕ) → (k + 1) * 2 - 2 ≡ k * 2
          down k = omega arith

  -- For agreeing setups and a value in the data bits, decode_multi reads the digits of the multi
  -- escape mechanism back, none of its corruption checks applies, and the reader is ready at what
  -- follows.
  pub decode_multi-Reads :
      IsReady mem dec (multi_digits s value ++ rest)
      → Reads mem (decode_multi mem ds dec) value rest
  unfolding multi_digits
  decode_multi-Reads r = elim (dec_lt value s.spillover_par) [
    | yes h ↦ plain h (subst (λ l. IsReady mem dec (l ++ rest)) (rw (lt→ltb _ _ h) refl) r)
    | no h ↦ escaped (omega arith) (
        subst (λ l. IsReady mem dec l)
          (rw (le→ltb value s.spillover_par (omega arith))
            (append_assoc (symbol s (s.spillover_par + offset)) _ rest))
          r)
  ]
