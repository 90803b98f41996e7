-- ===== src/RoundTrip/Reads.antt =====
-- What a decoding function of lib/decompress/decmp.c leaves when it reads a value back, and the
-- steps that the two escape mechanisms share.
use cmp_tool.Base.{ℕ, ◌+◌, ◌-◌, ◌/◌, ◌%◌, ◌^◌, ◌≤◌, ◌<◌, ◌≡◌, refl, sym, ap, ◌∙◌, arith}
use cmp_tool.Base.{Bool, false, List, ◌++◌, length, drop}
use cmp_tool.Base.{sub32, bit_and, ◌≢◌, length-append, get_or, get_or-append_left, drop-append}
use cmp_tool.Base.Bits.{bit, bits}
use cmp_tool.Base.Bits.Digit.{bit-div}
use cmp_tool.Base.Bits.Digits.{length-bits, get_or-bits, bits_ext, bits_injective, bits-mod}
use cmp_tool.Base.Bits.Fields.{bit_and_mask}
use cmp_tool.Golomb.{IsCodable, length-golomb_code-le}
use cmp_tool.Encoder.Value.{EncoderSetup, EncodeMethod}
use cmp_tool.Encoder.Digits.{IsSetup, symbol}
use cmp_tool.Decoder.Reader.{BitDecoder, BitStatus, overflow, bit_refill, bit_read_bits32_sub_1}
use cmp_tool.Decoder.Value.{
  DecodeMethod, DecoderSetup, Decoded, success, overflowed, refilled, decode_cw,
}
use cmp_tool.Decoder.Register.{remaining, advance, remaining-advance, remaining_digit}
use cmp_tool.Decoder.CodeWord.{consume-advance}
use cmp_tool.Decoder.Select.{IsDecoderFor, decode_cw-reads}
use cmp_tool.Decoder.Refill.Bytes.{IsBytes}
use cmp_tool.Decoder.Refill.Keeps.{IsReader, IsLoaded, Refills, bit_refill-Refills}
use native.Mathlib.Nat.{one-le-pow, mod-lt, mod-add-mod}
use cmp_tool.RoundTrip.Mapping.{mod-word}

-- A reader at the start of a value: it stands in its buffer, and its register is loaded.
pub record IsReady (mem : List ℕ) (dec : BitDecoder) (digits : List Bool) : Type 0 where
  pub reader : IsReader mem dec
  pub in_register : dec.bits_consumed ≤ 64
  pub loaded : IsLoaded mem dec
  pub left : remaining mem dec ≡ digits

-- The value is read, and the reader is ready at the digits behind it.
pub record Reads (mem : List ℕ) (decoded : Decoded) (value : ℕ) (rest : List Bool) : Type 0 where
  pub no_error : decoded.result ≡ success
  pub as_written : decoded.value ≡ value
  pub ready : IsReady mem decoded.dec rest

-- The decoding function for an encoding function.
abbrev pub decoder_of : EncodeMethod → DecodeMethod
decoder_of EncodeMethod.zero_escape = DecodeMethod.zero_escape
decoder_of EncodeMethod.multi_escape = DecodeMethod.multi_escape

-- The decoder's setup for a setup of the encoder.
pub record Agrees (ds : DecoderSetup) (s : EncoderSetup) : Type 0 where
  pub method : ds.decode_method_f ≡ decoder_of s.encode_method_f
  pub decoder : IsDecoderFor ds.decode_cw_f s.encoder_par1 s.encoder_par2
  pub par1 : ds.encoder_par1 ≡ s.encoder_par1
  pub par2 : ds.encoder_par2 ≡ s.encoder_par2
  pub outlier : ds.outlier_par ≡ s.spillover_par
  pub lossy : ds.lossy_par ≡ s.lossy_par
  pub data_bits : ds.max_data_bits ≡ s.max_data_bits

not_overflowed : (status : BitStatus) → status ≢ overflow → overflowed status ≡ success
not_overflowed overflow h = absurd (h refl)
not_overflowed BitStatus.end_of_buffer h = refl
not_overflowed BitStatus.all_read_in h = refl
not_overflowed BitStatus.unfinished h = refl

module _ (mem : List ℕ) (dec : BitDecoder) (l rest : List Bool) (r : IsReady mem dec (l ++ rest))
    (h : length l ≤ 57) where
  -- A number of digits that are left is in the register.
  pub enough : dec.bits_consumed + length l ≤ 64
  enough = r.loaded (length l) h (omega (arith, ap length r.left, length-append l rest))

  -- The reader after digits of the register are consumed, and after the refill behind them.
  consumed-left : remaining mem (advance dec (length l)) ≡ rest
  consumed-left =
      remaining-advance mem dec (length l) enough
      ∙ ap (drop (length l)) r.left
      ∙ drop-append (length l) l rest refl

  module _ (bytes : IsBytes mem) (n : ℕ) (e : n ≡ length l) where
    after :
        Refills mem
          (advance dec n)
          (bit_refill mem (advance dec n)).0
          (bit_refill mem (advance dec n)).1
    after =
        bit_refill-Refills mem bytes (advance dec n)
          (record {
            limit = r.reader.limit;
            in_buffer = r.reader.in_buffer;
            register = r.reader.register;
          })
          (omega (arith, enough))

    pub refill-IsReady : IsReady mem (bit_refill mem (advance dec n)).1 rest
    refill-IsReady = record {
      reader = after.reader;
      in_register = after.in_register;
      loaded = after.loaded;
      left = after.same_stream ∙ ap (λ (k : ℕ). remaining mem (advance dec k)) e ∙ consumed-left;
    }

    pub refilled-Reads : (value : ℕ) → Reads mem (refilled mem value (advance dec n)) value rest
    unfolding refilled
    refilled-Reads value = record {
      no_error = not_overflowed _ after.no_overflow;
      as_written = refl;
      ready = refill-IsReady;
    }

-- The code word decoder gives the value, and has consumed its digits.
abbrev pub SymbolReads : BitDecoder → DecoderSetup → EncoderSetup → ℕ → Type 0
SymbolReads dec ds s value =
    (length (symbol s value) ≤ 57)
    × (decode_cw ds.decode_cw_f dec ds.encoder_par1 ds.encoder_par2
        ≡ (value, advance dec (length (symbol s value))))

-- A code word at the start of what is left.
pub symbol-reads :
    (mem : List ℕ) (dec : BitDecoder) (rest : List Bool) (ds : DecoderSetup) (s : EncoderSetup)
    (value : ℕ)
    → Agrees ds s
    → IsSetup s
    → IsCodable s.encoder_par1 s.encoder_par2 value
    → IsReady mem dec (symbol s value ++ rest)
    → SymbolReads dec ds s value
symbol-reads mem dec rest ds s value a v h r = (
  short,
  rw (a.par1, a.par2)
      (decode_cw-reads mem dec value rest v.param h (enough mem dec (symbol s value) rest r short)
        r.left ds.decode_cw_f a.decoder),
)
  where
    short : length (symbol s value) ≤ 57
    short = omega (arith, length-golomb_code-le value v.param h)

module _ (mem : List ℕ) (dec : BitDecoder) (n v : ℕ) (rest : List Bool) (pos : 0 < n) (h : n ≤ 32)
    (r : IsReady mem dec (bits n v ++ rest)) where
  fits : dec.bits_consumed + n ≤ 64
  fits =
      omega
        (arith, length-bits n v, enough mem dec (bits n v) rest r (omega (arith, length-bits n v)))

  -- The last `n` digits of the register down to the consumed ones.
  field : dec.bit_container / 2 ^ (64 - dec.bits_consumed - n) % 2 ^ n ≡ v % 2 ^ n
  field =
      bits_injective n _ _ (mod-lt _ {m = 2 ^ n} (one-le-pow n 2 (omega arith)))
        (mod-lt v {m = 2 ^ n} (one-le-pow n 2 (omega arith)))
        (bits-mod n (dec.bit_container / 2 ^ (64 - dec.bits_consumed - n))
          ∙ bits_ext n _ v digit
          ∙ sym (bits-mod n v))
    where
      digit :
          (k : ℕ) → k < n → bit (dec.bit_container / 2 ^ (64 - dec.bits_consumed - n)) k ≡ bit v k
      digit k hk =
          bit-div (64 - dec.bits_consumed - n) dec.bit_container k
          ∙ ap (bit dec.bit_container) (place k hk)
          ∙ sym (remaining_digit mem dec (n - 1 - k) (omega (arith, fits)))
          ∙ ap (λ (l : List Bool). get_or l (n - 1 - k) false) r.left
          ∙ get_or-append_left (bits n v) rest (n - 1 - k) false (omega (arith, length-bits n v))
          ∙ get_or-bits n v (n - 1 - k) (omega arith)
          ∙ ap (bit v) (back k hk)
        where
          place :
              (k : ℕ)
              → k < n
              → k + (64 - dec.bits_consumed - n) ≡ 63 - dec.bits_consumed - (n - 1 - k)
          place k hk = omega (arith, fits)

          back : (k : ℕ) → k < n → n - 1 - (n - 1 - k) ≡ k
          back k hk = omega arith

  -- The number that `bit_read_bits32_sub_1` reads is one less, in the same number of digits.
  pub sub_1-reads : bit_read_bits32_sub_1 dec n ≡ ((v + (2 ^ 32 - 1)) % 2 ^ n, advance dec n)
  unfolding bit_read_bits32_sub_1
  sub_1-reads =
      rw (shift, bit_and_mask n, consume-advance dec n (omega (arith, fits)))
        (ap (λ (k : ℕ). (k, advance dec n)) less)
    where
      shift : bit_and (sub32 (sub32 64 dec.bits_consumed) n) 0x3f ≡ 64 - dec.bits_consumed - n
      shift = bit_and_mask 6 _ ∙ omega (arith, fits)

      x : ℕ
      x = dec.bit_container / 2 ^ (64 - dec.bits_consumed - n)

      less : (x % 2 ^ 32 + 2 ^ 32 - 1) % 2 ^ 32 % 2 ^ n ≡ (v + (2 ^ 32 - 1)) % 2 ^ n
      less =
          mod-word n _ h
          ∙ ap (λ (k : ℕ). k % 2 ^ n) (assoc (x % 2 ^ 32))
          ∙ sym (mod-add-mod (x % 2 ^ 32) (2 ^ n) (2 ^ 32 - 1))
          ∙ ap (λ (k : ℕ). (k + (2 ^ 32 - 1)) % 2 ^ n) (mod-word n x h ∙ field)
          ∙ mod-add-mod v (2 ^ n) (2 ^ 32 - 1)
        where
          assoc : (y : ℕ) → y + 2 ^ 32 - 1 ≡ y + (2 ^ 32 - 1)
          assoc y = omega arith
