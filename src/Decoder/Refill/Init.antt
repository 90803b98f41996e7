-- ===== src/Decoder/Refill/Init.antt =====
-- `bit_init_decoder` of read_bitstream.h.
use cmp_tool.Base.{ℕ, zero, suc, ◌+◌, ◌-◌, ◌*◌, ◌/◌, ◌^◌, ◌≤◌, ◌<◌, ◌≡◌, refl, sym, ap, ◌∙◌, arith}
use cmp_tool.Base.{Bool, true, false, List, [], ◌∷◌, ◌++◌, leb, lt→ltb, le→ltb, length, drop}
use cmp_tool.Base.{drop-append, drop-nil}
use cmp_tool.Base.Bits.{bits}
use cmp_tool.Base.Bits.Digits.{length-bits, bits-append}
use cmp_tool.Decoder.Reader.{BitDecoder, bit_init_decoder, read_be, bit_read_unaligned_64be}
use cmp_tool.Decoder.Register.{remaining, byte_stream}
use cmp_tool.Decoder.Refill.Bytes.{IsBytes, read_be-digits}
use cmp_tool.Decoder.Refill.Keeps.{IsReader, IsLoaded, last-IsLoaded}
use native.Mathlib.Decide.{dec_lt}
use native.Mathlib.Nat.{mul-div_cancel, one-le-pow}

-- The reader is in its buffer, and nothing of the buffer is consumed.
pub record Starts (mem : List ℕ) (dec : BitDecoder) : Type 0 where
  pub reader : IsReader mem dec
  pub in_register : dec.bits_consumed ≤ 64
  pub loaded : IsLoaded mem dec
  pub everything : remaining mem dec ≡ byte_stream mem

nothing :
    (mem : List ℕ)
    → length mem < 1
    → remaining mem (record { bit_container = 0; bits_consumed = 64; cursor = 0; limit_ptr = 0 })
      ≡ byte_stream mem
unfolding remaining byte_stream bits
nothing [] h = refl
nothing (b ∷ mem) h = absurd (omega arith)

drop_all : (k : ℕ) (xs : List ℕ) → length xs ≤ k → drop k xs ≡ []
drop_all k [] h = drop-nil k
drop_all zero (x ∷ xs) h = absurd (omega arith)
drop_all (suc k) (x ∷ xs) h = drop_all k xs (omega arith)

shift_back : (v k : ℕ) → v * 2 ^ (8 * k) / 2 ^ (k * 8) ≡ v
shift_back v k =
    ap (λ (j : ℕ). v * 2 ^ j / 2 ^ (k * 8)) (comm k)
    ∙ mul-div_cancel v (one-le-pow (k * 8) 2 (omega arith))
  where
    comm : (j : ℕ) → 8 * j ≡ j * 8
    comm j = omega arith

module _ (mem : List ℕ) (bytes : IsBytes mem) where
  abbrev n : ℕ
  n = length mem

  empty :
      n < 1
      → Starts mem (record { bit_container = 0; bits_consumed = 64; cursor = 0; limit_ptr = 0 })
  empty h = record {
    reader = record {
      limit = omega arith;
      in_buffer = omega arith;
      register = λ p. absurd (omega arith);
    };
    in_register = omega arith;
    loaded = last-IsLoaded mem bytes _ (omega arith) (omega arith);
    everything = nothing mem h;
  }

  large :
      8 ≤ n
      → Starts mem (record {
        bit_container = read_be mem 0 8;
        bits_consumed = 0;
        cursor = 0;
        limit_ptr = n - 8;
      })
  unfolding remaining
  large h = record {
    reader = record { limit = refl; in_buffer = omega arith; register = λ p. refl };
    in_register = omega arith;
    loaded = λ k small e. omega arith;
    everything = read_be-digits mem 0 8 bytes h;
  }

  small :
      1 ≤ n
      → n < 8
      → Starts mem (record {
        bit_container = read_be mem 0 n;
        bits_consumed = (8 - n) * 8;
        cursor = 0;
        limit_ptr = 0;
      })
  unfolding remaining
  small p h = record {
    reader = record {
      limit = omega arith;
      in_buffer = omega arith;
      register = λ q. absurd (omega arith);
    };
    in_register = omega arith;
    loaded =
        last-IsLoaded mem bytes
          (record {
            bit_container = read_be mem 0 n;
            bits_consumed = (8 - n) * 8;
            cursor = 0;
            limit_ptr = 0;
          })
          (omega arith) (omega arith);
    everything =
        ap (λ (l : List Bool). l ++ byte_stream (drop 8 mem)) low_digits
        ∙ ap (λ (l : List ℕ). bits (8 * n) (read_be mem 0 n) ++ byte_stream l)
            (drop_all 8 mem (omega arith) ∙ sym (drop_all (0 + n) mem (omega arith)))
        ∙ read_be-digits mem 0 n bytes (omega arith);
  }
    where
      total : 64 ≡ (8 - n) * 8 + 8 * n
      total = omega arith

      low_digits : drop ((8 - n) * 8) (bits 64 (read_be mem 0 n)) ≡ bits (8 * n) (read_be mem 0 n)
      low_digits =
          ap (λ (k : ℕ). drop ((8 - n) * 8) (bits k (read_be mem 0 n))) total
          ∙ ap (drop ((8 - n) * 8)) (bits-append ((8 - n) * 8) (8 * n) (read_be mem 0 n))
          ∙ drop-append ((8 - n) * 8) _ _ (sym (length-bits ((8 - n) * 8) _))

  -- For a buffer of bytes of any length, bit_init_decoder gives a reader that stands in the
  -- buffer, has a loaded register, and has all digits of the buffer left.
  pub bit_init_decoder-Starts : Starts mem (bit_init_decoder mem n).1
  unfolding bit_init_decoder bit_read_unaligned_64be
  bit_init_decoder-Starts = elim (dec_lt n 1) [
    | yes h ↦ rw (lt→ltb n 1 h) (empty h)
    | no h ↦ elim (dec_lt n 8) [
      | yes l ↦
          rw (le→ltb n 1 (omega arith), not_large l, shift_back (read_be mem 0 n) (8 - n))
            (small (omega arith) l)
      | no g ↦ rw (le→ltb n 1 (omega arith), is_large (omega arith)) (large (omega arith))
    ]
  ]
    where
      not_large : n < 8 → leb 8 n ≡ false
      not_large l = ground arith

      is_large : 8 ≤ n → leb 8 n ≡ true
      is_large l = ground arith
