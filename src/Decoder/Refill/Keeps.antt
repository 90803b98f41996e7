-- ===== src/Decoder/Refill/Keeps.antt =====
-- `bit_refill` of read_bitstream.h, by what is left of the stream.
use cmp_tool.Base.{ℕ, ◌+◌, ◌-◌, ◌*◌, ◌/◌, ◌%◌, ◌≤◌, ◌<◌, ◌≡◌, refl, sym, ap, ◌∙◌, arith, ◌≢◌}
use cmp_tool.Base.{Bool, true, false, List, ◌++◌, lt→ltb, le→ltb, ◌==◌, if◌then◌else◌, length, drop}
use cmp_tool.Base.{u32, sub32, length-append, length-drop, drop-drop}
use cmp_tool.Base.Bits.{bits}
use cmp_tool.Base.Bits.Digits.{length-bits}
use cmp_tool.Base.Bits.Fields.{bit_and_mask}
use cmp_tool.Decoder.Reader.{
  BitDecoder, BitStatus, overflow, end_of_buffer, all_read_in, unfinished, bit_refill, read_be,
  bit_read_unaligned_64be,
}
use cmp_tool.Decoder.Register.{remaining, byte_stream}
use cmp_tool.Base.{==_iff}
use native.Mathlib.Decide.{dec_lt, ℕ_discrete}
use cmp_tool.Decoder.Register.{drop-append_left}
use cmp_tool.Decoder.Refill.Bytes.{IsBytes, read_be-digits, length-byte_stream, byte_stream-drop}

-- A reader over the buffer `mem`: before the last eight bytes the register holds the eight bytes at
-- the cursor.
pub record IsReader (mem : List ℕ) (dec : BitDecoder) : Type 0 where
  pub limit : dec.limit_ptr ≡ length mem - 8
  pub in_buffer : dec.cursor ≤ dec.limit_ptr
  pub register : dec.cursor < dec.limit_ptr → dec.bit_container ≡ read_be mem dec.cursor 8

-- Every 57 digits that are left can be taken from the register.
abbrev pub IsLoaded : List ℕ → BitDecoder → Type 0
IsLoaded mem dec = (n : ℕ) → n ≤ 57 → n ≤ length (remaining mem dec) → dec.bits_consumed + n ≤ 64

-- What a refill leaves.
pub record Refills (mem : List ℕ) (dec : BitDecoder) (status : BitStatus) (dec' : BitDecoder)
    : Type 0 where
  pub no_overflow : status ≢ overflow
  pub reader : IsReader mem dec'
  pub same_stream : remaining mem dec' ≡ remaining mem dec
  pub loaded : IsLoaded mem dec'
  pub in_register : dec'.bits_consumed ≤ 64

module _ (mem : List ℕ) (bytes : IsBytes mem) where
  -- What is left, by its place in the buffer.
  place :
      (dec : BitDecoder)
      → dec.bit_container ≡ read_be mem dec.cursor 8
      → dec.cursor + 8 ≤ length mem
      → dec.bits_consumed ≤ 64
      → remaining mem dec ≡ drop (8 * dec.cursor + dec.bits_consumed) (byte_stream mem)
  unfolding remaining
  place dec e h hc =
      sym (
        drop-append_left dec.bits_consumed (bits 64 dec.bit_container) _
          (omega (arith, length-bits 64 dec.bit_container)))
      ∙ ap
          (λ (v : ℕ). drop dec.bits_consumed (bits 64 v ++ byte_stream (drop (dec.cursor + 8) mem)))
          e
      ∙ ap (drop dec.bits_consumed)
          (read_be-digits mem dec.cursor 8 bytes h ∙ sym (byte_stream-drop dec.cursor mem))
      ∙ drop-drop dec.bits_consumed (8 * dec.cursor) (byte_stream mem)

  -- At the limit all that is left is in the register.
  pub last-IsLoaded :
      (dec : BitDecoder) → length mem ≤ dec.cursor + 8 → dec.bits_consumed ≤ 64 → IsLoaded mem dec
  unfolding remaining
  last-IsLoaded dec h hc n small e = omega (
    arith,
    e,
    length-append (drop dec.bits_consumed (bits 64 dec.bit_container))
        (byte_stream (drop (dec.cursor + 8) mem)),
    length-drop dec.bits_consumed (bits 64 dec.bit_container),
    length-bits 64 dec.bit_container,
    length-byte_stream (drop (dec.cursor + 8) mem),
    length-drop (dec.cursor + 8) mem,
  )

  -- The reader of the first case, moved by whole bytes.
  abbrev moved : BitDecoder → BitDecoder
  moved dec = record dec {
    cursor = dec.cursor + dec.bits_consumed / 8;
    bit_container = read_be mem (dec.cursor + dec.bits_consumed / 8) 8;
    bits_consumed = dec.bits_consumed % 8;
  }

  -- The reader of the last case, at the limit.
  abbrev at_limit : BitDecoder → BitDecoder
  at_limit dec = record dec {
    cursor = dec.limit_ptr;
    bit_container = read_be mem dec.limit_ptr 8;
    bits_consumed = dec.bits_consumed - (dec.limit_ptr - dec.cursor) * 8;
  }

  moved-Refills :
      (dec : BitDecoder)
      → IsReader mem dec
      → dec.bits_consumed ≤ 64
      → dec.cursor + dec.bits_consumed / 8 < dec.limit_ptr
      → Refills mem dec unfinished (moved dec)
  moved-Refills dec v hc h = record {
    no_overflow = λ e. cc e;
    reader = record { limit = v.limit; in_buffer = omega arith; register = λ p. refl };
    same_stream =
        place (moved dec) refl (omega (arith, v.limit)) (omega arith)
        ∙ ap (λ (k : ℕ). drop k (byte_stream mem)) same
        ∙ sym (place dec (v.register (omega arith)) (omega (arith, v.limit)) hc);
    loaded = λ n small e. omega arith;
    in_register = omega arith;
  }
    where
      same :
          8 * (dec.cursor + dec.bits_consumed / 8) + dec.bits_consumed % 8
          ≡ 8 * dec.cursor + dec.bits_consumed
      same = omega arith

  at_limit-Refills :
      (dec : BitDecoder)
      → IsReader mem dec
      → dec.bits_consumed ≤ 64
      → dec.limit_ptr ≤ dec.cursor + dec.bits_consumed / 8
      → dec.cursor < dec.limit_ptr
      → Refills mem dec end_of_buffer (at_limit dec)
  at_limit-Refills dec v hc h less = record {
    no_overflow = λ e. cc e;
    reader = record { limit = v.limit; in_buffer = omega arith; register = λ p. refl };
    same_stream =
        place (at_limit dec) refl (omega (arith, v.limit)) (omega arith)
        ∙ ap (λ (k : ℕ). drop k (byte_stream mem)) same
        ∙ sym (place dec (v.register less) (omega (arith, v.limit)) hc);
    loaded = last-IsLoaded (at_limit dec) (omega (arith, v.limit)) (omega arith);
    in_register = omega arith;
  }
    where
      same :
          8 * dec.limit_ptr + (dec.bits_consumed - (dec.limit_ptr - dec.cursor) * 8)
          ≡ 8 * dec.cursor + dec.bits_consumed
      same = omega arith

  kept-Refills :
      (dec : BitDecoder) (status : BitStatus)
      → IsReader mem dec
      → dec.bits_consumed ≤ 64
      → dec.limit_ptr ≤ dec.cursor
      → status ≢ overflow
      → Refills mem dec status dec
  kept-Refills dec status v hc h fine = record {
    no_overflow = fine;
    reader = v;
    same_stream = refl;
    loaded = last-IsLoaded dec (omega (arith, v.limit)) hc;
    in_register = hc;
  }

  at_end : (full : Bool) → (if full then all_read_in else end_of_buffer) ≢ overflow
  at_end true e = cc e
  at_end false e = cc e

  distance :
      (limit cursor c : ℕ)
      → c ≤ 64
      → cursor < limit
      → limit ≤ cursor + c / 8
      → sub32 c (u32 ((limit - cursor) * 8)) ≡ c - (limit - cursor) * 8
  distance limit cursor c h less near = omega arith

  -- For a buffer of bytes and a reader in it with at most 64 consumed digits, bit_refill does not
  -- overflow, keeps the digits that are left and the place in the buffer, and loads 57 digits or
  -- all that are left.
  pub bit_refill-Refills :
      (dec : BitDecoder)
      → IsReader mem dec
      → dec.bits_consumed ≤ 64
      → Refills mem dec (bit_refill mem dec).0 (bit_refill mem dec).1
  unfolding bit_refill bit_read_unaligned_64be
  bit_refill-Refills dec v hc = elim (dec_lt (dec.cursor + dec.bits_consumed / 8) dec.limit_ptr) [
    | yes h ↦
        rw
          (
            le→ltb 64 dec.bits_consumed hc,
            lt→ltb (dec.cursor + dec.bits_consumed / 8) dec.limit_ptr h,
            bit_and_mask 3 dec.bits_consumed,
          )
          (moved-Refills dec v hc h)
    | no h ↦ elim (ℕ_discrete dec.cursor dec.limit_ptr) [
      | yes e ↦
          rw
            (
              le→ltb 64 dec.bits_consumed hc,
              le→ltb (dec.cursor + dec.bits_consumed / 8) dec.limit_ptr (omega arith),
              (==_iff dec.cursor dec.limit_ptr).1 e,
            )
            (kept-Refills dec _ v hc (omega arith) (at_end (dec.bits_consumed == 64)))
      | no d ↦
          rw
            (
              le→ltb 64 dec.bits_consumed hc,
              le→ltb (dec.cursor + dec.bits_consumed / 8) dec.limit_ptr (omega arith),
              unequal d,
              distance dec.limit_ptr dec.cursor dec.bits_consumed hc (omega (arith, v.in_buffer))
                  (omega arith),
            )
            (at_limit-Refills dec v hc (omega arith) (omega (arith, v.in_buffer)))
    ]
  ]
    where
      unequal : dec.cursor ≢ dec.limit_ptr → (dec.cursor == dec.limit_ptr) ≡ false
      unequal d = ground arith
