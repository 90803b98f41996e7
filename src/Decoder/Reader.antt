-- ===== src/Decoder/Reader.antt =====
-- lib/decompress/read_bitstream.h: a 64-bit register over a byte buffer. `mem` is the buffer, and
-- `cursor` and `limit_ptr` are offsets in it.
use cmp_tool.Base.{ℕ, zero, suc, ◌+◌, ◌-◌, ◌*◌, ◌^◌, Bool, ◌&&◌, List, if◌then◌else◌}
use cmp_tool.Base.{u32, sub32, shl64, shr, not64, bit_and, ltb, leb, ◌==◌, get_or}
use cmp_tool.Support.Log.{clz}

-- `struct bit_decoder`
pub record BitDecoder : Type 0 where
  pub bit_container : ℕ
  pub bits_consumed : ℕ
  pub cursor : ℕ
  pub limit_ptr : ℕ

pub data BitStatus : Type 0 where
  overflow end_of_buffer all_read_in unfinished : BitStatus

-- BIT_MASK[n], for `n` up to 32: a table of 2 ^ n - 1.
abbrev pub bit_mask : ℕ → ℕ
bit_mask n = 2 ^ n - 1

-- `n` bytes from offset `at` on as a big-endian number. A read outside of the buffer gives 0.
unfoldable pub read_be : List ℕ → ℕ → ℕ → ℕ
read_be mem at zero = 0
read_be mem at (suc n) = get_or mem at 0 * 2 ^ (8 * n) + read_be mem (at + 1) n

unfoldable pub bit_read_unaligned_64be : List ℕ → ℕ → ℕ
unfolding read_be
bit_read_unaligned_64be mem at = read_be mem at 8

-- A buffer of fewer than 8 bytes is read to the low end of the register.
unfoldable pub bit_init_decoder : List ℕ → ℕ → ℕ × BitDecoder
bit_init_decoder mem buf_size =
    if ltb buf_size 1
    then (0, record { bit_container = 0; bits_consumed = 64; cursor = 0; limit_ptr = 0 })
    else if leb 8 buf_size
    then (
      buf_size,
      record {
        bit_container = bit_read_unaligned_64be mem 0;
        bits_consumed = 0;
        cursor = 0;
        limit_ptr = buf_size - 8;
      },
    )
    else (
      buf_size,
      record {
        bit_container =
            shr (read_be mem 0 buf_size * 2 ^ (8 * (8 - buf_size))) ((8 - buf_size) * 8);
        bits_consumed = (8 - buf_size) * 8;
        cursor = 0;
        limit_ptr = 0;
      },
    )

unfoldable pub bit_peek_bits : BitDecoder → ℕ → ℕ
bit_peek_bits dec nb_bits =
    shr (shl64 dec.bit_container (bit_and dec.bits_consumed 0x3f)) (64 - nb_bits)

unfoldable pub bit_peek_leading_ones : BitDecoder → ℕ
bit_peek_leading_ones dec =
    let remaining_flip = not64 (shl64 dec.bit_container (bit_and dec.bits_consumed 0x3f)) in
    if remaining_flip == 0 then 64 else clz 64 remaining_flip

unfoldable pub bit_consume_bits : BitDecoder → ℕ → BitDecoder
bit_consume_bits dec nb_bits = record dec { bits_consumed = u32 (dec.bits_consumed + nb_bits) }

unfoldable pub bit_read_bits : BitDecoder → ℕ → ℕ × BitDecoder
bit_read_bits dec nb_bits = (bit_peek_bits dec nb_bits, bit_consume_bits dec nb_bits)

unfoldable pub bit_read_bits32 : BitDecoder → ℕ → ℕ × BitDecoder
bit_read_bits32 dec nb_bits =
    let (read_bits, dec') = bit_read_bits dec nb_bits in (u32 read_bits, dec')

unfoldable pub bit_read_bits32_sub_1 : BitDecoder → ℕ → ℕ × BitDecoder
bit_read_bits32_sub_1 dec nb_bits =
    let shift_bits = bit_and (sub32 (sub32 64 dec.bits_consumed) nb_bits) 0x3f in
    let bits_unmask = u32 (shr dec.bit_container shift_bits) in
    (bit_and (sub32 bits_unmask 1) (bit_mask nb_bits), bit_consume_bits dec nb_bits)

-- In the last case the subtraction is made in `ptrdiff_t` and converted back.
unfoldable pub bit_refill : List ℕ → BitDecoder → BitStatus × BitDecoder
bit_refill mem dec =
    let bytes_consumed = shr dec.bits_consumed 3 in
    if ltb 64 dec.bits_consumed
    then (overflow, dec)
    else if ltb (dec.cursor + bytes_consumed) dec.limit_ptr
    then (
      unfinished,
      record dec {
        cursor = dec.cursor + bytes_consumed;
        bit_container = bit_read_unaligned_64be mem (dec.cursor + bytes_consumed);
        bits_consumed = bit_and dec.bits_consumed 0x7;
      },
    )
    else if dec.cursor == dec.limit_ptr
    then (if dec.bits_consumed == 64 then all_read_in else end_of_buffer, dec)
    else (
      end_of_buffer,
      record dec {
        bits_consumed = sub32 dec.bits_consumed (u32 ((dec.limit_ptr - dec.cursor) * 8));
        cursor = dec.limit_ptr;
        bit_container = bit_read_unaligned_64be mem dec.limit_ptr;
      },
    )

unfoldable pub bit_end_of_stream : BitDecoder → Bool
bit_end_of_stream dec = dec.cursor == dec.limit_ptr && dec.bits_consumed == 64
