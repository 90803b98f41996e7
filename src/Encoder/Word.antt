-- ===== src/Encoder/Word.antt =====
-- `put_n_bits32` and the code words: `rice_encoder` and `golomb_encoder`.
use cmp_tool.Base.{ℕ, ◌+◌, ◌*◌, ◌/◌, ◌^◌, List, Option, none, some, if◌then◌else◌}
use cmp_tool.Base.{u32, sub32, shl32, shr, not32, bit_and, bit_or, ltb, leb, ◌==◌, get_or, set}
use cmp_tool.Error.{cmp_error, int_decoder, small_buffer}

abbrev pub Dst : Type 0
Dst = Option (List ℕ)

-- The result of an operation that writes to the bitstream.
abbrev pub Written : Type 0
Written = ℕ × Dst

-- The word at `local_adr` with (the first part of) the value put in.
unfoldable pub put_first : ℕ → ℕ → ℕ → ℕ → ℕ
put_first word value shift_left bits_left =
    let mask = shr (shl32 0xffff_ffff shift_left) bits_left in
    bit_or (bit_and word (not32 mask)) (shr (shl32 value shift_left) bits_left)

-- The word behind it with the second part of the value put in.
unfoldable pub put_second : ℕ → ℕ → ℕ → ℕ
put_second word value bits_right =
    let mask = shl32 0xffff_ffff bits_right in
    bit_or (bit_and word (not32 mask)) (shl32 value bits_right)

-- The write itself, into one word or split over two.
unfoldable pub put_words : ℕ → ℕ → ℕ → List ℕ → List ℕ
put_words value n_bits bit_offset words =
    let bits_left = bit_and bit_offset 0x1f in
    let bits_right = sub32 (sub32 64 bits_left) n_bits in
    let shift_left = sub32 32 n_bits in
    let i = shr bit_offset 5 in
    let first = set words i (put_first (get_or words i 0) value shift_left bits_left) in
    if ltb bits_right 32
    then set first (i + 1) (put_second (get_or first (i + 1) 0) value bits_right)
    else first

unfoldable pub put_n_bits32 : ℕ → ℕ → ℕ → ℕ → Dst → Written
put_n_bits32 value n_bits max_stream_len bit_offset dst =
    let shift_left = sub32 32 n_bits in
    let stream_len = u32 (n_bits + bit_offset) in
    if leb (2 ^ 31) shift_left
    then (cmp_error int_decoder, dst)
    else if n_bits == 0
    then (stream_len, dst)
    else elim dst [
      | none ↦ (stream_len, none)
      | some words ↦
          if ltb max_stream_len stream_len
          then (cmp_error small_buffer, some words)
          else (stream_len, some (put_words value n_bits bit_offset words))
    ]

-- A code word and its length. Shifts by 32 or more, which C leaves undefined, give 0.
pub record CodeWord : Type 0 where
  pub cw : ℕ
  pub len : ℕ

unfoldable pub rice_encoder : ℕ → ℕ → ℕ → CodeWord
rice_encoder value m log2_m =
    let q = shr value log2_m in
    let qc = sub32 (shl32 1 q) 1 in
    let r = bit_and value (sub32 m 1) in
    let rl = u32 (log2_m + 1) in
    record { cw = bit_or (shl32 qc (bit_and rl 0x1f)) r; len = u32 (rl + q) }

unfoldable pub golomb_encoder : ℕ → ℕ → ℕ → CodeWord
golomb_encoder value m log2_m =
    let len = u32 (log2_m + 1) in
    let cutoff = sub32 (shl32 2 log2_m) m in
    let g = sub32 value cutoff / m in
    let r = sub32 (sub32 value cutoff) (u32 (g * m)) in
    let gc = sub32 (shl32 1 (bit_and g 0x1f)) 1 in
    let b = shl32 cutoff 1 in
    if ltb value cutoff then record { cw = value; len = len } else record {
      cw = u32 (shl32 gc (bit_and (u32 (len + 1)) 0x1f) + u32 (b + r));
      len = u32 (len + u32 (1 + g));
    }
