-- ===== src/Decoder/Value.antt =====
-- lib/decompress/decmp.c, lines 53 to 371: code words, escape mechanisms and `decode_value`.
use cmp_tool.Base.{ℕ, ◌+◌, ◌-◌, ◌*◌, ◌/◌, ◌^◌, ◌&&◌, List, if◌then◌else◌}
use cmp_tool.Base.{u32, u64, sub32, shl32, shr, not32, bit_and, ltb, leb, ◌==◌}
use cmp_tool.UpModel.{round_fwd, round_inv}
use cmp_tool.Support.Types.{CmpMode, multi_escape_mech_is_used}
use cmp_tool.Support.Log.{ilog_2, is_a_pow_of_2}
use cmp_tool.Decoder.Reader.{BitDecoder, BitStatus, overflow}
use cmp_tool.Decoder.Reader.{bit_mask, bit_peek_bits, bit_peek_leading_ones, bit_consume_bits}
use cmp_tool.Decoder.Reader.{bit_read_bits32, bit_read_bits32_sub_1, bit_refill}

unfoldable pub unary_decoder : BitDecoder → ℕ → ℕ → ℕ × BitDecoder
unary_decoder dec m log2_m =
    let decoded_cw = bit_peek_leading_ones dec in
    (decoded_cw, bit_consume_bits dec (decoded_cw + 1))

unfoldable pub rice_decoder : BitDecoder → ℕ → ℕ → ℕ × BitDecoder
rice_decoder dec m log2_m =
    let (q, dec₁) = unary_decoder dec m log2_m in
    let (r, dec₂) = bit_read_bits32 dec₁ log2_m in (u32 (shl32 q log2_m + r), dec₂)

unfoldable pub golomb_decoder : BitDecoder → ℕ → ℕ → ℕ × BitDecoder
golomb_decoder dec m log2_m =
    let (q, dec₁) = unary_decoder dec m log2_m in
    let r2 = u32 (bit_peek_bits dec₁ (u32 (log2_m + 1))) in
    let r1 = shr r2 1 in
    let cutoff = sub32 (shl32 2 log2_m) m in
    if ltb r1 cutoff
    then (u32 (u32 (q * m) + r1), bit_consume_bits dec₁ log2_m)
    else (u32 (u32 (q * m) + sub32 r2 cutoff), bit_consume_bits dec₁ (u32 (log2_m + 1)))

-- The function pointers of `struct decoder_setup`.
pub data CodeWordDecoder : Type 0 where
  unary rice golomb : CodeWordDecoder

pub data DecodeMethod : Type 0 where
  zero_escape multi_escape : DecodeMethod

unfoldable pub select_decoder : ℕ → CodeWordDecoder
select_decoder golomb_par =
    if golomb_par == 1 then unary else if is_a_pow_of_2 golomb_par then rice else golomb

-- `struct decoder_setup`; the decoder at `dec` is passed along beside it.
pub record DecoderSetup : Type 0 where
  pub decode_method_f : DecodeMethod
  pub decode_cw_f : CodeWordDecoder
  pub encoder_par1 : ℕ
  pub encoder_par2 : ℕ
  pub outlier_par : ℕ
  pub lossy_par : ℕ
  pub max_data_bits : ℕ

unfoldable pub decode_cw : CodeWordDecoder → BitDecoder → ℕ → ℕ → ℕ × BitDecoder
decode_cw unary dec m log2_m = unary_decoder dec m log2_m
decode_cw rice dec m log2_m = rice_decoder dec m log2_m
decode_cw golomb dec m log2_m = golomb_decoder dec m log2_m

-- The `int` that a decoding function returns: 0, 1 for a read past the end, -1 for corrupted data.
pub data Outcome : Type 0 where
  success past_end corruption_detected : Outcome

-- What a decoding function leaves: its result, `*decoded_value`, and the reader.
pub record Decoded : Type 0 where
  pub result : Outcome
  pub value : ℕ
  pub dec : BitDecoder

-- `bit_refill(setup->dec) == BIT_OVERFLOW`
abbrev pub overflowed : BitStatus → Outcome
overflowed overflow = past_end
overflowed _ = success

-- `return bit_refill(setup->dec) == BIT_OVERFLOW;`
unfoldable pub refilled : List ℕ → ℕ → BitDecoder → Decoded
refilled mem value dec =
    let (status, dec') = bit_refill mem dec in
    record { result = overflowed status; value = value; dec = dec' }

-- `CORRUPTION_DETECTED`, after the refill that decides on the message.
unfoldable pub corrupted : List ℕ → ℕ → BitDecoder → Decoded
corrupted mem value dec = record {
  result = corruption_detected;
  value = value;
  dec = (bit_refill mem dec).1;
}

unfoldable pub decode_zero : List ℕ → DecoderSetup → BitDecoder → Decoded
decode_zero mem setup dec =
    let (symbol, dec₁) = decode_cw setup.decode_cw_f dec setup.encoder_par1 setup.encoder_par2 in
    let (value, dec₂) = bit_read_bits32_sub_1 ((bit_refill mem dec₁).1) setup.max_data_bits in
    if symbol == 0
    then if ltb value (sub32 setup.outlier_par 1)
      then corrupted mem value dec₂
      else refilled mem value dec₂
    else if leb setup.outlier_par symbol
    then record { result = corruption_detected; value = symbol; dec = dec₁ }
    else refilled mem (sub32 symbol 1) dec₁

unfoldable pub decode_multi : List ℕ → DecoderSetup → BitDecoder → Decoded
decode_multi mem setup dec =
    let (symbol, dec₁) = decode_cw setup.decode_cw_f dec setup.encoder_par1 setup.encoder_par2 in
    let unencoded_len = shl32 (u32 (sub32 symbol setup.outlier_par + 1)) 1 in
    let (unencoded, dec₂) = bit_read_bits32 ((bit_refill mem dec₁).1) unencoded_len in
    let value = u32 (unencoded + setup.outlier_par) in
    if ltb symbol setup.outlier_par
    then refilled mem symbol dec₁
    else if ltb (bit_and (u32 (setup.max_data_bits + 1)) (not32 1)) unencoded_len
    then record { result = corruption_detected; value = symbol; dec = dec₁ }
    else if shr unencoded (unencoded_len - 2) == 0 && ltb 2 unencoded_len
    then corrupted mem unencoded dec₂
    else if ltb (bit_and value (bit_mask setup.max_data_bits)) setup.outlier_par
    then corrupted mem value dec₂
    else refilled mem value dec₂

-- The negation is made in `uint64_t`.
unfoldable pub re_map_to_pos : ℕ → ℕ
re_map_to_pos value_to_unmap =
    if bit_and value_to_unmap 1 == 0
    then value_to_unmap / 2
    else u32 (u64 (2 ^ 64 - u64 (value_to_unmap + 1) / 2))

unfoldable pub decode_method : DecodeMethod → List ℕ → DecoderSetup → BitDecoder → Decoded
decode_method zero_escape = decode_zero
decode_method multi_escape = decode_multi

unfoldable pub decode_value : List ℕ → DecoderSetup → ℕ → BitDecoder → Decoded
decode_value mem setup model dec =
    let decoded = decode_method setup.decode_method_f mem setup dec in
    let correlated = u32 (re_map_to_pos decoded.value + round_fwd model setup.lossy_par) in
    record decoded {
      value = round_inv (bit_and correlated (bit_mask setup.max_data_bits)) setup.lossy_par;
    }

-- A mode with neither mechanism is ruled out by an assertion.
unfoldable pub configure_decoder_setup : CmpMode → ℕ → ℕ → ℕ → ℕ → DecoderSetup
configure_decoder_setup cmp_mode cmp_par spillover lossy_par max_data_bits = record {
  decode_method_f = if multi_escape_mech_is_used cmp_mode then multi_escape else zero_escape;
  decode_cw_f = select_decoder cmp_par;
  encoder_par1 = cmp_par;
  encoder_par2 = ilog_2 cmp_par;
  outlier_par = spillover;
  lossy_par = lossy_par;
  max_data_bits = max_data_bits;
}
