-- ===== src/Encoder/Value.antt =====
-- `map_to_pos`, the two escape mechanisms, `encode_value` and `configure_encoder_setup`.
use cmp_tool.Base.{ℕ, ◌+◌, ◌-◌, ◌*◌, ◌||◌, if◌then◌else◌, not}
use cmp_tool.Base.{u32, sub32, shl32, shr, not32, bit_and, bit_or, ltb, ◌==◌}
use cmp_tool.Error.{cmp_error, cmp_is_error, data_value_too_large}
use cmp_tool.UpModel.{round_fwd}
use cmp_tool.Support.Types.{CmpMode, model_zero, diff_zero}
use cmp_tool.Support.Log.{clz, ilog_2, is_a_pow_of_2}
use cmp_tool.Encoder.Word.{Dst, Written, CodeWord, put_n_bits32, rice_encoder, golomb_encoder}

unfoldable pub map_to_pos : ℕ → ℕ → ℕ
map_to_pos value_to_map max_data_bits =
    let mask = shr 0xffff_ffff (sub32 32 max_data_bits) in
    let value = bit_and value_to_map mask in
    if shr value (sub32 max_data_bits 1) == 0
    then u32 (value * 2)
    else sub32 (u32 (sub32 0 (bit_or value (not32 mask)) * 2)) 1

-- The function pointers of `struct encoder_setup`.
pub data CodeWordEncoder : Type 0 where
  rice golomb : CodeWordEncoder

pub data EncodeMethod : Type 0 where
  zero_escape multi_escape : EncodeMethod

-- `struct encoder_setup`; the buffer at `bitstream_adr` is passed along beside it.
pub record EncoderSetup : Type 0 where
  pub generate_cw_f : CodeWordEncoder
  pub encode_method_f : EncodeMethod
  pub max_stream_len : ℕ
  pub encoder_par1 : ℕ
  pub encoder_par2 : ℕ
  pub spillover_par : ℕ
  pub lossy_par : ℕ
  pub max_data_bits : ℕ

unfoldable pub generate_cw : CodeWordEncoder → ℕ → ℕ → ℕ → CodeWord
generate_cw rice value m log2_m = rice_encoder value m log2_m
generate_cw golomb value m log2_m = golomb_encoder value m log2_m

-- Goes on unless the length is an error code.
infixl 5 ◌>>=◌
abbrev pub ◌>>=◌ : Written → (ℕ → Dst → Written) → Written
w >>= k = let (stream_len, dst) = w in if cmp_is_error stream_len then w else k stream_len dst

unfoldable pub encode_normal : EncoderSetup → ℕ → ℕ → Dst → Written
unfolding generate_cw
encode_normal setup value stream_len dst =
    let word = generate_cw setup.generate_cw_f value setup.encoder_par1 setup.encoder_par2 in
    put_n_bits32 word.cw word.len setup.max_stream_len stream_len dst

unfoldable pub encode_value_zero : EncoderSetup → ℕ → ℕ → ℕ → Dst → Written
encode_value_zero setup input model stream_len dst =
    let value = map_to_pos (sub32 input model) setup.max_data_bits in
    let escaped =
      encode_normal setup 0 stream_len dst
      >>= put_n_bits32 (u32 (value + 1)) setup.max_data_bits setup.max_stream_len in
    if ltb value (sub32 setup.spillover_par 1)
    then encode_normal setup (u32 (value + 1)) stream_len dst
    else escaped

unfoldable pub escape_sym_offset : ℕ → ℕ
escape_sym_offset unencoded_data =
    if unencoded_data == 0 then 0 else shr (31 - clz 32 unencoded_data) 1

unfoldable pub encode_value_multi : EncoderSetup → ℕ → ℕ → ℕ → Dst → Written
encode_value_multi setup input model stream_len dst =
    let value = map_to_pos (sub32 input model) setup.max_data_bits in
    let unencoded_data = sub32 value setup.spillover_par in
    let offset = escape_sym_offset unencoded_data in
    let escaped =
      encode_normal setup (u32 (setup.spillover_par + offset)) stream_len dst
      >>= put_n_bits32 unencoded_data (shl32 (u32 (offset + 1)) 1) setup.max_stream_len in
    if ltb value setup.spillover_par then encode_normal setup value stream_len dst else escaped

unfoldable pub encode_method : EncodeMethod → EncoderSetup → ℕ → ℕ → ℕ → Dst → Written
encode_method zero_escape setup = encode_value_zero setup
encode_method multi_escape setup = encode_value_multi setup

unfoldable pub encode_value : EncoderSetup → ℕ → ℕ → ℕ → Dst → Written
unfolding encode_method round_fwd
encode_value setup input model stream_len dst =
    let mask = not32 (shr 0xffff_ffff (sub32 32 setup.max_data_bits)) in
    let rounded = round_fwd input setup.lossy_par in
    let rounded_model = round_fwd model setup.lossy_par in
    if not (bit_and rounded mask == 0) || not (bit_and rounded_model mask == 0)
    then (cmp_error data_value_too_large, dst)
    else encode_method setup.encode_method_f setup rounded rounded_model stream_len dst

unfoldable pub cmp_stream_size_to_bits : ℕ → ℕ
cmp_stream_size_to_bits stream_size = u32 (bit_and stream_size (not32 3) * 8)

abbrev pub zero_mode : CmpMode → EncodeMethod
zero_mode model_zero = zero_escape
zero_mode diff_zero = zero_escape
zero_mode _ = multi_escape

-- `cmp_mode` and `stream_size` are those of the configuration.
unfoldable pub configure_encoder_setup : ℕ → ℕ → ℕ → ℕ → CmpMode → ℕ → EncoderSetup
unfolding cmp_stream_size_to_bits
configure_encoder_setup cmp_par spillover lossy_par max_data_bits cmp_mode stream_size = record {
  generate_cw_f = if is_a_pow_of_2 cmp_par then rice else golomb;
  encode_method_f = zero_mode cmp_mode;
  max_stream_len = cmp_stream_size_to_bits stream_size;
  encoder_par1 = cmp_par;
  encoder_par2 = ilog_2 cmp_par;
  spillover_par = spillover;
  lossy_par = lossy_par;
  max_data_bits = max_data_bits;
}
