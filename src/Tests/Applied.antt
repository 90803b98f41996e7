-- ===== src/Tests/Applied.antt =====
-- The theorems at concrete inputs.
use cmp_tool.Base.{
  ◌+◌, ◌-◌, ◌*◌, ◌^◌, ◌≤◌, ◌<◌, ◌≡◌, refl, ◌∙◌, arith, Bool, true, List, [], ◌∷◌, ◌++◌, length,
  drop, u32, sub32, bit_and, inl, ◌↔◌, some,
}
use cmp_tool.Base.Bits.{bit, bits}
use cmp_tool.Error.{cmp_error, data_value_too_large}
use cmp_tool.UpModel.{round_fwd, round_inv}
use cmp_tool.Support.Types.{diff_zero, model_multi}
use cmp_tool.Support.Log.{clz, ilog_2, is_a_pow_of_2}
use cmp_tool.Support.Log.Laws.{is_a_pow_of_2_iff}
use cmp_tool.Support.Spill.{cmp_icu_max_spill}
use cmp_tool.Support.Check.{cmp_pars_are_invalid}
use cmp_tool.Golomb.{golomb_code, remainder_code, cutoff, IsParam}
use cmp_tool.Encoder.Word.{put_n_bits32, rice_encoder, golomb_encoder}
use cmp_tool.Encoder.Value.{
  configure_encoder_setup, encode_value, map_to_pos, escape_sym_offset, encode_value_zero,
  encode_value_multi, cmp_stream_size_to_bits,
}
use cmp_tool.Encoder.CodeWord.Unary.{HasDigits}
use cmp_tool.Encoder.CodeWord.Rice.{rice_encoder-HasDigits}
use cmp_tool.Encoder.CodeWord.Groups.{golomb_encoder-HasDigits}
use cmp_tool.Encoder.Emits.{Emits, put_n_bits32-Emits}
use cmp_tool.Encoder.Digits.{
  IsSetup, difference, zero_digits, multi_digits, escape_sym_offset_bounds, encode_value_zero-Emits,
  encode_value_multi-Emits,
}
use cmp_tool.Encoder.Range.{value_digits, method_digits, encode_value-Emits, encode_value_too_large}
use cmp_tool.Decoder.Reader.{bit_init_decoder, bit_refill, bit_peek_leading_ones}
use cmp_tool.Decoder.Value.{
  golomb, decode_cw, configure_decoder_setup, decode_zero, decode_multi, decode_value,
  re_map_to_pos,
}
use cmp_tool.Decoder.Register.{byte_stream, advance, leading_ones-eq}
use cmp_tool.Decoder.Select.{decode_cw-reads}
use cmp_tool.Decoder.Refill.Keeps.{Refills, bit_refill-Refills}
use cmp_tool.Decoder.Refill.Init.{Starts, bit_init_decoder-Starts}
use cmp_tool.RoundTrip.Mapping.{re_map_to_pos-restores}
use cmp_tool.RoundTrip.Reads.{IsReady, Reads, Agrees}
use cmp_tool.RoundTrip.Zero.{decode_zero-Reads}
use cmp_tool.RoundTrip.Multi.{decode_multi-Reads}
use cmp_tool.RoundTrip.Value.{decode_value-Reads}
use cmp_tool.RoundTrip.MaxSpill.{length-golomb_code_iff}
use cmp_tool.RoundTrip.Setup.{
  IsValidPair, by_diff_zero, by_model_multi, cmp_pars_are_invalid_iff,
  configure_encoder_setup-IsSetup, configure_decoder_setup-Agrees,
}
use cmp_tool.Tests.Streams.{
  rice_setup, golomb_setup, rice_decoder_setup, golomb_decoder_setup, rice_setup-IsSetup,
  golomb_setup-IsSetup, rice-Agrees, golomb-Agrees, buffer, buffer-IsBytes, reader, reader-Starts,
  valid_rice, valid_golomb,
}

-- The code word 1011 of the Rice code.
abbrev after_rice : List Bool
after_rice = drop 4 (byte_stream buffer)

rice_digits : byte_stream buffer ≡ zero_digits rice_setup 6 ++ after_rice
unfolding byte_stream bits bit zero_digits golomb_code remainder_code cutoff configure_encoder_setup
    ilog_2 clz
rice_digits = refl

rice-IsReady : IsReady buffer reader (zero_digits rice_setup 6 ++ after_rice)
rice-IsReady = record {
  reader = reader-Starts.reader;
  in_register = reader-Starts.in_register;
  loaded = reader-Starts.loaded;
  left = reader-Starts.everything ∙ rice_digits;
}

-- The code word 10110 of the Golomb code.
abbrev after_golomb : List Bool
after_golomb = drop 5 (byte_stream buffer)

golomb_digits : byte_stream buffer ≡ multi_digits golomb_setup 8 ++ after_golomb
unfolding byte_stream bits bit multi_digits golomb_code remainder_code cutoff
    configure_encoder_setup ilog_2 clz
golomb_digits = refl

golomb-IsReady : IsReady buffer reader (multi_digits golomb_setup 8 ++ after_golomb)
golomb-IsReady = record {
  reader = reader-Starts.reader;
  in_register = reader-Starts.in_register;
  loaded = reader-Starts.loaded;
  left = reader-Starts.everything ∙ golomb_digits;
}

five-IsParam : IsParam 5 2
five-IsParam = record { is_log = omega arith; small = omega arith }

decode_value-Reads_example :
    Reads buffer
      (decode_value buffer rice_decoder_setup 7 reader)
      (round_inv (round_fwd 10 0) 0)
      after_rice
unfolding configure_encoder_setup method_digits map_to_pos round_fwd
decode_value-Reads_example =
    decode_value-Reads buffer buffer-IsBytes reader rice_decoder_setup rice_setup rice-Agrees
      rice_setup-IsSetup 10 7 (omega arith) (omega arith) after_rice rice-IsReady

decode_zero-Reads_example : Reads buffer (decode_zero buffer rice_decoder_setup reader) 6 after_rice
unfolding configure_encoder_setup
decode_zero-Reads_example =
    decode_zero-Reads buffer buffer-IsBytes reader rice_decoder_setup rice_setup rice-Agrees
      rice_setup-IsSetup 6 (omega arith) after_rice rice-IsReady

decode_multi-Reads_example :
    Reads buffer (decode_multi buffer golomb_decoder_setup reader) 8 after_golomb
unfolding configure_encoder_setup
decode_multi-Reads_example =
    decode_multi-Reads buffer buffer-IsBytes reader golomb_decoder_setup golomb_setup golomb-Agrees
      golomb_setup-IsSetup 8 (omega arith) after_golomb golomb-IsReady

configure_encoder_setup-IsSetup_example : IsSetup (configure_encoder_setup 4 8 0 16 diff_zero 8)
configure_encoder_setup-IsSetup_example =
    configure_encoder_setup-IsSetup 4 8 0 16 8 diff_zero by_diff_zero valid_rice (omega arith)
      (omega arith) (omega arith)

configure_decoder_setup-Agrees_example :
    Agrees
      (configure_decoder_setup model_multi 5 9 1 16)
      (configure_encoder_setup 5 9 1 16 model_multi 8)
configure_decoder_setup-Agrees_example =
    configure_decoder_setup-Agrees 5 9 1 16 8 model_multi by_model_multi valid_golomb (omega arith)
      (omega arith)

encode_value-Emits_example :
    Emits 64
      (encode_value golomb_setup 20 12)
      (value_digits golomb_setup (difference golomb_setup (round_fwd 20 1) (round_fwd 12 1)))
unfolding configure_encoder_setup cmp_stream_size_to_bits round_fwd
encode_value-Emits_example =
    encode_value-Emits golomb_setup 20 12 golomb_setup-IsSetup (omega arith) (omega arith)

encode_value_too_large_example :
    encode_value golomb_setup 0x20000 12 0 (some (0 ∷ []))
    ≡ (cmp_error data_value_too_large, some (0 ∷ []))
unfolding configure_encoder_setup round_fwd
encode_value_too_large_example =
    encode_value_too_large golomb_setup 0x20000 12 0 (some (0 ∷ [])) golomb_setup-IsSetup
      (inl (omega arith))

encode_value_zero-Emits_example :
    Emits 64
      (encode_value_zero rice_setup 10 7)
      (zero_digits rice_setup (difference rice_setup 10 7))
unfolding configure_encoder_setup cmp_stream_size_to_bits
encode_value_zero-Emits_example = encode_value_zero-Emits rice_setup 10 7 rice_setup-IsSetup

encode_value_multi-Emits_example :
    Emits 64
      (encode_value_multi golomb_setup 100 7)
      (multi_digits golomb_setup (difference golomb_setup 100 7))
unfolding configure_encoder_setup cmp_stream_size_to_bits
encode_value_multi-Emits_example = encode_value_multi-Emits golomb_setup 100 7 golomb_setup-IsSetup

put_n_bits32-Emits_example : Emits 64 (put_n_bits32 0x2b 6 64) (bits 6 0x2b)
put_n_bits32-Emits_example = put_n_bits32-Emits 0x2b 6 64 (omega arith) (omega arith)

rice_encoder-HasDigits_example : HasDigits (rice_encoder 7 4 2) (golomb_code 4 2 7)
rice_encoder-HasDigits_example =
    rice_encoder-HasDigits {m = 4} {L = 2} 7 (record { is_log = omega arith; small = omega arith })
      (omega arith) refl

golomb_encoder-HasDigits_example : HasDigits (golomb_encoder 8 5 2) (golomb_code 5 2 8)
golomb_encoder-HasDigits_example =
    golomb_encoder-HasDigits {m = 5} {L = 2} 8 five-IsParam (omega arith)

decode_cw-reads_example :
    decode_cw golomb reader 5 2 ≡ (8, advance reader (length (golomb_code 5 2 8)))
unfolding multi_digits configure_encoder_setup ilog_2 clz bit golomb_code remainder_code bits cutoff
decode_cw-reads_example =
    decode_cw-reads buffer reader {m = 5} {L = 2} 8 after_golomb five-IsParam (omega arith)
      (omega arith) golomb-IsReady.left golomb
      (record {
        for_one = λ q. absurd (cc q);
        for_power = λ q. absurd (cc q);
        for_any = λ q. omega arith;
      })

bit_refill-Refills_example :
    Refills buffer
      (advance reader 9)
      (bit_refill buffer (advance reader 9)).0
      (bit_refill buffer (advance reader 9)).1
bit_refill-Refills_example =
    bit_refill-Refills buffer buffer-IsBytes (advance reader 9)
      (record { limit = refl; in_buffer = omega arith; register = reader-Starts.reader.register })
      (omega arith)

bit_init_decoder-Starts_example : Starts buffer (bit_init_decoder buffer (length buffer)).1
bit_init_decoder-Starts_example = bit_init_decoder-Starts buffer buffer-IsBytes

leading_ones-eq_example : bit_peek_leading_ones reader ≡ 1
unfolding byte_stream bits bit
leading_ones-eq_example =
    leading_ones-eq buffer reader 1 (drop 2 (byte_stream buffer)) (omega arith)
      (reader-Starts.everything ∙ refl)

cmp_pars_are_invalid_iff_example : (cmp_pars_are_invalid 4 8 diff_zero ≡ 0) ↔ IsValidPair 4 8
cmp_pars_are_invalid_iff_example = cmp_pars_are_invalid_iff 4 8 diff_zero by_diff_zero

length-golomb_code_iff_example :
    (length (golomb_code 5 (ilog_2 5) 200) ≤ 32) ↔ (200 < cmp_icu_max_spill 5 + 16)
length-golomb_code_iff_example = length-golomb_code_iff 5 200 (omega arith) (omega arith)

re_map_to_pos-restores_example :
    bit_and (u32 (re_map_to_pos (map_to_pos (sub32 3 9) 16) + 9)) (2 ^ 16 - 1) ≡ 3
re_map_to_pos-restores_example =
    re_map_to_pos-restores 15 (omega arith) 3 9 (omega arith) (omega arith)

is_a_pow_of_2_iff_example : (is_a_pow_of_2 64 ≡ true) ↔ (64 ≡ 2 ^ ilog_2 64)
is_a_pow_of_2_iff_example = is_a_pow_of_2_iff 64 (omega arith) (omega arith)

escape_sym_offset_bounds_example :
    (escape_sym_offset 100 ≤ 15)
    × (100 < 2 ^ ((escape_sym_offset 100 + 1) * 2))
    × (0 < escape_sym_offset 100 → 2 ^ (escape_sym_offset 100 * 2) ≤ 100)
escape_sym_offset_bounds_example = escape_sym_offset_bounds 100 (omega arith)
