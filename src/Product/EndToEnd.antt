-- ===== src/Product/EndToEnd.antt =====
-- From samples to bytes and back: `compress_product` into a buffer of words, `bit_init_decoder` over
-- its bytes, and `decompress_product`.
use cmp_tool.Base.{
  ℕ, ◌+◌, ◌-◌, ◌*◌, ◌/◌, ◌%◌, ◌^◌, ◌≤◌, ◌<◌, ◌≡◌, refl, sym, ap, ◌∙◌, arith, Bool, List, [], ◌∷◌,
  ◌++◌, All, map, length, drop, some,
}
use cmp_tool.Base.Bits.{bits}
use cmp_tool.Base.Bits.Digits.{bits-append, bits-mod}
use cmp_tool.Support.Check.{CmpCfg}
use cmp_tool.Encoder.Value.{cmp_stream_size_to_bits}
use cmp_tool.Encoder.Put.Stream.{stream}
use cmp_tool.Decoder.Reader.{bit_init_decoder}
use cmp_tool.Decoder.Register.{byte_stream}
use cmp_tool.Decoder.Refill.Bytes.{IsBytes}
use cmp_tool.Decoder.Refill.Init.{Starts, bit_init_decoder-Starts}
use cmp_tool.RoundTrip.Reads.{IsReady}
use cmp_tool.RoundTrip.Setup.{IsCompressing}
use cmp_tool.Product.Field.{Field, Sample}
use cmp_tool.Product.Rounds.{IsCount}
use cmp_tool.Product.Compress.{compress_product}
use cmp_tool.Product.Decompress.{decompress_product}
use cmp_tool.Product.Emits.{IsField, Fits, product_digits, compress_product-Emits}
use cmp_tool.Product.Reads.{rounded}
use cmp_tool.Product.RoundTrip.{ProductReads, product_updates, decompress_product-Reads}
use mathlib.Core.List.{append_assoc}

-- `cpu_to_be32`: the bytes of a word in memory.
unfoldable pub bytes_of : List ℕ → List ℕ
bytes_of [] = []
bytes_of (w ∷ ws) =
    w / 2 ^ 24 % 2 ^ 8 ∷ w / 2 ^ 16 % 2 ^ 8 ∷ w / 2 ^ 8 % 2 ^ 8 ∷ w % 2 ^ 8 ∷ bytes_of ws

bytes_of-IsBytes : (ws : List ℕ) → IsBytes (bytes_of ws)
unfolding bytes_of
bytes_of-IsBytes [] = _
bytes_of-IsBytes (w ∷ ws) =
    (below (w / 2 ^ 24), (below (w / 2 ^ 16), (below (w / 2 ^ 8), (below w, bytes_of-IsBytes ws))))
  where
    below : (n : ℕ) → n % 2 ^ 8 < 256
    below n = omega arith

take_byte :
    (k w : ℕ) (rest : List Bool) → bits 8 (w / 2 ^ k) ++ (bits k w ++ rest) ≡ bits (8 + k) w ++ rest
take_byte k w rest =
    sym (append_assoc (bits 8 (w / 2 ^ k)) (bits k w) rest)
    ∙ ap (λ (l : List Bool). l ++ rest) (sym (bits-append 8 k w))

-- The words and their bytes are the same digits.
byte_stream-bytes_of : (ws : List ℕ) → byte_stream (bytes_of ws) ≡ stream ws
unfolding bytes_of byte_stream stream
byte_stream-bytes_of [] = refl
byte_stream-bytes_of (w ∷ ws) =
    rw
      (
        bits-mod 8 (w / 2 ^ 24),
        bits-mod 8 (w / 2 ^ 16),
        bits-mod 8 (w / 2 ^ 8),
        bits-mod 8 w,
        byte_stream-bytes_of ws,
      )
      (ap (λ (l : List Bool). bits 8 (w / 2 ^ 24) ++ l)
          (ap (λ (l : List Bool). bits 8 (w / 2 ^ 16) ++ l) (take_byte 8 w (stream ws))
            ∙ take_byte 16 w (stream ws))
        ∙ take_byte 24 w (stream ws))

-- The reader that `bit_init_decoder` makes of a compressed buffer is ready at its first digit.
written-IsReady :
    (l rest : List Bool) (ws : List ℕ)
    → stream ws ≡ l ++ rest
    → IsReady (bytes_of ws) (bit_init_decoder (bytes_of ws) (length (bytes_of ws))).1 (l ++ rest)
written-IsReady l rest ws e = record {
  reader = start.reader;
  in_register = start.in_register;
  loaded = start.loaded;
  left = start.everything ∙ byte_stream-bytes_of ws ∙ e;
}
  where
    start : Starts (bytes_of ws) (bit_init_decoder (bytes_of ws) (length (bytes_of ws))).1
    start = bit_init_decoder-Starts (bytes_of ws) (bytes_of-IsBytes ws)

-- What a buffer holds after the compression from its start on.
pub record Restores (cfg : CmpCfg) (fs : List Field) (src model_buf : List Sample)
    (updated_model_buf : Bool) (ws ws' : List ℕ) : Type 0 where
  pub written :
      (compress_product fs cfg src model_buf updated_model_buf 0 (some ws)).0
      ≡ (length (product_digits cfg fs src model_buf), some ws')
  pub restored :
      ProductReads
        (bytes_of ws')
        (decompress_product fs cfg model_buf updated_model_buf
          (bytes_of ws')
          (bit_init_decoder (bytes_of ws') (length (bytes_of ws'))).1)
        (map (rounded cfg fs) src)
        (product_updates cfg fs src model_buf updated_model_buf)
        (drop (length (product_digits cfg fs src model_buf)) (stream ws))

-- For accepted parameters of every member in a compressing mode, a stream size below 2^29 - 16
-- bytes, samples and models that fit their members, from one to 2^32 - 1 samples, as many as
-- configured, and a buffer as large as the stream size that the digits fit, compress_product
-- writes the length of the digits, and decompress_product over the bytes of the buffer, from
-- bit_init_decoder on, gives the rounded samples and, where it is asked for, the update of the
-- model by every sample, without an error.
pub compress_then_decompress :
    (cfg : CmpCfg) (fs : List Field) (src model_buf : List Sample) (updated_model_buf : Bool)
    (ws : List ℕ)
    → IsCompressing cfg.cmp_mode
    → cfg.stream_size < 2 ^ 29 - 16
    → All (IsField cfg) fs
    → All (Fits fs) src
    → All (Fits fs) model_buf
    → IsCount cfg.samples src
    → length (product_digits cfg fs src model_buf) ≤ cmp_stream_size_to_bits cfg.stream_size
    → cmp_stream_size_to_bits cfg.stream_size ≤ 32 * length ws
    → (ws' : List ℕ) × Restores cfg fs src model_buf updated_model_buf ws ws'
compress_then_decompress cfg fs src model_buf up ws mode size v hs hm n fits room =
    let (ws', e, len, s) =
      (compress_product-Emits cfg mode size fs src model_buf up v hs hm n).writes 0 ws (omega arith)
        room in
    (
      ws',
      record {
        written =
            e ∙ ap (λ (k : ℕ). (k, some ws')) (plus (length (product_digits cfg fs src model_buf)));
        restored =
            decompress_product-Reads (bytes_of ws') (bytes_of-IsBytes ws') cfg mode size fs src
              model_buf up _ _ v hs hm n
              (written-IsReady (product_digits cfg fs src model_buf) _ ws' (
                s
                ∙ ap (λ (k : ℕ). product_digits cfg fs src model_buf ++ drop k (stream ws))
                    (plus (length (product_digits cfg fs src model_buf)))));
      },
    )
  where
    plus : (k : ℕ) → 0 + k ≡ k
    plus k = omega arith
