-- ===== src/Lib.antt =====
-- Verification of the PLATO compression tool (cmp_tool): the compression of science data by the
-- instrument control unit, and the decompression on ground.
--
-- A product is a sequence of samples, and a sample has one to ten members. The compressor
-- (lib/icu_compress/cmp_icu.c) rounds each member, takes the difference to a model (a buffer, or the
-- sample before), maps it to a number that is not negative, and writes a Golomb code to a buffer of
-- 32-bit words; an escape symbol and raw digits stand for large differences. The decompressor
-- (lib/decompress/decmp.c) reads the code words from a 64-bit register over the bytes
-- (lib/decompress/read_bitstream.h), and undoes the steps. Both sides update the model alike
-- (lib/common/cmp_cal_up_model.h), and take their parameters from a configuration that
-- lib/common/cmp_support.c checks.
--
-- The files:
--   Base            shared names; Base/Bits has the digits of numbers, and bit_and and bit_or as
--                   arithmetic
--   Error           lib/common/cmp_error.c and cmp_error_list.h: sizes and error codes in one number
--   UpModel         lib/common/cmp_cal_up_model.h
--   Support         lib/common/cmp_support.c: enumerations, logarithm, limits and checks
--   Golomb          the Golomb code as a list of digits, independent of the sources
--   Encoder         lib/icu_compress/cmp_icu.c, lines 72 to 488: Word has put_n_bits32 and the code
--                   words, Value the escape mechanisms and encode_value; Put, CodeWord, Mapping,
--                   Emits, Digits and Range hold what they write against digits
--   Decoder         lib/decompress/read_bitstream.h (Reader) and decmp.c, lines 53 to 371 (Value);
--                   Register, Refill, CodeWord and Select hold what they read against digits
--   RoundTrip       the two sides against each other, value by value, from checked parameters on
--   Product         the sample loops: cmp_icu.c, lines 490 to 1450 (Compress), decmp.c, lines 414 to
--                   1450 (Decompress), lib/common/cmp_max_used_bits.h (Fields), and the digits,
--                   updates and round trip of whole products, down to the bytes; Rounds has the same
--                   loops on lists of samples, and Weighted the equation of the model update
--   Bytes           big-endian members in a buffer of bytes
--   Collection      lib/common/cmp_data_types.c: Header and Members, the data types of subservices
--                   (DataType), the byte order of samples (Swap) and chunks (SwapChunk);
--                   lib/icu_compress/cmp_chunk_type.c (ChunkType); the other files hold their laws
--   Entity          lib/common/cmp_entity.c: Setters, Getters and Specific for the members, Size for
--                   the sizes, the copy of the data and cmp_ent_create; Fields, the table of all
--                   members, and the laws
--   Chunk           cmp_icu.c, from line 1453 on, and lib/cmp_chunk.h: Memory has the samples of a
--                   product in memory, Internal compress_data_internal and the checks, Spill the
--                   parameters, Collection and Header the parts of a chunk, Compress the whole; Total
--                   holds that the loops end, and the other files hold bounds
--   Tests           the theorems at concrete inputs
--
-- Machine words are native numbers with every wrap written out. A buffer of the compressor is a list
-- of words, `none` for NULL; their values are those before cpu_to_be32. A buffer of the decompressor
-- is a list of bytes, and a pointer into it an offset. The two buffers are compared as lists of binary
-- digits. The packed structures of collections and entities are lists of bytes on a little-endian CPU,
-- and a pointer to one is the list from there on. Shifts by the word size or more, which C leaves
-- undefined, follow the arithmetic; the theorems' conditions exclude them.
--
-- The loops over samples are those of the sources, which process a first sample before their test:
-- without samples the count wraps around, and what is read past the end of a list of samples, which C
-- leaves undefined, is zero. The theorems on products take one sample at least. The loops of
-- be_to_cpu_chunk, compress_chunk and compress_chunk_cmp_size_bound have fuel for one round more than
-- the chunk has bytes, and each round takes the 12 bytes of a header at least.
--
-- The addresses of the buffers of a chunk are values beside the buffers, for the test of overlaps; what
-- get_timestamp returns is an argument.
--
-- Not modelled: the decompression of chunks, the hardware compressor (lib/rdcu_compress), its mode of
-- cmp_icu.c (compress_like_rdcu) and its parameters in an entity, the conversion and the printing of
-- timestamps and entities, and the command line tool (programs), which are mostly input and output. An
-- updated model that overwrites its model in place is not modelled.
pub mod Base
pub mod Support
pub mod Error
pub mod Golomb
pub mod UpModel
pub mod Encoder
pub mod Decoder
pub mod RoundTrip
pub mod Product
pub mod Bytes
pub mod Collection
pub mod Entity
pub mod Chunk
mod Tests
