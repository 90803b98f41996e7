-- ===== src/Chunk/Memory.antt =====
-- The samples of a product in memory, as its packed structure on a little-endian CPU, and bytes that
-- are copied into the buffer of the bitstream.
use cmp_tool.Base.{
  ℕ, zero, suc, ◌+◌, ◌*◌, ◌/◌, ◌%◌, List, [], ◌∷◌, ◌++◌, none, some, get_or, take, drop, length,
}
use cmp_tool.Encoder.Word.{Dst}
use cmp_tool.Product.Field.{Sample}
use cmp_tool.Product.EndToEnd.{bytes_of}
use cmp_tool.Entity.Size.{words_of}
use cmp_tool.Collection.DataType.{sum}

-- `n` bytes from offset `at` on as a little-endian number.
unfoldable pub read_le : List ℕ → ℕ → ℕ → ℕ
read_le mem at zero = 0
read_le mem at (suc n) = get_or mem at 0 + 256 * read_le mem (at + 1) n

unfoldable pub write_le : ℕ → ℕ → List ℕ
write_le zero v = []
write_le (suc n) v = v % 256 ∷ write_le n (v / 256)

-- The members of the structure at offset `at`.
unfoldable pub members_of : List ℕ → List ℕ → ℕ → Sample
unfolding read_le
members_of [] mem at = []
members_of (width ∷ widths) mem at = read_le mem at width ∷ members_of widths mem (at + width)

-- An array of `samples` structures.
unfoldable pub samples_of : List ℕ → ℕ → List ℕ → ℕ → List Sample
unfolding members_of sum
samples_of widths zero mem at = []
samples_of widths (suc samples) mem at =
    members_of widths mem at ∷ samples_of widths samples mem (at + sum widths)

unfoldable pub bytes_of_members : List ℕ → Sample → List ℕ
unfolding write_le
bytes_of_members [] sample = []
bytes_of_members (width ∷ widths) sample =
    write_le width (get_or sample 0 0) ++ bytes_of_members widths (drop 1 sample)

unfoldable pub bytes_of_samples : List ℕ → List Sample → List ℕ
unfolding bytes_of_members
bytes_of_samples widths [] = []
bytes_of_samples widths (s ∷ ss) = bytes_of_members widths s ++ bytes_of_samples widths ss

-- `memcpy` of `bytes` to offset `at` of a buffer that holds them.
unfoldable pub copy_to : List ℕ → ℕ → List ℕ → List ℕ
copy_to mem at bytes = take at mem ++ (bytes ++ drop (at + length bytes) mem)

-- The same in the buffer of the bitstream, whose words are big-endian in memory.
unfoldable pub copy_to_dst : Dst → ℕ → List ℕ → Dst
unfolding copy_to bytes_of words_of
copy_to_dst none at bytes = none
copy_to_dst (some words) at bytes =
    some (words_of (copy_to (bytes_of words) at bytes) 0 (length words))
