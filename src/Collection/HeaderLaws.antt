-- ===== src/Collection/HeaderLaws.antt =====
-- The setters and getters of a collection header (cmp_data_types.c) against each other.
use cmp_tool.Base.{
  ℕ, ◌+◌, ◌*◌, ◌^◌, ◌≤◌, ◌<◌, ◌≡◌, refl, sym, ap, subst, ◌∙◌, arith, ◌⊎◌, inl, inr, List, some,
  length, true, shr, le→ltb, lt→ltb,
}
use cmp_tool.Bytes.{
  write_be, length-write_be, write_be-IsBytes, read_be-write_be, read_be-write_be_ne,
}
use cmp_tool.Decoder.Reader.{read_be}
use cmp_tool.Decoder.Refill.Bytes.{IsBytes, read_be-lt}
use cmp_tool.Collection.Header.{
  success, failure, extract_bits, insert_bits, cmp_col_get_timestamp, cmp_col_get_configuration_id,
  cmp_col_get_col_id, cmp_col_get_pkt_type, cmp_col_get_subservice, cmp_col_get_ccd_id,
  cmp_col_get_sequence_num, cmp_col_get_data_length, cmp_col_set_timestamp,
  cmp_col_set_configuration_id, cmp_col_set_col_id, cmp_col_set_pkt_type, cmp_col_set_subservice,
  cmp_col_set_ccd_id, cmp_col_set_sequence_num, cmp_col_set_data_length,
}
use cmp_tool.Collection.Members.{
  IdMember, pkt_type, subservice, ccd_id, sequence_num, Member, timestamp, configuration_id, col_id,
  data_length, in_id, width, get, set_by, disjoint, is_checked,
}

-- A setter writes one big-endian word, and a getter takes its part of one.
abbrev start : Member → ℕ
start timestamp = 0
start configuration_id = 6
start data_length = 10
start _ = 8

abbrev count : Member → ℕ
count timestamp = 6
count _ = 2

abbrev part : Member → ℕ → ℕ
part (in_id pkt_type) w = extract_bits 15 1 w
part (in_id subservice) w = extract_bits 9 6 w
part (in_id ccd_id) w = extract_bits 7 2 w
part (in_id sequence_num) w = extract_bits 0 7 w
part _ w = w

abbrev word : Member → List ℕ → ℕ → ℕ
word (in_id pkt_type) col v = insert_bits 15 1 (cmp_col_get_col_id col) v
word (in_id subservice) col v = insert_bits 9 6 (cmp_col_get_col_id col) v
word (in_id ccd_id) col v = insert_bits 7 2 (cmp_col_get_col_id col) v
word (in_id sequence_num) col v = insert_bits 0 7 (cmp_col_get_col_id col) v
word _ col v = v

abbrev after : Member → List ℕ → ℕ → List ℕ
after f col v = write_be col (start f) (count f) (word f col v)

get-part : (f : Member) (col : List ℕ) → get f col ≡ part f (read_be col (start f) (count f))
unfolding get cmp_col_get_timestamp cmp_col_get_configuration_id cmp_col_get_col_id
    cmp_col_get_pkt_type cmp_col_get_subservice cmp_col_get_ccd_id cmp_col_get_sequence_num
    cmp_col_get_data_length
get-part timestamp col = refl
get-part configuration_id col = refl
get-part col_id col = refl
get-part data_length col = refl
get-part (in_id pkt_type) col = refl
get-part (in_id subservice) col = refl
get-part (in_id ccd_id) col = refl
get-part (in_id sequence_num) col = refl

word-lt :
    (f : Member) (col : List ℕ) (v : ℕ)
    → IsBytes col
    → v < 2 ^ width f
    → word f col v < 2 ^ (8 * count f)
unfolding width insert_bits cmp_col_get_col_id
word-lt timestamp col v b h = omega arith
word-lt configuration_id col v b h = omega arith
word-lt col_id col v b h = omega arith
word-lt data_length col v b h = omega arith
word-lt (in_id pkt_type) col v b h = omega (arith, read_be-lt col 8 2 b)
word-lt (in_id subservice) col v b h = omega (arith, read_be-lt col 8 2 b)
word-lt (in_id ccd_id) col v b h = omega (arith, read_be-lt col 8 2 b)
word-lt (in_id sequence_num) col v b h = omega (arith, read_be-lt col 8 2 b)

part-word : (f : Member) (col : List ℕ) (v : ℕ) → v < 2 ^ width f → part f (word f col v) ≡ v
unfolding width insert_bits extract_bits
part-word timestamp col v h = refl
part-word configuration_id col v h = refl
part-word col_id col v h = refl
part-word data_length col v h = refl
part-word (in_id pkt_type) col v h = omega arith
part-word (in_id subservice) col v h = omega arith
part-word (in_id ccd_id) col v h = omega arith
part-word (in_id sequence_num) col v h = omega arith

set_by-after :
    (f : Member) (col : List ℕ) (v : ℕ)
    → v < 2 ^ width f
    → set_by f (some col) v ≡ (success, some (after f col v))
unfolding set_by width cmp_col_set_timestamp cmp_col_set_configuration_id cmp_col_set_col_id
    cmp_col_set_pkt_type cmp_col_set_subservice cmp_col_set_ccd_id cmp_col_set_sequence_num
    cmp_col_set_data_length
set_by-after timestamp col v h = rw (le→ltb 0 (shr v 48) (omega arith))
set_by-after configuration_id col v h = refl
set_by-after col_id col v h = refl
set_by-after data_length col v h = refl
set_by-after (in_id pkt_type) col v h = rw (le→ltb 0 (shr v 1) (omega arith))
set_by-after (in_id subservice) col v h = rw (le→ltb 0 (shr v 6) (omega arith))
set_by-after (in_id ccd_id) col v h = rw (le→ltb 0 (shr v 2) (omega arith))
set_by-after (in_id sequence_num) col v h = rw (le→ltb 0 (shr v 7) (omega arith))

-- Members of the identifier keep each other's bits.
part-word_ne :
    (f g : IdMember) (col : List ℕ) (v : ℕ)
    → disjoint (in_id f) (in_id g) ≡ true
    → part (in_id g) (word (in_id f) col v) ≡ part (in_id g) (cmp_col_get_col_id col)
unfolding disjoint insert_bits extract_bits
part-word_ne pkt_type pkt_type col v d = absurd (cc d)
part-word_ne subservice subservice col v d = absurd (cc d)
part-word_ne ccd_id ccd_id col v d = absurd (cc d)
part-word_ne sequence_num sequence_num col v d = absurd (cc d)
part-word_ne _ _ col v d = omega arith

-- Members in different words.
apart :
    (f g : Member)
    → disjoint f g ≡ true
    → ((a : IdMember) × (b : IdMember) × (f ≡ in_id a) × (g ≡ in_id b))
      ⊎ ((start g + count g ≤ start f) ⊎ (start f + count f ≤ start g))
unfolding disjoint
apart (in_id f) (in_id g) d = inl (f, g, refl, refl)
apart timestamp timestamp d = absurd (cc d)
apart configuration_id configuration_id d = absurd (cc d)
apart data_length data_length d = absurd (cc d)
apart col_id col_id d = absurd (cc d)
apart col_id (in_id g) d = absurd (cc d)
apart (in_id f) col_id d = absurd (cc d)
apart _ _ d = inr (omega arith)

get-after_ne :
    (f g : Member) (col : List ℕ) (v : ℕ)
    → IsBytes col
    → 12 ≤ length col
    → v < 2 ^ width f
    → disjoint f g ≡ true
    → part g (read_be (after f col v) (start g) (count g))
      ≡ part g (read_be col (start g) (count g))
get-after_ne f g col v b l h d = elim (apart f g d) [
  | inl (a, c, ef, eg) ↦
      subst (λ (m : Member). Kept m g) (sym ef)
        (subst (λ (m : Member). Kept (in_id a) m) (sym eg) (one_word a c)) h d
  | inr away ↦ λ i.
      part g (read_be-write_be_ne col (start f) (count f) (word f col v) (start g) (count g) away i)
]
  where
    Kept : Member → Member → Type 0
    Kept m n =
        v < 2 ^ width m
        → disjoint m n ≡ true
        → part n (read_be (after m col v) (start n) (count n))
          ≡ part n (read_be col (start n) (count n))

    one_word : (a c : IdMember) → Kept (in_id a) (in_id c)
    one_word a c h' d' =
        ap (part (in_id c)) (
          read_be-write_be col 8 2 (word (in_id a) col v) (omega arith)
            (word-lt (in_id a) col v b h'))
        ∙ part-word_ne a c col v d'
        ∙ ap (part (in_id c)) (unfold cmp_col_get_col_id in refl)

-- In the bytes of a collection with a whole header, each setter of a member stores a value that
-- fits the member, the getter gives it back, and every member with other bits stays, also inside
-- the collection identifier.
pub get-set_by :
    (f : Member) (col : List ℕ) (v : ℕ)
    → IsBytes col
    → 12 ≤ length col
    → v < 2 ^ width f
    → (col' : List ℕ) × (set_by f (some col) v ≡ (success, some col'))
      × (get f col' ≡ v)
      × ((g : Member) → disjoint f g ≡ true → get g col' ≡ get g col)
      × IsBytes col'
      × (length col' ≡ length col)
get-set_by f col v b l h = (
  after f col v,
  set_by-after f col v h,
  get-part f (after f col v)
      ∙ ap (part f)
          (read_be-write_be col (start f) (count f) (word f col v) (within f) (word-lt f col v b h))
      ∙ part-word f col v h,
  λ g d. get-part g (after f col v) ∙ get-after_ne f g col v b l h d ∙ sym (get-part g col),
  write_be-IsBytes col (start f) (count f) (word f col v) b,
  length-write_be col (start f) (count f) (word f col v),
)
  where
    within : (m : Member) → start m + count m ≤ length col
    within timestamp = omega arith
    within configuration_id = omega arith
    within col_id = omega arith
    within data_length = omega arith
    within (in_id m) = omega arith

-- Errors of the setters.
pub set_by_refused :
    (f : Member) (col : List ℕ) (v : ℕ)
    → is_checked f ≡ true
    → 2 ^ width f ≤ v
    → set_by f (some col) v ≡ (failure, some col)
unfolding set_by width is_checked cmp_col_set_timestamp cmp_col_set_pkt_type cmp_col_set_subservice
    cmp_col_set_ccd_id cmp_col_set_sequence_num
set_by_refused timestamp col v c h = rw (lt→ltb 0 (shr v 48) (omega arith))
set_by_refused (in_id pkt_type) col v c h = rw (lt→ltb 0 (shr v 1) (omega arith))
set_by_refused (in_id subservice) col v c h = rw (lt→ltb 0 (shr v 6) (omega arith))
set_by_refused (in_id ccd_id) col v c h = rw (lt→ltb 0 (shr v 2) (omega arith))
set_by_refused (in_id sequence_num) col v c h = rw (lt→ltb 0 (shr v 7) (omega arith))
set_by_refused _ col v c h = absurd (cc c)
