-- ===== src/Entity/DataTypeLaws.antt =====
-- The data type of an entity with its flag of raw data (lib/common/cmp_entity.c).
use cmp_tool.Base.{
  ℕ, ◌+◌, ◌/◌, ◌%◌, ◌^◌, ◌≤◌, ◌<◌, ◌≡◌, refl, ap, ◌∙◌, arith, List, some, length, Bool, true, false,
  if◌then◌else◌, le→ltb, ◌==◌, shr, bit_and, bit_or,
}
use cmp_tool.Base.Bits.Fields.{bit_and_mask, bit_or_fields_low}
use cmp_tool.Bytes.{success, write_be, read_be-write_be}
use cmp_tool.Decoder.Reader.{read_be}
use cmp_tool.Support.Types.{CmpDataType, unknown, above_chunk, cmp_data_type_is_invalid}
use cmp_tool.Support.Numbers.{cmp_data_type_number, cmp_data_type_of_number}
use cmp_tool.Entity.Setters.{cmp_ent_set_data_type}
use cmp_tool.Entity.Getters.{cmp_ent_get_data_type, cmp_ent_get_data_type_raw_bit}

pub of_number-cmp_data_type_number :
    (t : CmpDataType) → cmp_data_type_of_number (cmp_data_type_number t) ≡ t
unfolding cmp_data_type_of_number cmp_data_type_number
of_number-cmp_data_type_number (above_chunk n) = ground arith
of_number-cmp_data_type_number _ = refl

-- The word that cmp_ent_set_data_type writes.
abbrev pub flagged : CmpDataType → Bool → ℕ
flagged t raw = if raw then bit_or (cmp_data_type_number t) (2 ^ 15) else cmp_data_type_number t

valid_number : (t : CmpDataType) → cmp_data_type_is_invalid t ≡ false → cmp_data_type_number t < 25
unfolding cmp_data_type_number cmp_data_type_is_invalid
valid_number unknown h = absurd (cc h)
valid_number (above_chunk n) h = absurd (cc h)
valid_number _ h = omega arith

flagged-eq :
    (t : CmpDataType) (raw : Bool)
    → cmp_data_type_is_invalid t ≡ false
    → flagged t raw ≡ cmp_data_type_number t + (if raw then 2 ^ 15 else 0)
flagged-eq t false h = omega arith
flagged-eq t true h =
    omega (arith, bit_or_fields_low 15 1 (cmp_data_type_number t), valid_number t h)

flag_bit :
    (k : ℕ) (raw : Bool)
    → k < 25
    → (k + (if raw then 2 ^ 15 else 0)) / 2 ^ 15 % 2 ≡ (if raw then 1 else 0)
flag_bit k raw h = ground arith

low_bits : (k : ℕ) (raw : Bool) → k < 25 → (k + (if raw then 2 ^ 15 else 0)) % 2 ^ 15 ≡ k
low_bits k raw h = ground arith

one_bit : (raw : Bool) → ((if raw then 1 else 0) == 1) ≡ raw
one_bit true = refl
one_bit false = refl

-- What the getters make of the word.
pub get_data_type-flagged :
    (t : CmpDataType) (raw : Bool) (ent : List ℕ)
    → cmp_data_type_is_invalid t ≡ false
    → read_be ent 22 2 ≡ flagged t raw
    → (cmp_ent_get_data_type (some ent) ≡ t) × (cmp_ent_get_data_type_raw_bit (some ent) ≡ raw)
unfolding cmp_ent_get_data_type cmp_ent_get_data_type_raw_bit
get_data_type-flagged t raw ent h e = (
  rw (masked, of_number-cmp_data_type_number t, h) refl,
  ap (λ (b : ℕ). b == 1) flag ∙ one_bit raw,
)
  where
    word : read_be ent 22 2 ≡ cmp_data_type_number t + (if raw then 2 ^ 15 else 0)
    word = e ∙ flagged-eq t raw h

    masked : bit_and (read_be ent 22 2) 32767 ≡ cmp_data_type_number t
    masked =
        bit_and_mask 15 (read_be ent 22 2)
        ∙ ap (λ (w : ℕ). w % 2 ^ 15) word
        ∙ low_bits (cmp_data_type_number t) raw (valid_number t h)

    flag : bit_and (shr (read_be ent 22 2) 15) 1 ≡ (if raw then 1 else 0)
    flag =
        bit_and_mask 1 (shr (read_be ent 22 2) 15)
        ∙ ap (λ (w : ℕ). w / 2 ^ 15 % 2) word
        ∙ flag_bit (cmp_data_type_number t) raw (valid_number t h)

pub flagged-lt :
    (t : CmpDataType) (raw : Bool) → cmp_data_type_is_invalid t ≡ false → flagged t raw < 2 ^ 16
flagged-lt t true h = omega (arith, flagged-eq t true h, valid_number t h)
flagged-lt t false h = omega (arith, valid_number t h)

-- A valid data type and its flag, set in an entity that holds them, are got back.
pub get_data_type-set_data_type :
    (t : CmpDataType) (raw : Bool) (ent : List ℕ)
    → cmp_data_type_is_invalid t ≡ false
    → 24 ≤ length ent
    → (ent' : List ℕ) × (cmp_ent_set_data_type (some ent) t raw ≡ (success, some ent'))
      × (ent' ≡ write_be ent 22 2 (flagged t raw))
      × (cmp_ent_get_data_type (some ent') ≡ t)
      × (cmp_ent_get_data_type_raw_bit (some ent') ≡ raw)
get_data_type-set_data_type t raw ent h l =
    let (type, bit) = got in (write_be ent 22 2 (flagged t raw), stored, refl, type, bit)
  where
    got :
        (cmp_ent_get_data_type (some (write_be ent 22 2 (flagged t raw))) ≡ t)
        × (cmp_ent_get_data_type_raw_bit (some (write_be ent 22 2 (flagged t raw))) ≡ raw)
    got =
        get_data_type-flagged t raw (write_be ent 22 2 (flagged t raw)) h
          (read_be-write_be ent 22 2 (flagged t raw) (omega arith) (flagged-lt t raw h))

    stored :
        cmp_ent_set_data_type (some ent) t raw ≡ (success, some (write_be ent 22 2 (flagged t raw)))
    stored =
        unfold cmp_ent_set_data_type in
        rw (le→ltb 0x7ff (cmp_data_type_number t) (omega (arith, valid_number t h))) refl
