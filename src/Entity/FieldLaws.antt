-- ===== src/Entity/FieldLaws.antt =====
-- The setters and getters of an entity (lib/common/cmp_entity.c) against each other.
use cmp_tool.Base.{
  ℕ, ◌+◌, ◌*◌, ◌^◌, ◌≤◌, ◌<◌, ◌≡◌, ◌⊎◌, refl, sym, ◌∙◌, arith, List, none, some, length, true,
  lt→ltb, le→ltb,
}
use cmp_tool.Bytes.{
  success, failure, write_be, length-write_be, read_be-write_be, read_be-write_be_ne,
}
use cmp_tool.Decoder.Reader.{read_be}
use cmp_tool.Support.Numbers.{cmp_mode_number, cmp_mode_of_number}
use cmp_tool.Entity.Setters.{
  cmp_ent_set_version_id, cmp_ent_set_size, cmp_ent_set_original_size, cmp_ent_set_start_timestamp,
  cmp_ent_set_coarse_start_time, cmp_ent_set_fine_start_time, cmp_ent_set_end_timestamp,
  cmp_ent_set_coarse_end_time, cmp_ent_set_fine_end_time, cmp_ent_set_cmp_mode,
  cmp_ent_set_model_value, cmp_ent_set_model_id, cmp_ent_set_model_counter, cmp_ent_set_reserved,
  cmp_ent_set_lossy_cmp_par,
}
use cmp_tool.Entity.Getters.{
  cmp_ent_get_version_id, cmp_ent_get_size, cmp_ent_get_original_size, cmp_ent_get_start_timestamp,
  cmp_ent_get_coarse_start_time, cmp_ent_get_fine_start_time, cmp_ent_get_end_timestamp,
  cmp_ent_get_coarse_end_time, cmp_ent_get_fine_end_time, cmp_ent_get_cmp_mode,
  cmp_ent_get_model_value, cmp_ent_get_model_id, cmp_ent_get_model_counter, cmp_ent_get_reserved,
  cmp_ent_get_lossy_cmp_par,
}
use cmp_tool.Entity.Specific.{
  cmp_ent_set_ima_spill, cmp_ent_set_ima_golomb_par, cmp_ent_set_ima_ap1_spill,
  cmp_ent_set_ima_ap1_golomb_par, cmp_ent_set_ima_ap2_spill, cmp_ent_set_ima_ap2_golomb_par,
  cmp_ent_set_non_ima_spill1, cmp_ent_set_non_ima_cmp_par1, cmp_ent_set_non_ima_spill2,
  cmp_ent_set_non_ima_cmp_par2, cmp_ent_set_non_ima_spill3, cmp_ent_set_non_ima_cmp_par3,
  cmp_ent_set_non_ima_spill4, cmp_ent_set_non_ima_cmp_par4, cmp_ent_set_non_ima_spill5,
  cmp_ent_set_non_ima_cmp_par5, cmp_ent_set_non_ima_spill6, cmp_ent_set_non_ima_cmp_par6,
  cmp_ent_get_ima_spill, cmp_ent_get_ima_golomb_par, cmp_ent_get_ima_ap1_spill,
  cmp_ent_get_ima_ap1_golomb_par, cmp_ent_get_ima_ap2_spill, cmp_ent_get_ima_ap2_golomb_par,
  cmp_ent_get_non_ima_spill1, cmp_ent_get_non_ima_cmp_par1, cmp_ent_get_non_ima_spill2,
  cmp_ent_get_non_ima_cmp_par2, cmp_ent_get_non_ima_spill3, cmp_ent_get_non_ima_cmp_par3,
  cmp_ent_get_non_ima_spill4, cmp_ent_get_non_ima_cmp_par4, cmp_ent_get_non_ima_spill5,
  cmp_ent_get_non_ima_cmp_par5, cmp_ent_get_non_ima_spill6, cmp_ent_get_non_ima_cmp_par6,
}
use cmp_tool.Entity.Fields.{
  EntityField, version_id, size, original_size, start_timestamp, coarse_start_time, fine_start_time,
  end_timestamp, coarse_end_time, fine_end_time, cmp_mode, model_value, model_id, model_counter,
  reserved, lossy_cmp_par, ima_spill, ima_golomb_par, ima_ap1_spill, ima_ap1_golomb_par,
  ima_ap2_spill, ima_ap2_golomb_par, non_ima_spill1, non_ima_cmp_par1, non_ima_spill2,
  non_ima_cmp_par2, non_ima_spill3, non_ima_cmp_par3, non_ima_spill4, non_ima_cmp_par4,
  non_ima_spill5, non_ima_cmp_par5, non_ima_spill6, non_ima_cmp_par6, start, count, is_checked,
  set_field, get_field,
}

pub cmp_mode_number-of_number : (k : ℕ) → cmp_mode_number (cmp_mode_of_number k) ≡ k
unfolding cmp_mode_number cmp_mode_of_number
cmp_mode_number-of_number k = ground arith

pub get_field-read_be :
    (f : EntityField) (ent : List ℕ) → get_field f (some ent) ≡ read_be ent (start f) (count f)
unfolding get_field start count cmp_ent_get_version_id cmp_ent_get_size cmp_ent_get_original_size
    cmp_ent_get_start_timestamp cmp_ent_get_coarse_start_time cmp_ent_get_fine_start_time
    cmp_ent_get_end_timestamp cmp_ent_get_coarse_end_time cmp_ent_get_fine_end_time
    cmp_ent_get_cmp_mode cmp_ent_get_model_value cmp_ent_get_model_id cmp_ent_get_model_counter
    cmp_ent_get_reserved cmp_ent_get_lossy_cmp_par cmp_ent_get_ima_spill cmp_ent_get_ima_golomb_par
    cmp_ent_get_ima_ap1_spill cmp_ent_get_ima_ap1_golomb_par cmp_ent_get_ima_ap2_spill
    cmp_ent_get_ima_ap2_golomb_par cmp_ent_get_non_ima_spill1 cmp_ent_get_non_ima_cmp_par1
    cmp_ent_get_non_ima_spill2 cmp_ent_get_non_ima_cmp_par2 cmp_ent_get_non_ima_spill3
    cmp_ent_get_non_ima_cmp_par3 cmp_ent_get_non_ima_spill4 cmp_ent_get_non_ima_cmp_par4
    cmp_ent_get_non_ima_spill5 cmp_ent_get_non_ima_cmp_par5 cmp_ent_get_non_ima_spill6
    cmp_ent_get_non_ima_cmp_par6
get_field-read_be version_id ent = refl
get_field-read_be _ ent = refl

abbrev above : EntityField → ℕ
above f = 2 ^ (8 * count f)

pub set_field-write_be :
    (f : EntityField) (ent : List ℕ) (v : ℕ)
    → v < above f
    → set_field f (some ent) v ≡ (success, some (write_be ent (start f) (count f) v))
unfolding set_field start count cmp_ent_set_version_id cmp_ent_set_size cmp_ent_set_original_size
    cmp_ent_set_start_timestamp cmp_ent_set_coarse_start_time cmp_ent_set_fine_start_time
    cmp_ent_set_end_timestamp cmp_ent_set_coarse_end_time cmp_ent_set_fine_end_time
    cmp_ent_set_cmp_mode cmp_ent_set_model_value cmp_ent_set_model_id cmp_ent_set_model_counter
    cmp_ent_set_reserved cmp_ent_set_lossy_cmp_par cmp_ent_set_ima_spill cmp_ent_set_ima_golomb_par
    cmp_ent_set_ima_ap1_spill cmp_ent_set_ima_ap1_golomb_par cmp_ent_set_ima_ap2_spill
    cmp_ent_set_ima_ap2_golomb_par cmp_ent_set_non_ima_spill1 cmp_ent_set_non_ima_cmp_par1
    cmp_ent_set_non_ima_spill2 cmp_ent_set_non_ima_cmp_par2 cmp_ent_set_non_ima_spill3
    cmp_ent_set_non_ima_cmp_par3 cmp_ent_set_non_ima_spill4 cmp_ent_set_non_ima_cmp_par4
    cmp_ent_set_non_ima_spill5 cmp_ent_set_non_ima_cmp_par5 cmp_ent_set_non_ima_spill6
    cmp_ent_set_non_ima_cmp_par6
set_field-write_be version_id ent v h = refl
set_field-write_be size ent v h = rw (le→ltb 0xffffff v (omega arith))
set_field-write_be original_size ent v h = rw (le→ltb 0xffffff v (omega arith))
set_field-write_be start_timestamp ent v h = rw (le→ltb 0xffffffffffff v (omega arith))
set_field-write_be coarse_start_time ent v h = refl
set_field-write_be fine_start_time ent v h = refl
set_field-write_be end_timestamp ent v h = rw (le→ltb 0xffffffffffff v (omega arith))
set_field-write_be coarse_end_time ent v h = refl
set_field-write_be fine_end_time ent v h = refl
set_field-write_be cmp_mode ent v h = rw (cmp_mode_number-of_number v, le→ltb 0xff v (omega arith))
set_field-write_be model_value ent v h = rw (le→ltb 0xff v (omega arith))
set_field-write_be model_id ent v h = rw (le→ltb 0xffff v (omega arith))
set_field-write_be model_counter ent v h = rw (le→ltb 0xff v (omega arith))
set_field-write_be reserved ent v h = refl
set_field-write_be lossy_cmp_par ent v h = rw (le→ltb 0xffff v (omega arith))
set_field-write_be ima_spill ent v h = rw (le→ltb 0xffff v (omega arith))
set_field-write_be ima_golomb_par ent v h = rw (le→ltb 0xff v (omega arith))
set_field-write_be ima_ap1_spill ent v h = rw (le→ltb 0xffff v (omega arith))
set_field-write_be ima_ap1_golomb_par ent v h = rw (le→ltb 0xff v (omega arith))
set_field-write_be ima_ap2_spill ent v h = rw (le→ltb 0xffff v (omega arith))
set_field-write_be ima_ap2_golomb_par ent v h = rw (le→ltb 0xff v (omega arith))
set_field-write_be non_ima_spill1 ent v h = rw (le→ltb 0xffffff v (omega arith))
set_field-write_be non_ima_cmp_par1 ent v h = rw (le→ltb 0xffff v (omega arith))
set_field-write_be non_ima_spill2 ent v h = rw (le→ltb 0xffffff v (omega arith))
set_field-write_be non_ima_cmp_par2 ent v h = rw (le→ltb 0xffff v (omega arith))
set_field-write_be non_ima_spill3 ent v h = rw (le→ltb 0xffffff v (omega arith))
set_field-write_be non_ima_cmp_par3 ent v h = rw (le→ltb 0xffff v (omega arith))
set_field-write_be non_ima_spill4 ent v h = rw (le→ltb 0xffffff v (omega arith))
set_field-write_be non_ima_cmp_par4 ent v h = rw (le→ltb 0xffff v (omega arith))
set_field-write_be non_ima_spill5 ent v h = rw (le→ltb 0xffffff v (omega arith))
set_field-write_be non_ima_cmp_par5 ent v h = rw (le→ltb 0xffff v (omega arith))
set_field-write_be non_ima_spill6 ent v h = rw (le→ltb 0xffffff v (omega arith))
set_field-write_be non_ima_cmp_par6 ent v h = rw (le→ltb 0xffff v (omega arith))

-- A setter of an entity whose argument has more bits than its member returns -1 for a value that
-- does not fit, and leaves the entity.
pub set_field_refused :
    (f : EntityField) (ent : List ℕ) (v : ℕ)
    → is_checked f ≡ true
    → above f ≤ v
    → set_field f (some ent) v ≡ (failure, some ent)
unfolding set_field count is_checked cmp_ent_set_version_id cmp_ent_set_size
    cmp_ent_set_original_size cmp_ent_set_start_timestamp cmp_ent_set_coarse_start_time
    cmp_ent_set_fine_start_time cmp_ent_set_end_timestamp cmp_ent_set_coarse_end_time
    cmp_ent_set_fine_end_time cmp_ent_set_cmp_mode cmp_ent_set_model_value cmp_ent_set_model_id
    cmp_ent_set_model_counter cmp_ent_set_reserved cmp_ent_set_lossy_cmp_par cmp_ent_set_ima_spill
    cmp_ent_set_ima_golomb_par cmp_ent_set_ima_ap1_spill cmp_ent_set_ima_ap1_golomb_par
    cmp_ent_set_ima_ap2_spill cmp_ent_set_ima_ap2_golomb_par cmp_ent_set_non_ima_spill1
    cmp_ent_set_non_ima_cmp_par1 cmp_ent_set_non_ima_spill2 cmp_ent_set_non_ima_cmp_par2
    cmp_ent_set_non_ima_spill3 cmp_ent_set_non_ima_cmp_par3 cmp_ent_set_non_ima_spill4
    cmp_ent_set_non_ima_cmp_par4 cmp_ent_set_non_ima_spill5 cmp_ent_set_non_ima_cmp_par5
    cmp_ent_set_non_ima_spill6 cmp_ent_set_non_ima_cmp_par6
set_field_refused version_id ent v c h = absurd (cc c)
set_field_refused size ent v c h = rw (lt→ltb 0xffffff v (omega arith))
set_field_refused original_size ent v c h = rw (lt→ltb 0xffffff v (omega arith))
set_field_refused start_timestamp ent v c h = rw (lt→ltb 0xffffffffffff v (omega arith))
set_field_refused coarse_start_time ent v c h = absurd (cc c)
set_field_refused fine_start_time ent v c h = absurd (cc c)
set_field_refused end_timestamp ent v c h = rw (lt→ltb 0xffffffffffff v (omega arith))
set_field_refused coarse_end_time ent v c h = absurd (cc c)
set_field_refused fine_end_time ent v c h = absurd (cc c)
set_field_refused cmp_mode ent v c h = rw (cmp_mode_number-of_number v, lt→ltb 0xff v (omega arith))
set_field_refused model_value ent v c h = rw (lt→ltb 0xff v (omega arith))
set_field_refused model_id ent v c h = rw (lt→ltb 0xffff v (omega arith))
set_field_refused model_counter ent v c h = rw (lt→ltb 0xff v (omega arith))
set_field_refused reserved ent v c h = absurd (cc c)
set_field_refused lossy_cmp_par ent v c h = rw (lt→ltb 0xffff v (omega arith))
set_field_refused ima_spill ent v c h = rw (lt→ltb 0xffff v (omega arith))
set_field_refused ima_golomb_par ent v c h = rw (lt→ltb 0xff v (omega arith))
set_field_refused ima_ap1_spill ent v c h = rw (lt→ltb 0xffff v (omega arith))
set_field_refused ima_ap1_golomb_par ent v c h = rw (lt→ltb 0xff v (omega arith))
set_field_refused ima_ap2_spill ent v c h = rw (lt→ltb 0xffff v (omega arith))
set_field_refused ima_ap2_golomb_par ent v c h = rw (lt→ltb 0xff v (omega arith))
set_field_refused non_ima_spill1 ent v c h = rw (lt→ltb 0xffffff v (omega arith))
set_field_refused non_ima_cmp_par1 ent v c h = rw (lt→ltb 0xffff v (omega arith))
set_field_refused non_ima_spill2 ent v c h = rw (lt→ltb 0xffffff v (omega arith))
set_field_refused non_ima_cmp_par2 ent v c h = rw (lt→ltb 0xffff v (omega arith))
set_field_refused non_ima_spill3 ent v c h = rw (lt→ltb 0xffffff v (omega arith))
set_field_refused non_ima_cmp_par3 ent v c h = rw (lt→ltb 0xffff v (omega arith))
set_field_refused non_ima_spill4 ent v c h = rw (lt→ltb 0xffffff v (omega arith))
set_field_refused non_ima_cmp_par4 ent v c h = rw (lt→ltb 0xffff v (omega arith))
set_field_refused non_ima_spill5 ent v c h = rw (lt→ltb 0xffffff v (omega arith))
set_field_refused non_ima_cmp_par5 ent v c h = rw (lt→ltb 0xffff v (omega arith))
set_field_refused non_ima_spill6 ent v c h = rw (lt→ltb 0xffffff v (omega arith))
set_field_refused non_ima_cmp_par6 ent v c h = rw (lt→ltb 0xffff v (omega arith))

pub set_field-null : (f : EntityField) (v : ℕ) → set_field f none v ≡ (failure, none)
unfolding set_field cmp_ent_set_version_id cmp_ent_set_size cmp_ent_set_original_size
    cmp_ent_set_start_timestamp cmp_ent_set_coarse_start_time cmp_ent_set_fine_start_time
    cmp_ent_set_end_timestamp cmp_ent_set_coarse_end_time cmp_ent_set_fine_end_time
    cmp_ent_set_cmp_mode cmp_ent_set_model_value cmp_ent_set_model_id cmp_ent_set_model_counter
    cmp_ent_set_reserved cmp_ent_set_lossy_cmp_par cmp_ent_set_ima_spill cmp_ent_set_ima_golomb_par
    cmp_ent_set_ima_ap1_spill cmp_ent_set_ima_ap1_golomb_par cmp_ent_set_ima_ap2_spill
    cmp_ent_set_ima_ap2_golomb_par cmp_ent_set_non_ima_spill1 cmp_ent_set_non_ima_cmp_par1
    cmp_ent_set_non_ima_spill2 cmp_ent_set_non_ima_cmp_par2 cmp_ent_set_non_ima_spill3
    cmp_ent_set_non_ima_cmp_par3 cmp_ent_set_non_ima_spill4 cmp_ent_set_non_ima_cmp_par4
    cmp_ent_set_non_ima_spill5 cmp_ent_set_non_ima_cmp_par5 cmp_ent_set_non_ima_spill6
    cmp_ent_set_non_ima_cmp_par6
set_field-null version_id v = refl
set_field-null _ v = refl

within_header : (f : EntityField) → start f + count f ≤ 64
unfolding start count
within_header version_id = omega arith
within_header _ = omega arith

-- In an entity of at least 64 bytes, each setter of a member other than the data type stores a
-- value that fits the member, the getter gives it back, and every member in other bytes stays.
pub get_field-set_field :
    (f : EntityField) (ent : List ℕ) (v : ℕ)
    → 64 ≤ length ent
    → v < 2 ^ (8 * count f)
    → (ent' : List ℕ) × (set_field f (some ent) v ≡ (success, some ent'))
      × (get_field f (some ent') ≡ v)
      × ((g : EntityField)
          → (start g + count g ≤ start f) ⊎ (start f + count f ≤ start g)
          → get_field g (some ent') ≡ get_field g (some ent))
      × (length ent' ≡ length ent)
get_field-set_field f ent v l h = (
  write_be ent (start f) (count f) v,
  set_field-write_be f ent v h,
  get_field-read_be f _
      ∙ read_be-write_be ent (start f) (count f) v (omega (arith, within_header f)) h,
  λ g away.
      get_field-read_be g _
      ∙ read_be-write_be_ne ent (start f) (count f) v (start g) (count g) away
      ∙ sym (get_field-read_be g ent),
  length-write_be ent (start f) (count f) v,
)
