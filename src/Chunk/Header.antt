-- ===== src/Chunk/Header.antt =====
-- The header of a chunk's compression entity: cmp_ent_build_chunk_header and
-- compress_chunk_set_model_id_and_counter (cmp_icu.c).
use cmp_tool.Base.{
  ℕ, List, [], ◌∷◌, Option, none, some, Bool, true, false, if◌then◌else◌, not, ◌||◌, ltb,
}
use cmp_tool.Error.{
  cmp_error, cmp_is_error, entity_header, entity_timestamp, entity_null, entity_too_small,
}
use cmp_tool.Support.Types.{raw_mode_is_used, chunk}
use cmp_tool.Support.Check.{CmpCfg}
use cmp_tool.Bytes.{Status, success, Updated}
use cmp_tool.Entity.Setters.{
  cmp_ent_set_version_id, cmp_ent_set_size, cmp_ent_set_original_size, cmp_ent_set_data_type,
  cmp_ent_set_cmp_mode, cmp_ent_set_model_value, cmp_ent_set_model_id, cmp_ent_set_model_counter,
  cmp_ent_set_reserved, cmp_ent_set_lossy_cmp_par, cmp_ent_set_start_timestamp,
  cmp_ent_set_end_timestamp,
}
use cmp_tool.Entity.Specific.{
  cmp_ent_set_non_ima_spill1, cmp_ent_set_non_ima_cmp_par1, cmp_ent_set_non_ima_spill2,
  cmp_ent_set_non_ima_cmp_par2, cmp_ent_set_non_ima_spill3, cmp_ent_set_non_ima_cmp_par3,
  cmp_ent_set_non_ima_spill4, cmp_ent_set_non_ima_cmp_par4, cmp_ent_set_non_ima_spill5,
  cmp_ent_set_non_ima_cmp_par5, cmp_ent_set_non_ima_spill6, cmp_ent_set_non_ima_cmp_par6,
}

-- `err |= ...`: whether a setter has failed, and the entity.
abbrev pub Setting : Type 0
Setting = Bool × Option (List ℕ)

abbrev pub is_success : Status → Bool
is_success success = true
is_success _ = false

-- The setters one after the other; an error does not stop them.
unfoldable pub set_all : List (Option (List ℕ) → Updated) → Setting → Setting
set_all [] (err, ent) = (err, ent)
set_all (set_member ∷ rest) (err, ent) =
    set_all rest (err || not (is_success (set_member ent).0), (set_member ent).1)

-- The two timestamps of the header, of the start and of the end.
unfoldable pub set_timestamps : ℕ → ℕ → ℕ → Setting → ℕ × Option (List ℕ)
set_timestamps size start_timestamp end_timestamp (err, ent) =
    let started = cmp_ent_set_start_timestamp ent start_timestamp in
    let ended = cmp_ent_set_end_timestamp started.1 end_timestamp in
    if err
    then (cmp_error entity_header, ent)
    else if not (is_success started.0)
    then (cmp_error entity_timestamp, started.1)
    else if not (is_success ended.0)
    then (cmp_error entity_timestamp, ended.1)
    else (size, ended.1)

-- The members of every entity, and those of a compressed one, in the order of the calls.
abbrev pub generic_setters : ℕ → ℕ → ℕ → CmpCfg → List (Option (List ℕ) → Updated)
generic_setters version_identifier chunk_size cmp_ent_size_byte cfg =
    (λ (ent : Option (List ℕ)). cmp_ent_set_version_id ent version_identifier)
    ∷ (λ (ent : Option (List ℕ)). cmp_ent_set_size ent cmp_ent_size_byte)
    ∷ (λ (ent : Option (List ℕ)). cmp_ent_set_original_size ent chunk_size)
    ∷ (λ (ent : Option (List ℕ)). cmp_ent_set_data_type ent chunk (raw_mode_is_used cfg.cmp_mode))
    ∷ (λ (ent : Option (List ℕ)). cmp_ent_set_cmp_mode ent cfg.cmp_mode)
    ∷ (λ (ent : Option (List ℕ)). cmp_ent_set_model_value ent cfg.model_value)
    ∷ (λ (ent : Option (List ℕ)). cmp_ent_set_model_id ent 0)
    ∷ (λ (ent : Option (List ℕ)). cmp_ent_set_model_counter ent 0)
    ∷ (λ (ent : Option (List ℕ)). cmp_ent_set_reserved ent 0)
    ∷ (λ (ent : Option (List ℕ)). cmp_ent_set_lossy_cmp_par ent cfg.round)
    ∷ []

abbrev pub specific_setters : CmpCfg → List (Option (List ℕ) → Updated)
specific_setters cfg =
    (λ (ent : Option (List ℕ)). cmp_ent_set_non_ima_spill1 ent cfg.spill_par_1)
    ∷ (λ (ent : Option (List ℕ)). cmp_ent_set_non_ima_cmp_par1 ent cfg.cmp_par_1)
    ∷ (λ (ent : Option (List ℕ)). cmp_ent_set_non_ima_spill2 ent cfg.spill_par_2)
    ∷ (λ (ent : Option (List ℕ)). cmp_ent_set_non_ima_cmp_par2 ent cfg.cmp_par_2)
    ∷ (λ (ent : Option (List ℕ)). cmp_ent_set_non_ima_spill3 ent cfg.spill_par_3)
    ∷ (λ (ent : Option (List ℕ)). cmp_ent_set_non_ima_cmp_par3 ent cfg.cmp_par_3)
    ∷ (λ (ent : Option (List ℕ)). cmp_ent_set_non_ima_spill4 ent cfg.spill_par_4)
    ∷ (λ (ent : Option (List ℕ)). cmp_ent_set_non_ima_cmp_par4 ent cfg.cmp_par_4)
    ∷ (λ (ent : Option (List ℕ)). cmp_ent_set_non_ima_spill5 ent cfg.spill_par_5)
    ∷ (λ (ent : Option (List ℕ)). cmp_ent_set_non_ima_cmp_par5 ent cfg.cmp_par_5)
    ∷ (λ (ent : Option (List ℕ)). cmp_ent_set_non_ima_spill6 ent cfg.spill_par_6)
    ∷ (λ (ent : Option (List ℕ)). cmp_ent_set_non_ima_cmp_par6 ent cfg.cmp_par_6)
    ∷ []

abbrev pub chunk_hdr_size : CmpCfg → ℕ
chunk_hdr_size cfg = if raw_mode_is_used cfg.cmp_mode then 32 else 64

-- The end timestamp is what get_timestamp() returns in the call.
unfoldable pub cmp_ent_build_chunk_header :
    Option (List ℕ) → ℕ → CmpCfg → ℕ → ℕ → ℕ → ℕ → ℕ × Option (List ℕ)
unfolding set_all set_timestamps
cmp_ent_build_chunk_header none chunk_size cfg version start_timestamp end_timestamp size =
    (chunk_hdr_size cfg, none)
cmp_ent_build_chunk_header (some ent) chunk_size cfg version start_timestamp end_timestamp size =
    let generic = set_all (generic_setters version chunk_size size cfg) (false, some ent) in
    let all_set =
      if raw_mode_is_used cfg.cmp_mode then generic else set_all (specific_setters cfg) generic in
    set_timestamps (chunk_hdr_size cfg) start_timestamp end_timestamp all_set

unfoldable pub compress_chunk_set_model_id_and_counter :
    Option (List ℕ) → ℕ → ℕ → ℕ → ℕ × Option (List ℕ)
compress_chunk_set_model_id_and_counter none dst_size model_id model_counter =
    (cmp_error entity_null, none)
compress_chunk_set_model_id_and_counter (some dst) dst_size model_id model_counter =
    if cmp_is_error dst_size
    then (dst_size, some dst)
    else if ltb dst_size 32
    then (cmp_error entity_too_small, some dst)
    else (
      dst_size,
      (cmp_ent_set_model_counter (cmp_ent_set_model_id (some dst) model_id).1 model_counter).1,
    )
