-- ===== src/Entity/CreateLaws.antt =====
-- The entities that cmp_ent_create makes, and the sizes read from them (lib/common/cmp_entity.c).
use cmp_tool.Base.{
  ℕ, ◌+◌, ◌≤◌, ◌<◌, ◌≡◌, ◌⊎◌, inl, refl, sym, ap, ap₂, ◌∙◌, arith, List, Option, none, some, length,
  Bool, true, false, le→ltb, ◌==◌, drop, replicate, length-append, length-replicate, length-drop,
  drop-append, max, u32,
}
use cmp_tool.Bytes.{
  success, Updated, write_be, length-write_be, read_be-write_be, read_be-write_be_ne, drop-write_be,
}
use cmp_tool.Support.Types.{CmpDataType, unknown, imagette, above_chunk, cmp_data_type_is_invalid}
use cmp_tool.Entity.Setters.{cmp_ent_set_size, cmp_ent_set_data_type}
use cmp_tool.Entity.Getters.{cmp_ent_get_size, cmp_ent_get_data_type, cmp_ent_get_data_type_raw_bit}
use cmp_tool.Entity.DataTypeLaws.{
  flagged, flagged-lt, get_data_type-flagged, get_data_type-set_data_type,
}
use cmp_tool.Entity.Size.{
  cmp_ent_cal_hdr_size, cmp_ent_get_hdr_size, cmp_ent_get_cmp_data_size, cmp_ent_create,
  cleared_header,
}

pub hdr_size-le : (t : CmpDataType) (raw : Bool) → cmp_ent_cal_hdr_size t raw ≤ 64
unfolding cmp_ent_cal_hdr_size
hdr_size-le t true = ground arith
hdr_size-le imagette false = omega arith
hdr_size-le _ false = omega arith

pub hdr_size-valid :
    (t : CmpDataType) (raw : Bool)
    → 0 < cmp_ent_cal_hdr_size t raw
    → (cmp_data_type_is_invalid t ≡ false) × (32 ≤ cmp_ent_cal_hdr_size t raw)
unfolding cmp_ent_cal_hdr_size
hdr_size-valid t true h = ground arith
hdr_size-valid unknown false h = absurd (omega arith)
hdr_size-valid (above_chunk n) false h = absurd (omega arith)
hdr_size-valid _ false h = (refl, omega arith)

-- For a data type without a header, or when header and data together are larger than an entity
-- may be, cmp_ent_create returns 0 and leaves the buffer, or NULL.
pub cmp_ent_create_refused :
    (ent : Option (List ℕ)) (t : CmpDataType) (raw : Bool) (size : ℕ)
    → (cmp_ent_cal_hdr_size t raw ≡ 0) ⊎ (0xffffff < cmp_ent_cal_hdr_size t raw + size)
    → cmp_ent_create ent t raw size ≡ (0, ent)
unfolding cmp_ent_create
cmp_ent_create_refused ent t raw size h = ground (arith, hdr_size-le t raw)

-- With no entity the size alone is returned.
pub cmp_ent_create-null :
    (ent : Option (List ℕ)) (t : CmpDataType) (raw : Bool) (size : ℕ)
    → (cmp_ent_create none t raw size).0 ≡ (cmp_ent_create ent t raw size).0
unfolding cmp_ent_create
cmp_ent_create-null ent t raw size = ground arith

-- The bytes of a new entity.
abbrev created : List ℕ → CmpDataType → Bool → ℕ → List ℕ
created ent t raw size =
    let hdr : ℕ = cmp_ent_cal_hdr_size t raw in
    write_be (write_be (cleared_header hdr ent) 4 3 (hdr + size)) 22 2 (flagged t raw)

module _ (ent : List ℕ) (t : CmpDataType) (raw : Bool) (size : ℕ) (long : 64 ≤ length ent)
    (known : 0 < cmp_ent_cal_hdr_size t raw)
    (fits : cmp_ent_cal_hdr_size t raw + size ≤ 0xffffff) where
  length-cleared : length (cleared_header (cmp_ent_cal_hdr_size t raw) ent) ≡ length ent
  unfolding cleared_header
  length-cleared =
      length-append (replicate (cmp_ent_cal_hdr_size t raw) 0)
        (drop (cmp_ent_cal_hdr_size t raw) ent)
      ∙ omega (
        arith,
        length-replicate {A = ℕ} (cmp_ent_cal_hdr_size t raw) 0,
        length-drop (cmp_ent_cal_hdr_size t raw) ent,
        hdr_size-le t raw,
      )

  created-eq :
      cmp_ent_create (some ent) t raw size
      ≡ (max 64 (cmp_ent_cal_hdr_size t raw + size), some (created ent t raw size))
  unfolding cmp_ent_create cmp_ent_set_size
  created-eq =
      rw
        (
          not_zero (cmp_ent_cal_hdr_size t raw) known,
          le→ltb 0xffffff size (omega arith),
          wrap,
          le→ltb 0xffffff (cmp_ent_cal_hdr_size t raw + size) fits,
        )
        (ap₂ (λ (a : ℕ) (b : Option (List ℕ)). (a, b)) (ground arith)
          (ap (λ (u : Updated). u.1) typed))
    where
      not_zero : (n : ℕ) → 0 < n → (n == 0) ≡ false
      not_zero n h = ground arith

      wrap : u32 (cmp_ent_cal_hdr_size t raw + size) ≡ cmp_ent_cal_hdr_size t raw + size
      wrap = omega arith

      sized : List ℕ
      sized =
          write_be (cleared_header (cmp_ent_cal_hdr_size t raw) ent) 4 3
            (cmp_ent_cal_hdr_size t raw + size)

      typed : cmp_ent_set_data_type (some sized) t raw ≡ (success, some (created ent t raw size))
      typed =
          let (e, set, is, _, _) =
            get_data_type-set_data_type t raw sized (hdr_size-valid t raw known).0 (
              omega (
                arith,
                length-write_be (cleared_header (cmp_ent_cal_hdr_size t raw) ent) 4 3
                    (cmp_ent_cal_hdr_size t raw + size),
                length-cleared,
              )) in
          set ∙ ap (λ (l : List ℕ). (success, some l)) is

  -- For a buffer of at least 64 bytes, a data type that has a header, and data that fit an entity
  -- with it, cmp_ent_create returns the size of the entity, or 64 when that is more, and the
  -- getters give this size, the data type, the flag of raw data and the size of the data back;
  -- the bytes behind the header stay.
  pub cmp_ent_create_lem :
      (ent' : List ℕ) × (cmp_ent_create (some ent) t raw size
        ≡ (max 64 (cmp_ent_cal_hdr_size t raw + size), some ent'))
      × (cmp_ent_get_size (some ent') ≡ cmp_ent_cal_hdr_size t raw + size)
      × (cmp_ent_get_data_type (some ent') ≡ t)
      × (cmp_ent_get_data_type_raw_bit (some ent') ≡ raw)
      × (cmp_ent_get_cmp_data_size (some ent') ≡ size)
      × (drop (cmp_ent_cal_hdr_size t raw) ent' ≡ drop (cmp_ent_cal_hdr_size t raw) ent)
      × (length ent' ≡ length ent)
  cmp_ent_create_lem = (
    created ent t raw size,
    created-eq,
    size_read,
    got.0,
    got.1,
    data_size,
    kept,
    length-write_be sized 22 2 (flagged t raw) ∙ length_sized,
  )
    where
      hdr : ℕ
      hdr = cmp_ent_cal_hdr_size t raw

      valid : (cmp_data_type_is_invalid t ≡ false) × (32 ≤ hdr)
      valid = hdr_size-valid t raw known

      sized : List ℕ
      sized = write_be (cleared_header hdr ent) 4 3 (hdr + size)

      length_sized : length sized ≡ length ent
      length_sized = length-write_be (cleared_header hdr ent) 4 3 (hdr + size) ∙ length-cleared

      got :
          (cmp_ent_get_data_type (some (created ent t raw size)) ≡ t)
          × (cmp_ent_get_data_type_raw_bit (some (created ent t raw size)) ≡ raw)
      got = get_data_type-flagged t raw (created ent t raw size) valid.0 (
          read_be-write_be sized 22 2 (flagged t raw) (omega (arith, length_sized))
            (flagged-lt t raw valid.0))

      size_read : cmp_ent_get_size (some (created ent t raw size)) ≡ hdr + size
      size_read =
          unfold cmp_ent_get_size in
          read_be-write_be_ne sized 22 2 (flagged t raw) 4 3 (inl (omega arith))
          ∙ read_be-write_be (cleared_header hdr ent) 4 3 (hdr + size)
              (omega (arith, length-cleared)) (omega arith)

      hdr_read : cmp_ent_get_hdr_size (some (created ent t raw size)) ≡ hdr
      hdr_read = unfold cmp_ent_get_hdr_size in ap₂ cmp_ent_cal_hdr_size got.0 got.1

      data_size : cmp_ent_get_cmp_data_size (some (created ent t raw size)) ≡ size
      data_size =
          unfold cmp_ent_get_cmp_data_size in
          rw (size_read, hdr_read, le→ltb (hdr + size) hdr (omega arith)) (omega arith)

      kept : drop hdr (created ent t raw size) ≡ drop hdr ent
      kept =
          drop-write_be hdr sized 22 2 (flagged t raw) (omega (arith, valid.1))
          ∙ drop-write_be hdr (cleared_header hdr ent) 4 3 (hdr + size) (omega (arith, valid.1))
          ∙ (unfold cleared_header in
              drop-append hdr (replicate hdr 0) (drop hdr ent)
                (sym (length-replicate {A = ℕ} hdr 0)))
