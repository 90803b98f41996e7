-- ===== src/Entity.antt =====
-- The header of compression entities (lib/common/cmp_entity.c and cmp_entity.h).
pub mod Setters
pub mod Getters
pub mod Specific
pub mod Fields
pub mod FieldLaws
pub mod Size
pub mod DataTypeLaws
pub mod CreateLaws
