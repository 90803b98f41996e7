-- ===== src/Support.antt =====
-- lib/common/cmp_support.c and cmp_support.h: logarithm, modes, data types, limits of the
-- compression parameters. Debug output is left out; SKIP_CMP_PAR_CHECK is not defined.
pub mod Numbers
pub mod Types
pub mod Log
pub mod Spill
pub mod Check
