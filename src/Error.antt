-- ===== src/Error.antt =====
-- lib/common/cmp_error.c, cmp_error.h and cmp_error_list.h: a `uint32_t` result is a size, or an error
-- code: the negated error number, in the topmost 127 values.
use cmp_tool.Base.{ℕ, Bool, ltb, sub32, if◌then◌else◌}

-- `enum cmp_error`: the numbers.
pub data CmpError : Type 0 where
  no_error generic small_buffer data_value_too_large : CmpError
  par_generic par_specific par_buffers par_null par_no_model : CmpError
  chunk_null chunk_too_large chunk_too_small chunk_size_inconsistent : CmpError
  chunk_subservice_inconsistent : CmpError
  col_subservice_unsupported col_size_inconsistent : CmpError
  entity_null entity_too_small entity_header entity_timestamp : CmpError
  int_decoder int_data_type_unsupported int_cmp_col_too_large max_code : CmpError

unfoldable pub error_number : CmpError → ℕ
error_number no_error = 0
error_number generic = 1
error_number small_buffer = 2
error_number data_value_too_large = 3
error_number par_generic = 20
error_number par_specific = 21
error_number par_buffers = 22
error_number par_null = 24
error_number par_no_model = 25
error_number chunk_null = 40
error_number chunk_too_large = 41
error_number chunk_too_small = 42
error_number chunk_size_inconsistent = 43
error_number chunk_subservice_inconsistent = 44
error_number col_subservice_unsupported = 60
error_number col_size_inconsistent = 61
error_number entity_null = 80
error_number entity_too_small = 81
error_number entity_header = 82
error_number entity_timestamp = 83
error_number int_decoder = 100
error_number int_data_type_unsupported = 101
error_number int_cmp_col_too_large = 102
error_number max_code = 127

-- `CMP_ERROR(name)`: `(uint32_t)-CMP_ERROR_name`.
unfoldable pub cmp_error : CmpError → ℕ
unfolding error_number
cmp_error e = sub32 0 (error_number e)

unfoldable pub cmp_is_error : ℕ → Bool
unfolding cmp_error
cmp_is_error code = ltb (cmp_error max_code) code

-- `cmp_get_error_code`, as a number of the enumeration.
unfoldable pub cmp_get_error_code : ℕ → ℕ
unfolding cmp_is_error
cmp_get_error_code code = if cmp_is_error code then sub32 0 code else 0
