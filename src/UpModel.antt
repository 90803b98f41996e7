-- ===== src/UpModel.antt =====
-- lib/common/cmp_cal_up_model.h: lossy rounding and the model update.
use cmp_tool.Base.{ℕ, ◌+◌, ◌-◌, ◌*◌, ◌/◌, ◌%◌, ◌^◌, shr, shl32, u16, u32, u64, ltb, if◌then◌else◌}

abbrev pub max_model_value : ℕ
max_model_value = 16

-- `round_fwd(value, round)` and `round_inv(value, round)`.
unfoldable pub round_fwd : ℕ → ℕ → ℕ
round_fwd value round = shr (u32 value) round

unfoldable pub round_inv : ℕ → ℕ → ℕ
round_inv value round = shl32 (u32 value) round

-- `cmp_up_model16`: products and sums in `uint32_t`; `model_value` is at most `max_model_value`.
unfoldable pub cmp_up_model16 : ℕ → ℕ → ℕ → ℕ → ℕ
unfolding round_fwd round_inv
cmp_up_model16 input model model_value round =
    let weighted_data =
      u32 (round_inv (round_fwd input round) round * (max_model_value - model_value)) in
    let weighted_model = u32 (model * model_value) in
    u16 (u32 (weighted_model + weighted_data) / max_model_value)

-- `cmp_up_model32`: the same in `uint64_t`.
unfoldable pub cmp_up_model32 : ℕ → ℕ → ℕ → ℕ → ℕ
unfolding round_fwd round_inv
cmp_up_model32 input model model_value round =
    let weighted_data =
      u64 (round_inv (round_fwd input round) round * (max_model_value - model_value)) in
    let weighted_model = u64 (model * model_value) in
    u32 (u64 (weighted_model + weighted_data) / max_model_value)

-- `cmp_up_model(data, …)` for data of `size` bytes: 1 and 2 use the 16-bit routine.
-- The result is converted to the type of the data.
unfoldable pub cmp_up_model : ℕ → ℕ → ℕ → ℕ → ℕ → ℕ
unfolding cmp_up_model16 cmp_up_model32
cmp_up_model size input model model_value round =
    if ltb size 3
    then (cmp_up_model16 input model model_value round) % 2 ^ (8 * size)
    else cmp_up_model32 input model model_value round
