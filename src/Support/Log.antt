-- ===== src/Support/Log.antt =====
-- `ilog_2`, `is_a_pow_of_2` and `cmp_bit_to_byte`.
pub mod Laws
use cmp_tool.Base.{ℕ, zero, suc, ◌+◌, ◌-◌, ◌/◌, ◌^◌, Bool, bit_and, ◌==◌, if◌then◌else◌, sub32, u32}
use cmp_tool.Base.Bits.{bit}

-- `__builtin_clz` on `w`-bit words: the number of leading zeros.
unfoldable pub clz : ℕ → ℕ → ℕ
clz zero x = 0
clz (suc w) x = if bit x w then 0 else suc (clz w x)

-- -1U for 0.
unfoldable pub ilog_2 : ℕ → ℕ
ilog_2 x = if x == 0 then sub32 0 1 else 31 - clz 32 x

unfoldable pub is_a_pow_of_2 : ℕ → Bool
is_a_pow_of_2 v = bit_and v (sub32 v 1) == 0

unfoldable pub cmp_bit_to_byte : ℕ → ℕ
cmp_bit_to_byte cmp_size_bit = u32 (cmp_size_bit + 7) / 8
