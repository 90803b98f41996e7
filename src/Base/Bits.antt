-- ===== src/Base/Bits.antt =====
-- The binary digits of a number: the digit at a place, lists of digits from the highest down,
-- and the laws of the machine operations for single digits.
pub mod Step
pub mod Digit
pub mod Digits
pub mod Fields
use Prim.Native.Nat.{ℕ, zero, suc, ◌/◌, ◌%◌}
use mathlib.Core.Bool.{Bool, true, false}
use mathlib.Core.List.{List, [], ◌∷◌}
use cmp_tool.Base.Tests.{◌==◌}

-- The digit of weight 2 ^ k.
unfoldable pub bit : ℕ → ℕ → Bool
bit v zero = v % 2 == 1
bit v (suc k) = bit (v / 2) k

-- The `n` low digits, the highest first: the order of a big-endian bitstream.
unfoldable pub bits : ℕ → ℕ → List Bool
bits zero v = []
bits (suc n) v = bit v n ∷ bits n v
