-- ===== src/Base/Bits.antt =====
-- The lowest bit after setting it.
use Prim.Native.Nat.{ℕ, zero, suc, ◌%◌, bit_or, bit_or-bitwise}
use mathlib.Core.Path.{◌≡◌}
use native.Mathlib.Omega.{arith}

-- `x | 1` is odd.
pub bit_or-one_odd : (a : ℕ) → bit_or a 1 % 2 ≡ 1
bit_or-one_odd zero = omega (arith, bit_or-bitwise 0 1)
bit_or-one_odd (suc a) = omega (arith, bit_or-bitwise (suc a) 1)
