-- ===== src/Base/Words.antt =====
-- Unsigned machine integers as natural numbers: Rust's checked and saturating operations, the
-- bit tests that the sources write with `&` and `>>`, and byte order on a little-endian target.
use Prim.Native.Nat.{ℕ, ◌+◌, ◌*◌, ◌/◌, ◌%◌, ◌^◌, ◌<◌, min}
use mathlib.Core.Path.{◌≡◌}
use mathlib.Core.Option.{Option, none, some}
use mathlib.Core.Bool.{Bool}
use native.Mathlib.Omega.{arith}
use zima_scope.Base.Tests.{ltb, ◌==◌, if◌then◌else◌}

abbrev pub u64_mod : ℕ
u64_mod = 18446744073709551616

abbrev pub u64_max : ℕ
u64_max = 18446744073709551615

-- `usize::checked_add` (64-bit targets).
abbrev pub checked_add : ℕ → ℕ → Option ℕ
checked_add a b = if ltb (a + b) u64_mod then some (a + b) else none

-- `u64::saturating_add`.
abbrev pub saturating_add : ℕ → ℕ → ℕ
saturating_add a b = min (a + b) u64_max

-- `x >> k`.
abbrev pub shr : ℕ → ℕ → ℕ
shr x k = x / 2 ^ k

-- `x & (2^k - 1)`.
abbrev pub low_bits : ℕ → ℕ → ℕ
low_bits x k = x % 2 ^ k

-- `x & (1 << k) != 0`.
abbrev pub has_bit : ℕ → ℕ → Bool
has_bit x k = x / 2 ^ k % 2 == 1

-- `u16::to_be` and `u16::from_be` swap the two bytes.
abbrev pub swap16 : ℕ → ℕ
swap16 x = x % 256 * 256 + x / 256

pub swap16_self : (x : ℕ) → x < 65536 → swap16 (swap16 x) ≡ x
swap16_self x h = omega arith

-- `u16::from_be_bytes` and `u32::from_be_bytes`.
abbrev pub be16 : ℕ → ℕ → ℕ
be16 a b = a * 256 + b

abbrev pub be32 : ℕ → ℕ → ℕ → ℕ → ℕ
be32 a b c d = ((a * 256 + b) * 256 + c) * 256 + d
