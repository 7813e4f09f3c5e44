-- ===== src/Base/Bits.antt =====
-- Single bits of an unsigned word: `(x & (1 << k)) != 0`, `x |= 1 << k` and `x &= ~(1 << k)`, and
-- uint32_t arithmetic, which wraps.
use Prim.Native.Nat.{ℕ, ◌+◌, ◌-◌, ◌*◌, ◌/◌, ◌%◌, ◌^◌}
use mathlib.Core.Bool.{Bool}
use openrsp.Base.Tests.{◌==◌, if◌then◌else◌}

unfoldable pub has_bit : ℕ → ℕ → Bool
has_bit k x = x / 2 ^ k % 2 == 1

unfoldable pub set_bit : ℕ → ℕ → ℕ
unfolding has_bit
set_bit k x = if has_bit k x then x else x + 2 ^ k

unfoldable pub clear_bit : ℕ → ℕ → ℕ
unfolding has_bit
clear_bit k x = if has_bit k x then x - 2 ^ k else x

abbrev pub add_u32 : ℕ → ℕ → ℕ
add_u32 a b = (a + b) % 2 ^ 32

abbrev pub sub_u32 : ℕ → ℕ → ℕ
sub_u32 a b = (a + 2 ^ 32 - b) % 2 ^ 32

abbrev pub mul_u32 : ℕ → ℕ → ℕ
mul_u32 a b = a * b % 2 ^ 32
