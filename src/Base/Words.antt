-- ===== src/Base/Words.antt =====
-- `uint32_t` and `size_t` arithmetic of the 32-bit targets: values are numbers below 2 ^ 32, and
-- each operation writes out its wrap-around.
use Prim.Native.Nat.{ℕ, ◌+◌, ◌-◌, ◌%◌, ◌^◌}
use mathlib.Core.Bool.{Bool}
use mm_halow_driver.Base.Tests.{ltb}

abbrev pub u32_mod : ℕ
u32_mod = 2 ^ 32

-- the largest `uint32_t`, which callers pass for "wait forever"
abbrev pub u32_max : ℕ
u32_max = 2 ^ 32 - 1

abbrev pub u32 : ℕ → ℕ
u32 n = n % 2 ^ 32

abbrev pub add32 : ℕ → ℕ → ℕ
add32 a b = (a + b) % 2 ^ 32

abbrev pub sub32 : ℕ → ℕ → ℕ
sub32 a b = (a + 2 ^ 32 - b) % 2 ^ 32

-- `(int32_t)(a - b) >= 0`: the time `a` is at or past the time `b`.
abbrev pub at_or_past : ℕ → ℕ → Bool
at_or_past a b = ltb (sub32 a b) (2 ^ 31)
