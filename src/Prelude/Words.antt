-- ===== src/Prelude/Words.antt =====
-- Unsigned machine integers: a value is a number, and each operation wraps around.
use Prim.Native.Nat.{ℕ, ◌+◌, ◌-◌, ◌*◌, ◌%◌, ◌^◌, ◌≤◌, ◌<◌}
use mathlib.Core.Path.{◌≡◌}
use native.Mathlib.Omega.{arith}

abbrev pub u32_mod : ℕ
u32_mod = 2 ^ 32

abbrev pub u64_mod : ℕ
u64_mod = 2 ^ 64

-- uint32 a + b, a - b and a * b.
unfoldable pub add32 : ℕ → ℕ → ℕ
add32 a b = (a + b) % u32_mod

unfoldable pub sub32 : ℕ → ℕ → ℕ
sub32 a b = (a + u32_mod - b) % u32_mod

unfoldable pub mul32 : ℕ → ℕ → ℕ
mul32 a b = (a * b) % u32_mod

unfoldable pub add64 : ℕ → ℕ → ℕ
add64 a b = (a + b) % u64_mod

unfoldable pub sub64 : ℕ → ℕ → ℕ
sub64 a b = (a + u64_mod - b) % u64_mod

pub add32_lem : (a b : ℕ) → a + b < u32_mod → add32 a b ≡ a + b
unfolding add32
add32_lem a b h = omega arith

pub sub32_lem : (a b : ℕ) → b ≤ a → a < u32_mod → sub32 a b ≡ a - b
unfolding sub32
sub32_lem a b h k = omega arith

pub add64_lem : (a b : ℕ) → a + b < u64_mod → add64 a b ≡ a + b
unfolding add64
add64_lem a b h = omega arith

pub sub64_lem : (a b : ℕ) → b ≤ a → a < u64_mod → sub64 a b ≡ a - b
unfolding sub64
sub64_lem a b h k = omega arith
