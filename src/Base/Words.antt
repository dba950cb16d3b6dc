-- ===== src/Base/Words.antt =====
-- Machine words on LP64 Linux, where uint_fast16_t, uint_fast32_t and uint_fast64_t of glibc are
-- all 64 bits wide: arithmetic modulo 2 ^ 64, written out.
use Prim.Native.Nat.{ℕ, ◌+◌, ◌-◌, ◌*◌, ◌%◌, ◌^◌, ◌≤◌, ◌<◌}
use mathlib.Core.Path.{◌≡◌}
use native.Mathlib.Omega.{arith}

abbrev pub u64_mod : ℕ
u64_mod = 2 ^ 64

abbrev pub u64 : ℕ → ℕ
u64 a = a % 2 ^ 64

abbrev pub add64 : ℕ → ℕ → ℕ
add64 a b = (a + b) % 2 ^ 64

-- `-` on ℕ stops at 0, so the modulus is added first.
abbrev pub sub64 : ℕ → ℕ → ℕ
sub64 a b = (a + 2 ^ 64 - b) % 2 ^ 64

abbrev pub mul64 : ℕ → ℕ → ℕ
mul64 a b = (a * b) % 2 ^ 64

pub sub64-eq-sub : (a b : ℕ) → a < 2 ^ 64 → b ≤ a → sub64 a b ≡ a - b
sub64-eq-sub a b h k = omega arith

pub zero_plus : (n : ℕ) → 0 + n ≡ n
zero_plus n = omega arith

pub plus_zero : (n : ℕ) → n ≡ n + 0
plus_zero n = omega arith
