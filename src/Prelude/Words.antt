-- ===== src/Prelude/Words.antt =====
-- `uint32` arithmetic, the page size and the rounding macros of inc/types.h.
pub mod Bits
use Prim.Native.Nat.{zero, suc, max, ◌*◌, ◌/◌, ℕ, ◌+◌, ◌-◌, ◌%◌, ◌^◌, ◌≤◌, ◌<◌}
use mathlib.Core.Path.{◌≡◌}
use native.Mathlib.Omega.{arith}

abbrev pub u32_mod : ℕ
u32_mod = 2 ^ 32

-- `a + b` and `a - b` of two `uint32`: `-` on ℕ stops at 0, so the modulus is added first.
abbrev pub add32 : ℕ → ℕ → ℕ
add32 a b = (a + b) % u32_mod

abbrev pub sub32 : ℕ → ℕ → ℕ
sub32 a b = (a + u32_mod - b) % u32_mod

abbrev pub page_size : ℕ
page_size = 4096

unfoldable pub rounddown : ℕ → ℕ
rounddown a = a - a % page_size

unfoldable pub roundup : ℕ → ℕ
unfolding rounddown
roundup a = rounddown (sub32 (add32 a page_size) 1)

-- `add32` and `sub32` where nothing wraps
pub add32-eq : (a b : ℕ) → a + b < u32_mod → add32 a b ≡ a + b
add32-eq a b h = omega arith

sub32-eq : (a b : ℕ) → b ≤ a → a < u32_mod → sub32 a b ≡ a - b
sub32-eq a b h k = omega arith

-- `a | b` and `a & ~b`, on the lowest `n` bits
pub or_loop : ℕ → ℕ → ℕ → ℕ
or_loop zero a b = 0
or_loop (suc n) a b = max (a % 2) (b % 2) + 2 * or_loop n (a / 2) (b / 2)

pub and_not_loop : ℕ → ℕ → ℕ → ℕ
and_not_loop zero a b = 0
and_not_loop (suc n) a b = (a % 2 - b % 2) + 2 * and_not_loop n (a / 2) (b / 2)

pub bit_or : ℕ → ℕ → ℕ
bit_or a b = or_loop 32 a b

pub and_not : ℕ → ℕ → ℕ
and_not a b = and_not_loop 32 a b
