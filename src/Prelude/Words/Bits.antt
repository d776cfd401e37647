-- ===== src/Prelude/Words/Bits.antt =====
-- The masks of the page tables: setting no bit, and clearing one.
use fos_project.Prelude.Words.{u32_mod, or_loop, and_not_loop, bit_or, and_not}
use fos_project.Prelude.{ℕ, zero, suc, ◌+◌, ◌-◌, ◌*◌, ◌/◌, ◌%◌, ◌<◌, ◌≡◌, refl, arith}

-- 2 ^ n, by recursion
power : ℕ → ℕ
power zero = 1
power (suc n) = 2 * power n

or_loop-zero : (n a : ℕ) → a < power n → or_loop n a 0 ≡ a
unfolding or_loop power
or_loop-zero zero a h = omega arith
or_loop-zero (suc n) a h = omega (arith, or_loop-zero n (a / 2) (omega arith))

and_not_loop-zero : (n a : ℕ) → a < power n → and_not_loop n a 0 ≡ a
unfolding and_not_loop power
and_not_loop-zero zero a h = omega arith
and_not_loop-zero (suc n) a h = omega (arith, and_not_loop-zero n (a / 2) (omega arith))

pub bit_or-zero : (e : ℕ) → e < u32_mod → bit_or e 0 ≡ e
unfolding bit_or power
bit_or-zero e h = or_loop-zero 32 e h

-- One step of `& ~` on an even mask.
and_not-even :
    (n a b : ℕ) → b % 2 ≡ 0 → and_not_loop (suc n) a b ≡ a % 2 + 2 * and_not_loop n (a / 2) (b / 2)
unfolding and_not_loop
and_not-even n a b h = omega (arith, h)

and_not-odd : (n a : ℕ) → a < 2 * power n → and_not_loop (suc n) a 1 ≡ a - a % 2
unfolding and_not_loop
and_not-odd n a h = omega (arith, and_not_loop-zero n (a / 2) (omega arith))

-- `e & ~PERM_USED`
pub and_not-used : (e : ℕ) → e < u32_mod → and_not e 32 ≡ e - e / 32 % 2 * 32
unfolding and_not power
and_not-used e h = omega (
  arith,
  and_not-even 31 e 32 refl,
  and_not-even 30 (e / 2) 16 refl,
  and_not-even 29 (e / 2 / 2) 8 refl,
  and_not-even 28 (e / 2 / 2 / 2) 4 refl,
  and_not-even 27 (e / 2 / 2 / 2 / 2) 2 refl,
  and_not-odd 26 (e / 2 / 2 / 2 / 2 / 2) (omega arith),
)

-- `e & ~PERM_MODIFIED`
pub and_not-modified : (e : ℕ) → e < u32_mod → and_not e 64 ≡ e - e / 64 % 2 * 64
unfolding and_not power
and_not-modified e h = omega (
  arith,
  and_not-even 31 e 64 refl,
  and_not-even 30 (e / 2) 32 refl,
  and_not-even 29 (e / 2 / 2) 16 refl,
  and_not-even 28 (e / 2 / 2 / 2) 8 refl,
  and_not-even 27 (e / 2 / 2 / 2 / 2) 4 refl,
  and_not-even 26 (e / 2 / 2 / 2 / 2 / 2) 2 refl,
  and_not-odd 25 (e / 2 / 2 / 2 / 2 / 2 / 2) (omega arith),
)
